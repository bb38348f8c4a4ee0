-- ===== src/Crc/Tests.antt =====
-- Runs of the checksum, and the detection theorems at concrete inputs.
use agent_team_test.Prelude.{◌≡◌, refl, [], ◌∷◌}
use agent_team_test.Crc.{calculate_crc32}

-- The check value of CRC-32/ISO-HDLC: the checksum of the text "123456789".
check_value :
    calculate_crc32 (b'1' ∷ b'2' ∷ b'3' ∷ b'4' ∷ b'5' ∷ b'6' ∷ b'7' ∷ b'8' ∷ b'9' ∷ []) 9
    ≡ 0xCBF43926
unfolding calculate_crc32
check_value = refl
