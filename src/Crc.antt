-- ===== src/Crc.antt =====
-- `AppPacket::calculateCrc32` of src/app/AppPacket.cpp, on a list of bytes.
pub mod Detect
pub mod Burst
mod Tests
use agent_team_test.Prelude.{
  ℕ, zero, suc, ◌/◌, List, [], ◌∷◌, bit_and, bit_xor, ◌==◌, if◌then◌else◌,
}
use agent_team_test.Prelude.{take}

-- `CRC32_POLYNOMIAL`
abbrev pub crc32_polynomial : ℕ
crc32_polynomial = 0xEDB88320

-- The body of the inner loop: one bit of the register leaves to the right.
unfoldable pub shift_bit : ℕ → ℕ
shift_bit crc = if bit_and crc 1 == 0 then crc / 2 else bit_xor (crc / 2) crc32_polynomial

-- The inner loop with `n` rounds left.
unfoldable pub shift_bits : ℕ → ℕ → ℕ
shift_bits zero crc = crc
shift_bits (suc n) crc = shift_bits n (shift_bit crc)

-- One round of the outer loop.
unfoldable pub update_byte : ℕ → ℕ → ℕ
update_byte crc byte = shift_bits 8 (bit_xor crc byte)

-- The outer loop over the bytes that are left.
unfoldable pub update_bytes : ℕ → List ℕ → ℕ
update_bytes crc [] = crc
update_bytes crc (byte ∷ bytes) = update_bytes (update_byte crc byte) bytes

unfoldable pub calculate_crc32 : List ℕ → ℕ → ℕ
unfolding update_bytes update_byte shift_bits shift_bit
calculate_crc32 bytes length = bit_xor (update_bytes 0xFFFFFFFF (take length bytes)) 0xFFFFFFFF
