-- ===== src/AppPacket/Wire.antt =====
-- The wire layout of `AppPacketHeader` and `AppPacketFooter`: `memmove` of a struct copies its
-- bytes, the lowest first (little-endian hosts); the structs have no padding.
pub mod Words
use agent_team_test.Prelude.{ℕ, ◌+◌, ◌*◌, ◌/◌, ◌%◌, List, [], ◌∷◌, ◌++◌, length, get_or, take, drop}

pub record AppPacketHeader : Type 0 where
  pub unique_id : ℕ
  pub lifesign : ℕ
  pub data_length : ℕ

abbrev pub header_size : ℕ
header_size = 8

abbrev pub footer_size : ℕ
footer_size = 4

unfoldable pub bytes16 : ℕ → List ℕ
bytes16 w = w % 256 ∷ w / 256 % 256 ∷ []

unfoldable pub bytes32 : ℕ → List ℕ
bytes32 w = w % 256 ∷ w / 256 % 256 ∷ w / 65536 % 256 ∷ w / 16777216 % 256 ∷ []

unfoldable pub header_bytes : AppPacketHeader → List ℕ
unfolding bytes16 bytes32
header_bytes h = bytes32 h.unique_id ++ (bytes16 h.lifesign ++ bytes16 h.data_length)

-- The words at an offset of a buffer.
unfoldable pub word16_at : ℕ → List ℕ → ℕ
word16_at i buffer = get_or buffer i 0 + get_or buffer (i + 1) 0 * 256

unfoldable pub word32_at : ℕ → List ℕ → ℕ
word32_at i buffer =
    get_or buffer i 0
    + get_or buffer (i + 1) 0 * 256
    + get_or buffer (i + 2) 0 * 65536
    + get_or buffer (i + 3) 0 * 16777216

unfoldable pub header_at : List ℕ → AppPacketHeader
unfolding word16_at word32_at
header_at buffer = record {
  unique_id = word32_at 0 buffer;
  lifesign = word16_at 4 buffer;
  data_length = word16_at 6 buffer;
}

-- `memmove(&buffer[offset], bytes, …)` inside the buffer.
unfoldable pub write_at : ℕ → List ℕ → List ℕ → List ℕ
write_at offset bytes buffer = take offset buffer ++ (bytes ++ drop (offset + length bytes) buffer)
