-- ===== src/AppPacket/Codec/Layout.antt =====
-- What `encode` of src/app/AppPacket.cpp writes, byte for byte.
use agent_team_test.Prelude.{
  ℕ, ◌+◌, ◌/◌, ◌%◌, ◌≤◌, ◌<◌, ◌≡◌, ap, ap₂, ◌∙◌, List, [], ◌∷◌, ◌++◌, some, arith, length, drop,
  u16,
}
use agent_team_test.Crc.{calculate_crc32}
use agent_team_test.AppPacket.Error.{AppPacketError}
use agent_team_test.AppPacket.State.{AppPacket}
use agent_team_test.AppPacket.Wire.{header_bytes, bytes32}
use agent_team_test.AppPacket.Valid.{IsValid}
use agent_team_test.AppPacket.Codec.{packet_header, encode}
use agent_team_test.AppPacket.Codec.Image.{payload, body, body_crc, length-body, encode-image}

-- The bytes of a word, the lowest first.
abbrev pub le16 : ℕ → List ℕ
le16 w = w % 256 ∷ w / 256 % 256 ∷ []

abbrev pub le32 : ℕ → List ℕ
le32 w = w % 256 ∷ w / 256 % 256 ∷ w / 65536 % 256 ∷ w / 16777216 % 256 ∷ []

-- What a packet is on the wire before its checksum: the identifier, the lifesign, the length of the
-- payload, and the payload.
abbrev pub layout : AppPacket → List ℕ
layout p = le32 p.unique_id ++ (le16 p.lifesign ++ (le16 p.data_length ++ payload p))

abbrev pub layout_crc : AppPacket → ℕ
layout_crc p = calculate_crc32 (layout p) (8 + p.data_length)

body-layout : {p : AppPacket} → IsValid p → body p ≡ layout p
unfolding header_bytes packet_header
body-layout {p} v = ap (λ n. le32 p.unique_id ++ (le16 p.lifesign ++ (le16 n ++ payload p))) same
  where
    same : p.data_length % 65536 ≡ p.data_length
    same = omega (arith, v.small)

body_crc-layout : {p : AppPacket} → IsValid p → body_crc p ≡ layout_crc p
body_crc-layout v = ap₂ calculate_crc32 (body-layout v) (length-body v)

-- `encode` of a valid packet into a buffer of at least `buffer_size` bytes: if it does not fit,
-- nothing is written, 0 is returned and the error is `BufferTooSmall`. Otherwise the buffer begins
-- with the identifier in 4 bytes, the lifesign in 2, the length of the payload in 2, each with the
-- lowest byte first, the payload, and the CRC-32 of all these in 4 bytes, and is otherwise as
-- before; the size of this is returned, the checksum is kept, and the lifesign goes up by one,
-- modulo 2^16.
pub encode_lem :
    {p : AppPacket} (buffer : List ℕ) (buffer_size : ℕ)
    → IsValid p
    → buffer_size ≤ length buffer
    → (buffer_size < 12 + p.data_length
        → encode p (some buffer) buffer_size ≡ record {
          packet = record p { error = AppPacketError.buffer_too_small };
          buffer = buffer;
          size = 0;
        })
      × (12 + p.data_length ≤ buffer_size
          → encode p (some buffer) buffer_size ≡ record {
            packet = record p {
              crc32 = layout_crc p;
              error = AppPacketError.none;
              lifesign = u16 (p.lifesign + 1);
            };
            buffer = (layout p ++ le32 (layout_crc p)) ++ drop (12 + p.data_length) buffer;
            size = 12 + p.data_length;
          })
unfolding bytes32
encode_lem {p} buffer n v room = (
  (encode-image buffer n v room).0,
  λ fits. (encode-image buffer n v room).1 fits ∙ (λ i. record {
    packet = record p {
      crc32 = body_crc-layout v i;
      error = AppPacketError.none;
      lifesign = u16 (p.lifesign + 1);
    };
    buffer = (body-layout v i ++ le32 (body_crc-layout v i)) ++ drop (12 + p.data_length) buffer;
    size = 12 + p.data_length;
  }),
)
