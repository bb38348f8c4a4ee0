-- ===== src/AppPacket/Codec.antt =====
-- `AppPacket::encode` and `AppPacket::decode` of src/app/AppPacket.cpp. The output buffer and the
-- payload do not overlap.
pub mod Image
pub mod Layout
pub mod Decode
pub mod RoundTrip
pub mod Corruption
pub mod Burst
use agent_team_test.Prelude.{
  ℕ, ◌+◌, Bool, true, false, Option, none, some, List, take, drop, ltb, ◌==◌, if◌then◌else◌, u16,
  u64,
}
use agent_team_test.Crc.{calculate_crc32}
use agent_team_test.AppPacket.Error.{AppPacketError}
use agent_team_test.AppPacket.State.{AppPacket, max_data_size}
use agent_team_test.AppPacket.Wire.{
  AppPacketHeader, header_size, footer_size, bytes32, header_bytes, word32_at, header_at, write_at,
}
use agent_team_test.AppPacket.Monitor.{update_received_lifesign}

-- What a call of `encode` leaves: the packet, the buffer, and the number of bytes returned.
pub record Encoded : Type 0 where
  pub packet : AppPacket
  pub buffer : List ℕ
  pub size : ℕ

unfoldable pub total_size : AppPacket → ℕ
total_size p = u64 (header_size + p.data_length + footer_size)

unfoldable pub packet_header : AppPacket → AppPacketHeader
packet_header p = record {
  unique_id = p.unique_id;
  lifesign = p.lifesign;
  data_length = u16 p.data_length;
}

-- The payload is copied behind the header, if there is one; the new offset beside the buffer.
unfoldable pub copy_payload : Option (List ℕ) → ℕ → ℕ → List ℕ → List ℕ × ℕ
unfolding write_at
copy_payload none length offset buffer = (buffer, offset)
copy_payload (some bytes) length offset buffer =
    if ltb 0 length
    then (write_at offset (take length bytes) buffer, u64 (offset + length))
    else (buffer, offset)

-- The part of `encode` behind its guards.
unfoldable pub write_packet : AppPacket → List ℕ → Encoded
write_packet p buffer =
    let with_header : List ℕ = write_at 0 (header_bytes (packet_header p)) buffer in
    let (with_payload, offset) = copy_payload p.data_ptr p.data_length header_size with_header in
    let crc : ℕ = calculate_crc32 with_payload offset in
    record {
      packet = record p {
        crc32 = crc;
        error = AppPacketError.none;
        lifesign = u16 (p.lifesign + 1);
      };
      buffer = write_at offset (bytes32 crc) with_payload;
      size = u64 (offset + footer_size);
    }

unfoldable pub encode : AppPacket → Option (List ℕ) → ℕ → Encoded
encode p none buffer_size = record {
  packet = record p { error = AppPacketError.invalid_data_pointer };
  buffer = List.[];
  size = 0;
}
encode p (some buffer) buffer_size =
    if ltb buffer_size (total_size p)
    then record {
      packet = record p { error = AppPacketError.buffer_too_small };
      buffer = buffer;
      size = 0;
    }
    else write_packet p buffer

-- What `decode` stores before it looks at the checksum.
unfoldable pub store_fields : ℕ → AppPacketHeader → List ℕ → AppPacket → AppPacket
store_fields now h buffer p =
    let q =
      update_received_lifesign now h.lifesign
        (record p { unique_id = h.unique_id; data_length = h.data_length }) in
    record q {
      data_ptr = if ltb 0 h.data_length then some (drop header_size buffer) else none;
      crc32 = word32_at (u64 (header_size + h.data_length)) buffer;
    }

-- The part of `decode` behind its guards.
unfoldable pub check_crc : List ℕ → AppPacket → AppPacket × Bool
check_crc buffer q =
    if calculate_crc32 buffer (u64 (header_size + q.data_length)) == q.crc32
    then (record q { error = AppPacketError.none }, true)
    else (record q { error = AppPacketError.crc_mismatch }, false)

unfoldable pub decode_header : ℕ → AppPacketHeader → List ℕ → ℕ → AppPacket → AppPacket × Bool
decode_header now h buffer buffer_size p =
    if ltb buffer_size (u64 (header_size + h.data_length + footer_size))
    then (record p { error = AppPacketError.invalid_packet }, false)
    else if ltb max_data_size h.data_length
    then (record p { error = AppPacketError.data_too_large }, false)
    else check_crc buffer (store_fields now h buffer p)

unfoldable pub decode : ℕ → Option (List ℕ) → ℕ → AppPacket → AppPacket × Bool
decode now none buffer_size p = (record p { error = AppPacketError.invalid_data_pointer }, false)
decode now (some buffer) buffer_size p =
    if ltb buffer_size (u64 (header_size + footer_size))
    then (record p { error = AppPacketError.invalid_packet }, false)
    else decode_header now (header_at buffer) buffer buffer_size p
