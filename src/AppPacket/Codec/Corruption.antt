-- ===== src/AppPacket/Codec/Corruption.antt =====
-- A packet of which one byte was damaged on the way.
use agent_team_test.Prelude.{
  ℕ, ◌+◌, ◌-◌, ◌≤◌, ◌<◌, ◌≡◌, ◌≢◌, refl, sym, ◌∙◌, List, ◌++◌, length, false, some, arith, get_or,
  set, All, All-append, IsByte, length-append, dec_lt,
}
use agent_team_test.Crc.{calculate_crc32}
use agent_team_test.Crc.Detect.{calculate_crc32_detects_set, calculate_crc32-set}
use agent_team_test.AppPacket.Error.{AppPacketError}
use agent_team_test.AppPacket.State.{AppPacket}
use agent_team_test.AppPacket.Valid.{IsValid}
use agent_team_test.AppPacket.Wire.{bytes32, word32_at}
use agent_team_test.AppPacket.Wire.Words.{word16_at-set_ne, word32_at-set_lt, word32_at-set_ne}
use agent_team_test.AppPacket.Codec.{encode, decode}
use agent_team_test.AppPacket.Codec.Image.{
  body, body_crc, image, length-body, length-bytes32, encode-image,
}
use agent_team_test.AppPacket.Codec.Decode.{
  length_field, IsSized, CrcMatches, received, decode_bad_crc,
}
use agent_team_test.AppPacket.Codec.RoundTrip.{
  body-bytes, bytes32-bytes, length_field-image, word32_at-image, calculate_crc32-image, sent,
  sent-image,
}

module _ {p : AppPacket} (v : IsValid p) (tail : List ℕ) (tail_bytes : All IsByte tail) (b : ℕ)
    (hb : IsByte b) where
  wire : List ℕ
  wire = image p ++ tail

  wire-bytes : All IsByte wire
  unfolding wire
  wire-bytes =
      All-append IsByte (image p) tail
        (All-append IsByte (body p) (bytes32 (body_crc p)) (body-bytes v)
          (bytes32-bytes (body_crc p)))
        tail_bytes

  length-wire : 12 + p.data_length ≤ length wire
  unfolding wire
  length-wire = omega (
    arith,
    length-append {0} (image p) tail,
    length-append {0} (body p) (bytes32 (body_crc p)),
    length-body v,
    length-bytes32 (body_crc p),
  )

  -- The two halves of the check agree on the undamaged packet.
  halves : calculate_crc32 wire (8 + p.data_length) ≡ word32_at (8 + p.data_length) wire
  unfolding wire
  halves = calculate_crc32-image v tail ∙ sym (word32_at-image v tail)

  -- Damage in the header or the payload changes the computed checksum only.
  body_damage :
      (i : ℕ)
      → i < 8 + p.data_length
      → b ≢ get_or wire i 0
      → calculate_crc32 (set wire i b) (8 + p.data_length)
        ≢ word32_at (8 + p.data_length) (set wire i b)
  body_damage i h ne m =
      calculate_crc32_detects_set wire i b (8 + p.data_length) wire-bytes hb h
        (omega (arith, length-wire)) ne
        (m ∙ word32_at-set_lt (8 + p.data_length) i b wire h ∙ sym halves)

  -- Damage in the footer changes the stored checksum only.
  footer_damage :
      (k : ℕ)
      → k < 4
      → b ≢ get_or wire (8 + p.data_length + k) 0
      → calculate_crc32 (set wire (8 + p.data_length + k) b) (8 + p.data_length)
        ≢ word32_at (8 + p.data_length) (set wire (8 + p.data_length + k) b)
  footer_damage k h ne m =
      word32_at-set_ne (8 + p.data_length) k b wire h (omega (arith, length-wire)) ne (
        sym m
        ∙ calculate_crc32-set wire (8 + p.data_length + k) b (8 + p.data_length) (omega arith)
        ∙ halves)

  damage :
      (i : ℕ)
      → i < 12 + p.data_length
      → b ≢ get_or wire i 0
      → calculate_crc32 (set wire i b) (8 + p.data_length)
        ≢ word32_at (8 + p.data_length) (set wire i b)
  damage i h ne = elim (dec_lt i (8 + p.data_length)) [
    | yes inside ↦ body_damage i inside ne
    | no behind ↦
        let k : ℕ = i - (8 + p.data_length) in
        let e : 8 + p.data_length + k ≡ i = omega arith in
        rw (← e) (footer_damage k (omega arith) (rw e ne))
  ]

  length_field-damaged : (i : ℕ) → i ≢ 6 → i ≢ 7 → length_field (set wire i b) ≡ p.data_length
  unfolding wire
  length_field-damaged i h k = word16_at-set_ne 6 i b wire h k ∙ length_field-image v tail

  damaged-IsSized : (i : ℕ) → i ≢ 6 → i ≢ 7 → IsSized (set wire i b) (12 + p.data_length)
  damaged-IsSized i h k = record {
    frame = omega arith;
    covers = rw (length_field-damaged i h k) (omega arith);
    small = rw (length_field-damaged i h k) v.small;
  }

  damaged-ne-CrcMatches :
      (i : ℕ)
      → i < 12 + p.data_length
      → i ≢ 6
      → i ≢ 7
      → b ≢ get_or wire i 0
      → ¬ CrcMatches (set wire i b)
  damaged-ne-CrcMatches i inside h k ne = rw (length_field-damaged i h k) (damage i inside ne)

  damaged_lem :
      (i now : ℕ) (q : AppPacket)
      → i < 12 + p.data_length
      → i ≢ 6
      → i ≢ 7
      → b ≢ get_or wire i 0
      → decode now (some (set wire i b)) (12 + p.data_length) q
        ≡ (record (received now (set wire i b) q) { error = AppPacketError.crc_mismatch }, false)
  damaged_lem i now q inside h k ne =
      decode_bad_crc now (12 + p.data_length) (set wire i b) q (damaged-IsSized i h k)
        (damaged-ne-CrcMatches i inside h k ne)

-- If any one byte of an encoded packet, outside its length field, arrives with another value, then
-- `decode` refuses the packet and reports `CrcMismatch`, whatever the receiver's state.
pub decode_detects_damage :
    {p : AppPacket} (buffer tail : List ℕ) (buffer_size now i b : ℕ) (q : AppPacket)
    → IsValid p
    → 12 + p.data_length ≤ buffer_size
    → buffer_size ≤ length buffer
    → All IsByte tail
    → IsByte b
    → i < 12 + p.data_length
    → i ≢ 6
    → i ≢ 7
    → b ≢ get_or (sent p buffer buffer_size ++ tail) i 0
    → let wire = sent p buffer buffer_size ++ tail in
      let (r, ok) = decode now (some (set wire i b)) (encode p (some buffer) buffer_size).size q in
      (ok ≡ false) × (r.error ≡ AppPacketError.crc_mismatch)
unfolding wire
decode_detects_damage {p} buffer tail size now i b q v fits room tail_bytes hb inside h k ne =
    rw
      (
        sent-image buffer size v fits room,
        (encode-image buffer size v room).1 fits,
        damaged_lem v tail tail_bytes b hb i now q inside h k ne',
      )
      (refl, refl)
  where
    ne' : b ≢ get_or (image p ++ tail) i 0
    ne' = rw (sent-image buffer size v fits room) at ne
