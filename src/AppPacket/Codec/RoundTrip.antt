-- ===== src/AppPacket/Codec/RoundTrip.antt =====
-- What `encode` wrote is what `decode` reads.
use agent_team_test.Prelude.{
  ℕ, zero, suc, ◌+◌, ◌≤◌, ◌≡◌, refl, sym, ap, ap₂, ◌∙◌, if◌then◌else◌, List, ◌++◌, length, true,
  Option, some, none, arith, take, drop, ltb, lt→ltb, append_assoc, take-append_length,
  drop-append_length, length-append, All, All-take, All-append, IsByte,
}
use agent_team_test.Crc.{calculate_crc32}
use agent_team_test.Crc.Detect.{calculate_crc32-append, calculate_crc32_word}
use agent_team_test.AppPacket.Error.{AppPacketError}
use agent_team_test.AppPacket.State.{AppPacket}
use agent_team_test.AppPacket.Valid.{PointsAt, IsValid}
use agent_team_test.AppPacket.Wire.{header_bytes, bytes32, word32_at, header_at}
use agent_team_test.AppPacket.Wire.Words.{header_at-header_bytes, word32_at-bytes32}
use agent_team_test.AppPacket.Codec.{packet_header, store_fields, encode, decode}
use agent_team_test.AppPacket.Codec.Image.{
  payload_at, payload, body, body_crc, image, length-body, length-header_bytes, length-bytes32,
  length-payload_at, encode-image,
}
use agent_team_test.AppPacket.Codec.Decode.{
  length_field, IsSized, CrcMatches, received, decode_ok, unique_id-store_fields,
  rx_lifesign-store_fields, received_length, received_crc,
}

pub payload_at-bytes : (d : Option (List ℕ)) (n : ℕ) → PointsAt d n → All IsByte (payload_at d n)
payload_at-bytes none n h = tt
payload_at-bytes (some bytes) n h = All-take IsByte n bytes h.1

pub bytes32-bytes : (w : ℕ) → All IsByte (bytes32 w)
unfolding bytes32
bytes32-bytes w = omega arith

pub body-bytes : {p : AppPacket} → IsValid p → All IsByte (body p)
unfolding header_bytes
body-bytes {p} v =
    All-append IsByte (header_bytes (packet_header p)) (payload p) (omega arith)
      (payload_at-bytes p.data_ptr p.data_length v.points)

-- What `decode` finds in a buffer that begins with the image of a packet.
module _ {p : AppPacket} (v : IsValid p) (tail : List ℕ) where
  regroup :
      image p ++ tail
      ≡ header_bytes (packet_header p) ++ (payload p ++ (bytes32 (body_crc p) ++ tail))
  regroup =
      append_assoc (body p) (bytes32 (body_crc p)) tail
      ∙ append_assoc (header_bytes (packet_header p)) (payload p) (bytes32 (body_crc p) ++ tail)

  pub header_at-image : header_at (image p ++ tail) ≡ packet_header p
  unfolding packet_header
  header_at-image =
      ap header_at regroup
      ∙ header_at-header_bytes (packet_header p) (payload p ++ (bytes32 (body_crc p) ++ tail))
          v.id_fits v.lifesign_fits (omega arith)

  unique_id-image : (header_at (image p ++ tail)).unique_id ≡ p.unique_id
  unfolding packet_header
  unique_id-image = ap (λ h. h.unique_id) header_at-image

  pub lifesign-image : (header_at (image p ++ tail)).lifesign ≡ p.lifesign
  unfolding packet_header
  lifesign-image = ap (λ h. h.lifesign) header_at-image

  pub length_field-image : length_field (image p ++ tail) ≡ p.data_length
  unfolding header_at packet_header
  length_field-image = omega (arith, v.small, ap (λ h. h.data_length) header_at-image)

  pub word32_at-image : word32_at (8 + p.data_length) (image p ++ tail) ≡ body_crc p
  word32_at-image =
      ap (word32_at (8 + p.data_length)) (append_assoc (body p) (bytes32 (body_crc p)) tail)
      ∙ word32_at-bytes32 (8 + p.data_length) (body_crc p) (body p) tail (sym (length-body v))
          (calculate_crc32_word (body p) (length (body p)) (body-bytes v))

  pub calculate_crc32-image : calculate_crc32 (image p ++ tail) (8 + p.data_length) ≡ body_crc p
  calculate_crc32-image =
      ap (λ l. calculate_crc32 l (8 + p.data_length))
        (append_assoc (body p) (bytes32 (body_crc p)) tail)
      ∙ calculate_crc32-append (8 + p.data_length) (body p) (bytes32 (body_crc p) ++ tail)
          (sym (length-body v))

  pub CrcMatches-image : CrcMatches (image p ++ tail)
  CrcMatches-image = rw length_field-image (calculate_crc32-image ∙ sym word32_at-image)

  pub IsSized-image : (n : ℕ) → 12 + p.data_length ≤ n → IsSized (image p ++ tail) n
  IsSized-image n h = record {
    frame = omega arith;
    covers = rw length_field-image h;
    small = rw length_field-image v.small;
  }

  payload-image : take p.data_length (drop 8 (image p ++ tail)) ≡ payload p
  payload-image =
      ap (λ l. take p.data_length (drop 8 l)) regroup
      ∙ ap (take p.data_length) (
          drop-append_length 8 (header_bytes (packet_header p))
            (payload p ++ (bytes32 (body_crc p) ++ tail)) (sym (length-header_bytes p)))
      ∙ take-append_length p.data_length (payload p) (bytes32 (body_crc p) ++ tail)
          (sym (length-payload_at p.data_ptr p.data_length v.points))

payload_at-if :
    (n : ℕ) (bytes : List ℕ) → payload_at (if ltb 0 n then some bytes else none) n ≡ take n bytes
payload_at-if zero bytes = refl
payload_at-if (suc n) bytes = rw (lt→ltb 0 (suc n) (omega arith))

data_ptr-received :
    (now : ℕ) (buffer : List ℕ) (q : AppPacket)
    → (received now buffer q).data_ptr
      ≡ (if ltb 0 (length_field buffer) then some (drop 8 buffer) else none)
unfolding store_fields header_at
data_ptr-received now buffer q = refl

-- The payload is the bytes behind the header, as many as the length field announces.
pub payload-received :
    (now : ℕ) (buffer : List ℕ) (q : AppPacket)
    → payload (received now buffer q) ≡ take (length_field buffer) (drop 8 buffer)
payload-received now buffer q =
    ap₂ payload_at (data_ptr-received now buffer q) (received_length now buffer q)
    ∙ payload_at-if (length_field buffer) (drop 8 buffer)

-- What `encode` put on the wire: the first `size` bytes of its buffer.
abbrev pub sent : AppPacket → List ℕ → ℕ → List ℕ
sent p buffer buffer_size = let e = encode p (some buffer) buffer_size in take e.size e.buffer

pub sent-image :
    {p : AppPacket} (buffer : List ℕ) (buffer_size : ℕ)
    → IsValid p
    → 12 + p.data_length ≤ buffer_size
    → buffer_size ≤ length buffer
    → sent p buffer buffer_size ≡ image p
sent-image {p} buffer size v fits room = rw ((encode-image buffer size v room).1 fits) (
    take-append_length (12 + p.data_length) (image p) (drop (12 + p.data_length) buffer) (
      omega (
        arith,
        length-append {0} (body p) (bytes32 (body_crc p)),
        length-body v,
        length-bytes32 (body_crc p),
      )))

-- A valid packet that fits the output buffer is encoded to `12 + data_length` bytes. A receiver in
-- any state that decodes these bytes, whatever else its buffer holds behind them, accepts them and
-- then holds the sender's identifier, lifesign, payload length, payload and checksum, and no error.
pub decode-encode :
    {p : AppPacket} (buffer tail : List ℕ) (buffer_size now : ℕ) (q : AppPacket)
    → IsValid p
    → 12 + p.data_length ≤ buffer_size
    → buffer_size ≤ length buffer
    → let e = encode p (some buffer) buffer_size in
      let (r, ok) = decode now (some (sent p buffer buffer_size ++ tail)) e.size q in
      (ok ≡ true)
      × (r.unique_id ≡ p.unique_id)
      × (r.rx_lifesign ≡ p.lifesign)
      × (r.data_length ≡ p.data_length)
      × (payload r ≡ payload p)
      × (r.crc32 ≡ e.packet.crc32)
      × (r.error ≡ AppPacketError.none)
      × (e.size ≡ 12 + p.data_length)
decode-encode {p} buffer tail size now q v fits room =
    rw
      (
        sent-image buffer size v fits room,
        (encode-image buffer size v room).1 fits,
        decode_ok now (12 + p.data_length) (image p ++ tail) q
            (IsSized-image v tail (12 + p.data_length) (omega arith)) (CrcMatches-image v tail),
      )
      (
        refl,
        unique_id-store_fields now (header_at (image p ++ tail)) (image p ++ tail) q
            ∙ unique_id-image v tail,
        rx_lifesign-store_fields now (header_at (image p ++ tail)) (image p ++ tail) q
            ∙ lifesign-image v tail,
        received_length now (image p ++ tail) q ∙ length_field-image v tail,
        payload-received now (image p ++ tail) q
            ∙ ap (λ n. take n (drop 8 (image p ++ tail))) (length_field-image v tail)
            ∙ payload-image v tail,
        received_crc now (image p ++ tail) q
              (IsSized-image v tail (12 + p.data_length) (omega arith)).small
            ∙ (ap (λ n. word32_at (8 + n) (image p ++ tail)) (length_field-image v tail)
                ∙ word32_at-image v tail),
        refl,
        refl,
      )
