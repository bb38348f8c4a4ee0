-- ===== src/AppPacket/Codec/Image.antt =====
-- The wire image of a packet, and that `encode` of src/app/AppPacket.cpp writes exactly this image.
use agent_team_test.Prelude.{
  ℕ, zero, suc, ◌+◌, ◌≤◌, ◌<◌, ◌≡◌, refl, sym, ap, ◌∙◌, List, [], ◌++◌, Option, none, some, arith,
  length, take, drop, append_assoc, append-nil, take-append_length, drop-append_add, drop-drop,
  length-append, length-take, u16, u64, lt→ltb, nlt→ltb,
}
use agent_team_test.Crc.{calculate_crc32}
use agent_team_test.Crc.Detect.{calculate_crc32-append}
use agent_team_test.AppPacket.Error.{AppPacketError}
use agent_team_test.AppPacket.State.{AppPacket}
use agent_team_test.AppPacket.Wire.{header_bytes, bytes32, write_at}
use agent_team_test.AppPacket.Valid.{PointsAt, IsValid}
use agent_team_test.AppPacket.Codec.{total_size, packet_header, copy_payload, write_packet, encode}

-- The bytes that a data pointer and a length stand for.
abbrev pub payload_at : Option (List ℕ) → ℕ → List ℕ
payload_at none n = []
payload_at (some bytes) n = take n bytes

abbrev pub payload : AppPacket → List ℕ
payload p = payload_at p.data_ptr p.data_length

-- What the checksum covers: the header and the payload.
abbrev pub body : AppPacket → List ℕ
body p = header_bytes (packet_header p) ++ payload p

abbrev pub body_crc : AppPacket → ℕ
body_crc p = calculate_crc32 (body p) (length (body p))

abbrev pub image : AppPacket → List ℕ
image p = body p ++ bytes32 (body_crc p)

pub length-header_bytes : (p : AppPacket) → length (header_bytes (packet_header p)) ≡ 8
unfolding header_bytes
length-header_bytes p = refl

pub length-payload_at : (d : Option (List ℕ)) (n : ℕ) → PointsAt d n → length (payload_at d n) ≡ n
length-payload_at none n h = omega arith
length-payload_at (some bytes) n h = omega (arith, length-take n bytes)

pub length-body : {p : AppPacket} → IsValid p → length (body p) ≡ 8 + p.data_length
length-body {p} v = omega (
  arith,
  length-append {0} (header_bytes (packet_header p)) (payload p),
  length-header_bytes p,
  length-payload_at p.data_ptr p.data_length v.points,
)

pub length-bytes32 : (w : ℕ) → length (bytes32 w) ≡ 4
unfolding bytes32
length-bytes32 w = refl

-- Writing behind a prefix.
write_at-append :
    (n : ℕ) (xs ys zs : List ℕ)
    → n ≡ length xs
    → write_at n ys (xs ++ zs) ≡ xs ++ (ys ++ drop (length ys) zs)
unfolding write_at
write_at-append n xs ys zs h =
    rw (take-append_length n xs zs h, drop-append_add n (length ys) xs zs h) refl

pair_path {ℓ κ} :
    {A : Type ℓ} {B : Type κ} {a a' : A} {b b' : B}
    → a ≡ a'
    → b ≡ b'
    → ◌≡◌ {A = A × B} (a, b) (a', b')
pair_path p q = λ i. (p i, q i)

copy_payload_lem :
    (d : Option (List ℕ)) (n : ℕ) (hdr rest : List ℕ)
    → PointsAt d n
    → n ≤ 256
    → length hdr ≡ 8
    → copy_payload d n 8 (hdr ++ rest)
      ≡ ((hdr ++ payload_at d n) ++ drop n rest, length (hdr ++ payload_at d n))
unfolding copy_payload
copy_payload_lem none zero hdr rest h small e =
    pair_path (ap (λ l. l ++ rest) (sym (append-nil hdr))) (rw append-nil (sym e))
copy_payload_lem none (suc n) hdr rest h small e = absurd (omega arith)
copy_payload_lem (some bytes) zero hdr rest h small e =
    pair_path (ap (λ l. l ++ rest) (sym (append-nil hdr))) (rw append-nil (sym e))
copy_payload_lem (some bytes) (suc n) hdr rest h small e = rw (lt→ltb 0 (suc n) (omega arith)) (
    pair_path
      (write_at-append 8 hdr (take (suc n) bytes) rest (sym e)
        ∙ ap (λ k. hdr ++ (take (suc n) bytes ++ drop k rest)) taken
        ∙ sym (append_assoc hdr (take (suc n) bytes) (drop (suc n) rest)))
      (omega (arith, length-append {0} hdr (take (suc n) bytes), taken)))
  where
    taken : length (take (suc n) bytes) ≡ suc n
    taken = omega (arith, length-take (suc n) bytes)

pub write_packet_lem :
    {p : AppPacket} (buffer : List ℕ)
    → IsValid p
    → 12 + p.data_length ≤ length buffer
    → write_packet p buffer ≡ record {
      packet = record p {
        crc32 = body_crc p;
        error = AppPacketError.none;
        lifesign = u16 (p.lifesign + 1);
      };
      buffer = image p ++ drop (12 + p.data_length) buffer;
      size = 12 + p.data_length;
    }
unfolding write_packet
write_packet_lem {p} buffer v room =
    rw
      (
        header_written,
        copy_payload_lem p.data_ptr p.data_length hdr (drop 8 buffer) v.points v.small
            (length-header_bytes p),
        calculate_crc32-append (length (body p)) (body p) rest refl,
        write_at-append (length (body p)) (body p) (bytes32 (body_crc p)) rest refl,
        length-bytes32 (body_crc p),
      )
      (λ i. record {
        packet = record p {
          crc32 = body_crc p;
          error = AppPacketError.none;
          lifesign = u16 (p.lifesign + 1);
        };
        buffer = joined i;
        size = size_eq i;
      })
  where
    hdr : List ℕ
    hdr = header_bytes (packet_header p)

    rest : List ℕ
    rest = drop p.data_length (drop 8 buffer)

    header_written : write_at 0 hdr buffer ≡ hdr ++ drop 8 buffer
    header_written =
        write_at-append 0 [] hdr buffer refl
        ∙ ap (λ n. hdr ++ drop n buffer) (length-header_bytes p)

    shift : 8 + (p.data_length + 4) ≡ 12 + p.data_length
    shift = omega arith

    joined :
        body p ++ (bytes32 (body_crc p) ++ drop 4 rest)
        ≡ image p ++ drop (12 + p.data_length) buffer
    joined =
        sym (append_assoc (body p) (bytes32 (body_crc p)) (drop 4 rest))
        ∙ ap (λ l. image p ++ l)
            (drop-drop p.data_length 4 (drop 8 buffer)
              ∙ drop-drop 8 (p.data_length + 4) buffer
              ∙ ap (λ n. drop n buffer) shift)

    size_eq : u64 (length (body p) + 4) ≡ 12 + p.data_length
    size_eq = omega (arith, length-body v)

-- `encode` in the terms of the image.
pub encode-image :
    {p : AppPacket} (buffer : List ℕ) (buffer_size : ℕ)
    → IsValid p
    → buffer_size ≤ length buffer
    → (buffer_size < 12 + p.data_length
        → encode p (some buffer) buffer_size ≡ record {
          packet = record p { error = AppPacketError.buffer_too_small };
          buffer = buffer;
          size = 0;
        })
      × (12 + p.data_length ≤ buffer_size
          → encode p (some buffer) buffer_size ≡ record {
            packet = record p {
              crc32 = body_crc p;
              error = AppPacketError.none;
              lifesign = u16 (p.lifesign + 1);
            };
            buffer = image p ++ drop (12 + p.data_length) buffer;
            size = 12 + p.data_length;
          })
unfolding encode
encode-image {p} buffer n v room = (
  λ small. rw (lt→ltb n (total_size p) (omega (arith, total))),
  λ fits.
      rw (nlt→ltb n (total_size p) (omega (arith, total)))
        (write_packet_lem buffer v (omega arith)),
)
  where
    total : total_size p ≡ 12 + p.data_length
    total = unfold total_size in omega (arith, v.small)
