-- ===== src/AppPacket/Codec/Burst.antt =====
-- A packet of which up to four neighbouring bytes were damaged on the way, across the border of the
-- payload and the footer too.
use agent_team_test.Prelude.{
  ℕ, ◌+◌, ◌≤◌, ◌≡◌, ◌≢◌, refl, sym, ap, ◌∙◌, List, [], ◌∷◌, ◌++◌, length, false, some, arith,
  get_or, take, drop, All, All-append, All-append_left, All-append_right, All-take, All-drop,
  IsByte, length-append, length-take, length-drop, take-append_length, take-append_length_add,
  take-append-drop, get_or-append_right, get_or-append_left,
}
use mathlib.Core.Path.{subst}
use agent_team_test.Crc.{update_bytes, calculate_crc32}
use agent_team_test.Crc.Burst.{word_of, residue, update_bytes_burst, update_bytes-checksum}
use agent_team_test.AppPacket.Error.{AppPacketError}
use agent_team_test.AppPacket.State.{AppPacket}
use agent_team_test.AppPacket.Valid.{IsValid}
use agent_team_test.AppPacket.Wire.{bytes32, word16_at, word32_at}
use agent_team_test.AppPacket.Codec.{encode, decode}
use agent_team_test.AppPacket.Codec.Image.{
  body, body_crc, image, length-body, length-bytes32, encode-image,
}
use agent_team_test.AppPacket.Codec.Decode.{
  length_field, IsSized, CrcMatches, received, decode_bad_crc,
}
use agent_team_test.AppPacket.Codec.RoundTrip.{
  body-bytes, bytes32-bytes, length_field-image, CrcMatches-image, sent, sent-image,
}

-- The word at an offset is that of the four bytes there.
word_of-four : (l : List ℕ) → 4 ≤ length l → word_of (take 4 l) ≡ word32_at 0 l
unfolding word32_at
word_of-four [] h = absurd (omega arith)
word_of-four (a ∷ []) h = absurd (omega arith)
word_of-four (a ∷ b ∷ []) h = absurd (omega arith)
word_of-four (a ∷ b ∷ c ∷ []) h = absurd (omega arith)
word_of-four (a ∷ b ∷ c ∷ d ∷ l) h = omega arith

module _ (n : ℕ) (l : List ℕ) (room : n + 4 ≤ length l) where
  reaches : n ≡ length (take n l)
  reaches = omega (arith, length-take n l)

  take_four_more : take (n + 4) l ≡ take n l ++ take 4 (drop n l)
  take_four_more =
      ap (take (n + 4)) (sym (take-append-drop n l))
      ∙ take-append_length_add n 4 (take n l) (drop n l) reaches

  byte_behind : (i : ℕ) → get_or (drop n l) i 0 ≡ get_or l (n + i) 0
  byte_behind i =
      sym (get_or-append_right n i (take n l) (drop n l) 0 reaches)
      ∙ ap (λ k. get_or k (n + i) 0) (take-append-drop n l)

  word_of-word32_at : word_of (take 4 (drop n l)) ≡ word32_at n l
  word_of-word32_at =
      word_of-four (drop n l) (omega (arith, length-drop n l))
      ∙ unfold word32_at in
        omega (
          arith,
          byte_behind 0,
          byte_behind 1,
          byte_behind 2,
          byte_behind 3,
          ap (λ k. get_or l k 0) first,
        )
    where
      first : n + 0 ≡ n
      first = omega arith

-- Over a frame that passes the check, footer included, the register ends at the residue.
CrcMatches-residue :
    (n : ℕ) (wire : List ℕ)
    → All IsByte wire
    → n + 4 ≤ length wire
    → calculate_crc32 wire n ≡ word32_at n wire
    → update_bytes 0xFFFFFFFF (take (n + 4) wire) ≡ residue
unfolding calculate_crc32
CrcMatches-residue n wire bytes room m =
    ap (update_bytes 0xFFFFFFFF) (take_four_more n wire room)
    ∙ update_bytes-checksum (take n wire) (take 4 (drop n wire))
        (All-take IsByte 4 (drop n wire) (All-drop IsByte n wire bytes))
        (omega (arith, length-take 4 (drop n wire), length-drop n wire))
        (word_of-word32_at n wire room ∙ sym m)

module _ {p : AppPacket} (v : IsValid p) (xs old new ys tail : List ℕ)
    (e : image p ≡ xs ++ (old ++ ys)) (short : length old ≤ 4) (same : length new ≡ length old)
    (new_bytes : All IsByte new) (tail_bytes : All IsByte tail)
    (kept : length_field (xs ++ (new ++ ys)) ≡ p.data_length) where
  image-bytes : All IsByte (image p)
  image-bytes =
      All-append IsByte (body p) (bytes32 (body_crc p)) (body-bytes v) (bytes32-bytes (body_crc p))

  split-bytes : All IsByte (xs ++ (old ++ ys))
  split-bytes = subst (All IsByte) e image-bytes

  rest-bytes : All IsByte (old ++ ys)
  rest-bytes = All-append_right IsByte xs (old ++ ys) split-bytes

  length-image : length (image p) ≡ 12 + p.data_length
  length-image = omega (
    arith,
    length-append {0} (body p) (bytes32 (body_crc p)),
    length-body v,
    length-bytes32 (body_crc p),
  )

  damaged : List ℕ
  damaged = xs ++ (new ++ ys)

  damaged-bytes : All IsByte damaged
  unfolding damaged
  damaged-bytes =
      All-append IsByte xs (new ++ ys) (All-append_left IsByte xs (old ++ ys) split-bytes)
        (All-append IsByte new ys new_bytes (All-append_right IsByte old ys rest-bytes))

  length-damaged : length damaged ≡ 12 + p.data_length
  unfolding damaged
  length-damaged = omega (
    arith,
    length-image,
    ap length e,
    length-append {0} xs (old ++ ys),
    length-append {0} xs (new ++ ys),
    length-append {0} old ys,
    length-append {0} new ys,
  )

  length_field-damaged : length_field (damaged ++ tail) ≡ p.data_length
  unfolding word16_at damaged
  length_field-damaged = omega (
    arith,
    kept,
    length-damaged,
    get_or-append_left (xs ++ (new ++ ys)) tail 6 0 (omega (arith, length-damaged)),
    get_or-append_left (xs ++ (new ++ ys)) tail 7 0 (omega (arith, length-damaged)),
  )

  damaged-IsSized : IsSized (damaged ++ tail) (12 + p.data_length)
  damaged-IsSized = record {
    frame = omega arith;
    covers = rw length_field-damaged (omega arith);
    small = rw length_field-damaged v.small;
  }

  -- The register over the frame, where the check passes.
  checked :
      (wire : List ℕ)
      → All IsByte wire
      → length wire ≡ 12 + p.data_length
      → length_field (wire ++ tail) ≡ p.data_length
      → CrcMatches (wire ++ tail)
      → update_bytes 0xFFFFFFFF wire ≡ residue
  checked wire bytes l f m =
      ap (update_bytes 0xFFFFFFFF)
        (sym (take-append_length (8 + p.data_length + 4) wire tail (omega arith)))
      ∙ CrcMatches-residue (8 + p.data_length) (wire ++ tail)
          (All-append IsByte wire tail bytes tail_bytes)
          (omega (arith, length-append {0} wire tail))
          (subst (λ k. calculate_crc32 (wire ++ tail) (8 + k) ≡ word32_at (8 + k) (wire ++ tail)) f
            m)

  damaged-ne-CrcMatches : new ≢ old → ¬ CrcMatches (damaged ++ tail)
  unfolding damaged
  damaged-ne-CrcMatches ne m = ne (
      update_bytes_burst xs old new ys 0xFFFFFFFF (omega arith)
        (All-append_left IsByte xs (old ++ ys) split-bytes)
        (All-append_left IsByte old ys rest-bytes) new_bytes
        (All-append_right IsByte old ys rest-bytes) short same
        (checked damaged damaged-bytes length-damaged length_field-damaged m
          ∙ sym (
              checked (image p) image-bytes length-image (length_field-image v tail)
                (CrcMatches-image v tail))
          ∙ ap (update_bytes 0xFFFFFFFF) e))

  pub burst_lem :
      (now : ℕ) (q : AppPacket)
      → new ≢ old
      → decode now (some ((xs ++ (new ++ ys)) ++ tail)) (12 + p.data_length) q ≡ (
        record (received now ((xs ++ (new ++ ys)) ++ tail) q) {
          error = AppPacketError.crc_mismatch;
        },
        false,
      )
  burst_lem now q ne =
      unfold damaged in
      decode_bad_crc now (12 + p.data_length) (damaged ++ tail) q damaged-IsSized
        (damaged-ne-CrcMatches ne)

-- A valid packet that fits the output buffer is encoded. If at most four neighbouring bytes of it
-- arrive with other values, and the length field arrives as it was sent, then `decode` refuses the
-- packet and reports `CrcMismatch`, whatever the receiver's state and whatever bytes its buffer
-- holds behind. The damage may lie in the header, the payload or the stored checksum, or reach
-- from one into the next.
pub decode_detects_burst :
    {p : AppPacket} (buffer xs old new ys tail : List ℕ) (buffer_size now : ℕ) (q : AppPacket)
    → IsValid p
    → 12 + p.data_length ≤ buffer_size
    → buffer_size ≤ length buffer
    → sent p buffer buffer_size ≡ xs ++ (old ++ ys)
    → length old ≤ 4
    → length new ≡ length old
    → All IsByte new
    → All IsByte tail
    → length_field (xs ++ (new ++ ys)) ≡ p.data_length
    → new ≢ old
    → let wire = (xs ++ (new ++ ys)) ++ tail in
      let (r, ok) = decode now (some wire) (encode p (some buffer) buffer_size).size q in
      (ok ≡ false) × (r.error ≡ AppPacketError.crc_mismatch)
decode_detects_burst {p} buffer xs old new ys tail size now q v fits room e short same nb tb kept
      ne =
    rw
      (
        (encode-image buffer size v room).1 fits,
        burst_lem v xs old new ys tail (sym (sent-image buffer size v fits room) ∙ e) short same nb
            tb kept now q ne,
      )
      (refl, refl)
