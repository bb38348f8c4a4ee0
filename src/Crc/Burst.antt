-- ===== src/Crc/Burst.antt =====
-- What the checksum detects in four bytes at a time: the register is linear, so a run of up to four
-- bytes acts on it as one word.
use agent_team_test.Prelude.{
  IsByte, IsU32, ℕ, zero, suc, ◌+◌, ◌*◌, ◌/◌, ◌%◌, ◌^◌, ◌≤◌, ◌≡◌, refl, sym, ap, ap₂, ◌∙◌, List, [],
  ◌∷◌, ◌++◌, All, arith, bit_xor, bit_xor-lt, bit_xor_step, bit_xor_assoc, bit_xor_comm,
  bit_xor_shl, bit_xor-zero, bit_xor-injective, bit_xor-bit_xor, length, Bool-cases, inl, inr, ◌==◌,
}
use native.Mathlib.Nat.{pow-suc}
use agent_team_test.Crc.{crc32_polynomial, shift_bit, shift_bits, update_byte, update_bytes}
use agent_team_test.Crc.Detect.{
  shift_bit_even, shift_bit_odd, shift_bits-injective, update_bytes_word, update_bytes-injective,
  update_bytes-append,
}

bit_xor_right_comm : (a b c : ℕ) → bit_xor (bit_xor a b) c ≡ bit_xor (bit_xor a c) b
bit_xor_right_comm a b c =
    bit_xor_assoc a b c ∙ ap (bit_xor a) (bit_xor_comm b c) ∙ sym (bit_xor_assoc a c b)

-- A bit that has not yet reached the end of the register passes through a shift.
shift_bit-bit_xor : (x y : ℕ) → shift_bit (bit_xor x (2 * y)) ≡ bit_xor (shift_bit x) y
shift_bit-bit_xor x y = elim (Bool-cases (x % 2 == 0)) [
  | inl e ↦
      let even : x % 2 ≡ 0 = ground arith in
      shift_bit_even (bit_xor x (2 * y)) (omega (arith, step))
      ∙ half
      ∙ ap (λ z. bit_xor z y) (sym (shift_bit_even x even))
  | inr e ↦
      let odd : x % 2 ≡ 1 = ground arith in
      shift_bit_odd (bit_xor x (2 * y)) (omega (arith, step))
      ∙ ap (λ z. bit_xor z crc32_polynomial) half
      ∙ bit_xor_right_comm (x / 2) y crc32_polynomial
      ∙ ap (λ z. bit_xor z y) (sym (shift_bit_odd x odd))
]
  where
    whole : 2 * y / 2 ≡ y
    whole = omega arith

    step : bit_xor x (2 * y) ≡ bit_xor (x / 2) y * 2 + (x + 2 * y) % 2
    step = bit_xor_step x (2 * y) ∙ ap (λ z. bit_xor (x / 2) z * 2 + (x + 2 * y) % 2) whole

    half : bit_xor x (2 * y) / 2 ≡ bit_xor (x / 2) y
    half = omega (arith, step)

shift_bits-bit_xor : (n x y : ℕ) → shift_bits n (bit_xor x (2 ^ n * y)) ≡ bit_xor (shift_bits n x) y
unfolding shift_bits
shift_bits-bit_xor zero x y = ap (bit_xor x) (omega arith)
shift_bits-bit_xor (suc n) x y =
    ap (λ z. shift_bits n (shift_bit (bit_xor x z))) double
    ∙ ap (shift_bits n) (shift_bit-bit_xor x (2 ^ n * y))
    ∙ shift_bits-bit_xor n (shift_bit x) y
  where
    double : 2 ^ suc n * y ≡ 2 * (2 ^ n * y)
    double = ap (λ x. x * y) (pow-suc 2 n) ∙ omega arith

shift_bits-shift_bits : (n m crc : ℕ) → shift_bits m (shift_bits n crc) ≡ shift_bits (n + m) crc
unfolding shift_bits
shift_bits-shift_bits zero m crc = ap (λ k. shift_bits k crc) start
  where
    start : m ≡ 0 + m
    start = omega arith
shift_bits-shift_bits (suc n) m crc =
    shift_bits-shift_bits n m (shift_bit crc) ∙ ap (λ k. shift_bits k crc) next
  where
    next : suc (n + m) ≡ suc n + m
    next = omega arith

-- The word that bytes stand for, the lowest first.
abbrev pub word_of : List ℕ → ℕ
word_of [] = 0
word_of (byte ∷ bytes) = byte + 256 * word_of bytes

-- The register after some bytes is that after their word, shifted by as many bits.
pub update_bytes-word_of :
    (bytes : List ℕ) (crc : ℕ)
    → All IsByte bytes
    → update_bytes crc bytes ≡ shift_bits (8 * length bytes) (bit_xor crc (word_of bytes))
unfolding update_bytes update_byte shift_bits
update_bytes-word_of [] crc h = sym (bit_xor_comm crc 0 ∙ bit_xor-zero crc ∙ omega arith)
update_bytes-word_of (byte ∷ bytes) crc h =
    update_bytes-word_of bytes (shift_bits 8 (bit_xor crc byte)) h.1
    ∙ ap (shift_bits (8 * length bytes))
        (sym (shift_bits-bit_xor 8 (bit_xor crc byte) (word_of bytes)))
    ∙ shift_bits-shift_bits 8 (8 * length bytes)
        (bit_xor (bit_xor crc byte) (2 ^ 8 * word_of bytes))
    ∙ ap₂ shift_bits bits word
  where
    bits : 8 + 8 * length bytes ≡ 8 * suc (length bytes)
    bits = omega arith

    word :
        bit_xor (bit_xor crc byte) (2 ^ 8 * word_of bytes)
        ≡ bit_xor crc (byte + 256 * word_of bytes)
    word =
        bit_xor_assoc crc byte (2 ^ 8 * word_of bytes)
        ∙ ap (bit_xor crc) (bit_xor_shl 8 byte (word_of bytes) h.0)

word_of-injective :
    (xs ys : List ℕ)
    → All IsByte xs
    → All IsByte ys
    → length xs ≡ length ys
    → word_of xs ≡ word_of ys
    → xs ≡ ys
word_of-injective [] [] hx hy l e = refl
word_of-injective [] (y ∷ ys) hx hy l e = absurd (omega arith)
word_of-injective (x ∷ xs) [] hx hy l e = absurd (omega arith)
word_of-injective (x ∷ xs) (y ∷ ys) hx hy l e =
    ap₂ ◌∷◌ (omega arith) (word_of-injective xs ys hx.1 hy.1 (omega arith) (omega arith))

-- Four bytes make a 32-bit word.
word_of_fits : (xs : List ℕ) → All IsByte xs → length xs ≤ 4 → IsU32 (word_of xs)
word_of_fits [] h l = omega arith
word_of_fits (a ∷ []) h l = omega arith
word_of_fits (a ∷ b ∷ []) h l = omega arith
word_of_fits (a ∷ b ∷ c ∷ []) h l = omega arith
word_of_fits (a ∷ b ∷ c ∷ d ∷ []) h l = omega arith
word_of_fits (a ∷ b ∷ c ∷ d ∷ e ∷ r) h l = absurd (omega arith)

-- Of the byte strings with the same bytes before and behind up to four bytes in between, each
-- leaves another register.
pub update_bytes_burst :
    (xs old new ys : List ℕ) (crc : ℕ)
    → IsU32 crc
    → All IsByte xs
    → All IsByte old
    → All IsByte new
    → All IsByte ys
    → length old ≤ 4
    → length new ≡ length old
    → update_bytes crc (xs ++ (new ++ ys)) ≡ update_bytes crc (xs ++ (old ++ ys))
    → new ≡ old
update_bytes_burst xs old new ys crc word hx ho hn hy short len e =
    word_of-injective new old hn ho len (
      bit_xor-injective (word_of new) (word_of old) before (
        bit_xor_comm (word_of new) before
        ∙ shift_bits-injective (8 * length old) (bit_xor before (word_of new))
            (bit_xor before (word_of old))
            (bit_xor-lt 32 before (word_of new) before_word (word_of_fits new hn (omega arith)))
            (bit_xor-lt 32 before (word_of old) before_word (word_of_fits old ho short)) shifted
        ∙ bit_xor_comm before (word_of old)))
  where
    before : ℕ
    before = update_bytes crc xs

    before_word : IsU32 before
    before_word = update_bytes_word xs crc word hx

    parts :
        (l : List ℕ) → update_bytes crc (xs ++ (l ++ ys)) ≡ update_bytes (update_bytes before l) ys
    parts l = update_bytes-append xs (l ++ ys) crc ∙ update_bytes-append l ys before

    window : update_bytes before new ≡ update_bytes before old
    window =
        update_bytes-injective ys (update_bytes before new) (update_bytes before old)
          (update_bytes_word new before before_word hn)
          (update_bytes_word old before before_word ho) hy (sym (parts new) ∙ e ∙ parts old)

    shifted :
        shift_bits (8 * length old) (bit_xor before (word_of new))
        ≡ shift_bits (8 * length old) (bit_xor before (word_of old))
    shifted =
        ap (λ n. shift_bits (8 * n) (bit_xor before (word_of new))) (sym len)
        ∙ sym (update_bytes-word_of new before hn)
        ∙ window
        ∙ update_bytes-word_of old before ho

-- Behind the checksum of the bytes before it, the lowest byte first, the register is always the
-- same.
abbrev pub residue : ℕ
residue = 0xDEBB20E3

pub update_bytes-checksum :
    (xs footer : List ℕ)
    → All IsByte footer
    → length footer ≡ 4
    → word_of footer ≡ bit_xor (update_bytes 0xFFFFFFFF xs) 0xFFFFFFFF
    → update_bytes 0xFFFFFFFF (xs ++ footer) ≡ residue
update_bytes-checksum xs footer h l e =
    update_bytes-append xs footer 0xFFFFFFFF
    ∙ update_bytes-word_of footer (update_bytes 0xFFFFFFFF xs) h
    ∙ ap₂ (λ n w. shift_bits (8 * n) (bit_xor (update_bytes 0xFFFFFFFF xs) w)) l e
    ∙ ap (shift_bits 32) cancelled
    ∙ ones
  where
    cancelled :
        bit_xor (update_bytes 0xFFFFFFFF xs) (bit_xor (update_bytes 0xFFFFFFFF xs) 0xFFFFFFFF)
        ≡ 0xFFFFFFFF
    cancelled =
        bit_xor_comm (update_bytes 0xFFFFFFFF xs) (bit_xor (update_bytes 0xFFFFFFFF xs) 0xFFFFFFFF)
        ∙ ap (λ x. bit_xor x (update_bytes 0xFFFFFFFF xs))
            (bit_xor_comm (update_bytes 0xFFFFFFFF xs) 0xFFFFFFFF)
        ∙ bit_xor-bit_xor 0xFFFFFFFF (update_bytes 0xFFFFFFFF xs)

    ones : shift_bits 32 0xFFFFFFFF ≡ residue
    ones = unfold shift_bits in unfold shift_bit in refl
