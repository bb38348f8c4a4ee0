-- ===== src/Crc/Detect.antt =====
-- What the checksum detects: the register is never merged by a further byte.
use agent_team_test.Prelude.{
  IsByte, IsU32, ℕ, zero, suc, ◌/◌, ◌%◌, ◌^◌, ◌<◌, ◌≡◌, ◌≢◌, refl, sym, ap, ◌∙◌, List, [], ◌∷◌,
  ◌++◌, All, arith, bit_xor, bit_and-one, bit_xor-lt, bit_xor-shr, bit_xor-injective, length, take,
  take-append-cons, get_or, set, drop, All-drop, All-get_or, length-take, set-split, split_at,
  take-set, ◌≤◌, take-append_length, take-length, All-take, bit_xor_comm, ◌-◌, Bool-cases, inl, inr,
  ◌==◌,
}
use agent_team_test.Crc.{
  crc32_polynomial, shift_bit, shift_bits, update_byte, update_bytes, calculate_crc32,
}

pub shift_bit_even : (crc : ℕ) → crc % 2 ≡ 0 → shift_bit crc ≡ crc / 2
unfolding shift_bit
shift_bit_even crc h = ground (arith, bit_and-one crc)

pub shift_bit_odd : (crc : ℕ) → crc % 2 ≡ 1 → shift_bit crc ≡ bit_xor (crc / 2) crc32_polynomial
unfolding shift_bit
shift_bit_odd crc h = ground (arith, bit_and-one crc)

shift_bit_word : (crc : ℕ) → IsU32 crc → IsU32 (shift_bit crc)
unfolding shift_bit
shift_bit_word crc h = ground (arith, bit_xor-lt 32 (crc / 2) crc32_polynomial)

-- The top bit of the shifted register is the bit that left it.
shift_bit_top : (crc : ℕ) → IsU32 crc → shift_bit crc / 2 ^ 31 ≡ crc % 2
shift_bit_top crc h = elim (Bool-cases (crc % 2 == 0)) [
  | inl e ↦ let even : crc % 2 ≡ 0 = ground arith in rw (shift_bit_even crc even) (omega arith)
  | inr e ↦
      let odd : crc % 2 ≡ 1 = ground arith in
      let zero_top : crc / 2 / 2 ^ 31 ≡ 0 = omega arith in
      rw (shift_bit_odd crc odd, bit_xor-shr 31 (crc / 2) crc32_polynomial, zero_top, odd) refl
]

shift_bit-injective : (c d : ℕ) → IsU32 c → IsU32 d → shift_bit c ≡ shift_bit d → c ≡ d
shift_bit-injective c d hc hd h = elim (Bool-cases (c % 2 == 0)) [
  | inl e ↦
      let even : c % 2 ≡ 0 = ground arith in
      let even' : d % 2 ≡ 0 = omega (arith, parity) in
      omega (arith, sym (shift_bit_even c even) ∙ h ∙ shift_bit_even d even')
  | inr e ↦
      let odd : c % 2 ≡ 1 = ground arith in
      let odd' : d % 2 ≡ 1 = omega (arith, parity) in
      let halves : c / 2 ≡ d / 2 =
        bit_xor-injective (c / 2) (d / 2) crc32_polynomial
          (sym (shift_bit_odd c odd) ∙ h ∙ shift_bit_odd d odd') in
      omega arith
]
  where
    parity : c % 2 ≡ d % 2
    parity = sym (shift_bit_top c hc) ∙ ap (λ x. x / 2 ^ 31) h ∙ shift_bit_top d hd

shift_bits_word : (n crc : ℕ) → IsU32 crc → IsU32 (shift_bits n crc)
unfolding shift_bits
shift_bits_word zero crc h = h
shift_bits_word (suc n) crc h = shift_bits_word n (shift_bit crc) (shift_bit_word crc h)

pub shift_bits-injective : (n c d : ℕ) → IsU32 c → IsU32 d → shift_bits n c ≡ shift_bits n d → c ≡ d
unfolding shift_bits
shift_bits-injective zero c d hc hd h = h
shift_bits-injective (suc n) c d hc hd h = shift_bit-injective c d hc hd (
    shift_bits-injective n (shift_bit c) (shift_bit d) (shift_bit_word c hc) (shift_bit_word d hd)
      h)

update_byte_word : (crc byte : ℕ) → IsU32 crc → IsByte byte → IsU32 (update_byte crc byte)
unfolding update_byte
update_byte_word crc byte h k =
    shift_bits_word 8 (bit_xor crc byte) (bit_xor-lt 32 crc byte h (omega arith))

pub update_bytes_word :
    (bytes : List ℕ) (crc : ℕ) → IsU32 crc → All IsByte bytes → IsU32 (update_bytes crc bytes)
unfolding update_bytes
update_bytes_word [] crc h k = h
update_bytes_word (byte ∷ bytes) crc h k =
    update_bytes_word bytes (update_byte crc byte) (update_byte_word crc byte h k.0) k.1

update_byte_xor-injective :
    (c d a b : ℕ)
    → IsU32 c
    → IsU32 d
    → IsByte a
    → IsByte b
    → update_byte c a ≡ update_byte d b
    → bit_xor c a ≡ bit_xor d b
unfolding update_byte
update_byte_xor-injective c d a b hc hd ha hb h =
    shift_bits-injective 8 (bit_xor c a) (bit_xor d b) (bit_xor-lt 32 c a hc (omega arith))
      (bit_xor-lt 32 d b hd (omega arith)) h

-- Two registers stay apart, whatever bytes follow.
pub update_bytes-injective :
    (bytes : List ℕ) (c d : ℕ)
    → IsU32 c
    → IsU32 d
    → All IsByte bytes
    → update_bytes c bytes ≡ update_bytes d bytes
    → c ≡ d
unfolding update_bytes
update_bytes-injective [] c d hc hd k h = h
update_bytes-injective (byte ∷ bytes) c d hc hd k h = bit_xor-injective c d byte (
    update_byte_xor-injective c d byte byte hc hd k.0 k.0 (
      update_bytes-injective bytes (update_byte c byte) (update_byte d byte)
        (update_byte_word c byte hc k.0) (update_byte_word d byte hd k.0) k.1 h))

pub update_bytes-append :
    (xs ys : List ℕ) (crc : ℕ) → update_bytes crc (xs ++ ys) ≡ update_bytes (update_bytes crc xs) ys
unfolding update_bytes
update_bytes-append [] ys crc = refl
update_bytes-append (x ∷ xs) ys crc = update_bytes-append xs ys (update_byte crc x)

-- The checksum of bytes is a 32-bit word.
pub calculate_crc32_word :
    (bytes : List ℕ) (n : ℕ) → All IsByte bytes → IsU32 (calculate_crc32 bytes n)
unfolding calculate_crc32
calculate_crc32_word bytes n h =
    bit_xor-lt 32 (update_bytes 0xFFFFFFFF (take n bytes)) 0xFFFFFFFF
      (update_bytes_word (take n bytes) 0xFFFFFFFF (omega arith) (All-take IsByte n bytes h))
      (omega arith)

-- The same for a byte between two parts.
calculate_crc32_detects_byte :
    (xs ys : List ℕ) (a b n : ℕ)
    → All IsByte xs
    → All IsByte ys
    → IsByte a
    → IsByte b
    → length xs < n
    → a ≢ b
    → calculate_crc32 (xs ++ a ∷ ys) n ≢ calculate_crc32 (xs ++ b ∷ ys) n
unfolding calculate_crc32 update_bytes
calculate_crc32_detects_byte xs ys a b n hx hy ha hb reach ne e = ne (
    bit_xor-injective a b crc (
      bit_xor_comm a crc
      ∙ update_byte_xor-injective crc crc a b word word ha hb (
          update_bytes-injective rest (update_byte crc a) (update_byte crc b)
            (update_byte_word crc a word ha) (update_byte_word crc b word hb)
            (All-take IsByte (n - suc (length xs)) ys hy)
            (sym (split a) ∙ bit_xor-injective _ _ 0xFFFFFFFF e ∙ split b))
      ∙ bit_xor_comm crc b))
  where
    crc : ℕ
    crc = update_bytes 0xFFFFFFFF xs

    rest : List ℕ
    rest = take (n - suc (length xs)) ys

    word : IsU32 crc
    word = update_bytes_word xs 0xFFFFFFFF (omega arith) hx

    split :
        (x : ℕ)
        → update_bytes 0xFFFFFFFF (take n (xs ++ x ∷ ys)) ≡ update_bytes (update_byte crc x) rest
    split x =
        ap (update_bytes 0xFFFFFFFF) (take-append-cons n xs x ys reach)
        ∙ update_bytes-append xs (x ∷ rest) 0xFFFFFFFF

-- A change of one byte among those that are summed changes the checksum.
pub calculate_crc32_detects_set :
    (bytes : List ℕ) (i b n : ℕ)
    → All IsByte bytes
    → IsByte b
    → i < n
    → i < length bytes
    → b ≢ get_or bytes i 0
    → calculate_crc32 (set bytes i b) n ≢ calculate_crc32 bytes n
calculate_crc32_detects_set bytes i b n h hb reach inside ne e =
    calculate_crc32_detects_byte (take i bytes) (drop (suc i) bytes) b (get_or bytes i 0) n
      (All-take IsByte i bytes h) (All-drop IsByte (suc i) bytes h) hb
      (All-get_or IsByte bytes i 0 h (omega arith)) (omega (arith, length-take i bytes)) ne
      (ap (λ l. calculate_crc32 l n) (sym (set-split bytes i b inside))
        ∙ e
        ∙ ap (λ l. calculate_crc32 l n) (split_at bytes i 0 inside))

-- A change behind the bytes that are summed does not show.
pub calculate_crc32-set :
    (bytes : List ℕ) (i b n : ℕ)
    → n ≤ i
    → calculate_crc32 (set bytes i b) n ≡ calculate_crc32 bytes n
unfolding calculate_crc32
calculate_crc32-set bytes i b n h =
    ap (λ l. bit_xor (update_bytes 0xFFFFFFFF l) 0xFFFFFFFF) (take-set n i bytes b h)

-- Neither do the bytes behind an append.
pub calculate_crc32-append :
    (n : ℕ) (xs ys : List ℕ)
    → n ≡ length xs
    → calculate_crc32 (xs ++ ys) n ≡ calculate_crc32 xs (length xs)
unfolding calculate_crc32
calculate_crc32-append n xs ys h =
    ap (λ l. bit_xor (update_bytes 0xFFFFFFFF l) 0xFFFFFFFF)
      (take-append_length n xs ys h ∙ sym (take-length (length xs) xs (omega arith)))
