-- ===== src/Format/Decimal.antt =====
-- Conversions that print natural numbers in decimal and hexadecimal, for runs of the model.
use agent_team_test.Prelude.{
  ℕ, zero, suc, ◌+◌, ◌-◌, ◌/◌, ◌%◌, ◌≡◌, ◌≤◌, refl, ◌∙◌, List, [], ◌∷◌, ◌++◌, All-append, arith,
  length, length-append, length-replicate, replicate, ltb, ◌==◌, if◌then◌else◌, Bool-cases, inl,
  inr,
}
use agent_team_test.Format.{Format, Laws, IsPlain, replicate-IsPlain}

abbrev digits : ℕ → ℕ → List ℕ → List ℕ
digits zero n text = text
digits (suc fuel) n text =
    let longer = digits fuel (n / 10) ((48 + n % 10) ∷ text) in
    if n / 10 == 0 then (48 + n % 10) ∷ text else longer

abbrev hex_digit : ℕ → ℕ
hex_digit n = if ltb n 10 then 48 + n else 55 + n

abbrev hex_digits : ℕ → ℕ → List ℕ → List ℕ
hex_digits zero n text = text
hex_digits (suc count) n text = hex_digits count (n / 16) (hex_digit (n % 16) ∷ text)

-- Twenty digits are enough for a 64-bit word.
abbrev pub decimal : Format ℕ
decimal = record {
  number = λ n. digits 20 n [];
  hex = λ n. hex_digits 8 n [];
  fixed = λ n x. digits 20 x [];
  left = λ n text. text ++ replicate (n - length text) b' ';
  right = λ n text. replicate (n - length text) b' ' ++ text;
}

digits-IsPlain : (fuel n : ℕ) (text : List ℕ) → IsPlain text → IsPlain (digits fuel n text)
digits-IsPlain zero n text h = h
digits-IsPlain (suc fuel) n text h = elim (Bool-cases (n / 10 == 0)) [
  | inl e ↦ rw e (omega arith, h)
  | inr e ↦ rw e (digits-IsPlain fuel (n / 10) ((48 + n % 10) ∷ text) (omega arith, h))
]

hex_digit_lem : (n : ℕ) → 32 ≤ hex_digit n
hex_digit_lem n = ground arith

hex_digits-IsPlain :
    (count n : ℕ) (text : List ℕ) → IsPlain text → IsPlain (hex_digits count n text)
hex_digits-IsPlain zero n text h = h
hex_digits-IsPlain (suc count) n text h =
    hex_digits-IsPlain count (n / 16) (hex_digit (n % 16) ∷ text) (hex_digit_lem (n % 16), h)

pub decimal-Laws : Laws decimal
decimal-Laws = record {
  number-IsPlain = λ n. digits-IsPlain 20 n [] tt;
  hex-IsPlain = λ n. hex_digits-IsPlain 8 n [] tt;
  fixed-IsPlain = λ n x. digits-IsPlain 20 x [] tt;
  left-IsPlain = λ n text h. All-append (λ c. 32 ≤ c) text _ h (spaces-IsPlain (n - length text));
  right-IsPlain = λ n text h.
      All-append (λ c. 32 ≤ c) (replicate (n - length text) b' ') _
        (spaces-IsPlain (n - length text)) h;
  length-left = length-after;
  length-right = length-before;
}
  where
    spaces-IsPlain : (n : ℕ) → IsPlain (replicate n b' ')
    spaces-IsPlain n = replicate-IsPlain n b' ' (omega arith)

    length-spaces : (n : ℕ) → length {A = ℕ} (replicate n b' ') ≡ n
    length-spaces n = length-replicate n b' '

    length-after :
        (n : ℕ) (text : List ℕ)
        → length (text ++ replicate (n - length text) b' ') ≡ length text + (n - length text)
    length-after n text =
        length-append {0} text (replicate (n - length text) b' ')
        ∙ rw (length-spaces (n - length text)) refl

    length-before :
        (n : ℕ) (text : List ℕ)
        → length (replicate (n - length text) b' ' ++ text) ≡ length text + (n - length text)
    length-before n text = omega (
      arith,
      length-append {0} (replicate (n - length text) b' ') text,
      length-spaces (n - length text),
    )
