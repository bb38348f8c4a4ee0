-- ===== src/Prelude/Xor.antt =====
-- Laws of `^` on words at variables: from the equation for the lowest digit, by strong induction.
use Prim.Native.Nat.{
  ℕ, zero, suc, ◌+◌, ◌*◌, ◌/◌, ◌%◌, ◌^◌, ◌≤◌, ◌<◌, bit_xor, differ, bit_xor-bitwise,
}
use mathlib.Core.Path.{◌≡◌, refl, sym, ap, ◌∙◌}
use native.Mathlib.Nat.{pow-suc, mul_comm, div-div-eq-div-mul}
use native.Mathlib.Omega.{arith}
use native.Mathlib.Decide.{dec_le}
use agent_team_test.Prelude.Digits.{low_digit}

bit_xor_digit : (x y : ℕ) → bit_xor x y ≡ bit_xor (x / 2) (y / 2) * 2 + differ (x % 2) (y % 2)
bit_xor_digit zero y = simp bit_xor-bitwise (omega arith)
bit_xor_digit (suc x) y = simp bit_xor-bitwise (low_digit (λ w. w) differ x y)

differ-bits : (x y : ℕ) → x < 2 → y < 2 → differ x y ≡ (x + y) % 2
differ-bits zero y p q = omega arith
differ-bits (suc zero) zero p q = refl
differ-bits (suc zero) (suc zero) p q = refl
differ-bits (suc zero) (suc (suc y)) p q = absurd (omega arith)
differ-bits (suc (suc x)) y p q = absurd (omega arith)

pub bit_xor_step : (a b : ℕ) → bit_xor a b ≡ bit_xor (a / 2) (b / 2) * 2 + (a + b) % 2
bit_xor_step a b =
    omega (arith, bit_xor_digit a b, differ-bits (a % 2) (b % 2) (omega arith) (omega arith))

bit_xor_half : (a b : ℕ) → bit_xor a b / 2 ≡ bit_xor (a / 2) (b / 2)
bit_xor_half a b = omega (arith, bit_xor_step a b)

cancel_fuel : (n a c : ℕ) → a ≤ n → c ≤ n → bit_xor (bit_xor a c) c ≡ a
cancel_fuel zero zero zero p q = refl
cancel_fuel zero (suc a) c p q = absurd (omega arith)
cancel_fuel zero zero (suc c) p q = absurd (omega arith)
cancel_fuel (suc n) a c p q =
    let rest : bit_xor (bit_xor a c / 2) (c / 2) ≡ a / 2 =
      rw (bit_xor_half a c) (cancel_fuel n (a / 2) (c / 2) (omega arith) (omega arith)) in
    omega (arith, bit_xor_step a c, bit_xor_step (bit_xor a c) c, rest)

-- `^` with the same word twice gives the first word back.
pub bit_xor-bit_xor : (a c : ℕ) → bit_xor (bit_xor a c) c ≡ a
bit_xor-bit_xor a c = cancel_fuel (a + c) a c (omega arith) (omega arith)

-- So it takes different words to different words.
pub bit_xor-injective : (a b c : ℕ) → bit_xor a c ≡ bit_xor b c → a ≡ b
bit_xor-injective a b c h =
    sym (bit_xor-bit_xor a c) ∙ ap (λ x. bit_xor x c) h ∙ bit_xor-bit_xor b c

div-pow-zero : (x : ℕ) → x / 2 ^ 0 ≡ x
div-pow-zero x = omega arith

pub div-pow-suc : (x k : ℕ) → x / 2 ^ suc k ≡ x / 2 / 2 ^ k
div-pow-suc x k = rw (pow-suc 2 k, mul_comm (2 ^ k) 2, div-div-eq-div-mul x 2 (2 ^ k)) refl

-- `^` goes bit by bit, so it commutes with a shift to the right.
pub bit_xor-shr : (k a b : ℕ) → bit_xor a b / 2 ^ k ≡ bit_xor (a / 2 ^ k) (b / 2 ^ k)
bit_xor-shr zero a b = rw (div-pow-zero (bit_xor a b), div-pow-zero a, div-pow-zero b) refl
bit_xor-shr (suc k) a b =
    rw (div-pow-suc (bit_xor a b) k, div-pow-suc a k, div-pow-suc b k, bit_xor_half a b)
      (bit_xor-shr k (a / 2) (b / 2))

pub bit_xor-lt : (k a b : ℕ) → a < 2 ^ k → b < 2 ^ k → bit_xor a b < 2 ^ k
bit_xor-lt zero zero zero p q = omega arith
bit_xor-lt zero (suc a) b p q = absurd (omega arith)
bit_xor-lt zero zero (suc b) p q = absurd (omega arith)
bit_xor-lt (suc k) a b p q = omega (
  arith,
  bit_xor_step a b,
  pow-suc 2 k,
  bit_xor-lt k (a / 2) (b / 2) (omega (arith, pow-suc 2 k)) (omega (arith, pow-suc 2 k)),
)

comm_fuel : (n a b : ℕ) → a ≤ n → b ≤ n → bit_xor a b ≡ bit_xor b a
comm_fuel zero zero zero p q = refl
comm_fuel zero (suc a) b p q = absurd (omega arith)
comm_fuel zero zero (suc b) p q = absurd (omega arith)
comm_fuel (suc n) a b p q = omega (
  arith,
  bit_xor_step a b,
  bit_xor_step b a,
  comm_fuel n (a / 2) (b / 2) (omega arith) (omega arith),
)

pub bit_xor_comm : (a b : ℕ) → bit_xor a b ≡ bit_xor b a
bit_xor_comm a b = comm_fuel (a + b) a b (omega arith) (omega arith)

assoc_fuel : (n a b c : ℕ) → a + b + c ≤ n → bit_xor (bit_xor a b) c ≡ bit_xor a (bit_xor b c)
assoc_fuel zero zero zero zero p = refl
assoc_fuel zero (suc a) b c p = absurd (omega arith)
assoc_fuel zero zero (suc b) c p = absurd (omega arith)
assoc_fuel zero zero zero (suc c) p = absurd (omega arith)
assoc_fuel (suc n) a b c p = elim (dec_le 1 (a + b + c)) [
  | no empty ↦ assoc_fuel n a b c (omega arith)
  | yes positive ↦ omega (
    arith,
    ap (λ x. bit_xor x (c / 2)) (bit_xor_half a b)
        ∙ assoc_fuel n (a / 2) (b / 2) (c / 2) (omega arith)
        ∙ ap (bit_xor (a / 2)) (sym (bit_xor_half b c)),
    bit_xor_step a b,
    bit_xor_step b c,
    bit_xor_step (bit_xor a b) c,
    bit_xor_step a (bit_xor b c),
  )
]

pub bit_xor_assoc : (a b c : ℕ) → bit_xor (bit_xor a b) c ≡ bit_xor a (bit_xor b c)
bit_xor_assoc a b c = assoc_fuel (a + b + c) a b c (omega arith)

pub bit_xor-zero : (x : ℕ) → bit_xor 0 x ≡ 0 + x
bit_xor-zero x = simp bit_xor-bitwise (omega arith)

-- `^` with a word behind the low bits puts it there.
pub bit_xor_shl : (k a w : ℕ) → a < 2 ^ k → bit_xor a (2 ^ k * w) ≡ a + 2 ^ k * w
bit_xor_shl zero zero w p = bit_xor-zero (2 ^ 0 * w)
bit_xor_shl zero (suc a) w p = absurd (omega arith)
bit_xor_shl (suc k) a w p = omega (
  arith,
  bit_xor_step a (2 ^ suc k * w),
  ap (bit_xor (a / 2)) half ∙ bit_xor_shl k (a / 2) w (omega (arith, pow-suc 2 k)),
  double,
)
  where
    double : 2 ^ suc k * w ≡ 2 * (2 ^ k * w)
    double = ap (λ x. x * w) (pow-suc 2 k) ∙ omega arith

    half : 2 ^ suc k * w / 2 ≡ 2 ^ k * w
    half = omega (arith, double)
