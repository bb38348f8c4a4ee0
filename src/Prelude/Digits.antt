-- ===== src/Prelude/Digits.antt =====
-- The recursion on binary digits that the native bit operations stand for: its fuel, and the
-- equation for the lowest digit.
use Prim.Native.Nat.{ℕ, zero, suc, ◌+◌, ◌-◌, ◌*◌, ◌/◌, ◌%◌, ◌≤◌, digits}
use mathlib.Core.Path.{◌≡◌, refl, ap, ◌∙◌}
use native.Mathlib.Omega.{arith}

more : ℕ → ℕ → ℕ
more zero i = i
more (suc k) i = suc (more k i)

more_lem : (k i : ℕ) → more k i ≡ k + i
unfolding more
more_lem zero i = omega arith
more_lem (suc k) i = omega (arith, more_lem k i)

module _ (at_end : ℕ → ℕ) (digit : ℕ → ℕ → ℕ) where
  -- The first word is fuel enough for itself: one step more changes nothing.
  one_more : (i x y : ℕ) → x ≤ i → digits at_end digit (suc i) x y ≡ digits at_end digit i x y
  one_more zero zero y h = refl
  one_more (suc i) zero y h = refl
  one_more zero (suc x) y h = absurd (omega arith)
  one_more (suc i) (suc x) y h = omega (arith, one_more i (suc x / 2) (y / 2) (omega arith))

  spare_fuel :
      (k i x y : ℕ) → x ≤ i → digits at_end digit (more k i) x y ≡ digits at_end digit i x y
  unfolding more
  spare_fuel zero i x y h = refl
  spare_fuel (suc k) i x y h =
      one_more (more k i) x y (omega (arith, more_lem k i)) ∙ spare_fuel k i x y h

  own_fuel : (i x y : ℕ) → x ≤ i → digits at_end digit i x y ≡ digits at_end digit x x y
  own_fuel i x y h =
      ap (λ n. digits at_end digit n x y) (omega (arith, more_lem (i - x) x))
      ∙ spare_fuel (i - x) x x y (omega arith)

  pub low_digit :
      (x y : ℕ)
      → digits at_end digit (suc x) (suc x) y
        ≡ digits at_end digit (suc x / 2) (suc x / 2) (y / 2) * 2 + digit (suc x % 2) (y % 2)
  low_digit x y = omega (arith, own_fuel x (suc x / 2) (y / 2) (omega arith))
