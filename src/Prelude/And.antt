-- ===== src/Prelude/And.antt =====
-- `x & 1` is the parity of `x`.
use Prim.Native.Nat.{ℕ, zero, suc, ◌+◌, ◌*◌, ◌/◌, ◌%◌, ◌≤◌, min, bit_and, bit_and-bitwise}
use mathlib.Core.Path.{◌≡◌, refl}
use native.Mathlib.Omega.{arith}
use agent_team_test.Prelude.Digits.{low_digit}

and_low_bit : (x y : ℕ) → bit_and x y ≡ bit_and (x / 2) (y / 2) * 2 + min (x % 2) (y % 2)
and_low_bit zero y = simp bit_and-bitwise (omega arith)
and_low_bit (suc x) y = simp bit_and-bitwise (low_digit (λ w. zero) min x y)

no_mask : (bound x : ℕ) → x ≤ bound → bit_and x 0 ≡ 0
no_mask bound zero h = refl
no_mask zero (suc x) h = absurd (omega arith)
no_mask (suc bound) (suc x) h =
    let upper : bit_and (suc x / 2) 0 ≡ 0 = no_mask bound (suc x / 2) (omega arith) in
    omega (arith, upper, and_low_bit (suc x) 0)

pub bit_and-one : (x : ℕ) → bit_and x 1 ≡ x % 2
bit_and-one x =
    let upper : bit_and (x / 2) 0 ≡ 0 = no_mask (x / 2) (x / 2) (omega arith) in
    omega (arith, upper, and_low_bit x 1)
