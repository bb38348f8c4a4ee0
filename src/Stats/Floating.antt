-- ===== src/Stats/Floating.antt =====
-- What `LatencyStats` uses of the type `double`. The type and its operations are a parameter;
-- `Laws` is what IEEE 754 says of them: rounding is monotone.
use agent_team_test.Prelude.{ℕ, ◌*◌, ◌^◌, ◌≤◌, Bool}

pub record Double : Type 1 where
  pub D : Type 0
  -- `literal m k` is the constant m / 10^k.
  pub literal : ℕ → ℕ → D
  -- `static_cast<double>`
  pub from_size : ℕ → D
  pub add : D → D → D
  pub sub : D → D → D
  pub mul : D → D → D
  pub div : D → D → D
  pub sqrt : D → D
  pub lt : D → D → Bool
  -- `static_cast<size_t>(std::ceil(x))`
  pub ceil_size : D → ℕ

pub record Laws (d : Double) : Type 1 where
  pub Le : d.D → d.D → Type 0
  pub from_size_mono : (m n : ℕ) → m ≤ n → Le (d.from_size m) (d.from_size n)
  pub literal_mono : (m k n l : ℕ) → m * 10 ^ l ≤ n * 10 ^ k → Le (d.literal m k) (d.literal n l)
  pub div_mono : (a b c : d.D) → Le (d.literal 1 0) c → Le a b → Le (d.div a c) (d.div b c)
  pub mul_mono :
      (a b : d.D) (n : ℕ) → Le a b → Le (d.mul a (d.from_size n)) (d.mul b (d.from_size n))
  pub ceil_size_mono : (a b : d.D) → Le a b → d.ceil_size a ≤ d.ceil_size b
