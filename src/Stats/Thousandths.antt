-- ===== src/Stats/Thousandths.antt =====
-- Fixed-point numbers in thousandths in the place of `double`, for runs of the model.
use agent_team_test.Prelude.{ℕ, ◌+◌, ◌-◌, ◌*◌, ◌/◌, ◌^◌, ltb}
use agent_team_test.Stats.Floating.{Double}

abbrev pub thousandths : Double
thousandths = record {
  D = ℕ;
  literal = λ m k. m * 1000 / 10 ^ k;
  from_size = λ n. n * 1000;
  add = λ a b. a + b;
  sub = λ a b. a - b;
  mul = λ a b. a * b / 1000;
  div = λ a b. a * 1000 / b;
  sqrt = λ a. a;
  lt = ltb;
  ceil_size = λ a. (a + 999) / 1000;
}
