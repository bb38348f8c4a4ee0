-- ===== src/Stats/Tests.antt =====
-- The latency statistics at concrete inputs, with fixed-point numbers in thousandths for `double`.
use agent_team_test.Prelude.{
  ℕ, zero, suc, ◌+◌, ◌*◌, ◌/◌, ◌^◌, ◌≤◌, ◌<◌, ◌≡◌, refl, List, [], ◌∷◌, arith, leb, Option, none,
  some, replicate, codes, ◌++◌,
}
use native.Mathlib.Nat.{
  le-div_iff_mul-le, div-mul-le_self, mul-le-mul_right, le_of_mul-le-mul_right, one-le-pow,
}
use agent_team_test.Stats.{
  init, record_sample, snapshot, num_samples, sort, rank, summarize, empty_result,
}
use agent_team_test.Stats.Text.{format_bar, clamp_filled, full_cell, empty_cell, to_string}
use agent_team_test.Format.Decimal.{decimal}
use agent_team_test.Stats.Floating.{Laws}
use agent_team_test.Stats.Thousandths.{thousandths}
use agent_team_test.Stats.Buffer.{record_all, snapshot-record_all}
use agent_team_test.Stats.Percentile.{summarize_ordered}

abbrev samples : List ℕ
samples = 30 ∷ 10 ∷ 50 ∷ 20 ∷ 40 ∷ []

-- The last three of five samples.
snapshot-samples : snapshot 3 (record_all 3 samples (init 3)) ≡ 50 ∷ 20 ∷ 40 ∷ []
unfolding snapshot num_samples record_all record_sample init
snapshot-samples = refl

snapshot-record_all_example :
    (snapshot 3 (record_all 3 samples (init 3)) ≡ 50 ∷ 20 ∷ 40 ∷ [])
    × ((record_all 3 samples (init 3)).count ≡ 5)
snapshot-record_all_example =
    snapshot-record_all 3 (omega arith) (omega arith) samples (omega arith)

-- The median of the five is the third of them.
rank_of_median : rank thousandths 50000 5 ≡ 3
unfolding rank
rank_of_median = refl

fraction_mono : (a b p q : ℕ) → 0 < p → 0 < q → a * q ≤ b * p → a / p ≤ b / q
fraction_mono a b p q hp hq h =
    (le-div_iff_mul-le {k = q} {x = a / p} {y = b} hq).1
      (le_of_mul-le-mul_right {m = a / p * q} {n = b} {k = p} scaled hp)
  where
    scaled : a / p * q * p ≤ b * p
    scaled = omega (arith, mul-le-mul_right q (div-mul-le_self a p))

div_right_mono : (a b c : ℕ) → a ≤ b → a / c ≤ b / c
div_right_mono a b zero h = omega arith
div_right_mono a b (suc c) h =
    fraction_mono a b (suc c) (suc c) (omega arith) (omega arith) (mul-le-mul_right (suc c) h)

abbrev thousandths_laws : Laws thousandths
thousandths_laws = record {
  Le = λ a b. a ≤ b;
  from_size_mono = λ m n h. omega arith;
  literal_mono = λ m k n l h.
      fraction_mono (m * 1000) (n * 1000) (10 ^ k) (10 ^ l) (one-le-pow k 10 (omega arith))
        (one-le-pow l 10 (omega arith)) (grind arith);
  div_mono = λ a b c pos h. div_right_mono (a * 1000) (b * 1000) c (omega arith);
  mul_mono = λ a b n h.
      div_right_mono (a * (n * 1000)) (b * (n * 1000)) 1000 (mul-le-mul_right (n * 1000) h);
  ceil_size_mono = λ a b h. div_right_mono (a + 999) (b + 999) 1000 (omega arith);
}

summarize_ordered_example :
    let r = summarize thousandths 5 (sort samples) in
    (r.min_us ≤ r.p50_us)
    × (r.p50_us ≤ r.p95_us)
    × (r.p95_us ≤ r.p99_us)
    × (r.p99_us ≤ r.p999_us)
    × (r.p999_us ≤ r.p9999_us)
    × (r.p9999_us ≤ r.max_us)
summarize_ordered_example = summarize_ordered thousandths thousandths_laws 5 samples (omega arith)

-- `static_cast<int>` of a number that is not negative.
abbrev truncated : ℕ → Option ℕ
truncated x = some (x / 1000)

half_bar :
    format_bar thousandths decimal leb truncated 1500 2000 1000
    ≡ replicate 10 full_cell ++ replicate 10 empty_cell
unfolding format_bar clamp_filled
half_bar = refl

flat_bar : format_bar thousandths decimal leb truncated 5 1000 1000 ≡ replicate 20 full_cell
unfolding format_bar
flat_bar = refl

negative_bar :
    format_bar thousandths decimal leb (λ x. none) 500 2000 1000 ≡ replicate 20 empty_cell
unfolding format_bar clamp_filled
negative_bar = refl

reports_nothing :
    to_string thousandths decimal leb truncated (codes "RX") (empty_result thousandths)
    ≡ codes "[RX] No samples collected\n"
unfolding to_string empty_result
reports_nothing = refl
