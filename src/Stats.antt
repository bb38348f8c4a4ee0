-- ===== src/Stats.antt =====
-- `LatencyStats<Capacity>` of include/stats/LatencyStats.hpp: a circular buffer of samples, and the
-- statistics of a snapshot of it. `std::sort` is an insertion sort here.
pub mod Floating
pub mod Buffer
pub mod Sorted
pub mod Percentile
pub mod Text
pub mod Thousandths
pub mod Columns
pub mod Concurrent
mod Tests
use agent_team_test.Prelude.{
  ℕ, zero, suc, ◌+◌, ◌-◌, ◌%◌, Bool, true, false, List, [], ◌∷◌, ◌++◌, length, get_or, set, take,
  drop, replicate, ltb, leb, ◌==◌, if◌then◌else◌, u64, sub_u64,
}
use Floating.{Double}

pub record Stats : Type 0 where
  pub samples : List ℕ
  pub write_idx : ℕ
  pub count : ℕ

pub record Result (D : Type 0) : Type 0 where
  pub count : ℕ
  pub min_us : D
  pub max_us : D
  pub mean_us : D
  pub stdev_us : D
  pub p50_us : D
  pub p95_us : D
  pub p99_us : D
  pub p999_us : D
  pub p9999_us : D

-- `std::sort` on the snapshot.
unfoldable pub insert_sorted : ℕ → List ℕ → List ℕ
insert_sorted x [] = x ∷ []
insert_sorted x (y ∷ ys) = if leb x y then x ∷ y ∷ ys else y ∷ insert_sorted x ys

unfoldable pub sort : List ℕ → List ℕ
sort [] = []
sort (x ∷ xs) = insert_sorted x (sort xs)

abbrev pub get_sample_count : Stats → ℕ
get_sample_count s = s.count

module _ (capacity : ℕ) where
  unfoldable pub init : Stats
  init = record { samples = replicate capacity 0; write_idx = 0; count = 0 }

  unfoldable pub record_sample : ℕ → Stats → Stats
  record_sample latency_ns s = record {
    samples = set s.samples s.write_idx latency_ns;
    write_idx = u64 (s.write_idx + 1) % capacity;
    count = u64 (s.count + 1);
  }

  -- The overload for two time points, in nanoseconds; the signed difference is cast to `uint64_t`.
  unfoldable pub record_interval : ℕ → ℕ → Stats → Stats
  record_interval start end s = record_sample (sub_u64 end start) s

  -- A `ScopedMeasurement`, from the time of its constructor to that of its destructor.
  unfoldable pub scoped_measurement : ℕ → ℕ → Stats → Stats
  scoped_measurement start end s = record_sample (sub_u64 end start) s

  unfoldable pub reset : Stats → Stats
  reset s = record { samples = replicate (length s.samples) 0; write_idx = 0; count = 0 }

  -- How many samples are valid.
  unfoldable pub num_samples : Stats → ℕ
  num_samples s = if ltb s.count capacity then s.count else capacity

  -- The valid samples, before they are sorted.
  unfoldable pub snapshot : Stats → List ℕ
  unfolding num_samples
  snapshot s =
      if leb s.count capacity
      then take (num_samples s) s.samples
      else drop s.write_idx s.samples ++ take s.write_idx s.samples

-- The index that `percentile` reads, from the rank rounded up.
unfoldable pub clamp_rank : ℕ → ℕ → ℕ
clamp_rank size idx =
    let low : ℕ = if idx == 0 then 1 else idx in if ltb size low then size else low

module _ (d : Double) where
  open d use {D, literal, from_size, add, sub, mul, div, sqrt, lt, ceil_size}

  -- Nanoseconds to microseconds.
  unfoldable pub to_us : ℕ → D
  to_us ns = div (from_size ns) (literal 1000 0)

  unfoldable pub rank : D → ℕ → ℕ
  rank p size = ceil_size (mul (div p (literal 100 0)) (from_size size))

  unfoldable pub percentile : List ℕ → D → D
  percentile [] p = literal 0 0
  percentile (x ∷ xs) p =
      to_us (get_or (x ∷ xs) (clamp_rank (length (x ∷ xs)) (rank p (length (x ∷ xs))) - 1) 0)

  -- The sums of the values and of their squares.
  unfoldable pub sums : List ℕ → D → D → D × D
  sums [] sum sum_sq = (sum, sum_sq)
  sums (x ∷ xs) sum sum_sq = sums xs (add sum (to_us x)) (add sum_sq (mul (to_us x) (to_us x)))

  -- `std::max(0.0, v)`
  unfoldable pub max_zero : D → D
  max_zero v = if lt (literal 0 0) v then v else literal 0 0

  unfoldable pub stdev : D → D → ℕ → D
  stdev sum sum_sq n =
      if ltb 1 n
      then sqrt (
          max_zero
            (div (sub sum_sq (div (mul sum sum) (from_size n))) (sub (from_size n) (literal 1 0))))
      else literal 0 0

  unfoldable pub empty_result : Result D
  empty_result = record {
    count = 0;
    min_us = literal 0 0;
    max_us = literal 0 0;
    mean_us = literal 0 0;
    stdev_us = literal 0 0;
    p50_us = literal 0 0;
    p95_us = literal 0 0;
    p99_us = literal 0 0;
    p999_us = literal 0 0;
    p9999_us = literal 0 0;
  }

  -- The statistics of the sorted samples.
  unfoldable pub summarize : ℕ → List ℕ → Result D
  summarize total sorted =
      let (sum, sum_sq) = sums sorted (literal 0 0) (literal 0 0) in
      record {
        count = total;
        min_us = to_us (get_or sorted 0 0);
        max_us = to_us (get_or sorted (length sorted - 1) 0);
        mean_us = div sum (from_size (length sorted));
        stdev_us = stdev sum sum_sq (length sorted);
        p50_us = percentile sorted (literal 50 0);
        p95_us = percentile sorted (literal 95 0);
        p99_us = percentile sorted (literal 99 0);
        p999_us = percentile sorted (literal 999 1);
        p9999_us = percentile sorted (literal 9999 2);
      }

  unfoldable pub compute_stats : ℕ → Stats → Result D
  compute_stats capacity s =
      if s.count == 0 then empty_result else summarize s.count (sort (snapshot capacity s))
