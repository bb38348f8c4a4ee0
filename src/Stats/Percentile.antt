-- ===== src/Stats/Percentile.antt =====
-- The percentiles of `computeStats`: the nearest-rank rule and their order.
use agent_team_test.Prelude.{
  ℕ, ◌-◌, ◌≤◌, ◌<◌, ◌≡◌, refl, ap, ◌∙◌, List, [], ◌∷◌, arith, length, get_or, leb, ltb,
  if◌then◌else◌,
}
use agent_team_test.Stats.Floating.{Double, Laws}
use agent_team_test.Stats.{sort, clamp_rank, to_us, rank, percentile, summarize}
use agent_team_test.Stats.Sorted.{sort-IsSorted, length-sort, get_or_mono}

clamp_rank_bounds :
    (size idx : ℕ) → 0 < size → (1 ≤ clamp_rank size idx) × (clamp_rank size idx ≤ size)
unfolding clamp_rank
clamp_rank_bounds size idx h = ground arith

clamp_rank_mono : (size i j : ℕ) → i ≤ j → clamp_rank size i ≤ clamp_rank size j
unfolding clamp_rank
clamp_rank_mono size i j h = ground arith

-- The sample that a rank stands for.
abbrev pub ranked : List ℕ → ℕ → ℕ
ranked xs idx = get_or (sort xs) (clamp_rank (length xs) idx - 1) 0

ranked_mono : (xs : List ℕ) (i j : ℕ) → 0 < length xs → i ≤ j → ranked xs i ≤ ranked xs j
ranked_mono xs i j pos h =
    get_or_mono (sort xs) (clamp_rank (length xs) i - 1) (clamp_rank (length xs) j - 1)
      (sort-IsSorted xs) (omega (arith, clamp_rank_mono (length xs) i j h))
      (omega (arith, length-sort xs, clamp_rank_bounds (length xs) j pos))

module _ (d : Double) where
  open d use {D, literal, from_size, mul, div, ceil_size}

  percentile-sort :
      (xs : List ℕ) (p : D)
      → 0 < length xs
      → percentile d (sort xs) p ≡ to_us d (ranked xs (rank d p (length xs)))
  percentile-sort xs p h =
      at (sort xs) (rw length-sort h)
      ∙ ap (λ n. to_us d (get_or (sort xs) (clamp_rank n (rank d p n) - 1) 0)) (length-sort xs)
    where
      at :
          (l : List ℕ)
          → 0 < length l
          → percentile d l p
            ≡ to_us d (get_or l (clamp_rank (length l) (rank d p (length l)) - 1) 0)
      at [] k = absurd (omega arith)
      at (x ∷ l) k = unfold percentile in refl

  -- The nearest rank of a percentage among `size` samples: `ceil(p / 100 * size)`, held between 1
  -- and `size`.
  abbrev pub nearest_rank : D → ℕ → ℕ
  nearest_rank p size =
      let n : ℕ = ceil_size (mul (div p (literal 100 0)) (from_size size)) in
      if ltb n 1 then 1 else if leb size n then size else n

  module _ (laws : Laws d) where
    open laws use {Le, from_size_mono, literal_mono, div_mono, mul_mono, ceil_size_mono}

    to_us_mono : (m n : ℕ) → m ≤ n → Le (to_us d m) (to_us d n)
    unfolding to_us
    to_us_mono m n h = div_mono _ _ _ (literal_mono 1 0 1000 0 (omega arith)) (from_size_mono m n h)

    rank_mono : (p q : D) (n : ℕ) → Le p q → rank d p n ≤ rank d q n
    unfolding rank
    rank_mono p q n h =
        ceil_size_mono _ _
          (mul_mono _ _ n (div_mono _ _ _ (literal_mono 1 0 100 0 (omega arith)) h))

    percentile_mono :
        (xs : List ℕ) (p q : D)
        → 0 < length xs
        → Le p q
        → Le (percentile d (sort xs) p) (percentile d (sort xs) q)
    percentile_mono xs p q pos h =
        rw (percentile-sort xs p pos, percentile-sort xs q pos)
          (to_us_mono _ _ (ranked_mono xs _ _ pos (rank_mono p q (length xs) h)))

    -- The statistics of at least one sample are ordered, if the operations of `double` are
    -- monotone: the minimum is at most the median, which is at most the 95th percentile, and so on
    -- up to the maximum.
    pub summarize_ordered :
        (total : ℕ) (xs : List ℕ)
        → 0 < length xs
        → let r = summarize d total (sort xs) in
          Le r.min_us r.p50_us
          × Le r.p50_us r.p95_us
          × Le r.p95_us r.p99_us
          × Le r.p99_us r.p999_us
          × Le r.p999_us r.p9999_us
          × Le r.p9999_us r.max_us
    unfolding summarize
    summarize_ordered total xs pos = (
      rw (percentile-sort xs _ pos)
          (to_us_mono _ _ (get_or_mono (sort xs) 0 _ (sort-IsSorted xs) (omega arith) (last _))),
      percentile_mono xs _ _ pos (literal_mono 50 0 95 0 (omega arith)),
      percentile_mono xs _ _ pos (literal_mono 95 0 99 0 (omega arith)),
      percentile_mono xs _ _ pos (literal_mono 99 0 999 1 (omega arith)),
      percentile_mono xs _ _ pos (literal_mono 999 1 9999 2 (omega arith)),
      rw (percentile-sort xs _ pos) (
          to_us_mono _ _ (
            get_or_mono (sort xs) _ _ (sort-IsSorted xs) (below _)
              (omega (arith, length-sort xs)))),
    )
      where
        last : (i : ℕ) → clamp_rank (length xs) i - 1 < length (sort xs)
        last i = omega (arith, length-sort xs, clamp_rank_bounds (length xs) i pos)

        below : (i : ℕ) → clamp_rank (length xs) i - 1 ≤ length (sort xs) - 1
        below i = omega (arith, length-sort xs, clamp_rank_bounds (length xs) i pos)
