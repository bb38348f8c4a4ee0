-- ===== src/Stats/Concurrent/Safety.antt =====
-- What `computeStats` sees while another thread records.
use agent_team_test.Prelude.{
  ℕ, ◌^◌, ◌<◌, ◌%◌, ◌≡◌, ◌≢◌, ap, ◌∙◌, List, [], ◌∷◌, map, arith, All, length, min, append-nil,
  length-map,
}
use mathlib.Core.Path.{subst}
use agent_team_test.Stats.Concurrent.{Reader, System, Reach}
use agent_team_test.Stats.Concurrent.Slots.{Distinct}
use agent_team_test.Stats.Concurrent.Invariant.{sample_at, IsRecent, Copied, ReaderOk}
use agent_team_test.Stats.Concurrent.Preserve.{Reach-Inv}

module _ (f : ℕ → ℕ) where
  apart-map : (x : ℕ) (xs : List ℕ) → All (λ y. f x ≢ y) (map f xs) → All (λ y. x ≢ y) xs
  apart-map x [] h = tt
  apart-map x (y ∷ xs) h = (λ e. h.0 (ap f e), apart-map x xs h.1)

  Distinct-map : (xs : List ℕ) → Distinct (map f xs) → Distinct xs
  Distinct-map [] h = tt
  Distinct-map (x ∷ xs) h = (apart-map x xs h.0, Distinct-map xs h.1)

-- For a capacity from 1 to 2^64 - 1 and fewer than 2^64 samples, however a recording thread and a
-- thread in `computeStats` interleave: when the copy is complete, it holds min(count, capacity)
-- values for the count that was loaded, each of them a sample that was recorded, no sample twice,
-- and none older than the last `capacity` ones at the load of the count.
pub snapshot_of_recorded :
    {capacity : ℕ} {s : System} (total : ℕ) (copied : List ℕ)
    → 0 < capacity
    → capacity < 2 ^ 64
    → length s.recorded < 2 ^ 64
    → Reach capacity s
    → s.reader ≡ Reader.copying total [] copied
    → (numbers : List ℕ) × (copied ≡ map (sample_at s.recorded) numbers)
      × Distinct numbers
      × All (IsRecent capacity total s.recorded) numbers
      × (length copied ≡ min total capacity)
snapshot_of_recorded {capacity} {s} total copied pos fits small r at = (
  c.numbers,
  c.copied_eq,
  Distinct-map (λ k. k % capacity) c.numbers
      (subst Distinct (append-nil (map (λ k. k % capacity) c.numbers)) c.apart),
  c.recent,
  ap length c.copied_eq ∙ length-map (sample_at s.recorded) c.numbers ∙ omega (arith, c.size),
)
  where
    ok : ReaderOk capacity s.recorded (Reader.copying total [] copied)
    ok = subst (ReaderOk capacity s.recorded) at (Reach-Inv capacity pos fits small r).reader

    c : Copied capacity total s.recorded [] copied
    c = ok.1
