-- ===== src/Stats/Concurrent/Copies.antt =====
-- What the thread in `computeStats` of include/stats/LatencyStats.hpp copies, step by step.
use agent_team_test.Prelude.{
  ℕ, ◌-◌, ◌%◌, ◌^◌, ◌≤◌, ◌<◌, ◌≡◌, refl, sym, ap, ap₂, ◌∙◌, List, [], ◌∷◌, ◌++◌, map, arith, All,
  length, get_or, min, length-append, append_assoc, dec_le, le→leb, nle→leb, All-append,
}
use mathlib.Core.Path.{subst}
use mathlib.Core.List.{map-append}
use native.Mathlib.Nat.{mod-lt}
use agent_team_test.Stats.{num_samples}
use agent_team_test.Stats.Concurrent.{Reader, System, slots_from, wrapped_slots, after_count}
use agent_team_test.Stats.Concurrent.Slots.{
  Distinct, All-weaken, length-slots_from, slots_from-below, slots_from-Distinct,
  length-wrapped_slots, wrapped_slots-below, wrapped_slots-Distinct,
}
use agent_team_test.Stats.Concurrent.Invariant.{
  index_lag, sample_at, IsRecent, HasSample, Copied, ReaderOk, Inv,
}

module _ (capacity : ℕ) (pos : 0 < capacity) (fits : capacity < 2 ^ 64) where
  -- The slots that a reader starts to copy.
  start_copy :
      (total : ℕ) (xs left : List ℕ)
      → Distinct left
      → All (λ i. i < capacity) left
      → length left ≡ min total capacity
      → total ≤ length xs
      → All (λ i. i < length xs) left
      → Copied capacity total xs left []
  start_copy total xs left apart below size h written = record {
    numbers = [];
    copied_eq = refl;
    recent = tt;
    apart = apart;
    written = both left below written;
    size = omega arith;
  }
    where
      both :
          (l : List ℕ)
          → All (λ i. i < capacity) l
          → All (λ i. i < length xs) l
          → All (λ i. (i < capacity) × (i < length xs)) l
      both [] a b = tt
      both (i ∷ l) a b = ((a.0, b.0), both l a.1 b.1)

  pub after_count-ReaderOk :
      {s : System} → Inv capacity s → ReaderOk capacity s.recorded (after_count capacity s.stats)
  unfolding after_count
  after_count-ReaderOk {s} inv = elim (dec_le s.stats.count capacity) [
    | yes fit ↦ rw (le→leb s.stats.count capacity fit) (
      (omega (arith, inv.counted)),
      start_copy s.stats.count s.recorded (slots_from 0 n) (slots_from-Distinct 0 n)
          (slots_from-below 0 n capacity (omega (arith, number))) (length-slots_from 0 n ∙ number)
          (omega (arith, inv.counted))
          (slots_from-below 0 n (length s.recorded) (omega (arith, number, inv.counted))),
    )
    | no over ↦ rw (nle→leb s.stats.count capacity over) (omega (arith, inv.counted), omega arith)
  ]
    where
      n : ℕ
      n = num_samples capacity s.stats

      number : num_samples capacity s.stats ≡ min s.stats.count capacity
      number = unfold num_samples in ground arith

  pub wrapped-ReaderOk :
      {s : System} (total : ℕ)
      → s.reader ≡ Reader.counted total
      → Inv capacity s
      → Copied capacity total s.recorded (wrapped_slots capacity s.stats.write_idx) []
  wrapped-ReaderOk {s} total at inv =
      start_copy total s.recorded (wrapped_slots capacity s.stats.write_idx)
        (wrapped_slots-Distinct capacity s.stats.write_idx inside) below
        (length-wrapped_slots capacity s.stats.write_idx inside ∙ omega (arith, ok)) ok.0
        (All-weaken (λ i h. omega (arith, ok)) (wrapped_slots capacity s.stats.write_idx) below)
    where
      ok : (total ≤ length s.recorded) × (capacity < total)
      ok = subst (ReaderOk capacity s.recorded) at inv.reader

      inside : s.stats.write_idx ≤ capacity
      inside = omega (arith, inv.index, mod-lt (length s.recorded - index_lag s.recorder) pos)

      below : All (λ i. i < capacity) (wrapped_slots capacity s.stats.write_idx)
      below = wrapped_slots-below capacity s.stats.write_idx inside

  pub copies-Copied :
      (total slot : ℕ) (xs samples left copied : List ℕ)
      → total ≤ length xs
      → (slot < capacity → slot < length xs → HasSample capacity xs samples slot)
      → Copied capacity total xs (slot ∷ left) copied
      → Copied capacity total xs left (copied ++ get_or samples slot 0 ∷ [])
  copies-Copied total slot xs samples left copied counted read c = record {
    numbers = c.numbers ++ k.number ∷ [];
    copied_eq =
        ap₂ (λ l v. l ++ v ∷ []) c.copied_eq k.holds
        ∙ sym (map-append (sample_at xs) c.numbers (k.number ∷ []));
    recent =
        All-append (IsRecent capacity total xs) c.numbers (k.number ∷ []) c.recent
          (record { inside = k.recent.inside; recent = omega (arith, k.recent.recent) }, tt);
    apart =
        subst Distinct
          (sym (
            ap (λ l. l ++ left)
              (map-append (λ n. n % capacity) c.numbers (k.number ∷ [])
                ∙ ap (λ i. map (λ n. n % capacity) c.numbers ++ i ∷ []) k.falls)
            ∙ append_assoc (map (λ n. n % capacity) c.numbers) (slot ∷ []) left))
          c.apart;
    written = c.written.1;
    size = omega (arith, c.size, length-append {0} c.numbers (k.number ∷ []));
  }
    where
      k : HasSample capacity xs samples slot
      k = read c.written.0.0 c.written.0.1
