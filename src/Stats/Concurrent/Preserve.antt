-- ===== src/Stats/Concurrent/Preserve.antt =====
-- Every step of the recording and of the reading thread keeps the invariant.
use agent_team_test.Prelude.{
  ℕ, ◌+◌, ◌-◌, ◌%◌, ◌^◌, ◌≤◌, ◌<◌, ◌≡◌, refl, sym, ap, ◌∙◌, [], ◌∷◌, ◌++◌, arith, length, u64,
  length-set, length-replicate,
}
use mathlib.Core.Path.{subst}
use native.Mathlib.Nat.{mod-lt, mod-add-mod, zero-mod}
use agent_team_test.Stats.{init}
use agent_team_test.Stats.Concurrent.{
  Recorder, Reader, System, Step, Reach, store_sample, advance_index, add_count, stores, advances,
  counts, loads_count, loads_index, copies, fresh, then_step,
}
use agent_team_test.Stats.Concurrent.Invariant.{
  index_lag, count_lag, ReaderOk, Inv, length-snoc, ReaderOk-snoc, store_sample-HasSample,
}
use agent_team_test.Stats.Concurrent.Copies.{after_count-ReaderOk, wrapped-ReaderOk, copies-Copied}

minus_zero : (n : ℕ) → n - 0 ≡ n
minus_zero n = omega arith

module _ (capacity : ℕ) (pos : 0 < capacity) (fits : capacity < 2 ^ 64) where
  init-Inv : Inv capacity (record {
    stats = init capacity;
    recorder = Recorder.idle;
    reader = Reader.start;
    recorded = [];
  })
  unfolding init
  init-Inv = record {
    slots = length-replicate capacity 0;
    lag = omega arith;
    index = sym (zero-mod capacity);
    counted = refl;
    samples = λ i below reach. absurd (omega arith);
    reader = tt;
  }

  stores-Inv :
      {s : System} (x : ℕ)
      → s.recorder ≡ Recorder.idle
      → Inv capacity s
      → Inv capacity (record s {
        stats = store_sample x s.stats;
        recorder = Recorder.stored;
        recorded = s.recorded ++ x ∷ [];
      })
  unfolding store_sample
  stores-Inv {s} x at inv = record {
    slots = length-set s.stats.samples s.stats.write_idx x ∙ inv.slots;
    lag = omega (arith, length-snoc s.recorded x);
    index = index ∙ ap (λ n. n % capacity) (omega (arith, length-snoc s.recorded x));
    counted = omega (arith, inv.counted, ap count_lag at, length-snoc s.recorded x);
    samples = λ i below reach.
        store_sample-HasSample capacity pos fits s.recorded s.stats.samples s.stats.write_idx x i
          inv.slots index (inv.samples i below) below reach;
    reader = ReaderOk-snoc capacity s.recorded x s.reader inv.reader;
  }
    where
      index : s.stats.write_idx ≡ length s.recorded % capacity
      index =
          inv.index
          ∙ ap (λ r. (length s.recorded - index_lag r) % capacity) at
          ∙ ap (λ n. n % capacity) (minus_zero (length s.recorded))

  next_index : (w n : ℕ) → 1 ≤ n → w ≡ (n - 1) % capacity → u64 (w + 1) % capacity ≡ n % capacity
  next_index w n h e =
      ap (λ k. k % capacity) (omega (arith, mod-lt (n - 1) pos))
      ∙ ap (λ k. (k + 1) % capacity) e
      ∙ mod-add-mod (n - 1) capacity 1
      ∙ ap (λ k. k % capacity) (omega arith)

  advances-Inv :
      {s : System}
      → s.recorder ≡ Recorder.stored
      → Inv capacity s
      → Inv capacity
          (record s { stats = advance_index capacity s.stats; recorder = Recorder.indexed })
  unfolding advance_index
  advances-Inv {s} at inv = record {
    slots = inv.slots;
    lag = omega arith;
    index =
        next_index s.stats.write_idx (length s.recorded) (omega (arith, inv.lag, ap index_lag at))
          (inv.index ∙ ap (λ r. (length s.recorded - index_lag r) % capacity) at)
        ∙ ap (λ n. n % capacity) (sym (minus_zero (length s.recorded)));
    counted = omega (arith, inv.counted, ap count_lag at);
    samples = inv.samples;
    reader = inv.reader;
  }

  counts-Inv :
      {s : System}
      → length s.recorded < 2 ^ 64
      → s.recorder ≡ Recorder.indexed
      → Inv capacity s
      → Inv capacity (record s { stats = add_count capacity s.stats; recorder = Recorder.idle })
  unfolding add_count
  counts-Inv {s} small at inv = record {
    slots = inv.slots;
    lag = omega arith;
    index = inv.index ∙ ap (λ r. (length s.recorded - index_lag r) % capacity) at;
    counted = omega (arith, inv.counted, ap count_lag at);
    samples = inv.samples;
    reader = inv.reader;
  }

  -- A step of the reader changes nothing else.
  with_reader :
      {s : System} {r : Reader}
      → Inv capacity s
      → ReaderOk capacity s.recorded r
      → Inv capacity (record s { reader = r })
  with_reader inv ok = record {
    slots = inv.slots;
    lag = inv.lag;
    index = inv.index;
    counted = inv.counted;
    samples = inv.samples;
    reader = ok;
  }

  pub Step-Inv :
      {s t : System}
      → length s.recorded < 2 ^ 64
      → Step capacity s t
      → Inv capacity s
      → Inv capacity t
  Step-Inv small (stores x at) inv = stores-Inv x at inv
  Step-Inv small (advances at) inv = advances-Inv at inv
  Step-Inv small (counts at) inv = counts-Inv small at inv
  Step-Inv small (loads_count at) inv = with_reader inv (after_count-ReaderOk capacity pos fits inv)
  Step-Inv {s} small (loads_index total at) inv =
      with_reader inv (ok.0, wrapped-ReaderOk capacity pos fits total at inv)
    where
      ok : (total ≤ length s.recorded) × (capacity < total)
      ok = subst (ReaderOk capacity s.recorded) at inv.reader
  Step-Inv {s} small (copies total slot left copied at) inv = with_reader inv (
    ok.0,
    copies-Copied capacity pos fits total slot s.recorded s.stats.samples left copied ok.0
        (inv.samples slot) ok.1,
  )
    where
      ok : ReaderOk capacity s.recorded (Reader.copying total (slot ∷ left) copied)
      ok = subst (ReaderOk capacity s.recorded) at inv.reader

  -- The number of samples only grows.
  recorded_mono : {s t : System} → Step capacity s t → length s.recorded ≤ length t.recorded
  recorded_mono {s} (stores x at) = omega (arith, length-snoc s.recorded x)
  recorded_mono (advances at) = omega arith
  recorded_mono (counts at) = omega arith
  recorded_mono (loads_count at) = omega arith
  recorded_mono (loads_index total at) = omega arith
  recorded_mono (copies total slot left copied at) = omega arith

  pub Reach-Inv : {s : System} → length s.recorded < 2 ^ 64 → Reach capacity s → Inv capacity s
  Reach-Inv small fresh = init-Inv
  Reach-Inv small (then_step {s} r step) =
      let before : length s.recorded < 2 ^ 64 = omega (arith, recorded_mono step) in
      Step-Inv before step (Reach-Inv before r)
