-- ===== src/Stats/Concurrent/Tests.antt =====
-- A run of a recording and a reading thread over two slots: the slot that is copied was overwritten
-- after the count was loaded.
use agent_team_test.Prelude.{ℕ, ◌≡◌, refl, List, [], ◌∷◌, map, arith, All, length, min}
use agent_team_test.Stats.{init, num_samples}
use agent_team_test.Stats.Concurrent.{
  Recorder, Reader, System, Reach, slots_from, store_sample, advance_index, add_count, after_count,
  stores, advances, counts, loads_count, copies, fresh, then_step,
}
use agent_team_test.Stats.Concurrent.Slots.{Distinct}
use agent_team_test.Stats.Concurrent.Invariant.{sample_at, IsRecent}
use agent_team_test.Stats.Concurrent.Safety.{snapshot_of_recorded}

abbrev overtaken : System
overtaken = record {
  stats = record { samples = 7 ∷ 6 ∷ []; write_idx = 0; count = 2 };
  recorder = Recorder.stored;
  reader = Reader.copying 1 [] (7 ∷ []);
  recorded = 5 ∷ 6 ∷ 7 ∷ [];
}

one_recorded : Reach 2 (record {
  stats = record { samples = 5 ∷ 0 ∷ []; write_idx = 1; count = 1 };
  recorder = Recorder.idle;
  reader = Reader.copying 1 (0 ∷ []) [];
  recorded = 5 ∷ [];
})
unfolding init store_sample advance_index add_count after_count slots_from num_samples
one_recorded =
    then_step
      (then_step (then_step (then_step fresh (stores 5 refl)) (advances refl)) (counts refl))
      (loads_count refl)

overtaken-Reach : Reach 2 overtaken
unfolding store_sample advance_index add_count
overtaken-Reach =
    then_step
      (then_step
        (then_step (then_step (then_step one_recorded (stores 6 refl)) (advances refl))
          (counts refl))
        (stores 7 refl))
      (copies 1 0 [] [] refl)

abbrev copied : List ℕ
copied = 7 ∷ []

snapshot_of_recorded_example :
    (numbers : List ℕ) × (copied ≡ map (sample_at (5 ∷ 6 ∷ 7 ∷ [])) numbers)
    × Distinct numbers
    × All (IsRecent 2 1 (5 ∷ 6 ∷ 7 ∷ [])) numbers
    × (length copied ≡ min 1 2)
snapshot_of_recorded_example =
    snapshot_of_recorded 1 copied (omega arith) (omega arith) (omega arith) overtaken-Reach refl
