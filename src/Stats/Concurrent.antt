-- ===== src/Stats/Concurrent.antt =====
-- `recordSample` and `computeStats` of include/stats/LatencyStats.hpp on two threads, as the I/O
-- threads and the main thread run them: each access to a slot, to `m_writeIdx` and to `m_count` is
-- a step, and the two threads interleave in any order. The plain 64-bit accesses to a slot are
-- taken as indivisible, and the accesses of one thread are seen in their order.
pub mod Slots
pub mod Invariant
pub mod Copies
pub mod Preserve
pub mod Safety
mod Tests
use agent_team_test.Prelude.{
  ℕ, zero, suc, ◌+◌, ◌-◌, ◌%◌, ◌≡◌, List, [], ◌∷◌, ◌++◌, get_or, set, leb, if◌then◌else◌, u64,
}
use agent_team_test.Stats.{Stats, init, num_samples}

-- Where the recording thread stands in `recordSample`: outside, behind the store of the sample, or
-- behind the store of the write index.
pub data Recorder : Type 0 where
  idle : Recorder
  stored : Recorder
  indexed : Recorder

-- Where the other thread stands in `computeStats`: before the load of the count, before the load of
-- the write index (with the count), or at the copy, with the slots left and the samples copied.
pub data Reader : Type 0 where
  start : Reader
  counted : ℕ → Reader
  copying : ℕ → List ℕ → List ℕ → Reader

-- What the collector and the threads hold; `recorded` is every sample stored so far.
pub record System : Type 0 where
  pub stats : Stats
  pub recorder : Recorder
  pub reader : Reader
  pub recorded : List ℕ

-- The slots `first`, `first + 1`, …, as many as are asked for.
unfoldable pub slots_from : ℕ → ℕ → List ℕ
slots_from first zero = []
slots_from first (suc n) = first ∷ slots_from (first + 1) n

-- `m_samples[idx] = latency_ns`
unfoldable pub store_sample : ℕ → Stats → Stats
store_sample latency_ns s = record s { samples = set s.samples s.write_idx latency_ns }

module _ (capacity : ℕ) where
  -- `m_writeIdx.store((idx + 1U) % Capacity)`
  unfoldable pub advance_index : Stats → Stats
  advance_index s = record s { write_idx = u64 (s.write_idx + 1) % capacity }

  -- `m_count.fetch_add(1U)`
  unfoldable pub add_count : Stats → Stats
  add_count s = record s { count = u64 (s.count + 1) }

  -- The slots that are copied, in their order, when the buffer has wrapped.
  unfoldable pub wrapped_slots : ℕ → List ℕ
  unfolding slots_from
  wrapped_slots write_pos = slots_from write_pos (capacity - write_pos) ++ slots_from 0 write_pos

  -- What follows the load of the count; from a count of 0 nothing is copied.
  unfoldable pub after_count : Stats → Reader
  unfolding slots_from
  after_count s =
      if leb s.count capacity
      then Reader.copying s.count (slots_from 0 (num_samples capacity s)) []
      else Reader.counted s.count

  pub data Step (s : System) : System → Type 0 where
    stores :
        (latency_ns : ℕ)
        → s.recorder ≡ Recorder.idle
        → Step s (record s {
          stats = store_sample latency_ns s.stats;
          recorder = Recorder.stored;
          recorded = s.recorded ++ latency_ns ∷ [];
        })
    advances :
        s.recorder ≡ Recorder.stored
        → Step s (record s { stats = advance_index s.stats; recorder = Recorder.indexed })
    counts :
        s.recorder ≡ Recorder.indexed
        → Step s (record s { stats = add_count s.stats; recorder = Recorder.idle })
    loads_count : s.reader ≡ Reader.start → Step s (record s { reader = after_count s.stats })
    loads_index :
        (total : ℕ)
        → s.reader ≡ Reader.counted total
        → Step s (record s { reader = Reader.copying total (wrapped_slots s.stats.write_idx) [] })
    copies :
        (total slot : ℕ) (left copied : List ℕ)
        → s.reader ≡ Reader.copying total (slot ∷ left) copied
        → Step s (record s {
          reader = Reader.copying total left (copied ++ get_or s.stats.samples slot 0 ∷ []);
        })

  -- A new collector, and any steps.
  pub data Reach : System → Type 0 where
    fresh : Reach (record {
      stats = init capacity;
      recorder = Recorder.idle;
      reader = Reader.start;
      recorded = [];
    })
    then_step : {s t : System} → Reach s → Step s t → Reach t
