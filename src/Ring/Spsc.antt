-- ===== src/Ring/Spsc.antt =====
-- `push` and `pop` as the steps of one producer and one consumer thread: each load or store of an
-- index, each read or write of a slot's field and each comparison is a step, and the two threads
-- interleave in any order. An acquire load sees what was stored before the release store that it
-- reads from, so for two threads with one writer for each index these are all the runs.
pub mod Invariant
pub mod Moves
pub mod Preserve
pub mod Safety
use agent_team_test.Prelude.{
  ℕ, ◌≤◌, ◌<◌, ◌≡◌, ◌≢◌, List, [], ◌∷◌, ◌++◌, length, take, set, u16, All, Option, none, some,
}
use agent_team_test.Ring.{Packet, Ring, next_index, copy_to}
use agent_team_test.Ring.Window.{slot_at}

-- Where the producer stands in `push`: the bytes to push, and `currentWrite`.
pub data Producer : Type 0 where
  idle : Producer
  loaded : List ℕ → ℕ → Producer
  free : List ℕ → ℕ → Producer
  sized : List ℕ → ℕ → Producer
  written : List ℕ → ℕ → Producer

-- Where the consumer stands in `pop`: `currentRead`, then `actualLength`, then the bytes copied.
pub data Consumer : Type 0 where
  idle : Consumer
  loaded : ℕ → Consumer
  ready : ℕ → Consumer
  sized : ℕ → ℕ → Consumer
  copied : ℕ → List ℕ → Consumer

-- The slot whose fields the next step of a thread accesses.
abbrev pub writes_slot : Producer → Option ℕ
writes_slot (Producer.free bytes w) = some w
writes_slot (Producer.sized bytes w) = some w
writes_slot _ = none

abbrev pub reads_slot : Consumer → Option ℕ
reads_slot (Consumer.ready i) = some i
reads_slot (Consumer.sized i n) = some i
reads_slot _ = none

-- The ring, the threads, and what calls have pushed and popped so far.
pub record System : Type 0 where
  pub ring : Ring
  pub producer : Producer
  pub consumer : Consumer
  pub sent : List (List ℕ)
  pub received : List (List ℕ)

abbrev pub system : Ring → Producer → Consumer → List (List ℕ) → List (List ℕ) → System
system r p c xs ys = record { ring = r; producer = p; consumer = c; sent = xs; received = ys }

-- `m_buffer[w].length = …` and `memcpy(m_buffer[w].data, …)`.
abbrev pub write_length : ℕ → List ℕ → Ring → Ring
write_length w bytes r = record r {
  slots = set r.slots w (record (slot_at r.slots w) { length = u16 (length bytes) });
}

abbrev pub write_bytes : ℕ → List ℕ → Ring → Ring
write_bytes w bytes r = record r {
  slots =
      set r.slots w
        (record (slot_at r.slots w) { bytes = copy_to bytes (slot_at r.slots w).bytes });
}

module _ (max_packet_size capacity max_length : ℕ) where
  pub data Step : System → System → Type 0 where
    push_too_long :
        (bytes : List ℕ) (r : Ring) (c : Consumer) (xs ys : List (List ℕ))
        → max_packet_size < length bytes
        → Step (system r Producer.idle c xs ys) (system r Producer.idle c xs ys)
    push_loads :
        (bytes : List ℕ) (r : Ring) (c : Consumer) (xs ys : List (List ℕ))
        → length bytes ≤ max_packet_size
        → Step
            (system r Producer.idle c xs ys)
            (system r (Producer.loaded bytes r.write_idx) c xs ys)
    push_full :
        (bytes : List ℕ) (w : ℕ) (r : Ring) (c : Consumer) (xs ys : List (List ℕ))
        → next_index capacity w ≡ r.read_idx
        → Step (system r (Producer.loaded bytes w) c xs ys) (system r Producer.idle c xs ys)
    push_free :
        (bytes : List ℕ) (w : ℕ) (r : Ring) (c : Consumer) (xs ys : List (List ℕ))
        → next_index capacity w ≢ r.read_idx
        → Step
            (system r (Producer.loaded bytes w) c xs ys)
            (system r (Producer.free bytes w) c xs ys)
    push_sizes :
        (bytes : List ℕ) (w : ℕ) (r : Ring) (c : Consumer) (xs ys : List (List ℕ))
        → Step
            (system r (Producer.free bytes w) c xs ys)
            (system (write_length w bytes r) (Producer.sized bytes w) c xs ys)
    push_copies :
        (bytes : List ℕ) (w : ℕ) (r : Ring) (c : Consumer) (xs ys : List (List ℕ))
        → Step
            (system r (Producer.sized bytes w) c xs ys)
            (system (write_bytes w bytes r) (Producer.written bytes w) c xs ys)
    push_publishes :
        (bytes : List ℕ) (w : ℕ) (r : Ring) (c : Consumer) (xs ys : List (List ℕ))
        → Step (system r (Producer.written bytes w) c xs ys) (
            system
              (record r { write_idx = next_index capacity w })
              Producer.idle
              c
              (xs ++ bytes ∷ [])
              ys)
    pop_loads :
        (r : Ring) (p : Producer) (xs ys : List (List ℕ))
        → Step (system r p Consumer.idle xs ys) (system r p (Consumer.loaded r.read_idx) xs ys)
    pop_empty :
        (i : ℕ) (r : Ring) (p : Producer) (xs ys : List (List ℕ))
        → i ≡ r.write_idx
        → Step (system r p (Consumer.loaded i) xs ys) (system r p Consumer.idle xs ys)
    pop_ready :
        (i : ℕ) (r : Ring) (p : Producer) (xs ys : List (List ℕ))
        → i ≢ r.write_idx
        → Step (system r p (Consumer.loaded i) xs ys) (system r p (Consumer.ready i) xs ys)
    pop_sizes :
        (i : ℕ) (r : Ring) (p : Producer) (xs ys : List (List ℕ))
        → Step
            (system r p (Consumer.ready i) xs ys)
            (system r p (Consumer.sized i (slot_at r.slots i).length) xs ys)
    pop_too_long :
        (i n : ℕ) (r : Ring) (p : Producer) (xs ys : List (List ℕ))
        → max_length < n
        → Step (system r p (Consumer.sized i n) xs ys) (system r p Consumer.idle xs ys)
    pop_copies :
        (i n : ℕ) (r : Ring) (p : Producer) (xs ys : List (List ℕ))
        → n ≤ max_length
        → Step
            (system r p (Consumer.sized i n) xs ys)
            (system r p (Consumer.copied i (take n (slot_at r.slots i).bytes)) xs ys)
    pop_publishes :
        (i : ℕ) (out : List ℕ) (r : Ring) (p : Producer) (xs ys : List (List ℕ))
        → Step (system r p (Consumer.copied i out) xs ys) (
            system
              (record r { read_idx = next_index capacity i })
              p
              Consumer.idle
              xs
              (ys ++ out ∷ []))

  -- The states that the threads reach from an empty ring.
  pub data Reach : System → Type 0 where
    start :
        (slots : List Packet)
        → length slots ≡ capacity
        → All (λ s. length s.bytes ≡ max_packet_size) slots
        → Reach (
            system
              (record { slots = slots; write_idx = 0; read_idx = 0 })
              Producer.idle
              Consumer.idle
              []
              [])
    then_step : {s t : System} → Reach s → Step s t → Reach t
