-- ===== src/Ring/Spsc/Invariant.antt =====
-- What holds between any two steps of the threads.
use agent_team_test.Prelude.{ℕ, ◌≤◌, ◌≡◌, ◌≢◌, List, ◌++◌, length}
use agent_team_test.Ring.{Ring, next_index}
use agent_team_test.Ring.Window.{packet_bytes, slot_at}
use agent_team_test.Ring.Valid.{IsValid, contents}
use agent_team_test.Ring.Spsc.{Producer, Consumer, System}

module _ (max_packet_size capacity : ℕ) where
  -- The producer's slot is the one behind the pending packets, and free once that was checked.
  pub record Owns (r : Ring) (bytes : List ℕ) (w : ℕ) : Type 0 where
    pub fits : length bytes ≤ max_packet_size
    pub at_write : w ≡ r.write_idx
    pub is_free : next_index capacity w ≢ r.read_idx

  abbrev pub ProducerOk : Ring → Producer → Type 0
  ProducerOk r Producer.idle = Unit {0}
  ProducerOk r (Producer.loaded bytes w) = (length bytes ≤ max_packet_size) × (w ≡ r.write_idx)
  ProducerOk r (Producer.free bytes w) = Owns r bytes w
  ProducerOk r (Producer.sized bytes w) =
      Owns r bytes w × ((slot_at r.slots w).length ≡ length bytes)
  ProducerOk r (Producer.written bytes w) =
      Owns r bytes w
      × ((slot_at r.slots w).length ≡ length bytes)
      × (packet_bytes (slot_at r.slots w) ≡ bytes)

  abbrev pub ConsumerOk : Ring → Consumer → Type 0
  ConsumerOk r Consumer.idle = Unit {0}
  ConsumerOk r (Consumer.loaded i) = i ≡ r.read_idx
  ConsumerOk r (Consumer.ready i) = (i ≡ r.read_idx) × (i ≢ r.write_idx)
  ConsumerOk r (Consumer.sized i n) =
      (i ≡ r.read_idx) × (i ≢ r.write_idx) × (n ≡ (slot_at r.slots i).length)
  ConsumerOk r (Consumer.copied i out) =
      (i ≡ r.read_idx) × (i ≢ r.write_idx) × (out ≡ packet_bytes (slot_at r.slots i))

  pub record Inv (s : System) : Type 0 where
    pub valid : IsValid max_packet_size capacity s.ring
    pub fifo : s.sent ≡ s.received ++ contents capacity s.ring
    pub producer_ok : ProducerOk s.ring s.producer
    pub consumer_ok : ConsumerOk s.ring s.consumer
