-- ===== src/Ring/Spsc/Safety.antt =====
-- Every run of the two threads keeps the invariant; what follows for the users of the ring.
use agent_team_test.Prelude.{
  ℕ, ◌≤◌, ◌<◌, ◌≡◌, ◌≢◌, refl, sym, ap, ◌∙◌, ◌++◌, arith, length, some, take, length-map,
}
use agent_team_test.Ring.{Ring}
use agent_team_test.Ring.Window.{packet_bytes, slot_at, length-window}
use agent_team_test.Ring.Valid.{FitsParams, count, pending, contents, gap-lt}
use agent_team_test.Ring.Refine.{head-fits}
use agent_team_test.Ring.Spsc.{
  Producer, Consumer, System, writes_slot, reads_slot, Step, push_too_long, push_loads, push_full,
  push_free, push_sizes, push_copies, push_publishes, pop_loads, pop_empty, pop_ready, pop_sizes,
  pop_too_long, pop_copies, pop_publishes, Reach, start, then_step,
}
use agent_team_test.Ring.Spsc.Invariant.{ProducerOk, ConsumerOk, Inv}
use agent_team_test.Ring.Spsc.Preserve.{
  push_sizes-Inv, push_copies-Inv, push_publishes-Inv, pop_publishes-Inv,
}

module _ {max_packet_size capacity : ℕ} (fp : FitsParams max_packet_size capacity) where
  writer_index :
      (r : Ring) (p : Producer) (w : ℕ)
      → ProducerOk max_packet_size capacity r p
      → writes_slot p ≡ some w
      → w ≡ r.write_idx
  writer_index r Producer.idle w h e = cc
  writer_index r (Producer.loaded bytes j) w h e = cc
  writer_index r (Producer.free bytes j) w h e = ground (arith, h.at_write)
  writer_index r (Producer.sized bytes j) w h e = ground (arith, h.0.at_write)
  writer_index r (Producer.written bytes j) w h e = cc

  reader_index :
      (r : Ring) (c : Consumer) (k : ℕ)
      → ConsumerOk max_packet_size capacity r c
      → reads_slot c ≡ some k
      → (k ≡ r.read_idx) × (k ≢ r.write_idx)
  reader_index r Consumer.idle k h e = cc
  reader_index r (Consumer.loaded j) k h e = cc
  reader_index r (Consumer.ready j) k h e = ground (arith, h)
  reader_index r (Consumer.sized j n) k h e = ground (arith, h)
  reader_index r (Consumer.copied j out) k h e = cc

  module _ (max_length : ℕ) where
    Step-Inv :
        {s t : System}
        → Step max_packet_size capacity max_length s t
        → Inv max_packet_size capacity s
        → Inv max_packet_size capacity t
    Step-Inv (push_too_long bytes r c xs ys h) i = i
    Step-Inv (push_loads bytes r c xs ys h) i = record {
      valid = i.valid;
      fifo = i.fifo;
      producer_ok = (h, refl);
      consumer_ok = i.consumer_ok;
    }
    Step-Inv (push_full bytes w r c xs ys h) i = record {
      valid = i.valid;
      fifo = i.fifo;
      producer_ok = tt;
      consumer_ok = i.consumer_ok;
    }
    Step-Inv (push_free bytes w r c xs ys h) i = record {
      valid = i.valid;
      fifo = i.fifo;
      producer_ok = record { fits = i.producer_ok.0; at_write = i.producer_ok.1; is_free = h };
      consumer_ok = i.consumer_ok;
    }
    Step-Inv (push_sizes bytes w r c xs ys) i = push_sizes-Inv fp bytes w r c xs ys i
    Step-Inv (push_copies bytes w r c xs ys) i = push_copies-Inv fp bytes w r c xs ys i
    Step-Inv (push_publishes bytes w r c xs ys) i = push_publishes-Inv fp bytes w r c xs ys i
    Step-Inv (pop_loads r p xs ys) i = record {
      valid = i.valid;
      fifo = i.fifo;
      producer_ok = i.producer_ok;
      consumer_ok = refl;
    }
    Step-Inv (pop_empty k r p xs ys h) i = record {
      valid = i.valid;
      fifo = i.fifo;
      producer_ok = i.producer_ok;
      consumer_ok = tt;
    }
    Step-Inv (pop_ready k r p xs ys h) i = record {
      valid = i.valid;
      fifo = i.fifo;
      producer_ok = i.producer_ok;
      consumer_ok = (i.consumer_ok, h);
    }
    Step-Inv (pop_sizes k r p xs ys) i = record {
      valid = i.valid;
      fifo = i.fifo;
      producer_ok = i.producer_ok;
      consumer_ok = (i.consumer_ok.0, i.consumer_ok.1, refl);
    }
    Step-Inv (pop_too_long k n r p xs ys h) i = record {
      valid = i.valid;
      fifo = i.fifo;
      producer_ok = i.producer_ok;
      consumer_ok = tt;
    }
    Step-Inv (pop_copies k n r p xs ys h) i = record {
      valid = i.valid;
      fifo = i.fifo;
      producer_ok = i.producer_ok;
      consumer_ok = (
        i.consumer_ok.0,
        i.consumer_ok.1,
        ap (λ m. take m (slot_at r.slots k).bytes) i.consumer_ok.2,
      );
    }
    Step-Inv (pop_publishes k out r p xs ys) i = pop_publishes-Inv fp k out r p xs ys i

    pub Reach-Inv :
        {s : System} → Reach max_packet_size capacity max_length s → Inv max_packet_size capacity s
    Reach-Inv (start slots e h) = record {
      valid = record {
        slot_count = e;
        write_in = fp.capacity_pos;
        read_in = fp.capacity_pos;
        arrays = h;
        lengths = tt;
      };
      fifo = refl;
      producer_ok = tt;
      consumer_ok = tt;
    }
    Reach-Inv (then_step r st) = Step-Inv st (Reach-Inv r)

    -- However the two threads interleave, what was popped followed by what waits is what was
    -- pushed: no packet is lost, changed, repeated or overtaken, and at most `capacity - 1` wait.
    pub Reach-fifo :
        (s : System)
        → Reach max_packet_size capacity max_length s
        → (s.sent ≡ s.received ++ contents capacity s.ring)
          × (length (contents capacity s.ring) < capacity)
    Reach-fifo s h =
        let i = Reach-Inv h in
        (
          i.fifo,
          omega (
            arith,
            length-map packet_bytes (pending capacity s.ring),
            length-window s.ring.slots capacity s.ring.read_idx (count capacity s.ring),
            gap-lt capacity fp.capacity_fits s.ring.read_idx s.ring.write_idx i.valid.read_in
                i.valid.write_in,
          ),
        )

    -- While the producer writes its slot and the consumer reads its own, the two are different
    -- slots of the array.
    pub Reach-race_free :
        (s : System) (w k : ℕ)
        → Reach max_packet_size capacity max_length s
        → writes_slot s.producer ≡ some w
        → reads_slot s.consumer ≡ some k
        → (w ≢ k) × (w < capacity) × (k < capacity)
    Reach-race_free s w k h p c =
        let i = Reach-Inv h in
        let at_write = writer_index s.ring s.producer w i.producer_ok p in
        let (at_read, ne) = reader_index s.ring s.consumer k i.consumer_ok c in
        ((λ e. ne (sym e ∙ at_write)), rw at_write i.valid.write_in, rw at_read i.valid.read_in)

    -- If the consumer's buffer holds any packet, `pop` never finds one that is too long, so no
    -- packet blocks the queue.
    pub Reach-never_stuck :
        (s : System) (k n : ℕ)
        → max_packet_size ≤ max_length
        → Reach max_packet_size capacity max_length s
        → s.consumer ≡ Consumer.sized k n
        → n ≤ max_length
    Reach-never_stuck s k n fits h e =
        let i = Reach-Inv h in
        let ok : ConsumerOk max_packet_size capacity s.ring (Consumer.sized k n) =
          rw e at i.consumer_ok in
        let ne : s.ring.read_idx ≢ s.ring.write_idx = λ q. ok.1 (ok.0 ∙ q) in
        let head : (slot_at s.ring.slots s.ring.read_idx).length ≤ max_packet_size =
          head-fits fp s.ring i.valid ne in
        omega (arith, ok.2 ∙ ap (λ j. (slot_at s.ring.slots j).length) ok.0)
