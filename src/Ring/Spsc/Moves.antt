-- ===== src/Ring/Spsc/Moves.antt =====
-- The three moves of the threads that touch the ring: writing the free slot, publishing a write and
-- publishing a read.
use mathlib.Core.List.{map-append}
use agent_team_test.Prelude.{
  ℕ, suc, ◌+◌, ◌≤◌, ◌≡◌, ◌≢◌, sym, ap, ◌∙◌, List, [], ◌∷◌, ◌++◌, map, arith, length, All-append,
  All-set, set, get_or-set_ne, get_or-set_self, length-set,
}
use agent_team_test.Ring.{Packet, no_packet, Ring, next_index}
use agent_team_test.Ring.Window.{packet_bytes, slot_at, window, window-set_ne, window-snoc}
use agent_team_test.Ring.Valid.{
  FitsParams, IsValid, count, pending, contents, gap-lt, gap-end, gap-next_write, next_index-lt,
  next_index-injective,
}
use agent_team_test.Ring.Refine.{popped}
use agent_team_test.Ring.Spsc.{Producer, Consumer}
use agent_team_test.Ring.Spsc.Invariant.{Owns, ProducerOk, ConsumerOk}

module _ {max_packet_size capacity : ℕ} (fp : FitsParams max_packet_size capacity) (r : Ring)
    (v : IsValid max_packet_size capacity r) where
  -- The ring with `x` in the slot behind the pending packets.
  module _ (x : Packet) (array : length x.bytes ≡ max_packet_size) where
    abbrev pub slot_written : Ring
    slot_written = record r { slots = set r.slots r.write_idx x }

    pending-slot_written : pending capacity slot_written ≡ pending capacity r
    pending-slot_written =
        window-set_ne r.slots capacity x (count capacity r) r.read_idx r.write_idx v.read_in
          (gap-lt capacity fp.capacity_fits r.read_idx r.write_idx v.read_in v.write_in)
          (gap-end capacity fp.capacity_fits r.read_idx r.write_idx v.read_in v.write_in)

    pub slot_written-IsValid : IsValid max_packet_size capacity slot_written
    slot_written-IsValid = record {
      slot_count = length-set r.slots r.write_idx x ∙ v.slot_count;
      write_in = v.write_in;
      read_in = v.read_in;
      arrays = All-set (λ s. length s.bytes ≡ max_packet_size) r.slots r.write_idx x v.arrays array;
      lengths = rw pending-slot_written v.lengths;
    }

    pub contents-slot_written : contents capacity slot_written ≡ contents capacity r
    contents-slot_written = ap (map packet_bytes) pending-slot_written

    pub slot_at-slot_written : slot_at slot_written.slots r.write_idx ≡ x
    slot_at-slot_written =
        get_or-set_self r.slots r.write_idx x no_packet (rw v.slot_count v.write_in)

    -- The consumer does not see it.
    pub slot_written-ConsumerOk :
        (c : Consumer)
        → ConsumerOk max_packet_size capacity r c
        → ConsumerOk max_packet_size capacity slot_written c
    slot_written-ConsumerOk Consumer.idle h = tt
    slot_written-ConsumerOk (Consumer.loaded i) h = h
    slot_written-ConsumerOk (Consumer.ready i) h = h
    slot_written-ConsumerOk (Consumer.sized i n) h =
        (h.0, h.1, h.2 ∙ ap (λ s. s.length) (same i h.1))
      where
        same : (i : ℕ) → i ≢ r.write_idx → slot_at r.slots i ≡ slot_at slot_written.slots i
        same i ne = sym (get_or-set_ne r.slots r.write_idx i x no_packet (λ e. ne (sym e)))
    slot_written-ConsumerOk (Consumer.copied i out) h =
        (h.0, h.1, h.2 ∙ ap packet_bytes (same i h.1))
      where
        same : (i : ℕ) → i ≢ r.write_idx → slot_at r.slots i ≡ slot_at slot_written.slots i
        same i ne = sym (get_or-set_ne r.slots r.write_idx i x no_packet (λ e. ne (sym e)))

  -- The ring after the store of the write index.
  module _ (bytes : List ℕ) (o : Owns max_packet_size capacity r bytes r.write_idx)
      (size : (slot_at r.slots r.write_idx).length ≡ length bytes)
      (filled : packet_bytes (slot_at r.slots r.write_idx) ≡ bytes) where
    abbrev pub published : Ring
    published = record r { write_idx = next_index capacity r.write_idx }

    pending-published :
        pending capacity published ≡ pending capacity r ++ slot_at r.slots r.write_idx ∷ []
    pending-published =
        ap (window r.slots capacity r.read_idx) (
          gap-next_write capacity fp.capacity_fits r.read_idx r.write_idx v.read_in v.write_in
            o.is_free
          ∙ plus_one)
        ∙ window-snoc r.slots capacity (count capacity r) r.read_idx r.write_idx v.slot_count
            v.read_in (gap-lt capacity fp.capacity_fits r.read_idx r.write_idx v.read_in v.write_in)
            (gap-end capacity fp.capacity_fits r.read_idx r.write_idx v.read_in v.write_in)
      where
        plus_one : count capacity r + 1 ≡ suc (count capacity r)
        plus_one = omega arith

    pub published-IsValid : IsValid max_packet_size capacity published
    published-IsValid = record {
      slot_count = v.slot_count;
      write_in = next_index-lt capacity fp.capacity_fits r.write_idx v.write_in;
      read_in = v.read_in;
      arrays = v.arrays;
      lengths = rw pending-published (
          All-append (λ s. s.length ≤ max_packet_size) (pending capacity r) _ v.lengths
            (rw size o.fits, tt));
    }

    pub contents-published : contents capacity published ≡ contents capacity r ++ bytes ∷ []
    contents-published =
        ap (map packet_bytes) pending-published
        ∙ map-append packet_bytes (pending capacity r) _
        ∙ ap (λ b. contents capacity r ++ b ∷ []) filled

    pub published-ConsumerOk :
        (c : Consumer)
        → ConsumerOk max_packet_size capacity r c
        → ConsumerOk max_packet_size capacity published c
    published-ConsumerOk Consumer.idle h = tt
    published-ConsumerOk (Consumer.loaded i) h = h
    published-ConsumerOk (Consumer.ready i) h = (h.0, λ e. o.is_free (sym e ∙ h.0))
    published-ConsumerOk (Consumer.sized i n) h = (h.0, (λ e. o.is_free (sym e ∙ h.0)), h.2)
    published-ConsumerOk (Consumer.copied i out) h = (h.0, (λ e. o.is_free (sym e ∙ h.0)), h.2)

  -- The store of the read index keeps the producer's slot free.
  popped-Owns :
      (bytes : List ℕ) (w : ℕ)
      → r.read_idx ≢ r.write_idx
      → Owns max_packet_size capacity r bytes w
      → Owns max_packet_size capacity (popped fp r) bytes w
  popped-Owns bytes w ne o = record {
    fits = o.fits;
    at_write = o.at_write;
    is_free = λ e. ne (
        sym (
          sym o.at_write
          ∙ next_index-injective capacity fp.capacity_fits w r.read_idx (rw o.at_write v.write_in)
              v.read_in e));
  }

  pub popped-ProducerOk :
      (p : Producer)
      → r.read_idx ≢ r.write_idx
      → ProducerOk max_packet_size capacity r p
      → ProducerOk max_packet_size capacity (popped fp r) p
  popped-ProducerOk Producer.idle ne h = tt
  popped-ProducerOk (Producer.loaded bytes w) ne h = h
  popped-ProducerOk (Producer.free bytes w) ne h = popped-Owns bytes w ne h
  popped-ProducerOk (Producer.sized bytes w) ne h = (popped-Owns bytes w ne h.0, h.1)
  popped-ProducerOk (Producer.written bytes w) ne h = (popped-Owns bytes w ne h.0, h.1, h.2)
