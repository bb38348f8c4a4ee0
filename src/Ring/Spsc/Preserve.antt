-- ===== src/Ring/Spsc/Preserve.antt =====
-- The steps that touch the ring keep the invariant: the writes of a slot and the two publications.
use agent_team_test.Prelude.{
  ℕ, ◌≡◌, ◌≢◌, refl, sym, ap, ◌∙◌, List, [], ◌∷◌, ◌++◌, append_assoc, arith, length, drop, set,
  All-get, u16, length-append, length-drop, take-append_length,
}
use agent_team_test.Ring.{Packet, no_packet, Ring, next_index, copy_to}
use agent_team_test.Ring.Window.{packet_bytes, slot_at}
use agent_team_test.Ring.Valid.{FitsParams, IsValid, contents}
use agent_team_test.Ring.Refine.{popped, popped-IsValid, contents-popped}
use agent_team_test.Ring.Spsc.{Producer, Consumer, system, write_length, write_bytes}
use agent_team_test.Ring.Spsc.Invariant.{Owns, ProducerOk, Inv}
use agent_team_test.Ring.Spsc.Moves.{
  slot_written-IsValid, contents-slot_written, slot_at-slot_written, slot_written-ConsumerOk,
  published-IsValid, contents-published, published-ConsumerOk, popped-ProducerOk,
}

module _ {max_packet_size capacity : ℕ} (fp : FitsParams max_packet_size capacity) where
  slot_array :
      (r : Ring)
      → IsValid max_packet_size capacity r
      → length (slot_at r.slots r.write_idx).bytes ≡ max_packet_size
  slot_array r v =
      All-get (λ s. length s.bytes ≡ max_packet_size) r.slots r.write_idx no_packet
        (rw v.slot_count v.write_in) v.arrays

  -- The producer writes `x` to its slot.
  slot_written-Inv :
      (x : Packet) (p q : Producer) (r : Ring) (c : Consumer) (xs ys : List (List ℕ))
      → length x.bytes ≡ max_packet_size
      → ProducerOk max_packet_size capacity (record r { slots = set r.slots r.write_idx x }) q
      → Inv max_packet_size capacity (system r p c xs ys)
      → Inv max_packet_size capacity
          (system (record r { slots = set r.slots r.write_idx x }) q c xs ys)
  slot_written-Inv x p q r c xs ys array h i = record {
    valid = slot_written-IsValid fp r i.valid x array;
    fifo = i.fifo ∙ ap (λ l. ys ++ l) (sym (contents-slot_written fp r i.valid x array));
    producer_ok = h;
    consumer_ok = slot_written-ConsumerOk fp r i.valid x array c i.consumer_ok;
  }

  pub push_sizes-Inv :
      (bytes : List ℕ) (w : ℕ) (r : Ring) (c : Consumer) (xs ys : List (List ℕ))
      → Inv max_packet_size capacity (system r (Producer.free bytes w) c xs ys)
      → Inv max_packet_size capacity
          (system (write_length w bytes r) (Producer.sized bytes w) c xs ys)
  push_sizes-Inv bytes w r c xs ys i = rw o.at_write (
      slot_written-Inv x (Producer.free bytes w) (Producer.sized bytes r.write_idx) r c xs ys
        (slot_array r i.valid)
        (
          record { fits = o.fits; at_write = refl; is_free = rw o.at_write at o.is_free },
          ap (λ s. s.length) (slot_at-slot_written fp r i.valid x (slot_array r i.valid)) ∙ small,
        )
        i)
    where
      o : Owns max_packet_size capacity r bytes w
      o = i.producer_ok

      x : Packet
      x = record (slot_at r.slots r.write_idx) { length = u16 (length bytes) }

      small : u16 (length bytes) ≡ length bytes
      small = omega (arith, o.fits, fp.packet_fits)

  pub push_copies-Inv :
      (bytes : List ℕ) (w : ℕ) (r : Ring) (c : Consumer) (xs ys : List (List ℕ))
      → Inv max_packet_size capacity (system r (Producer.sized bytes w) c xs ys)
      → Inv max_packet_size capacity
          (system (write_bytes w bytes r) (Producer.written bytes w) c xs ys)
  push_copies-Inv bytes w r c xs ys i = rw o.at_write (
      slot_written-Inv x (Producer.sized bytes w) (Producer.written bytes r.write_idx) r c xs ys
        array
        (
          record { fits = o.fits; at_write = refl; is_free = rw o.at_write at o.is_free },
          ap (λ s. s.length) (slot_at-slot_written fp r i.valid x array) ∙ size,
          ap packet_bytes (slot_at-slot_written fp r i.valid x array)
              ∙ take-append_length slot.length bytes (drop (length bytes) slot.bytes) size,
        )
        i)
    where
      o : Owns max_packet_size capacity r bytes w
      o = i.producer_ok.0

      slot : Packet
      slot = slot_at r.slots r.write_idx

      x : Packet
      x = record slot { bytes = copy_to bytes slot.bytes }

      size : slot.length ≡ length bytes
      size = rw o.at_write at i.producer_ok.1

      array : length x.bytes ≡ max_packet_size
      array = omega (
        arith,
        o.fits,
        length-append {0} bytes (drop (length bytes) slot.bytes),
        length-drop {0} (length bytes) slot.bytes,
        slot_array r i.valid,
      )

  pub push_publishes-Inv :
      (bytes : List ℕ) (w : ℕ) (r : Ring) (c : Consumer) (xs ys : List (List ℕ))
      → Inv max_packet_size capacity (system r (Producer.written bytes w) c xs ys)
      → Inv max_packet_size capacity (
          system
            (record r { write_idx = next_index capacity w })
            Producer.idle
            c
            (xs ++ bytes ∷ [])
            ys)
  push_publishes-Inv bytes w r c xs ys i = rw o.at_write (record {
    valid = published-IsValid fp r i.valid bytes o' size filled;
    fifo =
        ap (λ l. l ++ bytes ∷ []) i.fifo
        ∙ append_assoc ys (contents capacity r) (bytes ∷ [])
        ∙ ap (λ l. ys ++ l) (sym (contents-published fp r i.valid bytes o' size filled));
    producer_ok = tt;
    consumer_ok = published-ConsumerOk fp r i.valid bytes o' size filled c i.consumer_ok;
  })
    where
      o : Owns max_packet_size capacity r bytes w
      o = i.producer_ok.0

      o' : Owns max_packet_size capacity r bytes r.write_idx
      o' = record { fits = o.fits; at_write = refl; is_free = rw o.at_write at o.is_free }

      size : (slot_at r.slots r.write_idx).length ≡ length bytes
      size = rw o.at_write at i.producer_ok.1

      filled : packet_bytes (slot_at r.slots r.write_idx) ≡ bytes
      filled = rw o.at_write at i.producer_ok.2

  pub pop_publishes-Inv :
      (k : ℕ) (out : List ℕ) (r : Ring) (p : Producer) (xs ys : List (List ℕ))
      → Inv max_packet_size capacity (system r p (Consumer.copied k out) xs ys)
      → Inv max_packet_size capacity (
          system
            (record r { read_idx = next_index capacity k })
            p
            Consumer.idle
            xs
            (ys ++ out ∷ []))
  pop_publishes-Inv k out r p xs ys i = rw at_read (record {
    valid = popped-IsValid fp r i.valid ne;
    fifo =
        i.fifo
        ∙ ap (λ l. ys ++ l) (contents-popped fp r i.valid ne)
        ∙ sym (
            append_assoc ys (packet_bytes (slot_at r.slots r.read_idx) ∷ [])
              (contents capacity (popped fp r)))
        ∙ ap (λ b. (ys ++ b ∷ []) ++ contents capacity (popped fp r)) (sym copied);
    producer_ok = popped-ProducerOk fp r i.valid p ne i.producer_ok;
    consumer_ok = tt;
  })
    where
      at_read : k ≡ r.read_idx
      at_read = i.consumer_ok.0

      ne : r.read_idx ≢ r.write_idx
      ne = rw at_read at i.consumer_ok.1

      copied : out ≡ packet_bytes (slot_at r.slots r.read_idx)
      copied = i.consumer_ok.2 ∙ ap (λ j. packet_bytes (slot_at r.slots j)) at_read
