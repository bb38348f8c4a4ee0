-- ===== src/Ring/Refine.antt =====
-- A valid ring is a bounded first-in first-out queue of byte strings.
pub mod Run
use mathlib.Core.List.{map-append}
use agent_team_test.Prelude.{
  ℕ, zero, suc, ◌+◌, ◌-◌, ◌%◌, ◌^◌, ◌≤◌, ◌<◌, ◌≡◌, ◌≢◌, refl, sym, ap, ap₂, ◌∙◌, List, [], ◌∷◌,
  ◌++◌, map, Bool, true, false, arith, length, All, All-append, All-set, All-get, take, drop,
  get_or, set, leb, ltb, lt→ltb, nlt→ltb, ne→==_false, ==_iff, u16, u64, dec_lt, dec_le, ℕ_discrete,
  ◌==◌, length-set, length-take, length-append, length-drop, take-append_length, if◌then◌else◌,
}
use agent_team_test.Ring.{
  Packet, no_packet, Ring, Popped, next_index, copy_to, fill_slot, push, pop, size, is_empty,
  is_full,
}
use agent_team_test.Ring.Window.{packet_bytes, slot_at, window, length-window, window-set}
use agent_team_test.Ring.Valid.{
  FitsParams, IsValid, gap, count, pending, contents, next_index-lt, next_index_lem, gap-lt,
  gap-end, gap-next_write, gap-next_read, gap-full_iff, gap-empty_iff,
}

module _ {max_packet_size capacity : ℕ} (fp : FitsParams max_packet_size capacity) where
  pub packet_bytes-fill_slot :
      (bytes : List ℕ) (n : ℕ) (slot : Packet)
      → n ≤ max_packet_size
      → n ≤ length bytes
      → (packet_bytes (fill_slot bytes n slot) ≡ take n bytes)
        × ((fill_slot bytes n slot).length ≡ n)
  unfolding fill_slot
  packet_bytes-fill_slot bytes n slot fits room =
      let small : u16 n ≡ n = omega (arith, fp.packet_fits) in
      (rw small (take-append_length n (take n bytes) _ (omega (arith, length-take n bytes))), small)

  pub array-fill_slot :
      (bytes : List ℕ) (n : ℕ) (slot : Packet)
      → n ≤ max_packet_size
      → n ≤ length bytes
      → length slot.bytes ≡ max_packet_size
      → length (fill_slot bytes n slot).bytes ≡ max_packet_size
  unfolding fill_slot
  array-fill_slot bytes n slot fits room e = omega (
    arith,
    length-append {0} (take n bytes) (drop (length (take n bytes)) slot.bytes),
    length-drop {0} (length (take n bytes)) slot.bytes,
    length-take {0} n bytes,
  )

  -- The ring after an accepted `push`.
  abbrev pub pushed : List ℕ → ℕ → Ring → Ring
  pushed bytes n r = record r {
    slots = set r.slots r.write_idx (fill_slot bytes n (get_or r.slots r.write_idx no_packet));
    write_idx = next_index capacity r.write_idx;
  }

  module _ (bytes : List ℕ) (n : ℕ) (r : Ring) (v : IsValid max_packet_size capacity r)
      (fits : n ≤ max_packet_size) (room : n ≤ length bytes)
      (free : next_index capacity r.write_idx ≢ r.read_idx) where
    pub pending-pushed :
        pending capacity (pushed bytes n r)
        ≡ pending capacity r ++ fill_slot bytes n (get_or r.slots r.write_idx no_packet) ∷ []
    pending-pushed =
        ap (window (pushed bytes n r).slots capacity r.read_idx) (
          gap-next_write capacity fp.capacity_fits r.read_idx r.write_idx v.read_in v.write_in free
          ∙ plus_one)
        ∙ window-set r.slots capacity (fill_slot bytes n (get_or r.slots r.write_idx no_packet))
            (count capacity r) r.read_idx r.write_idx v.slot_count v.read_in
            (gap-lt capacity fp.capacity_fits r.read_idx r.write_idx v.read_in v.write_in)
            (gap-end capacity fp.capacity_fits r.read_idx r.write_idx v.read_in v.write_in)
      where
        plus_one : count capacity r + 1 ≡ suc (count capacity r)
        plus_one = omega arith

    pub pushed-IsValid : IsValid max_packet_size capacity (pushed bytes n r)
    pushed-IsValid = record {
      slot_count = length-set r.slots r.write_idx _ ∙ v.slot_count;
      write_in = next_index-lt capacity fp.capacity_fits r.write_idx v.write_in;
      read_in = v.read_in;
      arrays =
          All-set (λ s. length s.bytes ≡ max_packet_size) r.slots r.write_idx _ v.arrays
            (array-fill_slot bytes n (get_or r.slots r.write_idx no_packet) fits room array);
      lengths = rw pending-pushed (
          All-append (λ s. s.length ≤ max_packet_size) (pending capacity r) _ v.lengths
            (omega (
              arith,
              (packet_bytes-fill_slot bytes n (get_or r.slots r.write_idx no_packet) fits room).1,
            )));
    }
      where
        array : length (get_or r.slots r.write_idx no_packet).bytes ≡ max_packet_size
        array =
            All-get (λ s. length s.bytes ≡ max_packet_size) r.slots r.write_idx no_packet
              (rw v.slot_count v.write_in) v.arrays

    pub contents-pushed :
        contents capacity (pushed bytes n r) ≡ contents capacity r ++ take n bytes ∷ []
    contents-pushed =
        ap (map packet_bytes) pending-pushed
        ∙ map-append packet_bytes (pending capacity r) _
        ∙ ap (λ b. contents capacity r ++ b ∷ [])
            (packet_bytes-fill_slot bytes n (get_or r.slots r.write_idx no_packet) fits room).0

  -- The ring after an accepted `pop`.
  abbrev pub popped : Ring → Ring
  popped r = record r { read_idx = next_index capacity r.read_idx }

  module _ (r : Ring) (v : IsValid max_packet_size capacity r)
      (some_left : r.read_idx ≢ r.write_idx) where
    pub pending-popped :
        pending capacity r ≡ slot_at r.slots r.read_idx ∷ pending capacity (popped r)
    pending-popped =
        ap (window r.slots capacity r.read_idx) (
          gap-next_read capacity fp.capacity_fits r.read_idx r.write_idx v.read_in v.write_in
            some_left
          ∙ plus_one)
        ∙ ap
            (λ h.
              slot_at r.slots r.read_idx ∷ window r.slots capacity h (count capacity (popped r)))
            (sym (next_index_lem capacity fp.capacity_fits r.read_idx v.read_in))
      where
        plus_one : count capacity (popped r) + 1 ≡ suc (count capacity (popped r))
        plus_one = omega arith

    pub head-fits : (slot_at r.slots r.read_idx).length ≤ max_packet_size
    head-fits =
        let h : All (λ s. s.length ≤ max_packet_size)
            (slot_at r.slots r.read_idx ∷ pending capacity (popped r)) =
          rw pending-popped at v.lengths in
        h.0

    pub popped-IsValid : IsValid max_packet_size capacity (popped r)
    popped-IsValid = record {
      slot_count = v.slot_count;
      write_in = v.write_in;
      read_in = next_index-lt capacity fp.capacity_fits r.read_idx v.read_in;
      arrays = v.arrays;
      lengths =
          let h : All (λ s. s.length ≤ max_packet_size)
              (slot_at r.slots r.read_idx ∷ pending capacity (popped r)) =
            rw pending-popped at v.lengths in
          h.1;
    }

    pub contents-popped :
        contents capacity r
        ≡ packet_bytes (slot_at r.slots r.read_idx) ∷ contents capacity (popped r)
    contents-popped = ap (map packet_bytes) pending-popped
