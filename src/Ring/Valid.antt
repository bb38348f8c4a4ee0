-- ===== src/Ring/Valid.antt =====
-- The invariant of the ring, and its abstract view: the queue of the packets between the indices.
use agent_team_test.Prelude.{
  ℕ, ◌+◌, ◌-◌, ◌%◌, ◌^◌, ◌≤◌, ◌<◌, ◌≡◌, ◌≢◌, ◌↔◌, ap, ◌∙◌, List, map, arith, length, All, ◌⊎◌, inl,
  inr, if◌then◌else◌, leb, u64, dec_lt, dec_le,
}
use native.Mathlib.Nat.{mod-eq_of_lt, mod-eq-sub-mod, mod-lt, mod_self}
use agent_team_test.Ring.{Packet, Ring, next_index}
use agent_team_test.Ring.Window.{packet_bytes, window}

-- What the template arguments satisfy: the length of a packet fits `uint16_t`.
pub record FitsParams (max_packet_size capacity : ℕ) : Type 0 where
  pub capacity_pos : 0 < capacity
  pub capacity_fits : capacity < 2 ^ 64
  pub packet_fits : max_packet_size < 2 ^ 16

-- How many slots lie from `h` up to `w`, going round.
abbrev pub gap : ℕ → ℕ → ℕ → ℕ
gap capacity h w = if leb h w then w - h else capacity - h + w

abbrev pub count : ℕ → Ring → ℕ
count capacity r = gap capacity r.read_idx r.write_idx

abbrev pub pending : ℕ → Ring → List Packet
pending capacity r = window r.slots capacity r.read_idx (count capacity r)

-- The abstract view: the bytes of the pending packets, the oldest first.
abbrev pub contents : ℕ → Ring → List (List ℕ)
contents capacity r = map packet_bytes (pending capacity r)

pub record IsValid (max_packet_size capacity : ℕ) (r : Ring) : Type 0 where
  pub slot_count : length r.slots ≡ capacity
  pub write_in : r.write_idx < capacity
  pub read_in : r.read_idx < capacity
  pub arrays : All (λ s. length s.bytes ≡ max_packet_size) r.slots
  pub lengths : All (λ s. s.length ≤ max_packet_size) (pending capacity r)

module _ (capacity : ℕ) (fits : capacity < 2 ^ 64) where
  pub next_index-lt : (i : ℕ) → i < capacity → next_index capacity i < capacity
  next_index-lt i h = mod-lt (u64 (i + 1)) (omega arith)

  pub next_index_lem : (i : ℕ) → i < capacity → next_index capacity i ≡ (i + 1) % capacity
  next_index_lem i h = ap (λ k. k % capacity) (omega arith)

  pub next_index_cases :
      (i : ℕ)
      → i < capacity
      → ((i + 1 < capacity) × (next_index capacity i ≡ i + 1))
        ⊎ ((i + 1 ≡ capacity) × (next_index capacity i ≡ 0))
  next_index_cases i h = elim (dec_lt (i + 1) capacity) [
    | yes below ↦ inl (below, next_index_lem i h ∙ mod-eq_of_lt below)
    | no over ↦
        let last : i + 1 ≡ capacity = omega arith in
        inr (last, next_index_lem i h ∙ ap (λ k. k % capacity) last ∙ mod_self capacity)
  ]

  pub gap-lt : (h w : ℕ) → h < capacity → w < capacity → gap capacity h w < capacity
  gap-lt h w p q = ground arith

  pub gap-end : (h w : ℕ) → h < capacity → w < capacity → w ≡ (h + gap capacity h w) % capacity
  gap-end h w p q = elim (dec_le h w) [
    | yes up ↦ let e : h + gap capacity h w ≡ w = ground arith in rw (e, mod-eq_of_lt q)
    | no down ↦
        let e : h + gap capacity h w ≡ w + capacity = ground arith in
        rw
          (e, mod-eq-sub-mod {n = w + capacity} {m = capacity} (omega arith), sub w, mod-eq_of_lt q)
  ]
    where
      sub : (k : ℕ) → k + capacity - capacity ≡ k
      sub k = omega arith

  pub gap-next_write :
      (h w : ℕ)
      → h < capacity
      → w < capacity
      → next_index capacity w ≢ h
      → gap capacity h (next_index capacity w) ≡ gap capacity h w + 1
  gap-next_write h w p q ne = ground (arith, next_index_cases w q)

  pub gap-next_read :
      (h w : ℕ)
      → h < capacity
      → w < capacity
      → h ≢ w
      → gap capacity h w ≡ gap capacity (next_index capacity h) w + 1
  gap-next_read h w p q ne = ground (arith, next_index_cases h p)

  -- One slot always stays free: the gap is `capacity - 1` exactly when the next write would meet
  -- the reader, and 0 exactly when the indices meet.
  pub gap-full_iff :
      (h w : ℕ)
      → h < capacity
      → w < capacity
      → (next_index capacity w ≡ h) ↔ (gap capacity h w + 1 ≡ capacity)
  gap-full_iff h w p q = ground (arith, next_index_cases w q)

  pub gap-empty_iff : (h w : ℕ) → h < capacity → w < capacity → (h ≡ w) ↔ (gap capacity h w ≡ 0)
  gap-empty_iff h w p q = ground arith

  pub next_index-injective :
      (i j : ℕ)
      → i < capacity
      → j < capacity
      → next_index capacity i ≡ next_index capacity j
      → i ≡ j
  next_index-injective i j p q e = ground (arith, next_index_cases i p, next_index_cases j q)
