-- ===== src/Ring/Window.antt =====
-- The packets in the slots from an index on, going round at the capacity.
use agent_team_test.Prelude.{
  ℕ, zero, suc, ◌+◌, ◌-◌, ◌%◌, ◌<◌, ◌≡◌, ◌≢◌, refl, sym, ap, ap₂, set-get_or, ◌∙◌, List, [], ◌∷◌,
  ◌++◌, arith, length, get_or, set, take, get_or-set_self, get_or-set_ne, dec_lt,
}
use native.Mathlib.Nat.{mod-add-mod, mod-eq_of_lt, mod-eq-sub-mod, add-zero}
use agent_team_test.Ring.{Packet, no_packet}

-- The bytes of a packet that count.
abbrev pub packet_bytes : Packet → List ℕ
packet_bytes p = take p.length p.bytes

abbrev pub slot_at : List Packet → ℕ → Packet
slot_at slots i = get_or slots i no_packet

-- The `n` packets from index `h` on.
abbrev pub window : List Packet → ℕ → ℕ → ℕ → List Packet
window slots capacity h zero = []
window slots capacity h (suc n) = slot_at slots h ∷ window slots capacity ((h + 1) % capacity) n

pub length-window :
    (slots : List Packet) (capacity h n : ℕ) → length (window slots capacity h n) ≡ n
length-window slots capacity h zero = refl
length-window slots capacity h (suc n) =
    ap suc (length-window slots capacity ((h + 1) % capacity) n)

-- Going round fewer than `capacity` slots does not come back to the start.
pub index_ne : (capacity h k : ℕ) → h < capacity → suc k < capacity → (h + suc k) % capacity ≢ h
index_ne capacity h k p q = elim (dec_lt (h + suc k) capacity) [
  | yes below ↦ omega (arith, mod-eq_of_lt below)
  | no over ↦ omega (
    arith,
    mod-eq-sub-mod {n = h + suc k} {m = capacity} (omega arith),
    mod-eq_of_lt {n = h + suc k - capacity} {m = capacity} (omega arith),
  )
]

pub index_shift : (capacity h n : ℕ) → (h + suc n) % capacity ≡ ((h + 1) % capacity + n) % capacity
index_shift capacity h n = rw mod-add-mod (ap (λ k. k % capacity) (omega arith))

module _ (slots : List Packet) (capacity : ℕ) (x : Packet) where
  -- A write to the slot just behind a window does not show in it.
  pub window-set_ne :
      (n h i : ℕ)
      → h < capacity
      → n < capacity
      → i ≡ (h + n) % capacity
      → window (set slots i x) capacity h n ≡ window slots capacity h n
  window-set_ne zero h i p q e = refl
  window-set_ne (suc n) h i p q e =
      ap₂ (λ s w. s ∷ w) (get_or-set_ne slots i h x no_packet (rw e (index_ne capacity h n p q)))
        (window-set_ne n ((h + 1) % capacity) i (omega arith) (omega arith)
          (e ∙ index_shift capacity h n))

  -- It extends the window by the packet written.
  pub window-set :
      (n h i : ℕ)
      → length slots ≡ capacity
      → h < capacity
      → n < capacity
      → i ≡ (h + n) % capacity
      → window (set slots i x) capacity h (suc n) ≡ window slots capacity h n ++ x ∷ []
  window-set zero h i room p q e =
      rw (e, add-zero, mod-eq_of_lt p, get_or-set_self slots h x no_packet (omega arith))
  window-set (suc n) h i room p q e =
      ap₂ (λ s w. s ∷ w) (get_or-set_ne slots i h x no_packet (rw e (index_ne capacity h n p q)))
        (window-set n ((h + 1) % capacity) i room (omega arith) (omega arith)
          (e ∙ index_shift capacity h n))

-- A longer window has the next slot at its end.
pub window-snoc :
    (slots : List Packet) (capacity n h i : ℕ)
    → length slots ≡ capacity
    → h < capacity
    → n < capacity
    → i ≡ (h + n) % capacity
    → window slots capacity h (suc n) ≡ window slots capacity h n ++ slot_at slots i ∷ []
window-snoc slots capacity n h i room p q e =
    ap (λ l. window l capacity h (suc n)) (sym (set-get_or slots i no_packet))
    ∙ window-set slots capacity (slot_at slots i) n h i room p q e
