-- ===== src/Stats/Concurrent/Slots.antt =====
-- The slots that a snapshot copies: all are valid, and no slot is copied twice. And the steps of
-- each thread run alone are the operation of `Stats`.
use agent_team_test.Prelude.{
  ℕ, zero, suc, ◌+◌, ◌-◌, ◌≤◌, ◌<◌, ◌≡◌, ◌≢◌, refl, sym, ap, ap₂, ◌∙◌, List, [], ◌∷◌, ◌++◌, map,
  arith, All, All-append, length, length-drop, take-length, nle→leb, le→leb, length-append, get_or,
  take, drop,
}
use mathlib.Core.List.{map-append}
use agent_team_test.Stats.{Stats, record_sample, num_samples, snapshot}
use agent_team_test.Stats.Concurrent.{
  slots_from, wrapped_slots, store_sample, advance_index, add_count,
}

-- No element stands twice.
abbrev pub Distinct {ℓ} : {A : Type ℓ} → List A → Type ℓ
Distinct [] = Unit
Distinct (x ∷ xs) = All (λ y. x ≢ y) xs × Distinct xs

pub length-slots_from : (first n : ℕ) → length (slots_from first n) ≡ n
unfolding slots_from
length-slots_from first zero = refl
length-slots_from first (suc n) = ap suc (length-slots_from (first + 1) n)

pub slots_from-between :
    (first n lo hi : ℕ)
    → lo ≤ first
    → first + n ≤ hi
    → All (λ i. (lo ≤ i) × (i < hi)) (slots_from first n)
unfolding slots_from
slots_from-between first zero lo hi l h = tt
slots_from-between first (suc n) lo hi l h =
    ((l, omega arith), slots_from-between (first + 1) n lo hi (omega arith) (omega arith))

pub All-weaken {ℓ κ κ'} :
    {A : Type ℓ} {P : A → Type κ} {Q : A → Type κ'} (f : (a : A) → P a → Q a) (xs : List A)
    → All P xs
    → All Q xs
All-weaken f [] h = tt
All-weaken f (x ∷ xs) h = (f x h.0, All-weaken f xs h.1)

pub slots_from-below : (first n hi : ℕ) → first + n ≤ hi → All (λ i. i < hi) (slots_from first n)
slots_from-below first n hi h =
    All-weaken (λ i k. k.1) (slots_from first n) (slots_from-between first n 0 hi (omega arith) h)

pub slots_from-Distinct : (first n : ℕ) → Distinct (slots_from first n)
unfolding slots_from
slots_from-Distinct first zero = tt
slots_from-Distinct first (suc n) = (
  All-weaken (λ i h. omega arith) (slots_from (first + 1) n)
      (slots_from-between (first + 1) n (first + 1) (first + 1 + n) (omega arith) (omega arith)),
  slots_from-Distinct (first + 1) n,
)

-- Lists that keep apart are distinct together.
Distinct-append :
    (m : ℕ) (xs ys : List ℕ)
    → Distinct xs
    → Distinct ys
    → All (λ x. m ≤ x) xs
    → All (λ y. y < m) ys
    → Distinct (xs ++ ys)
Distinct-append m [] ys dx dy hx hy = dy
Distinct-append m (x ∷ xs) ys dx dy hx hy = (
  All-append (λ y. x ≢ y) xs ys dx.0 (All-weaken (λ y h e. omega arith) ys hy),
  Distinct-append m xs ys dx.1 dy hx.1 hy,
)

module _ (capacity : ℕ) (write_pos : ℕ) (inside : write_pos ≤ capacity) where
  pub length-wrapped_slots : length (wrapped_slots capacity write_pos) ≡ capacity
  unfolding wrapped_slots
  length-wrapped_slots = omega (
    arith,
    length-append {0} (slots_from write_pos (capacity - write_pos)) (slots_from 0 write_pos),
    length-slots_from write_pos (capacity - write_pos),
    length-slots_from 0 write_pos,
  )

  pub wrapped_slots-below : All (λ i. i < capacity) (wrapped_slots capacity write_pos)
  unfolding wrapped_slots
  wrapped_slots-below =
      All-append (λ i. i < capacity) (slots_from write_pos (capacity - write_pos))
        (slots_from 0 write_pos)
        (slots_from-below write_pos (capacity - write_pos) capacity (omega arith))
        (slots_from-below 0 write_pos capacity (omega arith))

  pub wrapped_slots-Distinct : Distinct (wrapped_slots capacity write_pos)
  unfolding wrapped_slots
  wrapped_slots-Distinct =
      Distinct-append write_pos (slots_from write_pos (capacity - write_pos))
        (slots_from 0 write_pos) (slots_from-Distinct write_pos (capacity - write_pos))
        (slots_from-Distinct 0 write_pos)
        (All-weaken (λ i h. h.0) (slots_from write_pos (capacity - write_pos))
          (slots_from-between write_pos (capacity - write_pos) write_pos capacity (omega arith)
            (omega arith)))
        (slots_from-below 0 write_pos write_pos (omega arith))

drop-get_or : (l : List ℕ) (i : ℕ) → i < length l → drop i l ≡ get_or l i 0 ∷ drop (i + 1) l
drop-get_or [] i h = absurd (omega arith)
drop-get_or (x ∷ l) zero h = refl
drop-get_or (x ∷ l) (suc i) h =
    drop-get_or l i (omega arith) ∙ ap (λ k. get_or l i 0 ∷ drop k (x ∷ l)) next
  where
    next : suc (i + 1) ≡ suc i + 1
    next = omega arith

-- Copying slots with nothing in between.
abbrev pub copy_slots : List ℕ → List ℕ → List ℕ
copy_slots samples slots = map (λ i. get_or samples i 0) slots

copy_slots-slots_from :
    (l : List ℕ) (first n : ℕ)
    → first + n ≤ length l
    → copy_slots l (slots_from first n) ≡ take n (drop first l)
unfolding slots_from
copy_slots-slots_from l first zero h = refl
copy_slots-slots_from l first (suc n) h =
    ap (◌∷◌ (get_or l first 0)) (copy_slots-slots_from l (first + 1) n (omega arith))
    ∙ ap (take (suc n)) (sym (drop-get_or l first (omega arith)))

module _ (capacity : ℕ) (s : Stats) (full : length s.samples ≡ capacity) where
  -- A reader alone copies the snapshot of `Stats`.
  pub copy_slots-wrapped :
      capacity < s.count
      → s.write_idx ≤ capacity
      → copy_slots s.samples (wrapped_slots capacity s.write_idx) ≡ snapshot capacity s
  unfolding wrapped_slots snapshot
  copy_slots-wrapped over inside =
      map-append (λ i. get_or s.samples i 0) (slots_from s.write_idx (capacity - s.write_idx))
        (slots_from 0 s.write_idx)
      ∙ ap₂ ◌++◌
          (copy_slots-slots_from s.samples s.write_idx (capacity - s.write_idx) (omega arith)
            ∙ take-length (capacity - s.write_idx) (drop s.write_idx s.samples)
                (omega (arith, length-drop s.write_idx s.samples)))
          (copy_slots-slots_from s.samples 0 s.write_idx (omega arith))
      ∙ rw (nle→leb s.count capacity (omega arith)) refl

  pub copy_slots-unwrapped :
      s.count ≤ capacity
      → copy_slots s.samples (slots_from 0 (num_samples capacity s)) ≡ snapshot capacity s
  unfolding snapshot num_samples
  copy_slots-unwrapped fits =
      copy_slots-slots_from s.samples 0 (num_samples capacity s) (ground arith)
      ∙ rw (le→leb s.count capacity (omega arith)) refl

-- The three steps of a recording thread, run alone, are `recordSample`.
pub add_count-advance_index-store_sample :
    (capacity latency_ns : ℕ) (s : Stats)
    → add_count capacity (advance_index capacity (store_sample latency_ns s))
      ≡ record_sample capacity latency_ns s
unfolding add_count advance_index store_sample record_sample
add_count-advance_index-store_sample capacity latency_ns s = refl
