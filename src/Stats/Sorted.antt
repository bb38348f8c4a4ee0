-- ===== src/Stats/Sorted.antt =====
-- The sorted snapshot: ordered, of the same samples, and how it ranks them.
use mathlib.Core.List.{Perm}
use mathlib.Core.List.Perm
use agent_team_test.Prelude.{
  ℕ, zero, suc, ◌+◌, ◌≤◌, ◌<◌, ◌≡◌, refl, List, [], ◌∷◌, arith, length, get_or, All, Bool, leb, ltb,
  if◌then◌else◌, Bool-cases, inl, inr,
}
use agent_team_test.Stats.{insert_sorted, sort}

abbrev pub IsSorted : List ℕ → Type 0
IsSorted [] = Unit
IsSorted (x ∷ xs) = All (λ y. x ≤ y) xs × IsSorted xs

All-weaken : (a b : ℕ) (xs : List ℕ) → a ≤ b → All (λ y. b ≤ y) xs → All (λ y. a ≤ y) xs
All-weaken a b [] h k = tt
All-weaken a b (x ∷ xs) h k = (omega arith, All-weaken a b xs h k.1)

All-insert_sorted :
    (a x : ℕ) (ys : List ℕ) → a ≤ x → All (λ y. a ≤ y) ys → All (λ y. a ≤ y) (insert_sorted x ys)
unfolding insert_sorted
All-insert_sorted a x [] h k = (h, tt)
All-insert_sorted a x (y ∷ ys) h k = ground (arith, All-insert_sorted a x ys h k.1)

insert_sorted-IsSorted : (x : ℕ) (ys : List ℕ) → IsSorted ys → IsSorted (insert_sorted x ys)
unfolding insert_sorted
insert_sorted-IsSorted x [] h = (tt, tt)
insert_sorted-IsSorted x (y ∷ ys) h = elim (Bool-cases (leb x y)) [
  | inl le ↦ let x_le : x ≤ y = ground arith in rw le ((x_le, All-weaken x y ys x_le h.0), h)
  | inr gt ↦
      let y_le : y ≤ x = ground arith in
      rw gt (All-insert_sorted y x ys y_le h.0, insert_sorted-IsSorted x ys h.1)
]

pub sort-IsSorted : (xs : List ℕ) → IsSorted (sort xs)
unfolding sort
sort-IsSorted [] = tt
sort-IsSorted (x ∷ xs) = insert_sorted-IsSorted x (sort xs) (sort-IsSorted xs)

insert_sorted-perm : (x : ℕ) (ys : List ℕ) → Perm (insert_sorted x ys) (x ∷ ys)
unfolding insert_sorted
insert_sorted-perm x [] = Perm.refl (x ∷ [])
insert_sorted-perm x (y ∷ ys) = elim (Bool-cases (leb x y)) [
  | inl le ↦ rw le (Perm.refl (x ∷ y ∷ ys))
  | inr gt ↦ rw gt (Perm.trans (Perm.cons y (insert_sorted-perm x ys)) (Perm.swap _ _ _))
]

-- `sort` returns its argument's elements in order.
pub sort-perm : (xs : List ℕ) → Perm (sort xs) xs
unfolding sort
sort-perm [] = Perm.refl []
sort-perm (x ∷ xs) = Perm.trans (insert_sorted-perm x (sort xs)) (Perm.cons x (sort-perm xs))

-- How many elements pass a test.
abbrev pub count_if : (ℕ → Bool) → List ℕ → ℕ
count_if p [] = 0
count_if p (x ∷ xs) = (if p x then 1 else 0) + count_if p xs

count_if-insert_sorted :
    (p : ℕ → Bool) (x : ℕ) (ys : List ℕ)
    → count_if p (insert_sorted x ys) ≡ (if p x then 1 else 0) + count_if p ys
unfolding insert_sorted
count_if-insert_sorted p x [] = refl
count_if-insert_sorted p x (y ∷ ys) = elim (Bool-cases (leb x y)) [
  | inl le ↦ rw le refl
  | inr gt ↦ rw gt (omega (arith, count_if-insert_sorted p x ys))
]

pub count_if-sort : (p : ℕ → Bool) (xs : List ℕ) → count_if p (sort xs) ≡ count_if p xs
unfolding sort
count_if-sort p [] = refl
count_if-sort p (x ∷ xs) = omega (arith, count_if-insert_sorted p x (sort xs), count_if-sort p xs)

length-insert_sorted : (x : ℕ) (ys : List ℕ) → length (insert_sorted x ys) ≡ suc (length ys)
unfolding insert_sorted
length-insert_sorted x [] = refl
length-insert_sorted x (y ∷ ys) = ground (arith, length-insert_sorted x ys)

pub length-sort : (xs : List ℕ) → length (sort xs) ≡ length xs
unfolding sort
length-sort [] = refl
length-sort (x ∷ xs) = omega (arith, length-insert_sorted x (sort xs), length-sort xs)

All-get_or_le :
    (a : ℕ) (xs : List ℕ) (i : ℕ) → i < length xs → All (λ y. a ≤ y) xs → a ≤ get_or xs i 0
All-get_or_le a [] i h k = absurd (omega arith)
All-get_or_le a (x ∷ xs) zero h k = k.0
All-get_or_le a (x ∷ xs) (suc i) h k = All-get_or_le a xs i (omega arith) k.1

pub get_or_mono :
    (xs : List ℕ) (i j : ℕ) → IsSorted xs → i ≤ j → j < length xs → get_or xs i 0 ≤ get_or xs j 0
get_or_mono [] i j s h k = absurd (omega arith)
get_or_mono (x ∷ xs) zero zero s h k = omega arith
get_or_mono (x ∷ xs) zero (suc j) s h k = All-get_or_le x xs j (omega arith) s.0
get_or_mono (x ∷ xs) (suc i) zero s h k = absurd (omega arith)
get_or_mono (x ∷ xs) (suc i) (suc j) s h k = get_or_mono xs i j s.1 (omega arith) (omega arith)

count_above : (a v : ℕ) (xs : List ℕ) → v ≤ a → All (λ y. a ≤ y) xs → count_if (λ y. ltb y v) xs ≡ 0
count_above a v [] h k = refl
count_above a v (x ∷ xs) h k = ground (arith, count_above a v xs h k.1)

-- In an ordered list, the element at index `i` has more than `i` elements up to it, and at most `i`
-- below it.
pub rank_bounds :
    (xs : List ℕ) (i : ℕ)
    → IsSorted xs
    → i < length xs
    → (suc i ≤ count_if (λ y. leb y (get_or xs i 0)) xs)
      × (count_if (λ y. ltb y (get_or xs i 0)) xs ≤ i)
rank_bounds [] i s h = absurd (omega arith)
rank_bounds (x ∷ xs) zero s h = (ground arith, ground (arith, count_above x x xs (omega arith) s.0))
rank_bounds (x ∷ xs) (suc i) s h =
    let head : x ≤ get_or xs i 0 = All-get_or_le x xs i (omega arith) s.0 in
    let ih = rank_bounds xs i s.1 (omega arith) in (ground arith, ground arith)
