-- ===== src/Prelude/Slices.antt =====
-- Parts of arrays: taking, dropping, splitting and replacing.
use Prim.Native.Nat.{ℕ, zero, suc, ◌+◌, ◌≤◌, ◌<◌}
use mathlib.Core.Path.{◌≡◌, refl, sym, ap, ◌∙◌}
use mathlib.Core.List.{List, [], ◌∷◌, ◌++◌, map}
use native.Mathlib.Omega.{arith}
use agent_team_test.Prelude.Lists.{length, take, drop, get_or, set, All}

module _ {ℓ} {A : Type ℓ} where
  pub drop-append_add :
      (n m : ℕ) (xs ys : List A) → n ≡ length xs → drop (n + m) (xs ++ ys) ≡ drop m ys
  drop-append_add zero m [] ys h = ap (λ k. drop k ys) (omega arith)
  drop-append_add (suc n) m [] ys h = absurd (omega arith)
  drop-append_add zero m (x ∷ xs) ys h = absurd (omega arith)
  drop-append_add (suc n) m (x ∷ xs) ys h =
      ap (λ k. drop k (x ∷ (xs ++ ys))) step ∙ drop-append_add n m xs ys (omega arith)
    where
      step : suc n + m ≡ suc (n + m)
      step = omega arith

  drop-nil : (n : ℕ) → drop {A = A} n [] ≡ []
  drop-nil zero = refl
  drop-nil (suc n) = refl

  pub drop-drop : (n m : ℕ) (xs : List A) → drop m (drop n xs) ≡ drop (n + m) xs
  drop-drop zero m xs = ap (λ k. drop k xs) (omega arith)
  drop-drop (suc n) m [] = drop-nil m ∙ sym (drop-nil (suc n + m))
  drop-drop (suc n) m (x ∷ xs) = drop-drop n m xs ∙ ap (λ k. drop k (x ∷ xs)) step
    where
      step : suc (n + m) ≡ suc n + m
      step = omega arith

  pub take-append_length_add :
      (n m : ℕ) (xs ys : List A) → n ≡ length xs → take (n + m) (xs ++ ys) ≡ xs ++ take m ys
  take-append_length_add zero m [] ys h = ap (λ k. take k ys) (omega arith)
  take-append_length_add (suc n) m [] ys h = absurd (omega arith)
  take-append_length_add zero m (x ∷ xs) ys h = absurd (omega arith)
  take-append_length_add (suc n) m (x ∷ xs) ys h =
      ap (λ k. take k (x ∷ (xs ++ ys))) step
      ∙ ap (◌∷◌ x) (take-append_length_add n m xs ys (omega arith))
    where
      step : suc n + m ≡ suc (n + m)
      step = omega arith

module _ {ℓ} {A : Type ℓ} where
  pub get_or-append_right :
      (n i : ℕ) (xs ys : List A) (d : A)
      → n ≡ length xs
      → get_or (xs ++ ys) (n + i) d ≡ get_or ys i d
  get_or-append_right zero i [] ys d h = ap (λ k. get_or ys k d) (omega arith)
  get_or-append_right (suc n) i [] ys d h = absurd (omega arith)
  get_or-append_right zero i (x ∷ xs) ys d h = absurd (omega arith)
  get_or-append_right (suc n) i (x ∷ xs) ys d h =
      ap (λ k. get_or (x ∷ (xs ++ ys)) k d) step ∙ get_or-append_right n i xs ys d (omega arith)
    where
      step : suc n + i ≡ suc (n + i)
      step = omega arith

  pub get_or-append_left :
      (xs ys : List A) (i : ℕ) (d : A) → i < length xs → get_or (xs ++ ys) i d ≡ get_or xs i d
  get_or-append_left [] ys i d h = absurd (omega arith)
  get_or-append_left (x ∷ xs) ys zero d h = refl
  get_or-append_left (x ∷ xs) ys (suc i) d h = get_or-append_left xs ys i d (omega arith)

  -- A list around its element `i`, before and after a write.
  pub split_at :
      (xs : List A) (i : ℕ) (d : A)
      → i < length xs
      → xs ≡ take i xs ++ get_or xs i d ∷ drop (suc i) xs
  split_at [] i d h = absurd (omega arith)
  split_at (x ∷ xs) zero d h = refl
  split_at (x ∷ xs) (suc i) d h = ap (◌∷◌ x) (split_at xs i d (omega arith))

  pub set-split :
      (xs : List A) (i : ℕ) (v : A) → i < length xs → set xs i v ≡ take i xs ++ v ∷ drop (suc i) xs
  set-split [] i v h = absurd (omega arith)
  set-split (x ∷ xs) zero v h = refl
  set-split (x ∷ xs) (suc i) v h = ap (◌∷◌ x) (set-split xs i v (omega arith))

  pub set-get_or : (xs : List A) (i : ℕ) (d : A) → set xs i (get_or xs i d) ≡ xs
  set-get_or [] i d = refl
  set-get_or (x ∷ xs) zero d = refl
  set-get_or (x ∷ xs) (suc i) d = ap (◌∷◌ x) (set-get_or xs i d)

  pub take-set : (n i : ℕ) (xs : List A) (v : A) → n ≤ i → take n (set xs i v) ≡ take n xs
  take-set zero i xs v h = refl
  take-set (suc n) i [] v h = refl
  take-set (suc n) zero (x ∷ xs) v h = absurd (omega arith)
  take-set (suc n) (suc i) (x ∷ xs) v h = ap (◌∷◌ x) (take-set n i xs v (omega arith))

pub All-get_or {κ} : (P : ℕ → Type κ) (xs : List ℕ) (i d : ℕ) → All P xs → P d → P (get_or xs i d)
All-get_or P [] i d h hd = hd
All-get_or P (x ∷ xs) zero d h hd = h.0
All-get_or P (x ∷ xs) (suc i) d h hd = All-get_or P xs i d h.1 hd

module _ {ℓ κ} {A : Type ℓ} (P : A → Type κ) where
  pub All-set : (xs : List A) (i : ℕ) (v : A) → All P xs → P v → All P (set xs i v)
  All-set [] i v h p = tt
  All-set (x ∷ xs) zero v h p = (p, h.1)
  All-set (x ∷ xs) (suc i) v h p = (h.0, All-set xs i v h.1 p)

  pub All-get : (xs : List A) (i : ℕ) (d : A) → i < length xs → All P xs → P (get_or xs i d)
  All-get [] i d h k = absurd (omega arith)
  All-get (x ∷ xs) zero d h k = k.0
  All-get (x ∷ xs) (suc i) d h k = All-get xs i d (omega arith) k.1

pub length-map {ℓ κ} :
    {A : Type ℓ} {B : Type κ} (f : A → B) (xs : List A) → length (map f xs) ≡ length xs
length-map f [] = refl
length-map f (x ∷ xs) = ap suc (length-map f xs)

module _ {ℓ} {A : Type ℓ} where
  -- A write just behind a prefix.
  pub set-append_length :
      (n : ℕ) (xs : List A) (y v : A) (ys : List A)
      → n ≡ length xs
      → set (xs ++ y ∷ ys) n v ≡ xs ++ v ∷ ys
  set-append_length zero [] y v ys h = refl
  set-append_length (suc n) [] y v ys h = absurd (omega arith)
  set-append_length zero (x ∷ xs) y v ys h = absurd (omega arith)
  set-append_length (suc n) (x ∷ xs) y v ys h =
      ap (◌∷◌ x) (set-append_length n xs y v ys (omega arith))

  pub drop-append_le :
      (n : ℕ) (xs ys : List A) → n ≤ length xs → drop n (xs ++ ys) ≡ drop n xs ++ ys
  drop-append_le zero xs ys h = refl
  drop-append_le (suc n) [] ys h = absurd (omega arith)
  drop-append_le (suc n) (x ∷ xs) ys h = drop-append_le n xs ys (omega arith)
