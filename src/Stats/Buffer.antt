-- ===== src/Stats/Buffer.antt =====
-- The circular buffer holds the latest samples.
use agent_team_test.Prelude.{
  ℕ, ◌+◌, ◌-◌, ◌%◌, ◌^◌, ◌≤◌, ◌<◌, ◌≡◌, refl, sym, ap, ◌∙◌, List, [], ◌∷◌, ◌++◌, append_assoc,
  append-nil, arith, length, take, drop, set, replicate, length-append, length-replicate,
  set-append_length, drop-append_le, take-append_length, drop-append_length, drop-drop, take-length,
  le→leb, nle→leb, lt→ltb, nlt→ltb, u64, dec_lt,
}
use native.Mathlib.Nat.{mod-eq_of_lt, mod_self}
use mathlib.Core.Path.{subst}
use agent_team_test.Stats.{Stats, init, record_sample, num_samples, snapshot, get_sample_count}

unfoldable pub record_all : ℕ → List ℕ → Stats → Stats
record_all capacity [] s = s
record_all capacity (x ∷ xs) s = record_all capacity xs (record_sample capacity x s)

-- How the buffer holds the samples `xs` recorded so far. Before it is full they are its beginning.
-- Then the write index parts it: behind the index are the oldest of the latest samples.
data Holds (capacity : ℕ) (xs : List ℕ) (s : Stats) : Type 0 where
  filling :
      (rest : List ℕ)
      → s.samples ≡ xs ++ rest
      → length xs + length rest ≡ capacity
      → 0 < length rest
      → s.write_idx ≡ length xs
      → s.count ≡ length xs
      → Holds capacity xs s
  full :
      (newer older : List ℕ)
      → s.samples ≡ newer ++ older
      → length newer + length older ≡ capacity
      → 0 < length older
      → s.write_idx ≡ length newer
      → s.count ≡ length xs
      → capacity ≤ length xs
      → older ++ newer ≡ drop (length xs - capacity) xs
      → (length xs ≡ capacity → newer ≡ [])
      → Holds capacity xs s

module _ (capacity : ℕ) (pos : 0 < capacity) (fits : capacity < 2 ^ 64) where
  next_below : (i : ℕ) → i + 1 < capacity → u64 (i + 1) % capacity ≡ i + 1
  next_below i h = ap (λ k. k % capacity) (omega arith) ∙ mod-eq_of_lt h

  next_last : (i : ℕ) → i + 1 ≡ capacity → u64 (i + 1) % capacity ≡ 0
  next_last i h = ap (λ k. k % capacity) same ∙ mod_self capacity
    where
      same : u64 (i + 1) ≡ capacity
      same = omega arith

  count_up :
      (n : ℕ) (x : ℕ) (xs : List ℕ)
      → n ≡ length xs
      → n + 1 < 2 ^ 64
      → u64 (n + 1) ≡ length (xs ++ x ∷ [])
  count_up n x xs e h = omega (arith, length-append {0} xs (x ∷ []))

  stored :
      (x y : ℕ) (pre rest : List ℕ) (s : Stats)
      → s.samples ≡ pre ++ y ∷ rest
      → s.write_idx ≡ length pre
      → set s.samples s.write_idx x ≡ pre ++ x ∷ rest
  stored x y pre rest s e w = rw (e, w) (set-append_length (length pre) pre y x rest refl)

  -- The oldest sample leaves the latest ones when a sample is added.
  slide :
      (x y : ℕ) (l xs : List ℕ)
      → capacity ≤ length xs
      → y ∷ l ≡ drop (length xs - capacity) xs
      → l ++ x ∷ [] ≡ drop (length (xs ++ x ∷ []) - capacity) (xs ++ x ∷ [])
  slide x y l xs k e =
      ap (λ m. drop 1 m ++ x ∷ []) e
      ∙ ap (λ m. m ++ x ∷ []) (drop-drop (length xs - capacity) 1 xs)
      ∙ sym (drop-append_le (length xs - capacity + 1) xs (x ∷ []) (omega arith))
      ∙ ap (λ n. drop n (xs ++ x ∷ [])) index
    where
      index : length xs - capacity + 1 ≡ length (xs ++ x ∷ []) - capacity
      index = omega (arith, length-append {0} xs (x ∷ []))

  record_sample-Holds :
      (x : ℕ) (xs : List ℕ) (s : Stats)
      → length xs + 1 < 2 ^ 64
      → Holds capacity xs s
      → Holds capacity (xs ++ x ∷ []) (record_sample capacity x s)
  unfolding record_sample
  record_sample-Holds x xs s h (filling [] e l p w c) = absurd (omega arith)
  record_sample-Holds x xs s h (filling (y ∷ []) e l p w c) =
      full [] (xs ++ x ∷ []) (stored x y xs [] s e w) (omega (arith, one_more))
        (omega (arith, one_more)) (next_last s.write_idx (omega arith))
        (count_up s.count x xs c (omega arith)) (omega (arith, one_more))
        (append-nil (xs ++ x ∷ []) ∙ ap (λ n. drop n (xs ++ x ∷ [])) start) (λ _. refl)
    where
      one_more : length (xs ++ x ∷ []) ≡ length xs + 1
      one_more = length-append xs (x ∷ [])

      start : 0 ≡ length (xs ++ x ∷ []) - capacity
      start = omega (arith, one_more)
  record_sample-Holds x xs s h (filling (y ∷ z ∷ rest) e l p w c) =
      filling (z ∷ rest)
        (stored x y xs (z ∷ rest) s e w ∙ sym (append_assoc xs (x ∷ []) (z ∷ rest)))
        (omega (arith, one_more)) (omega arith)
        (next_below s.write_idx (omega arith) ∙ omega (arith, one_more))
        (count_up s.count x xs c (omega arith))
    where
      one_more : length (xs ++ x ∷ []) ≡ length xs + 1
      one_more = length-append xs (x ∷ [])
  record_sample-Holds x xs s h (full newer [] e l p w c k o z0) = absurd (omega arith)
  record_sample-Holds x xs s h (full newer (y ∷ []) e l p w c k o z0) =
      full [] (newer ++ x ∷ []) (stored x y newer [] s e w)
        (omega (arith, length-append {0} newer (x ∷ [])))
        (omega (arith, length-append {0} newer (x ∷ []))) (next_last s.write_idx (omega arith))
        (count_up s.count x xs c (omega arith)) (omega (arith, length-append {0} xs (x ∷ [])))
        (append-nil (newer ++ x ∷ []) ∙ slide x y newer xs k o) (λ _. refl)
  record_sample-Holds x xs s h (full newer (y ∷ z ∷ older) e l p w c k o z0) =
      full (newer ++ x ∷ []) (z ∷ older)
        (stored x y newer (z ∷ older) s e w ∙ sym (append_assoc newer (x ∷ []) (z ∷ older)))
        (omega (arith, length-append {0} newer (x ∷ []))) (omega arith)
        (next_below s.write_idx (omega arith) ∙ omega (arith, length-append {0} newer (x ∷ [])))
        (count_up s.count x xs c (omega arith)) (omega (arith, length-append {0} xs (x ∷ [])))
        (sym (append_assoc (z ∷ older) newer (x ∷ [])) ∙ slide x y (z ∷ (older ++ newer)) xs k o)
        (λ q. absurd (omega (arith, length-append {0} xs (x ∷ []))))

  record_all-Holds :
      (ys xs : List ℕ) (s : Stats)
      → length xs + length ys < 2 ^ 64
      → Holds capacity xs s
      → Holds capacity (xs ++ ys) (record_all capacity ys s)
  unfolding record_all
  record_all-Holds [] xs s h i = rw (append-nil xs) i
  record_all-Holds (y ∷ ys) xs s h i =
      subst (λ l. Holds capacity l (record_all capacity ys (record_sample capacity y s)))
        (append_assoc xs (y ∷ []) ys)
        (record_all-Holds ys (xs ++ y ∷ []) (record_sample capacity y s)
          (omega (arith, length-append {0} xs (y ∷ [])))
          (record_sample-Holds y xs s (omega arith) i))

  init-Holds : Holds capacity [] (init capacity)
  unfolding init
  init-Holds =
      filling (replicate capacity 0) refl (omega (arith, zeros)) (omega (arith, zeros)) refl refl
    where
      zeros : length (replicate {A = ℕ} capacity 0) ≡ capacity
      zeros = length-replicate capacity 0

  snapshot-Holds :
      (xs : List ℕ) (s : Stats)
      → Holds capacity xs s
      → snapshot capacity s ≡ drop (length xs - capacity) xs
  unfolding snapshot num_samples
  snapshot-Holds xs s (filling rest e l p w c) =
      rw
        (
          le→leb s.count capacity (omega arith),
          lt→ltb s.count capacity (omega arith),
          c,
          e,
          take-append_length (length xs) xs rest refl,
          start,
        )
        refl
    where
      start : length xs - capacity ≡ 0
      start = omega arith
  snapshot-Holds xs s (full newer older e l p w c k o z0) = elim (dec_lt capacity s.count) [
    | yes over ↦
        rw
          (
            nle→leb s.count capacity (omega arith),
            e,
            w,
            drop-append_length (length newer) newer older refl,
            take-append_length (length newer) newer older refl,
          )
          o
    | no exact ↦
        let whole : take capacity s.samples ≡ drop (length xs - capacity) xs =
          take-length capacity s.samples (rw e (omega (arith, length-append {0} newer older)))
          ∙ e
          ∙ ap (λ a. a ++ older) (z0 (omega arith))
          ∙ sym (append-nil older)
          ∙ ap (λ a. older ++ a) (sym (z0 (omega arith)))
          ∙ o in
        rw (le→leb s.count capacity (omega arith), nlt→ltb s.count capacity (omega arith)) whole
  ]

  Holds-count : (xs : List ℕ) (s : Stats) → Holds capacity xs s → s.count ≡ length xs
  Holds-count xs s (filling rest e l p w c) = c
  Holds-count xs s (full newer older e l p w c k o z0) = c

  -- For a capacity from 1 to 2^64 - 1, after any samples (fewer than 2^64), the snapshot of a new
  -- collector is the last `capacity` of them, or all of them if they are fewer, the oldest first,
  -- and `getSampleCount` is their number.
  pub snapshot-record_all :
      (xs : List ℕ)
      → length xs < 2 ^ 64
      → let s = record_all capacity xs (init capacity) in
        (snapshot capacity s ≡ drop (length xs - capacity) xs) × (get_sample_count s ≡ length xs)
  snapshot-record_all xs h =
      let i = record_all-Holds xs [] (init capacity) (omega arith) init-Holds in
      (snapshot-Holds xs (record_all capacity xs (init capacity)) i, Holds-count xs _ i)
