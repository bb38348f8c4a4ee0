-- ===== src/Stats/Concurrent/Invariant.antt =====
-- What every interleaving of `recordSample` and `computeStats` keeps.
use agent_team_test.Prelude.{
  ℕ, ◌+◌, ◌-◌, ◌%◌, ◌^◌, ◌≤◌, ◌<◌, ◌≡◌, ◌≢◌, refl, sym, ap, ap₂, ◌∙◌, List, [], ◌∷◌, ◌++◌, map,
  arith, All, length, get_or, set, min, length-append, get_or-append_left, get_or-append_right,
  get_or-set_self, get_or-set_ne, ℕ_discrete,
}
use native.Mathlib.Nat.{mod-eq_of_lt, add-mod_right}
use agent_team_test.Stats.Concurrent.{Recorder, Reader, System}
use agent_team_test.Stats.Concurrent.Slots.{Distinct, All-weaken}

-- By how many samples the write index and the count are behind the stores.
abbrev pub index_lag : Recorder → ℕ
index_lag Recorder.idle = 0
index_lag Recorder.stored = 1
index_lag Recorder.indexed = 0

abbrev pub count_lag : Recorder → ℕ
count_lag Recorder.idle = 0
count_lag Recorder.stored = 1
count_lag Recorder.indexed = 1

abbrev pub sample_at : List ℕ → ℕ → ℕ
sample_at xs k = get_or xs k 0

-- The sample with the number `k` is one of `xs`, and is not older than the last `capacity` of the
-- first `total` ones.
pub record IsRecent (capacity total : ℕ) (xs : List ℕ) (k : ℕ) : Type 0 where
  pub inside : k < length xs
  pub recent : total ≤ k + capacity

-- A slot that was written holds one of the last `capacity` samples, the one whose number falls on
-- it.
pub record HasSample (capacity : ℕ) (xs samples : List ℕ) (i : ℕ) : Type 0 where
  pub number : ℕ
  pub falls : number % capacity ≡ i
  pub recent : IsRecent capacity (length xs) xs number
  pub holds : get_or samples i 0 ≡ sample_at xs number

-- What a reader has copied, under the numbers of the samples.
pub record Copied (capacity total : ℕ) (xs left copied : List ℕ) : Type 0 where
  pub numbers : List ℕ
  pub copied_eq : copied ≡ map (sample_at xs) numbers
  pub recent : All (IsRecent capacity total xs) numbers
  pub apart : Distinct (map (λ k. k % capacity) numbers ++ left)
  pub written : All (λ i. (i < capacity) × (i < length xs)) left
  pub size : length numbers + length left ≡ min total capacity

abbrev pub ReaderOk : ℕ → List ℕ → Reader → Type 0
ReaderOk capacity xs Reader.start = Unit
ReaderOk capacity xs (Reader.counted total) = (total ≤ length xs) × (capacity < total)
ReaderOk capacity xs (Reader.copying total left copied) =
    (total ≤ length xs) × Copied capacity total xs left copied

pub record Inv (capacity : ℕ) (s : System) : Type 0 where
  pub slots : length s.stats.samples ≡ capacity
  pub lag : index_lag s.recorder ≤ length s.recorded
  pub index : s.stats.write_idx ≡ (length s.recorded - index_lag s.recorder) % capacity
  pub counted : s.stats.count + count_lag s.recorder ≡ length s.recorded
  pub samples :
      (i : ℕ)
      → i < capacity
      → i < length s.recorded
      → HasSample capacity s.recorded s.stats.samples i
  pub reader : ReaderOk capacity s.recorded s.reader

-- A further sample leaves the numbered ones as they are.
pub length-snoc : (xs : List ℕ) (x : ℕ) → length (xs ++ x ∷ []) ≡ length xs + 1
length-snoc xs x = length-append xs (x ∷ [])

sample_at-snoc :
    (xs : List ℕ) (x k : ℕ) → k < length xs → sample_at xs k ≡ sample_at (xs ++ x ∷ []) k
sample_at-snoc xs x k h = sym (get_or-append_left xs (x ∷ []) k 0 h)

IsRecent-snoc :
    {capacity total : ℕ} {xs : List ℕ} (x k : ℕ)
    → IsRecent capacity total xs k
    → IsRecent capacity total (xs ++ x ∷ []) k
IsRecent-snoc {xs = xs} x k r = record {
  inside = omega (arith, r.inside, length-snoc xs x);
  recent = r.recent;
}

map-sample_at-snoc :
    (capacity total : ℕ) (xs : List ℕ) (x : ℕ) (ks : List ℕ)
    → All (IsRecent capacity total xs) ks
    → map (sample_at xs) ks ≡ map (sample_at (xs ++ x ∷ [])) ks
map-sample_at-snoc capacity total xs x [] h = refl
map-sample_at-snoc capacity total xs x (k ∷ ks) h =
    ap₂ ◌∷◌ (sample_at-snoc xs x k h.0.inside) (map-sample_at-snoc capacity total xs x ks h.1)

pub ReaderOk-snoc :
    (capacity : ℕ) (xs : List ℕ) (x : ℕ) (r : Reader)
    → ReaderOk capacity xs r
    → ReaderOk capacity (xs ++ x ∷ []) r
ReaderOk-snoc capacity xs x Reader.start h = tt
ReaderOk-snoc capacity xs x (Reader.counted total) h = (omega (arith, h.0, length-snoc xs x), h.1)
ReaderOk-snoc capacity xs x (Reader.copying total left copied) h = (
  omega (arith, h.0, length-snoc xs x),
  record {
    numbers = h.1.numbers;
    copied_eq = h.1.copied_eq ∙ map-sample_at-snoc capacity total xs x h.1.numbers h.1.recent;
    recent = All-weaken (λ k r. IsRecent-snoc x k r) h.1.numbers h.1.recent;
    apart = h.1.apart;
    written = All-weaken (λ i w. (w.0, omega (arith, w.1, length-snoc xs x))) left h.1.written;
    size = h.1.size;
  },
)

module _ (capacity : ℕ) (pos : 0 < capacity) (fits : capacity < 2 ^ 64) where
  -- The store of a sample.
  pub store_sample-HasSample :
      (xs samples : List ℕ) (w x i : ℕ)
      → length samples ≡ capacity
      → w ≡ length xs % capacity
      → (i < length xs → HasSample capacity xs samples i)
      → i < capacity
      → i < length (xs ++ x ∷ [])
      → HasSample capacity (xs ++ x ∷ []) (set samples w x) i
  store_sample-HasSample xs samples w x i l e old below reach = elim (ℕ_discrete i w) [
    | yes here ↦ record {
      number = length xs;
      falls = sym e ∙ sym here;
      recent = record {
        inside = omega (arith, length-snoc xs x);
        recent = omega (arith, length-snoc xs x);
      };
      holds = new_sample here;
    }
    | no elsewhere ↦
        let before : i < length xs = before_end elsewhere in
        let k : HasSample capacity xs samples i = old before in
        record {
          number = k.number;
          falls = k.falls;
          recent = record {
            inside = omega (arith, k.recent.inside, length-snoc xs x);
            recent = still_recent elsewhere k;
          };
          holds =
              get_or-set_ne samples w i x 0 (λ q. elsewhere (sym q))
              ∙ k.holds
              ∙ sample_at-snoc xs x k.number k.recent.inside;
        }
  ]
    where
      zero_end : length xs + 0 ≡ length xs
      zero_end = omega arith

      new_sample : i ≡ w → get_or (set samples w x) i 0 ≡ sample_at (xs ++ x ∷ []) (length xs)
      new_sample here =
          ap (λ j. get_or (set samples w x) j 0) here
          ∙ get_or-set_self samples w x 0 (omega arith)
          ∙ sym (get_or-append_right (length xs) 0 xs (x ∷ []) 0 refl)
          ∙ ap (sample_at (xs ++ x ∷ [])) zero_end

      before_end : i ≢ w → i < length xs
      before_end ne = elim (ℕ_discrete i (length xs)) [
        | yes q ↦ absurd (ne (q ∙ sym (mod-eq_of_lt (omega arith)) ∙ sym e))
        | no q ↦ omega (arith, length-snoc xs x)
      ]

      still_recent :
          i ≢ w
          → (k : HasSample capacity xs samples i) → length (xs ++ x ∷ []) ≤ k.number + capacity
      still_recent ne k = elim (ℕ_discrete (length xs) (k.number + capacity)) [
        | yes q ↦ absurd (
            ne (
              sym k.falls
              ∙ sym (add-mod_right k.number capacity)
              ∙ ap (λ n. n % capacity) (sym q)
              ∙ sym e))
        | no q ↦ omega (arith, k.recent.recent, length-snoc xs x)
      ]
