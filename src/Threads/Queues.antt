-- ===== src/Threads/Queues.antt =====
-- The two queues of the manager: how one `push` and one `pop` change their contents.
use agent_team_test.Prelude.{
  ℕ, ◌+◌, ◌≤◌, ◌<◌, ◌≡◌, ◌≢◌, refl, ap, ◌∙◌, Bool, true, false, Option, none, some, List, [], ◌∷◌,
  ◌++◌, arith, length, take, if◌then◌else◌, ◌⊎◌, inl, inr, nlt→ltb, ne→==_false, ℕ_discrete,
}
use agent_team_test.Ring.{Ring, Popped, push, pop}
use agent_team_test.Ring.Queue
use agent_team_test.Ring.Queue.{Reply, put, get, took, gave}
use agent_team_test.Ring.Valid.{FitsParams, IsValid, contents, gap-lt}
use agent_team_test.Ring.Refine.Run.{push_lem, pop_lem, popped_bytes, length-contents}
use agent_team_test.Threads.State.{max_packet_size, queue_capacity}

pub queue_params : FitsParams max_packet_size queue_capacity
queue_params = omega arith

abbrev pub IsQueue : Ring → Type 0
IsQueue r = IsValid max_packet_size queue_capacity r

-- The packets that wait.
abbrev pub waiting : Ring → List (List ℕ)
waiting r = contents queue_capacity r

pub length-waiting_le : (r : Ring) → IsQueue r → length (waiting r) ≤ 1023
length-waiting_le r v = omega (
  arith,
  length-contents queue_params r,
  gap-lt queue_capacity (omega arith) r.read_idx r.write_idx v.read_in v.write_in,
)

abbrev took_ok : Reply → Bool
took_ok (took ok) = ok
took_ok (gave bytes) = false

abbrev given : Reply → Option (List ℕ)
given (took ok) = none
given (gave bytes) = bytes

module _ (bytes : List ℕ) (r : Ring) (v : IsQueue r) (fits : length bytes ≤ max_packet_size) where
  abbrev after : Bool × Ring
  after = push max_packet_size queue_capacity bytes (length bytes) r

  pub push-IsQueue : IsQueue after.1
  push-IsQueue = (push_lem queue_params bytes r v).1

  -- A full queue refuses the packet and stays; another takes it at its end.
  pub push_cases :
      ((length (waiting r) ≡ 1023) × (after.0 ≡ false) × (waiting after.1 ≡ waiting r))
      ⊎ ((length (waiting r) < 1023)
          × (after.0 ≡ true)
          × (waiting after.1 ≡ waiting r ++ bytes ∷ []))
  push_cases = elim (ℕ_discrete (length (waiting r)) 1023) [
    | yes full ↦ inl (full, ap (λ p. took_ok p.0) (refuses full), ap (λ p. p.1) (refuses full))
    | no free ↦ inr (
      omega (arith, length-waiting_le r v),
      ap (λ p. took_ok p.0) (takes free),
      ap (λ p. p.1) (takes free),
    )
  ]
    where
      state : Reply × List (List ℕ)
      state = (took after.0, waiting after.1)

      eq : state ≡ Queue.step max_packet_size queue_capacity (put bytes) (waiting r)
      eq = (push_lem queue_params bytes r v).0

      refuses : length (waiting r) ≡ 1023 → state ≡ (took false, waiting r)
      refuses full =
          eq
          ∙ (unfold Queue.step in
              rw (nlt→ltb max_packet_size (length bytes) (omega arith), full) refl)

      takes : length (waiting r) ≢ 1023 → state ≡ (took true, waiting r ++ bytes ∷ [])
      takes free =
          eq
          ∙ (unfold Queue.step in
              rw
                (
                  nlt→ltb max_packet_size (length bytes) (omega arith),
                  ne→==_false (length (waiting r) + 1) queue_capacity (omega arith),
                )
                refl)

refused_pop :
    (ok : Bool) (b : List ℕ)
    → ◌≡◌ {A = Option (List ℕ)} (if ok then some b else none) none
    → ok ≡ false
refused_pop true b e = ground arith
refused_pop false b e = refl

taken_pop :
    (ok : Bool) (b c : List ℕ)
    → ◌≡◌ {A = Option (List ℕ)} (if ok then some b else none) (some c)
    → (ok ≡ true) × (b ≡ c)
taken_pop true b c e = (refl, ground arith)
taken_pop false b c e = ground arith

module _ (out : List ℕ) (actual : ℕ) (r : Ring) (v : IsQueue r) where
  abbrev popped : Popped
  popped = pop max_packet_size queue_capacity out max_packet_size actual r

  pub pop-IsQueue : IsQueue popped.ring
  pop-IsQueue = (pop_lem queue_params out actual r v).1

  -- An empty queue gives nothing and stays; another gives its first packet whole.
  pub pop_cases :
      ((popped.ok ≡ false) × (waiting popped.ring ≡ waiting r) × (waiting r ≡ []))
      ⊎ ((popped.ok ≡ true)
          × (waiting r ≡ take popped.actual_length popped.out ∷ waiting popped.ring))
  unfolding Queue.step
  pop_cases = go (waiting r) (pop_lem queue_params out actual r v).0
    where
      go :
          (q : List (List ℕ))
          → ◌≡◌ {A = Reply × List (List ℕ)}
              (gave (popped_bytes max_packet_size queue_capacity popped), waiting popped.ring)
              (Queue.step max_packet_size queue_capacity get q)
          → ((popped.ok ≡ false) × (waiting popped.ring ≡ q) × (q ≡ []))
            ⊎ ((popped.ok ≡ true)
                × (q ≡ take popped.actual_length popped.out ∷ waiting popped.ring))
      go [] e = inl (
        refused_pop popped.ok (take popped.actual_length popped.out) (ap (λ p. given p.0) e),
        ap (λ p. p.1) e,
        refl,
      )
      go (bytes ∷ q) e =
          let (ok, same) =
            taken_pop popped.ok (take popped.actual_length popped.out) bytes
              (ap (λ p. given p.0) e) in
          inr (ok, rw (same, ap (λ p. p.1) e) refl)
