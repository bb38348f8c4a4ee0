-- ===== src/Ring/Refine/Run.antt =====
-- Any sequence of calls on a valid ring gives the replies of the bounded queue of its contents.
use agent_team_test.Prelude.{
  ℕ, ◌+◌, ◌≡◌, ◌≢◌, ◌↔◌, refl, ap, ◌∙◌, List, [], ◌∷◌, ◌++◌, true, false, Option, none, some, arith,
  length, All-get, take, lt→ltb, nlt→ltb, ne→==_false, ==_iff, length-take, length-map,
  take-append_length, take-length, if◌then◌else◌, dec_lt, ℕ_discrete,
}
use agent_team_test.Ring.{
  no_packet, Ring, Popped, next_index, copy_to, push, pop, size, is_empty, is_full,
}
use agent_team_test.Ring.Queue
use agent_team_test.Ring.Queue.{Op, Reply, put, get, took, gave}
use agent_team_test.Ring.Window.{packet_bytes, slot_at, length-window}
use agent_team_test.Ring.Valid.{
  FitsParams, IsValid, count, pending, contents, gap-full_iff, gap-empty_iff,
}
use agent_team_test.Ring.Refine.{
  pushed-IsValid, contents-pushed, popped, popped-IsValid, contents-popped, head-fits,
}

module _ (max_packet_size capacity : ℕ) where
  -- What a caller sees of a `pop` into `out`: the packet that was copied, if any.
  abbrev pub popped_bytes : Popped → Option (List ℕ)
  popped_bytes p = if p.ok then some (take p.actual_length p.out) else none

  -- One call on the ring. The consumer's buffer has `max_packet_size` bytes.
  unfoldable pub step : List ℕ → Op → Ring → Reply × Ring
  step out (put bytes) r =
      let (ok, r') = push max_packet_size capacity bytes (length bytes) r in (took ok, r')
  step out get r =
      let p = pop max_packet_size capacity out max_packet_size 0 r in
      (gave (popped_bytes p), p.ring)

  unfoldable pub run : List ℕ → List Op → Ring → List Reply
  run out [] r = []
  run out (op ∷ ops) r = let (reply, r') = step out op r in reply ∷ run out ops r'

module _ {max_packet_size capacity : ℕ} (fp : FitsParams max_packet_size capacity) where
  pub length-contents : (r : Ring) → length (contents capacity r) ≡ count capacity r
  length-contents r =
      length-map packet_bytes (pending capacity r)
      ∙ length-window r.slots capacity r.read_idx (count capacity r)

  pub push_lem :
      (bytes : List ℕ) (r : Ring)
      → IsValid max_packet_size capacity r
      → let (ok, r') = push max_packet_size capacity bytes (length bytes) r in
        ((took ok, contents capacity r')
          ≡ Queue.step max_packet_size capacity (put bytes) (contents capacity r))
        × IsValid max_packet_size capacity r'
  unfolding push Queue.step
  push_lem bytes r v = elim (dec_lt max_packet_size (length bytes)) [
    | yes long ↦ rw (lt→ltb max_packet_size (length bytes) long) (refl, v)
    | no fits ↦ elim (ℕ_discrete (next_index capacity r.write_idx) r.read_idx) [
      | yes full ↦
          let at_limit : length (contents capacity r) + 1 ≡ capacity = omega (
            arith,
            length-contents r,
            (gap-full_iff capacity fp.capacity_fits r.read_idx r.write_idx v.read_in v.write_in).0
                full,
          ) in
          rw (nlt→ltb _ _ fits, (==_iff _ _).1 full, (==_iff _ _).1 at_limit) (refl, v)
      | no free ↦
          let below : length (contents capacity r) + 1 ≢ capacity = λ e. free (
            (gap-full_iff capacity fp.capacity_fits r.read_idx r.write_idx v.read_in v.write_in).1
              (omega (arith, length-contents r))) in
          rw (nlt→ltb _ _ fits, ne→==_false _ _ free, ne→==_false _ _ below)
            (
              ap (λ q. (took true, q))
                  (contents-pushed fp bytes (length bytes) r v (omega arith) (omega arith) free
                    ∙ ap (λ b. contents capacity r ++ b ∷ [])
                        (take-length (length bytes) bytes (omega arith))),
              pushed-IsValid fp bytes (length bytes) r v (omega arith) (omega arith) free,
            )
    ]
  ]

  -- What `pop` copies out is the packet at the read index.
  popped_bytes-head :
      (out : List ℕ) (actual : ℕ) (r : Ring)
      → IsValid max_packet_size capacity r
      → r.read_idx ≢ r.write_idx
      → pop max_packet_size capacity out max_packet_size actual r ≡ record {
        ok = true;
        out = copy_to (packet_bytes (slot_at r.slots r.read_idx)) out;
        actual_length = (slot_at r.slots r.read_idx).length;
        ring = popped fp r;
      }
        × (take
              (slot_at r.slots r.read_idx).length
              (copy_to (packet_bytes (slot_at r.slots r.read_idx)) out)
            ≡ packet_bytes (slot_at r.slots r.read_idx))
  unfolding pop
  popped_bytes-head out actual r v ne = (
    rw (
      ne→==_false _ _ ne,
      nlt→ltb max_packet_size (slot_at r.slots r.read_idx).length
          (omega (arith, head-fits fp r v ne)),
    ),
    take-append_length (slot_at r.slots r.read_idx).length
        (packet_bytes (slot_at r.slots r.read_idx)) _
        (omega (
          arith,
          length-take {0} (slot_at r.slots r.read_idx).length (slot_at r.slots r.read_idx).bytes,
          array,
          head-fits fp r v ne,
        )),
  )
    where
      array : length (slot_at r.slots r.read_idx).bytes ≡ max_packet_size
      array =
          All-get (λ s. length s.bytes ≡ max_packet_size) r.slots r.read_idx no_packet
            (rw v.slot_count v.read_in) v.arrays

  pop-empty :
      (out : List ℕ) (actual : ℕ) (r : Ring)
      → r.read_idx ≡ r.write_idx
      → pop max_packet_size capacity out max_packet_size actual r
        ≡ record { ok = false; out = out; actual_length = actual; ring = r }
  unfolding pop
  pop-empty out actual r e = rw ((==_iff _ _).1 e)

  pub pop_lem :
      (out : List ℕ) (actual : ℕ) (r : Ring)
      → IsValid max_packet_size capacity r
      → let p = pop max_packet_size capacity out max_packet_size actual r in
        ((gave (popped_bytes max_packet_size capacity p), contents capacity p.ring)
          ≡ Queue.step max_packet_size capacity get (contents capacity r))
        × IsValid max_packet_size capacity p.ring
  unfolding Queue.step
  pop_lem out actual r v = elim (ℕ_discrete r.read_idx r.write_idx) [
    | yes e ↦
        let none_left : count capacity r ≡ 0 =
          (gap-empty_iff capacity fp.capacity_fits r.read_idx r.write_idx v.read_in v.write_in).0
            e in
        rw (pop-empty out actual r e, none_left) (refl, v)
    | no ne ↦
        let (popped_eq, head_eq) = popped_bytes-head out actual r v ne in
        rw (popped_eq, head_eq, contents-popped fp r v ne) (refl, popped-IsValid fp r v ne)
  ]

  step_lem :
      (out : List ℕ) (op : Op) (r : Ring)
      → IsValid max_packet_size capacity r
      → let (reply, r') = step max_packet_size capacity out op r in
        ((reply, contents capacity r')
          ≡ Queue.step max_packet_size capacity op (contents capacity r))
        × IsValid max_packet_size capacity r'
  unfolding step
  step_lem out (put bytes) r v = push_lem bytes r v
  step_lem out get r v = pop_lem out 0 r v

  -- Any sequence of `push` and `pop` calls, the latter into a buffer of `max_packet_size` bytes,
  -- has on a valid ring the results of the bounded queue of its contents: a packet is refused
  -- exactly when it is too long or `capacity - 1` packets wait, and packets come out whole and in
  -- order.
  pub run_refines :
      (out : List ℕ) (ops : List Op) (r : Ring)
      → IsValid max_packet_size capacity r
      → run max_packet_size capacity out ops r
        ≡ Queue.run max_packet_size capacity ops (contents capacity r)
  unfolding run Queue.run
  run_refines out [] r v = refl
  run_refines out (op ∷ ops) r v =
      let (e, valid) = step_lem out op r v in
      rw (run_refines out ops (step max_packet_size capacity out op r).1 valid, ← e) refl

  -- `size`, `isEmpty` and `isFull` of a valid ring describe the queue of its contents.
  pub size_lem :
      (r : Ring)
      → IsValid max_packet_size capacity r
      → (size max_packet_size capacity r ≡ length (contents capacity r))
        × ((is_empty max_packet_size capacity r ≡ true) ↔ (length (contents capacity r) ≡ 0))
        × ((is_full max_packet_size capacity r ≡ true)
            ↔ (length (contents capacity r) + 1 ≡ capacity))
  unfolding size is_empty is_full
  size_lem r v = rw (length-contents r) (
    ground (arith, fp.capacity_fits),
    (λ e. empty.0 ((==_iff _ _).0 e), λ e. (==_iff _ _).1 (empty.1 e)),
    (λ e. full.0 ((==_iff _ _).0 e), λ e. (==_iff _ _).1 (full.1 e)),
  )
    where
      empty : (r.read_idx ≡ r.write_idx) ↔ (count capacity r ≡ 0)
      empty = gap-empty_iff capacity fp.capacity_fits r.read_idx r.write_idx v.read_in v.write_in

      full : (next_index capacity r.write_idx ≡ r.read_idx) ↔ (count capacity r + 1 ≡ capacity)
      full = gap-full_iff capacity fp.capacity_fits r.read_idx r.write_idx v.read_in v.write_in
