-- ===== src/Threads/Sender.antt =====
-- What the sender thread hands to the socket, and how it is counted.
use agent_team_test.Prelude.{
  ℕ, ◌+◌, ◌-◌, ◌≤◌, ◌≡◌, refl, sym, ap, ◌∙◌, Bool, true, false, List, [], ◌∷◌, ◌++◌, append_assoc,
  arith, length, length-append, if◌then◌else◌, take, u64, Bool-cases, inl, inr,
}
use agent_team_test.Ring.{pop}
use agent_team_test.Threads.Queues.{IsQueue, waiting, pop-IsQueue, pop_cases}
use agent_team_test.Threads.State.{Manager, max_packet_size, queue_capacity}
use agent_team_test.Threads.Loops.{TxPass, TxState, was_sent, count_sent, tx_step, tx_thread_loop}

-- What was handed to the socket, and then what waits.
abbrev pub packets : {App : Type 0} → TxState App → List (List ℕ)
packets s = s.sends ++ waiting s.manager.tx_queue

-- How many packets were sent or dropped.
abbrev pub counted : {App : Type 0} → Manager App → ℕ
counted m = m.tx_packet_count + m.tx_drop_count

module _ {App : Type 0} where
  pub record Sends (s s' : TxState App) : Type 0 where
    pub same : packets s' ≡ packets s
    pub grows : length s.sends ≤ length s'.sends
    pub counts :
        u64 (counted s'.manager) ≡ u64 (counted s.manager + (length s'.sends - length s.sends))
    pub queue : IsQueue s'.manager.tx_queue

  pub count_sent-lem :
      (pass : TxPass) (m : Manager App)
      → ((count_sent pass m).tx_queue ≡ m.tx_queue)
        × (u64 (counted (count_sent pass m)) ≡ u64 (counted m + 1))
  unfolding count_sent
  count_sent-lem pass m = elim (Bool-cases (was_sent pass.sent)) [
    | inl e ↦ rw e (refl, omega arith)
    | inr e ↦ rw e (refl, omega arith)
  ]

  pub tx_step-Sends :
      (pass : TxPass) (s : TxState App) → IsQueue s.manager.tx_queue → Sends s (tx_step pass s)
  unfolding tx_step
  tx_step-Sends pass s v = elim (pop_cases s.tx_buffer s.tx_length s.manager.tx_queue v) [
    | inl (empty, stays, none_waits) ↦ rw empty (record {
      same = ap (λ w. s.sends ++ w) stays;
      grows = omega arith;
      counts = omega arith;
      queue = pop-IsQueue s.tx_buffer s.tx_length s.manager.tx_queue v;
    })
    | inr (got, first) ↦
        let p =
          pop max_packet_size queue_capacity s.tx_buffer max_packet_size s.tx_length
            s.manager.tx_queue in
        let (queue, counts) = count_sent-lem pass (record s.manager { tx_queue = p.ring }) in
        rw got (record {
          same =
              ap (λ r. (s.sends ++ take p.actual_length p.out ∷ []) ++ waiting r) queue
              ∙ append_assoc s.sends (take p.actual_length p.out ∷ []) (waiting p.ring)
              ∙ ap (λ w. s.sends ++ w) (sym first);
          grows = omega (arith, length-append {0} s.sends (take p.actual_length p.out ∷ []));
          counts =
              omega (arith, counts, length-append {0} s.sends (take p.actual_length p.out ∷ []));
          queue = rw queue (pop-IsQueue s.tx_buffer s.tx_length s.manager.tx_queue v);
        })
  ]

  Sends-trans : (s s' s'' : TxState App) → Sends s s' → Sends s' s'' → Sends s s''
  Sends-trans s s' s'' f g = record {
    same = g.same ∙ f.same;
    grows = omega (arith, g.grows, f.grows);
    counts = omega (arith, g.counts, f.counts, g.grows, f.grows);
    queue = g.queue;
  }

  Sends-if : (b : Bool) (s x y : TxState App) → Sends s x → Sends s y → Sends s (if b then x else y)
  Sends-if true s x y f g = f
  Sends-if false s x y f g = g

  pub tx_thread_loop-Sends :
      (passes : List TxPass) (s : TxState App)
      → IsQueue s.manager.tx_queue
      → Sends s (tx_thread_loop passes s)
  unfolding tx_thread_loop
  tx_thread_loop-Sends [] s v = record {
    same = refl;
    grows = omega arith;
    counts = omega arith;
    queue = v;
  }
  tx_thread_loop-Sends (pass ∷ passes) s v =
      let first = tx_step-Sends pass s v in
      Sends-if pass.running s (tx_thread_loop passes (tx_step pass s)) (tx_step pass s)
        (Sends-trans s (tx_step pass s) (tx_thread_loop passes (tx_step pass s)) first
          (tx_thread_loop-Sends passes (tx_step pass s) first.queue))
        first

-- From a valid send queue, whatever the kernel answers, the sender's loop loses and reorders
-- nothing: the packets handed to the socket, followed by those that still wait, stay the same, and
-- each packet handed to the socket is counted once, as sent or as dropped, modulo 2^64.
pub tx_thread_loop_lem :
    {App : Type 0} (passes : List TxPass) (s : TxState App)
    → IsQueue s.manager.tx_queue
    → let s' = tx_thread_loop passes s in
      (s'.sends ++ waiting s'.manager.tx_queue ≡ s.sends ++ waiting s.manager.tx_queue)
      × (u64 (s'.manager.tx_packet_count + s'.manager.tx_drop_count)
          ≡ u64 (
              s.manager.tx_packet_count
              + s.manager.tx_drop_count
              + (length s'.sends - length s.sends)))
tx_thread_loop_lem passes s v = let r = tx_thread_loop-Sends passes s v in (r.same, r.counts)
