-- ===== src/Threads/Drain.antt =====
-- How the sender's thread empties its queue.
use agent_team_test.Prelude.{
  ℕ, zero, suc, ◌+◌, ◌≤◌, ◌≡◌, refl, sym, ap, ◌∙◌, Bool, true, List, [], ◌∷◌, All, arith, length,
  drop, drop-drop, if◌then◌else◌, inl, inr,
}
use agent_team_test.Ring.{pop}
use agent_team_test.Threads.Queues.{IsQueue, waiting, pop_cases}
use agent_team_test.Threads.State.{max_packet_size, queue_capacity}
use agent_team_test.Threads.Loops.{TxPass, TxState, tx_step, tx_thread_loop}
use agent_team_test.Threads.Sender.{count_sent-lem, tx_step-Sends}

drop_all : {A : Type 0} (n : ℕ) (xs : List A) → length xs ≤ n → drop n xs ≡ []
drop_all zero [] h = refl
drop_all zero (x ∷ xs) h = absurd (omega arith)
drop_all (suc n) [] h = refl
drop_all (suc n) (x ∷ xs) h = drop_all n xs (omega arith)

if_true : {A : Type 0} (b : Bool) (x y : A) → b ≡ true → (if b then x else y) ≡ x
if_true b x y e = rw e refl

module _ {App : Type 0} where
  tx_step-waiting :
      (pass : TxPass) (s : TxState App)
      → IsQueue s.manager.tx_queue
      → waiting (tx_step pass s).manager.tx_queue ≡ drop 1 (waiting s.manager.tx_queue)
  unfolding tx_step
  tx_step-waiting pass s v = elim (pop_cases s.tx_buffer s.tx_length s.manager.tx_queue v) [
    | inl (empty, stays, none_waits) ↦ rw empty (stays ∙ none_waits ∙ sym (ap (drop 1) none_waits))
    | inr (got, first) ↦
        let p =
          pop max_packet_size queue_capacity s.tx_buffer max_packet_size s.tx_length
            s.manager.tx_queue in
        rw got (
          ap waiting (count_sent-lem pass (record s.manager { tx_queue = p.ring })).0
          ∙ sym (ap (drop 1) first))
  ]

  -- A pass of a running manager takes one packet.
  pub tx_thread_loop-waiting :
      (passes : List TxPass) (s : TxState App)
      → IsQueue s.manager.tx_queue
      → All (λ p. p.running ≡ true) passes
      → waiting (tx_thread_loop passes s).manager.tx_queue
        ≡ drop (length passes) (waiting s.manager.tx_queue)
  unfolding tx_thread_loop
  tx_thread_loop-waiting [] s v h = refl
  tx_thread_loop-waiting (pass ∷ passes) s v h =
      ap (λ (t : TxState App). waiting t.manager.tx_queue) (if_true pass.running _ _ h.0)
      ∙ tx_thread_loop-waiting passes (tx_step pass s) (tx_step-Sends pass s v).queue h.1
      ∙ ap (drop (length passes)) (tx_step-waiting pass s v)
      ∙ drop-drop 1 (length passes) (waiting s.manager.tx_queue)
      ∙ ap (λ k. drop k (waiting s.manager.tx_queue)) one_more
    where
      one_more : 1 + length passes ≡ suc (length passes)
      one_more = omega arith

  pub tx_thread_loop-drains :
      (passes : List TxPass) (s : TxState App)
      → IsQueue s.manager.tx_queue
      → All (λ p. p.running ≡ true) passes
      → length (waiting s.manager.tx_queue) ≤ length passes
      → waiting (tx_thread_loop passes s).manager.tx_queue ≡ []
  tx_thread_loop-drains passes s v h enough =
      tx_thread_loop-waiting passes s v h
      ∙ drop_all (length passes) (waiting s.manager.tx_queue) enough
