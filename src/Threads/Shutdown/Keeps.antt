-- ===== src/Threads/Shutdown/Keeps.antt =====
-- No pass of a loop writes `m_running`.
use agent_team_test.Prelude.{ℕ, ◌≡◌, refl, ◌∙◌, Bool-cases, inl, inr, arith, List}
use agent_team_test.Ring.{Popped, pop}
use agent_team_test.Socket
use agent_team_test.Socket.{Received, datagram, failed}
use agent_team_test.Threads.State.{Manager, max_packet_size, queue_capacity}
use agent_team_test.Threads.Loops.{
  RxPass, RxState, TxPass, TxState, measure_interval, push_received, handle_datagram,
  handle_received, rx_step, count_sent, tx_step,
}

module _ {App : Type 0} where
  running-measure_interval : (t : ℕ) (m : Manager App) → (measure_interval t m).running ≡ m.running
  unfolding measure_interval
  running-measure_interval t m = ground arith

  running-push_received :
      (bytes : List ℕ) (m : Manager App) → (push_received bytes m).running ≡ m.running
  unfolding push_received
  running-push_received bytes m = ground arith

  running-handle_datagram :
      (pass : RxPass) (bytes : List ℕ) (s : RxState App)
      → (handle_datagram pass bytes s).manager.running ≡ s.manager.running
  unfolding handle_datagram
  running-handle_datagram pass bytes s =
      running-push_received bytes _ ∙ running-measure_interval pass.rx_start _

  pub running-rx_step :
      (pass : RxPass) (s : RxState App) → (rx_step pass s).0.manager.running ≡ s.manager.running
  unfolding rx_step handle_received
  running-rx_step pass s =
      handled pass.received (record s { node = Socket.receive pass.received s.node })
    where
      handled :
          (received : Received) (t : RxState App)
          → (handle_received pass received t).0.manager.running ≡ t.manager.running
      handled (datagram bytes) t = ground (arith, running-handle_datagram pass bytes t)
      handled (failed errno) t = refl

  running-count_sent : (pass : TxPass) (m : Manager App) → (count_sent pass m).running ≡ m.running
  unfolding count_sent
  running-count_sent pass m = ground arith

  abbrev popped : TxState App → Popped
  popped s =
      pop max_packet_size queue_capacity s.tx_buffer max_packet_size s.tx_length s.manager.tx_queue

  pub running-tx_step :
      (pass : TxPass) (s : TxState App) → (tx_step pass s).manager.running ≡ s.manager.running
  unfolding tx_step
  running-tx_step pass s = elim (Bool-cases (popped s).ok) [
    | inl e ↦ rw e (running-count_sent pass (record s.manager { tx_queue = (popped s).ring }))
    | inr e ↦ rw e refl
  ]
