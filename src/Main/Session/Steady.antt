-- ===== src/Main/Session/Steady.antt =====
-- How the receiving peer of src/app/main.cpp judges the timing of a session, from the start on.
use agent_team_test.Prelude.{ℕ, ◌≡◌, refl, ap, ◌∙◌, Option, List, arith, All, min, ltb}
use agent_team_test.AppPacket.State.{
  AppPacket, set_comm_timeout, set_expected_interval, set_unique_id,
}
use agent_team_test.AppPacket.Monitor.Stability.{
  Arrival, receive_all, Paced, streak, verdicts, receive_all_stability,
}
use agent_team_test.Stats.Floating.{Double}
use agent_team_test.Socket.{UdpNode}
use agent_team_test.Format.{Format}
use agent_team_test.Main.Environment.{Environment}
use agent_team_test.Main.Program.{new_tx_packet, new_rx_packet}
use agent_team_test.Main.Session.{Tick, ticks}
use agent_team_test.Main.Session.Sent.{Runs}
use agent_team_test.Main.Session.Started.{HasRoom, started, started-IsIdle}
use agent_team_test.Main.Session.Monitored.{arrivals_of, ticks-receive_all}

module _ (d : Double) (f : Format d.D) (inet_pton stoul : List ℕ → Option ℕ) where
  receiver : (ℕ → ℕ) → AppPacket
  receiver peer_clock = new_rx_packet d f inet_pton stoul peer_clock

  receiver_stability :
      (peer_clock : ℕ → ℕ) (arrivals : List Arrival)
      → Paced (peer_clock 3) arrivals
      → let n = streak 0 (verdicts 100000 5000 (peer_clock 3) arrivals) in
        ((receive_all arrivals (receiver peer_clock)).unstable_counter ≡ min n 65535)
        × ((receive_all arrivals (receiver peer_clock)).comm_unstable ≡ ltb 0 n)
  unfolding receiver new_rx_packet set_comm_timeout set_expected_interval
  receiver_stability peer_clock arrivals paced =
      receive_all_stability arrivals (receiver peer_clock) (omega arith) refl refl paced

  -- From the start of two peers' `main` on, with queues of the program's size and over ticks at
  -- each of which the sender's thread makes a pass, some of the packets lost on the way: if the
  -- arrivals come in the order of time, each less than 2^32 microseconds after the one before,
  -- then the receiver's count of unstable intervals is the number of intervals between arrivals
  -- since the last one of 95000 to 105000 us, held at 65535, the first interval measured from the
  -- making of the packet; and the communication counts as unstable exactly when this number is not
  -- 0.
  pub started_judged :
      (env : Environment) (node : UdpNode) (tx_buffer : List ℕ) (tx_length : ℕ) (peer_clock : ℕ → ℕ)
      (ts : List Tick)
      → HasRoom env.tx_slots
      → All (λ t. Runs t.passes) ts
      → Paced (peer_clock 3) (arrivals_of 0 ts)
      → let s = started d f inet_pton stoul env node tx_buffer tx_length peer_clock in
        let q = (ticks f ts s).rx_packet in
        let n = streak 0 (verdicts 100000 5000 (peer_clock 3) (arrivals_of 0 ts)) in
        (q.unstable_counter ≡ min n 65535) × (q.comm_unstable ≡ ltb 0 n)
  unfolding started new_tx_packet set_unique_id receiver
  started_judged env node tx_buffer tx_length peer_clock ts room runs paced =
      let s = started d f inet_pton stoul env node tx_buffer tx_length peer_clock in
      let same =
        ticks-receive_all f ts s runs
          (started-IsIdle d f inet_pton stoul env node tx_buffer tx_length peer_clock room) in
      let judged = receiver_stability peer_clock (arrivals_of 0 ts) paced in
      (
        ap (λ (q : AppPacket). q.unstable_counter) same ∙ judged.0,
        ap (λ (q : AppPacket). q.comm_unstable) same ∙ judged.1,
      )
