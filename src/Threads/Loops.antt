-- ===== src/Threads/Loops.antt =====
-- `rxThreadLoop` and `txThreadLoop` of src/thread/UdpThreadManager.cpp. A list has one entry for
-- each pass of a loop: what the kernel and the clock answer, and the value of `m_running` that the
-- loop reads at the end of the pass. At the end of the list the thread waits for the kernel.
use agent_team_test.Prelude.{
  ℕ, ◌+◌, Bool, true, false, not, ◌&&◌, Option, none, some, List, [], ◌∷◌, ◌++◌, length, ltb,
  if◌then◌else◌, u64, take,
}
use agent_team_test.Ring.{push, pop}
use agent_team_test.Stats.{record_interval}
use agent_team_test.Socket
use agent_team_test.Socket.{
  UdpNode, Errno, eagain, ewouldblock, eintr, econnrefused, other, Received, datagram, failed,
}
use agent_team_test.Threads.State.{
  Manager, RxCallback, max_packet_size, queue_capacity, stats_capacity,
}

-- One pass of the receiver.
pub record RxPass : Type 0 where
  pub received : Received
  pub rx_start : ℕ
  pub callback_time : ℕ
  pub rx_end : ℕ
  pub running : Bool

pub record RxState (App : Type 0) : Type 0 where
  pub manager : Manager App
  pub node : UdpNode
  pub app : App

unfoldable pub is_transient_error : Errno → Bool
is_transient_error eagain = true
is_transient_error ewouldblock = true
is_transient_error eintr = true
is_transient_error econnrefused = true
is_transient_error (other n) = false

module _ {App : Type 0} where
  unfoldable pub measure_interval : ℕ → Manager App → Manager App
  measure_interval rx_start m =
      if not m.first_rx_packet
      then record m {
        rx_interval_stats =
            record_interval stats_capacity m.last_rx_time rx_start m.rx_interval_stats;
        last_rx_time = rx_start;
      }
      else record m { first_rx_packet = false; last_rx_time = rx_start }

  unfoldable pub push_received : List ℕ → Manager App → Manager App
  push_received bytes m =
      let (ok, queue) = push max_packet_size queue_capacity bytes (length bytes) m.rx_queue in
      if ok
      then record m { rx_queue = queue }
      else record m { rx_queue = queue; rx_drop_count = u64 (m.rx_drop_count + 1) }

  unfoldable pub run_callback : Option (RxCallback App) → ℕ → List ℕ → App → App
  run_callback none now bytes app = app
  run_callback (some callback) now bytes app = callback now bytes app

  -- The pass for a datagram of at least one byte.
  unfoldable pub handle_datagram : RxPass → List ℕ → RxState App → RxState App
  handle_datagram pass bytes s =
      let counted = record s.manager { rx_packet_count = u64 (s.manager.rx_packet_count + 1) } in
      let m = push_received bytes (measure_interval pass.rx_start counted) in
      record s {
        manager = record m {
          rx_latency_stats =
              record_interval stats_capacity pass.rx_start pass.rx_end m.rx_latency_stats;
        };
        app = run_callback m.rx_callback pass.callback_time bytes s.app;
      }

  -- What the loop does with the result of `receive`, and whether it should exit.
  unfoldable pub handle_received : RxPass → Received → RxState App → RxState App × Bool
  handle_received pass (datagram bytes) s =
      if ltb 0 (length bytes) then (handle_datagram pass bytes s, false) else (s, false)
  handle_received pass (failed errno) s = (s, not (is_transient_error errno))

  unfoldable pub rx_step : RxPass → RxState App → RxState App × Bool
  rx_step pass s =
      handle_received pass pass.received (record s { node = Socket.receive pass.received s.node })

  unfoldable pub rx_thread_loop : List RxPass → RxState App → RxState App
  rx_thread_loop [] s = s
  rx_thread_loop (pass ∷ passes) s =
      let (s', should_exit) = rx_step pass s in
      let rest = rx_thread_loop passes s' in if pass.running && not should_exit then rest else s'

-- One pass of the sender; `sent` answers a call of `sendto`, if the pass makes one.
pub record TxPass : Type 0 where
  pub tx_start : ℕ
  pub sent : Option ℕ
  pub tx_end : ℕ
  pub running : Bool

-- The thread's buffer and length; `sends` has the bytes handed to `sendto` so far.
pub record TxState (App : Type 0) : Type 0 where
  pub manager : Manager App
  pub node : UdpNode
  pub tx_buffer : List ℕ
  pub tx_length : ℕ
  pub sends : List (List ℕ)

-- `sentLen > 0`
unfoldable pub was_sent : Option ℕ → Bool
was_sent none = false
was_sent (some n) = ltb 0 n

module _ {App : Type 0} where
  unfoldable pub count_sent : TxPass → Manager App → Manager App
  count_sent pass m =
      if was_sent pass.sent
      then record m {
        tx_packet_count = u64 (m.tx_packet_count + 1);
        tx_latency_stats =
            record_interval stats_capacity pass.tx_start pass.tx_end m.tx_latency_stats;
      }
      else record m { tx_drop_count = u64 (m.tx_drop_count + 1) }

  unfoldable pub tx_step : TxPass → TxState App → TxState App
  tx_step pass s =
      let p =
        pop max_packet_size queue_capacity s.tx_buffer max_packet_size s.tx_length
          s.manager.tx_queue in
      let m = record s.manager { tx_queue = p.ring } in
      if p.ok
      then record {
        manager = count_sent pass m;
        node = Socket.send pass.sent s.node;
        tx_buffer = p.out;
        tx_length = p.actual_length;
        sends = s.sends ++ take p.actual_length p.out ∷ [];
      }
      else record s { manager = m; tx_length = p.actual_length; tx_buffer = p.out }

  unfoldable pub tx_thread_loop : List TxPass → TxState App → TxState App
  tx_thread_loop [] s = s
  tx_thread_loop (pass ∷ passes) s =
      let s' = tx_step pass s in
      let rest = tx_thread_loop passes s' in if pass.running then rest else s'

  -- What `pthread_create` runs.
  abbrev pub rx_thread_entry : List RxPass → RxState App → RxState App
  rx_thread_entry passes s = rx_thread_loop passes s

  abbrev pub tx_thread_entry : List TxPass → TxState App → TxState App
  tx_thread_entry passes s = tx_thread_loop passes s
