-- ===== src/Main/Program.antt =====
-- `main` of src/app/main.cpp up to its loop, and behind it. What the kernel answers is a
-- parameter. The messages on the console are left out, but for those of the handlers.
pub mod Start
pub mod Served
pub mod Wiring
pub mod Stop
mod Tests
use agent_team_test.Prelude.{
  ℕ, Bool, true, false, not, Option, none, some, List, [], ◌∷◌, ◌++◌, if◌then◌else◌,
}
use agent_team_test.AppPacket.State as Packets
use agent_team_test.AppPacket.State.{
  AppPacket, set_unique_id, set_comm_timeout, set_expected_interval,
}
use agent_team_test.Args.{UdpPeerArgs, Parsed, threw, returned, parse_udp_peer_args}
use agent_team_test.Socket
use agent_team_test.Socket.Error.{UdpNodeError}
use agent_team_test.Socket.{UdpNode, Address}
use agent_team_test.Ring.{Packet}
use agent_team_test.Stats.{empty_result}
use agent_team_test.Stats.Floating.{Double}
use agent_team_test.Threads.State as Managers
use agent_team_test.Threads.State.{Manager, Config, RxCallback, set_rx_callback}
use agent_team_test.Threads.Lifecycle
use agent_team_test.Threads.Lifecycle.{Joinable, start, stop}
use agent_team_test.Timers
use agent_team_test.Timers.{TimerHandle, msec2nsec, set_callback, handle_event}
use agent_team_test.Signals
use agent_team_test.Signals.{SignalHandler, register_callback}
use agent_team_test.Events
use agent_team_test.Events.{EventLoop, Control, register_event}
use agent_team_test.Format.{Format}
use agent_team_test.Ui
use agent_team_test.Ui.{TerminalUi, shutdown}
use agent_team_test.Main.Loop.{World, Pc, checking, Machine, stop_callback}
use agent_team_test.Main.Handlers.{
  rx_packet_handler, comm_monitor_callback, tx_timer_callback, stats_report_callback,
}
use agent_team_test.Main.Environment.{
  tx_interval_ms, comm_monitor_ms, comm_timeout_ms, stats_report_interval_ms, exit_success,
  exit_failure, thread_config, Receiver, Shared, App, Environment, Started, no_threads, has_error,
  source_address, destination_address, no_args, exits, throws, runs,
}

module _ (d : Double) (f : Format d.D) (inet_pton stoul : List ℕ → Option ℕ) where
  unfoldable pub print : List ℕ → Shared → Shared
  print text s = record s { receiver = record (s.receiver) { output = s.receiver.output ++ text } }

  unfoldable pub on_receive : RxCallback Receiver
  on_receive now bytes r =
      let (p, text) = rx_packet_handler f now bytes r.rx_packet in
      record { rx_packet = p; output = r.output ++ text }

  unfoldable pub on_tx_timer : Shared → Shared
  on_tx_timer s =
      let (m, p, text) = tx_timer_callback f s.manager s.tx_packet in
      print text (record s { manager = m; tx_packet = p })

  unfoldable pub on_comm_monitor : Shared → Shared
  on_comm_monitor s = print (comm_monitor_callback f s.now s.later s.receiver.rx_packet) s

  unfoldable pub on_stats_report : Shared → Shared
  on_stats_report s = print (stats_report_callback d f s.manager s.ui) s

  -- The callbacks of the event loop.
  unfoldable pub on_tx_event : App → App
  on_tx_event a =
      let (t, s) = handle_event a.bytes_read a.tx_timer a.shared in
      record a { tx_timer = t; shared = s }

  unfoldable pub on_comm_monitor_event : App → App
  on_comm_monitor_event a =
      let (t, s) = handle_event a.bytes_read a.comm_monitor_timer a.shared in
      record a { comm_monitor_timer = t; shared = s }

  unfoldable pub on_stats_event : App → App
  on_stats_event a =
      let (t, s) = handle_event a.bytes_read a.stats_timer a.shared in
      record a { stats_timer = t; shared = s }

  unfoldable pub make_timer : Timers.Kernel → ℕ → (Shared → Shared) → TimerHandle Shared
  make_timer k interval_ms callback =
      set_callback (some callback)
        (Timers.initialize k (msec2nsec interval_ms) true Timers.init).handle

  unfoldable pub new_tx_packet : (ℕ → ℕ) → AppPacket
  new_tx_packet clock = set_unique_id 0x12345678 (Packets.init (clock 0) (clock 1))

  unfoldable pub new_rx_packet : (ℕ → ℕ) → AppPacket
  new_rx_packet clock =
      set_expected_interval tx_interval_ms 5000
        (set_comm_timeout comm_timeout_ms (Packets.init (clock 2) (clock 3)))

  unfoldable pub new_manager : Environment → Manager Receiver
  new_manager env =
      set_rx_callback (some on_receive) (Managers.init (env.clock 4) env.rx_slots env.tx_slots)

  -- From the start of the threads to the loop.
  unfoldable pub make_app : Environment → Manager Receiver → App
  make_app env m =
      let (ui, text) = Ui.initialize f env.winsize (empty_result d) Ui.init in
      record {
        shared = record {
          manager = m;
          tx_packet = new_tx_packet env.clock;
          receiver = record { rx_packet = new_rx_packet env.clock; output = text };
          ui = ui;
          now = env.clock 5;
          later = env.clock 6;
        };
        tx_timer = make_timer env.tx_timer tx_interval_ms on_tx_timer;
        comm_monitor_timer = make_timer env.comm_monitor_timer comm_monitor_ms on_comm_monitor;
        stats_timer = make_timer env.stats_timer stats_report_interval_ms on_stats_report;
        bytes_read = none;
      }

  unfoldable pub make_loop : Environment → App → EventLoop App
  make_loop env a = register_event env.ctl (Timers.get_fd a.stats_timer) on_stats_event (
      register_event env.ctl (Timers.get_fd a.comm_monitor_timer) on_comm_monitor_event (
        register_event env.ctl (Timers.get_fd a.tx_timer) on_tx_event
          (Events.initialize env.epollfd 0 Events.init)))

  unfoldable pub make_machine :
      Environment → SignalHandler (World App) → Manager Receiver → Machine App
  make_machine env handler m =
      let a = make_app env m in
      record {
        handler = register_callback (some stop_callback) handler;
        world = record { loop = make_loop env a; app = a };
        pc = checking;
      }

  unfoldable pub with_node : Environment → SignalHandler (World App) → UdpNode → Started
  with_node env handler node =
      let o = start env.threads node thread_config (new_manager env) no_threads in
      if has_error (Socket.get_error node)
      then exits exit_failure no_threads
      else if not o.ok
      then exits exit_failure o.threads
      else runs (make_machine env handler o.manager) o.threads

  unfoldable pub with_args : Environment → SignalHandler (World App) → Parsed → Started
  with_args env handler threw = throws
  with_args env handler (returned ok args) =
      if not ok
      then exits exit_failure no_threads
      else with_node env handler
          (Socket.initialize env.udp (source_address args) (destination_address args) Socket.init)

  -- What `main` does with the result of `SignalHandler::initialize`.
  unfoldable pub with_handler : Environment → Bool × SignalHandler (World App) → Started
  with_handler env (ok, handler) =
      if not ok
      then exits exit_failure no_threads
      else with_args env handler (parse_udp_peer_args inet_pton stoul env.argv no_args)

  unfoldable pub start_program : Environment → Started
  start_program env = with_handler env (Signals.initialize env.int_ok env.term_ok Signals.init)

  -- Behind the loop: the status of the exit, the manager, the threads and what is printed.
  unfoldable pub shut_down : Shared → Joinable → ℕ × Manager Receiver × Joinable × List ℕ
  shut_down s j =
      let (ui, text) = shutdown f s.ui in
      let (m, j') = stop s.manager j in (exit_success, m, j', s.receiver.output ++ text)
