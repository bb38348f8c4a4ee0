-- ===== src/Main/Program/Tests.antt =====
-- The start of the program and its timers at concrete inputs.
use agent_team_test.Prelude.{ℕ, ◌≡◌, refl, true, false, Option, none, some, List, [], ◌∷◌, arith}
use agent_team_test.Socket
use agent_team_test.Socket.Error.{UdpNodeError}
use agent_team_test.Socket.{UdpNode, open_socket, attach}
use agent_team_test.Threads.State as Managers
use agent_team_test.Threads.State.{Manager, set_rx_callback}
use agent_team_test.Threads.Blank.{slots}
use agent_team_test.Format.Decimal.{decimal}
use agent_team_test.Timers
use agent_team_test.Args.{
  colon, src_option, dst_option, parse_udp_peer_args, parse_arguments, parse_addr_port,
  split_last_colon, read_port, store_src, store_dst, flags_ok,
}
use agent_team_test.Stats.Thousandths.{thousandths}
use agent_team_test.Threads.Lifecycle
use agent_team_test.Threads.Lifecycle.{
  Kernel, start_rx, start_tx, configure_socket_buffers, configure_buffers,
}
use agent_team_test.Threads.Owned.{GivesFresh}
use agent_team_test.Timers.{set_callback}
use agent_team_test.Events.{dispatch_event}
use agent_team_test.Main.Program.Wiring.{Grants, loop_of, timers_run_handlers}
use agent_team_test.Main.Program.Served.{Served, made, reads, sends}
use agent_team_test.Ring
use agent_team_test.Threads.Blank.{zeros, blank-IsQueue}
use agent_team_test.Threads.Loops.{TxPass}
use agent_team_test.Main.Session.{Tick, ticks}
use agent_team_test.Main.Session.Sent.{Runs}
use agent_team_test.Main.Session.Started
use agent_team_test.Main.Session.Steady.{started_judged}
use agent_team_test.Main.Session.Started.{HasRoom}
use agent_team_test.Main.Environment.{
  no_threads, App, Receiver, Environment, no_args, thread_config,
}
use agent_team_test.Main.Program.{
  shut_down, make_app, on_tx_timer, on_comm_monitor, on_stats_report, on_tx_event, start_program,
  new_manager,
}
use agent_team_test.Threads.Owned.{sets, fresh}
use agent_team_test.Main.Program.Stop.{shut_down_lem}
use agent_team_test.Main.Program.Start.{IsRun, IsClean, IsReady, start_program_lem}

-- Every text is an address and a number.
abbrev one_for_all : List ℕ → Option ℕ
one_for_all text = some 7000

abbrev timer : Timers.Kernel
timer = record { create = some 5; settime = λ fd spec. true }

abbrev threads : Kernel
threads = record {
  set_rcvbuf = λ fd n. true;
  set_sndbuf = λ fd n. true;
  create_rx = some 71;
  create_tx = some 72;
  set_affinity = λ t core. true;
  set_scheduler = λ t priority. false;
}

threads-GivesFresh : GivesFresh threads
threads-GivesFresh = record {
  rx_some = λ rx e. ground arith;
  tx_some = λ tx e. ground arith;
  differ = λ rx tx e f. ground arith;
}

abbrev token : List ℕ
token = colon ∷ []

-- No event loop and no timer can be created.
abbrev environment : Environment
environment = record {
  int_ok = true;
  term_ok = true;
  argv = src_option ∷ token ∷ dst_option ∷ token ∷ [];
  udp = record { socket = some 3; bind = λ fd a. true; connect = λ fd a. true };
  clock = λ n. n;
  rx_slots = slots;
  tx_slots = slots;
  threads = threads;
  epollfd = none;
  ctl = λ epollfd fd. true;
  tx_timer = record timer { create = none };
  comm_monitor_timer = record timer { create = none };
  stats_timer = record timer { create = none };
  winsize = none;
}

environment-IsReady :
    IsReady thousandths decimal one_for_all one_for_all environment
      (parse_udp_peer_args one_for_all one_for_all environment.argv no_args)
unfolding parse_udp_peer_args parse_arguments parse_addr_port split_last_colon read_port store_src
    store_dst flags_ok Socket.initialize open_socket attach Lifecycle.start start_rx start_tx
    configure_socket_buffers configure_buffers new_manager set_rx_callback Managers.init
    thread_config
environment-IsReady = (
  record { src_addr = 7000; src_port = 7000; dst_addr = 7000; dst_port = 7000 },
  refl,
  refl,
  refl,
)

start_program_lem_example :
    let s = start_program thousandths decimal one_for_all one_for_all environment in
    IsRun s × IsClean s
start_program_lem_example =
    let r =
      start_program_lem thousandths decimal one_for_all one_for_all environment
        threads-GivesFresh in
    (r.0.1 (refl, refl, environment-IsReady), r.1)

-- The kernel that gives everything.
abbrev granting : Environment
granting = record environment {
  epollfd = some 4;
  tx_timer = timer;
  comm_monitor_timer = record timer { create = some 6 };
  stats_timer = record timer { create = some 7 };
}

granting-Grants : Grants granting 5 6 7
granting-Grants = record {
  epollfd = 4;
  epoll_given = refl;
  tx_given = refl;
  monitor_given = refl;
  stats_given = refl;
  takes = λ fd. refl;
  tx_ne_monitor = omega arith;
  tx_ne_stats = omega arith;
  monitor_ne_stats = omega arith;
}

abbrev started : Manager Receiver
started = new_manager thousandths decimal one_for_all one_for_all granting

abbrev fresh_app : App
fresh_app = make_app thousandths decimal one_for_all one_for_all granting started

-- The application after the first expiration of the transmission timer.
abbrev sent_once : App
sent_once =
    on_tx_event thousandths decimal one_for_all one_for_all
      (record fresh_app { bytes_read = some 8 })

sent_once-Served : Served thousandths decimal one_for_all one_for_all granting started sent_once
sent_once-Served = sends (reads (some 8) made)

sent_once-read : sent_once.bytes_read ≡ some 8
unfolding on_tx_event
sent_once-read = refl

timers_run_handlers_example :
    let loop = loop_of thousandths decimal one_for_all one_for_all granting started in
    ((dispatch_event loop 5 sent_once).shared
      ≡ on_tx_timer thousandths decimal one_for_all one_for_all sent_once.shared)
    × ((dispatch_event loop 6 sent_once).shared
        ≡ on_comm_monitor thousandths decimal one_for_all one_for_all sent_once.shared)
    × ((dispatch_event loop 7 sent_once).shared
        ≡ on_stats_report thousandths decimal one_for_all one_for_all sent_once.shared)
timers_run_handlers_example =
    timers_run_handlers thousandths decimal one_for_all one_for_all granting started 5 6 7 sent_once
      granting-Grants sent_once-Served sent_once-read

-- `main` stops what it started.
shut_down_runs :
    (shut_down thousandths decimal one_for_all one_for_all fresh_app.shared no_threads).2.live ≡ []
unfolding set_rx_callback make_app new_manager
shut_down_runs =
    (shut_down_lem thousandths decimal one_for_all one_for_all fresh_app.shared no_threads
      (sets _ (fresh 4 slots slots))).2

slots-HasRoom : HasRoom slots
unfolding Ring.init
slots-HasRoom = record { slot_count = blank-IsQueue.slot_count; arrays = blank-IsQueue.arrays }

abbrev connected : UdpNode
connected = record { sockfd = some 3; error = UdpNodeError.none }

abbrev one_pass : List TxPass
one_pass = record { tx_start = 1; sent = some 27; tx_end = 3; running = true } ∷ []

one_pass-Runs : Runs one_pass
one_pass-Runs = record { running = (refl, tt); some_pass = omega arith }

-- The first and the third packet arrive; the second is lost.
abbrev later_ticks : List Tick
later_ticks =
    record { passes = one_pass; arrival = none }
    ∷ record { passes = one_pass; arrival = some 300000000 }
    ∷ []

abbrev first_tick : Tick
first_tick = record { passes = one_pass; arrival = some 100000000 }

-- The first packet comes in time, and the third 200 ms behind it.
started_judged_example :
    let s =
      Started.started thousandths decimal one_for_all one_for_all granting connected zeros 0
        (λ n. n) in
    let q = (ticks decimal (first_tick ∷ later_ticks) s).rx_packet in
    (q.unstable_counter ≡ 1) × (q.comm_unstable ≡ true)
started_judged_example =
    started_judged thousandths decimal one_for_all one_for_all granting connected zeros 0 (λ n. n)
      (first_tick ∷ later_ticks) slots-HasRoom (one_pass-Runs, (one_pass-Runs, (one_pass-Runs, tt)))
      (omega arith)
