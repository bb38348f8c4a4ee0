-- ===== src/Threads/Tests.antt =====
-- The thread manager at concrete inputs.
use agent_team_test.Prelude.{
  ℕ, ◌≡◌, refl, true, false, none, some, List, [], ◌∷◌, ◌++◌, arith, if◌then◌else◌,
}
use agent_team_test.Ring
use agent_team_test.Ring.{Packet, Ring, push}
use agent_team_test.Socket.Error.{UdpNodeError}
use agent_team_test.Socket.{UdpNode, datagram, failed, eagain, other}
use agent_team_test.Threads.State.{
  Config, Manager, RxCallback, init, set_rx_callback, max_packet_size, queue_capacity,
}
use agent_team_test.Threads.Lifecycle.{Kernel, Joinable, Outcome, start}
use agent_team_test.Threads.Owned.{GivesFresh, Reach, fresh, started, Reach-threads, start_lem}
use agent_team_test.Threads.Loops.{
  TxPass, TxState, tx_thread_loop, RxPass, RxState, run_callback, is_transient_error,
  rx_thread_loop,
}
use agent_team_test.Threads.Queues.{IsQueue, waiting, push-IsQueue}
use agent_team_test.Threads.Blank.{zeros, slots, blank-IsQueue}
use agent_team_test.Threads.Sender.{tx_thread_loop_lem}
use agent_team_test.Threads.Deliveries.{IsReady}
use agent_team_test.Threads.Receiver.{rx_thread_loop_lem}

-- The application keeps what it is given, the latest first.
abbrev Log : Type 0
Log = List (List ℕ)

abbrev keep : RxCallback Log
keep now bytes log = bytes ∷ log

-- The configuration of `main`.
abbrev config : Config
config = record {
  rx_cpu_core = some 2;
  tx_cpu_core = some 3;
  rx_priority = some 80;
  tx_priority = some 70;
  use_realtime_scheduling = true;
  rx_buffer_size = 2097152;
  tx_buffer_size = 1048576;
}

abbrev node : UdpNode
node = record { sockfd = some 3; error = UdpNodeError.none }

-- Only the second thread is refused.
abbrev one_thread : Kernel
one_thread = record {
  set_rcvbuf = λ fd n. true;
  set_sndbuf = λ fd n. true;
  create_rx = some 71;
  create_tx = none;
  set_affinity = λ t core. true;
  set_scheduler = λ t priority. false;
}

abbrev two_threads : Kernel
two_threads = record one_thread { create_tx = some 72 }

abbrev no_threads : Joinable
no_threads = record { live = []; misjoined = false }

one_thread-GivesFresh : GivesFresh one_thread
one_thread-GivesFresh = record {
  rx_some = λ rx e. ground arith;
  tx_some = λ tx e. ground arith;
  differ = λ rx tx e f. ground arith;
}

two_threads-GivesFresh : GivesFresh two_threads
two_threads-GivesFresh = record {
  rx_some = λ rx e. ground arith;
  tx_some = λ tx e. ground arith;
  differ = λ rx tx e f. ground arith;
}

abbrev new : Manager Log
new = init 0 slots slots

-- A start that is half refused, another that succeeds.
abbrev failed_start : Outcome Log
failed_start = start one_thread node config new no_threads

abbrev second_start : Outcome Log
second_start = start two_threads node config failed_start.manager failed_start.threads

Reach-second : Reach second_start.manager second_start.threads
unfolding start
Reach-second =
    started two_threads node config two_threads-GivesFresh
      (started one_thread node config one_thread-GivesFresh (fresh 0 slots slots))

Reach-threads_example :
    (second_start.threads.misjoined ≡ false)
    × (second_start.threads.live ≡ (
        if second_start.manager.running
        then second_start.manager.tx_thread ∷ second_start.manager.rx_thread ∷ []
        else []))
Reach-threads_example = Reach-threads second_start.manager second_start.threads Reach-second

start_lem_example : (start two_threads node config new no_threads).ok ≡ true
unfolding init
start_lem_example = (start_lem two_threads node config new no_threads refl).0.1 (
  record { fd = 3; is_open = refl; takes_rcvbuf = λ asked. refl; takes_sndbuf = λ asked. refl },
  (71, refl),
  (72, refl),
)

abbrev listening : Manager Log
listening = set_rx_callback (some keep) new

listening-IsReady : IsReady listening
unfolding set_rx_callback init Ring.init
listening-IsReady = record {
  queue = blank-IsQueue;
  count_fits = omega arith;
  drop_fits = omega arith;
}

-- A datagram, a timeout, another datagram, and an error that ends the loop before the last one.
abbrev passes : List RxPass
passes =
    record {
      received = datagram (1 ∷ 2 ∷ []);
      rx_start = 10;
      callback_time = 11;
      rx_end = 12;
      running = true;
    }
    ∷ record {
      received = failed eagain;
      rx_start = 20;
      callback_time = 20;
      rx_end = 20;
      running = true;
    }
    ∷ record {
      received = datagram (3 ∷ []);
      rx_start = 30;
      callback_time = 31;
      rx_end = 32;
      running = true;
    }
    ∷ record {
      received = failed (other 9);
      rx_start = 40;
      callback_time = 40;
      rx_end = 40;
      running = true;
    }
    ∷ record {
      received = datagram (4 ∷ []);
      rx_start = 50;
      callback_time = 51;
      rx_end = 52;
      running = true;
    }
    ∷ []

abbrev state : RxState Log
state = record { manager = listening; node = node; app = [] }

rx_thread_loop_lem_example : (rx_thread_loop passes state).app ≡ (3 ∷ []) ∷ (1 ∷ 2 ∷ []) ∷ []
unfolding run_callback is_transient_error set_rx_callback
rx_thread_loop_lem_example =
    (rx_thread_loop_lem passes state listening-IsReady
      (omega arith, (omega arith, (omega arith, (omega arith, (omega arith, tt)))))).0

tx_queue-IsQueue : IsQueue new.tx_queue
unfolding init Ring.init
tx_queue-IsQueue = blank-IsQueue

-- One packet waits; the first pass sends it, the second finds the queue empty.
abbrev loaded : Ring
loaded = (push max_packet_size queue_capacity (5 ∷ 6 ∷ []) 2 new.tx_queue).1

abbrev sender : TxState Log
sender = record {
  manager = record new { tx_queue = loaded };
  node = node;
  tx_buffer = zeros;
  tx_length = 0;
  sends = [];
}

abbrev tx_passes : List TxPass
tx_passes =
    record { tx_start = 1; sent = some 2; tx_end = 3; running = true }
    ∷ record { tx_start = 4; sent = none; tx_end = 5; running = false }
    ∷ []

tx_thread_loop_lem_example :
    (tx_thread_loop tx_passes sender).sends
      ++ waiting (tx_thread_loop tx_passes sender).manager.tx_queue
    ≡ sender.sends ++ waiting sender.manager.tx_queue
tx_thread_loop_lem_example =
    (tx_thread_loop_lem tx_passes sender
      (push-IsQueue (5 ∷ 6 ∷ []) new.tx_queue tx_queue-IsQueue (omega arith))).0
