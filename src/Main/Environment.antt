-- ===== src/Main/Environment.antt =====
-- The constants of `main` of src/app/main.cpp, what it meets, and the objects that it makes.
use agent_team_test.Prelude.{ℕ, Bool, true, false, Option, some, List, []}
use agent_team_test.AppPacket.State.{AppPacket}
use agent_team_test.Args.{UdpPeerArgs}
use agent_team_test.Socket
use agent_team_test.Socket.Error.{UdpNodeError}
use agent_team_test.Socket.{UdpNode, Address}
use agent_team_test.Ring.{Packet}
use agent_team_test.Threads.State.{Manager, Config}
use agent_team_test.Threads.Lifecycle
use agent_team_test.Threads.Lifecycle.{Joinable, start, stop}
use agent_team_test.Timers
use agent_team_test.Timers.{TimerHandle, msec2nsec, set_callback, handle_event}
use agent_team_test.Events.{Control}
use agent_team_test.Ui.{TerminalUi}
use agent_team_test.Main.Loop.{Machine}

abbrev pub tx_interval_ms : ℕ
tx_interval_ms = 100

abbrev pub comm_monitor_ms : ℕ
comm_monitor_ms = 200

abbrev pub comm_timeout_ms : ℕ
comm_timeout_ms = 1000

abbrev pub stats_report_interval_ms : ℕ
stats_report_interval_ms = 250

abbrev pub exit_success : ℕ
exit_success = 0

abbrev pub exit_failure : ℕ
exit_failure = 1

abbrev pub rx_cpu_core : ℕ
rx_cpu_core = 2

abbrev pub tx_cpu_core : ℕ
tx_cpu_core = 3

abbrev pub rx_rt_priority : ℕ
rx_rt_priority = 80

abbrev pub tx_rt_priority : ℕ
tx_rt_priority = 70

abbrev pub so_rcvbuf_size : ℕ
so_rcvbuf_size = 2097152

abbrev pub so_sndbuf_size : ℕ
so_sndbuf_size = 1048576

unfoldable pub thread_config : Config
thread_config = record {
  rx_cpu_core = some rx_cpu_core;
  tx_cpu_core = some tx_cpu_core;
  rx_priority = some rx_rt_priority;
  tx_priority = some tx_rt_priority;
  use_realtime_scheduling = true;
  rx_buffer_size = so_rcvbuf_size;
  tx_buffer_size = so_sndbuf_size;
}

-- What the callback of the receiver's thread changes: the packet, and the standard output.
pub record Receiver : Type 0 where
  pub rx_packet : AppPacket
  pub output : List ℕ

-- What the callbacks of the timers work on, with the next two readings of the clock.
pub record Shared : Type 0 where
  pub manager : Manager Receiver
  pub tx_packet : AppPacket
  pub receiver : Receiver
  pub ui : TerminalUi
  pub now : ℕ
  pub later : ℕ

-- The timers beside it, and what the next `read` of one returns.
pub record App : Type 0 where
  pub shared : Shared
  pub tx_timer : TimerHandle Shared
  pub comm_monitor_timer : TimerHandle Shared
  pub stats_timer : TimerHandle Shared
  pub bytes_read : Option ℕ

-- What the program meets: the answers of the kernel, the arguments behind the program's name, the
-- readings of the clock in their order, and what the arrays of the queues hold.
pub record Environment : Type 0 where
  pub int_ok : Bool
  pub term_ok : Bool
  pub argv : List (List ℕ)
  pub udp : Socket.Kernel
  pub clock : ℕ → ℕ
  pub rx_slots : List Packet
  pub tx_slots : List Packet
  pub threads : Lifecycle.Kernel
  pub epollfd : Option ℕ
  pub ctl : Control
  pub tx_timer : Timers.Kernel
  pub comm_monitor_timer : Timers.Kernel
  pub stats_timer : Timers.Kernel
  pub winsize : Option (ℕ × ℕ)

-- How `main` gets to its loop, or ends before it, with the threads that are there to join.
pub data Started : Type 0 where
  exits : ℕ → Joinable → Started
  throws : Started
  runs : Machine App → Joinable → Started

abbrev pub no_threads : Joinable
no_threads = record { live = []; misjoined = false }

unfoldable pub has_error : UdpNodeError → Bool
has_error UdpNodeError.none = false
has_error e = true

unfoldable pub source_address : UdpPeerArgs → Address
source_address args = record { addr = args.src_addr; port = args.src_port }

unfoldable pub destination_address : UdpPeerArgs → Address
destination_address args = record { addr = args.dst_addr; port = args.dst_port }

abbrev pub no_args : UdpPeerArgs
no_args = record { src_addr = 0; src_port = 0; dst_addr = 0; dst_port = 0 }
