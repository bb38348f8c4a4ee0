-- ===== src/Threads/State.antt =====
-- The fields of `class UdpThreadManager` of include/thread/UdpThreadManager.hpp, its constructor,
-- and the calls that the application's thread makes between `start` and `stop`.
use agent_team_test.Prelude.{
  ℕ, ◌+◌, Bool, true, false, Option, none, some, List, length, if◌then◌else◌, u64,
}
use agent_team_test.Threads.Error.{Error}
use agent_team_test.Ring
use agent_team_test.Ring.{Ring, Packet, push, size}
use agent_team_test.Stats
use agent_team_test.Stats.{Stats}

-- A core or a priority that is negative is `none`.
pub record Config : Type 0 where
  pub rx_cpu_core : Option ℕ
  pub tx_cpu_core : Option ℕ
  pub rx_priority : Option ℕ
  pub tx_priority : Option ℕ
  pub use_realtime_scheduling : Bool
  pub rx_buffer_size : ℕ
  pub tx_buffer_size : ℕ

abbrev pub max_packet_size : ℕ
max_packet_size = 2048

abbrev pub queue_capacity : ℕ
queue_capacity = 1024

-- The callback gets the time, the bytes received and the application's state.
abbrev pub RxCallback : Type 0 → Type 0
RxCallback App = ℕ → List ℕ → App → App

-- A thread identifier of 0 stands for no thread.
pub record Manager (App : Type 0) : Type 0 where
  pub rx_thread : ℕ
  pub tx_thread : ℕ
  pub running : Bool
  pub config : Config
  pub rx_queue : Ring
  pub tx_queue : Ring
  pub rx_callback : Option (RxCallback App)
  pub error : Error
  pub rx_packet_count : ℕ
  pub tx_packet_count : ℕ
  pub rx_drop_count : ℕ
  pub tx_drop_count : ℕ
  pub rx_latency_stats : Stats
  pub tx_latency_stats : Stats
  pub rx_interval_stats : Stats
  pub last_rx_time : ℕ
  pub first_rx_packet : Bool

abbrev pub stats_capacity : ℕ
stats_capacity = 100000

module _ {App : Type 0} where
  -- The constructor: the time, and what the arrays of the two queues hold.
  unfoldable pub init : ℕ → List Packet → List Packet → Manager App
  init now rx_slots tx_slots = record {
    rx_thread = 0;
    tx_thread = 0;
    running = false;
    config = record {
      rx_cpu_core = some 0;
      tx_cpu_core = some 0;
      rx_priority = some 0;
      tx_priority = some 0;
      use_realtime_scheduling = false;
      rx_buffer_size = 0;
      tx_buffer_size = 0;
    };
    rx_queue = Ring.init max_packet_size queue_capacity rx_slots;
    tx_queue = Ring.init max_packet_size queue_capacity tx_slots;
    rx_callback = none;
    error = Error.none;
    rx_packet_count = 0;
    tx_packet_count = 0;
    rx_drop_count = 0;
    tx_drop_count = 0;
    rx_latency_stats = Stats.init stats_capacity;
    tx_latency_stats = Stats.init stats_capacity;
    rx_interval_stats = Stats.init stats_capacity;
    last_rx_time = now;
    first_rx_packet = true;
  }

  unfoldable pub set_rx_callback : Option (RxCallback App) → Manager App → Manager App
  set_rx_callback callback m = record m { rx_callback = callback }

  unfoldable pub queue_tx_packet : List ℕ → Manager App → Bool × Manager App
  queue_tx_packet bytes m =
      let (ok, queue) = push max_packet_size queue_capacity bytes (length bytes) m.tx_queue in
      if ok
      then (true, record m { tx_queue = queue })
      else (false, record m { tx_queue = queue; tx_drop_count = u64 (m.tx_drop_count + 1) })

  -- The getters.
  abbrev pub get_rx_queue_size : Manager App → ℕ
  get_rx_queue_size m = size max_packet_size queue_capacity m.rx_queue

  abbrev pub get_tx_queue_size : Manager App → ℕ
  get_tx_queue_size m = size max_packet_size queue_capacity m.tx_queue

  abbrev pub get_error : Manager App → Error
  get_error m = m.error

  abbrev pub get_rx_packet_count : Manager App → ℕ
  get_rx_packet_count m = m.rx_packet_count

  abbrev pub get_tx_packet_count : Manager App → ℕ
  get_tx_packet_count m = m.tx_packet_count

  abbrev pub get_rx_latency_stats : Manager App → Stats
  get_rx_latency_stats m = m.rx_latency_stats

  abbrev pub get_tx_latency_stats : Manager App → Stats
  get_tx_latency_stats m = m.tx_latency_stats

  abbrev pub get_rx_interval_stats : Manager App → Stats
  get_rx_interval_stats m = m.rx_interval_stats
