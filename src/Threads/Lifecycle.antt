-- ===== src/Threads/Lifecycle.antt =====
-- `start`, `stop` and the two `configure` methods of src/thread/UdpThreadManager.cpp. What the
-- kernel answers is a parameter; which threads are there to join is a state of its own.
use agent_team_test.Prelude.{
  ℕ, Bool, true, false, not, ◌&&◌, Option, none, some, List, [], ◌∷◌, ltb, ◌==◌, if◌then◌else◌, u32,
}
use agent_team_test.Socket.{UdpNode}
use agent_team_test.Threads.Error.{Error}
use agent_team_test.Threads.State.{Config, Manager}

-- A size in bytes is the `int` that the call gets, as a 32-bit word.
pub record Kernel : Type 0 where
  pub set_rcvbuf : ℕ → ℕ → Bool
  pub set_sndbuf : ℕ → ℕ → Bool
  pub create_rx : Option ℕ
  pub create_tx : Option ℕ
  pub set_affinity : ℕ → ℕ → Bool
  pub set_scheduler : ℕ → ℕ → Bool

-- The threads that were created and not joined, and whether a thread was joined that is not there,
-- which POSIX leaves undefined.
pub record Joinable : Type 0 where
  pub live : List ℕ
  pub misjoined : Bool

unfoldable pub spawn : ℕ → Joinable → Joinable
spawn thread j = record j { live = thread ∷ j.live }

unfoldable pub has : ℕ → List ℕ → Bool
has x [] = false
has x (y ∷ ys) = if x == y then true else has x ys

unfoldable pub remove : ℕ → List ℕ → List ℕ
remove x [] = []
remove x (y ∷ ys) = let rest = remove x ys in if x == y then ys else y ∷ rest

unfoldable pub join : ℕ → Joinable → Joinable
join thread j =
    if has thread j.live
    then record j { live = remove thread j.live }
    else record j { misjoined = true }

-- `(useRealtime == true) && (priority > 0)`
unfoldable pub wants_scheduler : Bool → Option ℕ → Bool
wants_scheduler realtime none = false
wants_scheduler realtime (some priority) = realtime && ltb 0 priority

unfoldable pub value_or_zero : Option ℕ → ℕ
value_or_zero none = 0
value_or_zero (some n) = n

unfoldable pub affinity_ok : Kernel → ℕ → Option ℕ → Bool
affinity_ok k thread none = true
affinity_ok k thread (some core) = k.set_affinity thread core

unfoldable pub configure_thread : Kernel → ℕ → Option ℕ → Option ℕ → Bool → Bool
configure_thread k thread core priority realtime =
    affinity_ok k thread core
    && (if wants_scheduler realtime priority
        then k.set_scheduler thread (value_or_zero priority)
        else true)

unfoldable pub configure_buffers : Kernel → ℕ → Config → Bool
configure_buffers k fd config =
    let rx_ok =
      if ltb 0 config.rx_buffer_size then k.set_rcvbuf fd (u32 config.rx_buffer_size) else true in
    if rx_ok && ltb 0 config.tx_buffer_size
    then k.set_sndbuf fd (u32 config.tx_buffer_size)
    else rx_ok

-- The receive timeout has no part in the result.
unfoldable pub configure_socket_buffers : Kernel → Option ℕ → Config → Bool
configure_socket_buffers k none config = false
configure_socket_buffers k (some fd) config = configure_buffers k fd config

pub record Outcome (App : Type 0) : Type 0 where
  pub ok : Bool
  pub manager : Manager App
  pub threads : Joinable
  -- The results of the two calls of `configureThread`, which are only printed.
  pub rx_configured : Bool
  pub tx_configured : Bool

module _ {App : Type 0} where
  unfoldable pub start_tx : Kernel → Option ℕ → ℕ → Manager App → Joinable → Outcome App
  start_tx k none rx m j = record {
    ok = false;
    manager = record m { error = Error.thread_create_fail; running = false };
    threads = join rx j;
    rx_configured = false;
    tx_configured = false;
  }
  start_tx k (some tx) rx m j = record {
    ok = true;
    manager = record m { tx_thread = tx };
    threads = spawn tx j;
    rx_configured =
        configure_thread k rx m.config.rx_cpu_core m.config.rx_priority
          m.config.use_realtime_scheduling;
    tx_configured =
        configure_thread k tx m.config.tx_cpu_core m.config.tx_priority
          m.config.use_realtime_scheduling;
  }

  unfoldable pub start_rx : Kernel → Option ℕ → Manager App → Joinable → Outcome App
  start_rx k none m j = record {
    ok = false;
    manager = record m { error = Error.thread_create_fail; running = false };
    threads = j;
    rx_configured = false;
    tx_configured = false;
  }
  start_rx k (some rx) m j = start_tx k k.create_tx rx (record m { rx_thread = rx }) (spawn rx j)

  unfoldable pub start : Kernel → UdpNode → Config → Manager App → Joinable → Outcome App
  start k node config m j =
      let configured = record m { config = config; error = Error.none } in
      if m.running
      then record {
        ok = false;
        manager = m;
        threads = j;
        rx_configured = false;
        tx_configured = false;
      }
      else if not (configure_socket_buffers k node.sockfd config)
      then record {
        ok = false;
        manager = record configured { error = Error.set_socket_buffer_fail };
        threads = j;
        rx_configured = false;
        tx_configured = false;
      }
      else start_rx k k.create_rx (record configured { running = true }) j

  unfoldable pub join_rx : Manager App → Joinable → Manager App × Joinable
  join_rx m j =
      if not (m.rx_thread == 0) then (record m { rx_thread = 0 }, join m.rx_thread j) else (m, j)

  unfoldable pub join_tx : Manager App → Joinable → Manager App × Joinable
  join_tx m j =
      if not (m.tx_thread == 0) then (record m { tx_thread = 0 }, join m.tx_thread j) else (m, j)

  unfoldable pub stop : Manager App → Joinable → Manager App × Joinable
  stop m j =
      if not m.running
      then (m, j)
      else let (m', j') = join_rx (record m { running = false }) j in join_tx m' j'

  -- `~UdpThreadManager`
  abbrev pub destroy : Manager App → Joinable → Manager App × Joinable
  destroy m j = stop m j
