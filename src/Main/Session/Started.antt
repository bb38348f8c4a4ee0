-- ===== src/Main/Session/Started.antt =====
-- Two peers from the start of `main` of src/app/main.cpp on.
use agent_team_test.Prelude.{ℕ, ◌≡◌, refl, ap, ◌∙◌, Option, List, arith, All, length}
use agent_team_test.AppPacket.State.{AppPacket, set_unique_id}
use agent_team_test.Ring
use agent_team_test.Ring.{Packet, Ring}
use agent_team_test.Stats.Floating.{Double}
use agent_team_test.Socket.{UdpNode}
use agent_team_test.Threads.Queues.{IsQueue, waiting}
use agent_team_test.Threads.State as Managers
use agent_team_test.Threads.State.{
  Manager, Config, max_packet_size, queue_capacity, set_rx_callback,
}
use agent_team_test.Threads.Lifecycle.{Kernel, Joinable, start, start_rx, start_tx}
use agent_team_test.Format.{Format}
use agent_team_test.Main.Environment.{
  Environment, Receiver, thread_config, no_threads, comm_timeout_ms,
}
use agent_team_test.Main.Program.{new_tx_packet, new_rx_packet, new_manager}
use agent_team_test.Main.Session.{Tick, Session, tick}
use agent_team_test.Main.Session.Sent.{IsIdle}
use agent_team_test.Main.Session.Watched.{IsAhead}

-- The arrays of the queue's slots have the size of a packet.
pub record HasRoom (slots : List Packet) : Type 0 where
  pub slot_count : length slots ≡ queue_capacity
  pub arrays : All (λ s. length s.bytes ≡ max_packet_size) slots

tx_queue-start :
    {App : Type 0} (k : Kernel) (node : UdpNode) (config : Config) (m : Manager App) (j : Joinable)
    → (start k node config m j).manager.tx_queue ≡ m.tx_queue
unfolding start start_rx start_tx
tx_queue-start k node config m j = ground arith

init-IsQueue :
    (slots : List Packet) → HasRoom slots → IsQueue (Ring.init max_packet_size queue_capacity slots)
unfolding Ring.init
init-IsQueue slots h = record {
  slot_count = h.slot_count;
  write_in = omega arith;
  read_in = omega arith;
  arrays = h.arrays;
  lengths = tt;
}

-- What the receiver's packet holds until the second tick.
record StartsAt (time : ℕ) (q : AppPacket) : Type 0 where
  lifesign : q.rx_lifesign ≡ 0
  change : q.last_change_time ≡ time
  timeout : q.comm_timeout_ms ≡ comm_timeout_ms

module _ (d : Double) (f : Format d.D) (inet_pton stoul : List ℕ → Option ℕ) where
  -- The manager behind `start`, the node and the sender's buffer as they are, and the peer's
  -- packet.
  unfoldable pub started : Environment → UdpNode → List ℕ → ℕ → (ℕ → ℕ) → Session Receiver
  started env node tx_buffer tx_length peer_clock = record {
    manager =
        (start env.threads node thread_config (new_manager d f inet_pton stoul env)
          no_threads).manager;
    node = node;
    tx_buffer = tx_buffer;
    tx_length = tx_length;
    tx_packet = new_tx_packet d f inet_pton stoul env.clock;
    rx_packet = new_rx_packet d f inet_pton stoul peer_clock;
  }

  module _ (env : Environment) (node : UdpNode) (tx_buffer : List ℕ) (tx_length : ℕ)
      (peer_clock : ℕ → ℕ) where
    abbrev s : Session Receiver
    s = started env node tx_buffer tx_length peer_clock

    tx_queue-started : s.manager.tx_queue ≡ Ring.init max_packet_size queue_capacity env.tx_slots
    unfolding started new_manager set_rx_callback Managers.init
    tx_queue-started =
        tx_queue-start env.threads node thread_config (new_manager d f inet_pton stoul env)
          no_threads

    pub started-IsIdle : HasRoom env.tx_slots → IsIdle s
    unfolding started new_tx_packet set_unique_id
    started-IsIdle h = record {
      packet = omega arith;
      queue = rw tx_queue-started (init-IsQueue env.tx_slots h);
      empty = ap waiting tx_queue-started ∙ unfold Ring.init in refl;
    }

    -- Where the session stands behind its first tick.
    record IsUnderWay (t : Tick) : Type 0 where
      idle : IsIdle (tick f t s)
      receiver : StartsAt (peer_clock 2) (tick f t s).rx_packet
      ahead : IsAhead 1 (tick f t s).tx_packet (tick f t s).rx_packet
