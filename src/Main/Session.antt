-- ===== src/Main/Session.antt =====
-- Two peers over some ticks of the sender's timer, from the callbacks of src/app/main.cpp: at each
-- tick the timer's callback queues a packet, the sender's thread makes some passes, and what it
-- sends arrives at the other peer, whose receiver decodes it, or is lost on the way.
pub mod Sent
pub mod Watched
pub mod Started
pub mod Monitored
pub mod Steady
mod Tests
use agent_team_test.Prelude.{ℕ, ◌+◌, Bool, Option, none, some, List, [], ◌∷◌}
use agent_team_test.AppPacket.State.{AppPacket}
use agent_team_test.Socket.{UdpNode}
use agent_team_test.Threads.State.{Manager}
use agent_team_test.Threads.Loops.{TxPass, TxState, tx_thread_loop}
use agent_team_test.Format.{Format}
use agent_team_test.Main.Handlers.{rx_packet_handler, tx_timer_callback}

-- A tick: the passes of the sender's thread, and when the peer gets what they send.
pub record Tick : Type 0 where
  pub passes : List TxPass
  pub arrival : Option ℕ

-- The sender's objects, and the packet of the receiving peer.
pub record Session (App : Type 0) : Type 0 where
  pub manager : Manager App
  pub node : UdpNode
  pub tx_buffer : List ℕ
  pub tx_length : ℕ
  pub tx_packet : AppPacket
  pub rx_packet : AppPacket

module _ {D : Type 0} (f : Format D) where
  unfoldable pub deliver : ℕ → List (List ℕ) → AppPacket → AppPacket
  deliver now [] q = q
  deliver now (bytes ∷ rest) q = deliver now rest (rx_packet_handler f now bytes q).0

  unfoldable pub arrive : Option ℕ → List (List ℕ) → AppPacket → AppPacket
  arrive none sends q = q
  arrive (some now) sends q = deliver now sends q

  module _ {App : Type 0} where
    -- The sender's thread behind the callback, with what it sends from now on.
    abbrev pub sender : Manager App → Session App → TxState App
    sender m s = record {
      manager = m;
      node = s.node;
      tx_buffer = s.tx_buffer;
      tx_length = s.tx_length;
      sends = [];
    }

    unfoldable pub tick : Tick → Session App → Session App
    tick t s =
        let (m, p, text) = tx_timer_callback f s.manager s.tx_packet in
        let w = tx_thread_loop t.passes (sender m s) in
        record {
          manager = w.manager;
          node = w.node;
          tx_buffer = w.tx_buffer;
          tx_length = w.tx_length;
          tx_packet = p;
          rx_packet = arrive t.arrival w.sends s.rx_packet;
        }

    unfoldable pub ticks : List Tick → Session App → Session App
    ticks [] s = s
    ticks (t ∷ rest) s = ticks rest (tick t s)
