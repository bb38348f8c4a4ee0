-- ===== src/Main/Session/Tests.antt =====
-- Two ticks: the packet of the first arrives, that of the second is lost.
use agent_team_test.Prelude.{ℕ, ◌≡◌, refl, true, none, some, List, [], ◌∷◌, arith}
use agent_team_test.AppPacket.State as Packets
use agent_team_test.AppPacket.Monitor.{is_comm_lost}
use agent_team_test.Socket.Error.{UdpNodeError}
use agent_team_test.Ring
use agent_team_test.Threads.State as Managers
use agent_team_test.Threads.Blank.{zeros, slots, blank-IsQueue}
use agent_team_test.Threads.Loops.{TxPass}
use agent_team_test.Format.Decimal.{decimal}
use agent_team_test.Main.Session.{Tick, Session, ticks}
use agent_team_test.Main.Session.Sent.{Runs, IsIdle}
use agent_team_test.Main.Session.Watched.{IsAhead, ticks_watched}

abbrev session : Session ℕ
session = record {
  manager = Managers.init 0 slots slots;
  node = record { sockfd = some 3; error = UdpNodeError.none };
  tx_buffer = zeros;
  tx_length = 0;
  tx_packet = record (Packets.init 0 0) { unique_id = 0x12345678; lifesign = 65535 };
  rx_packet = record (Packets.init 0 0) { rx_lifesign = 65534 };
}

session-IsIdle : IsIdle session
unfolding Managers.init Ring.init
session-IsIdle = record { packet = omega arith; queue = blank-IsQueue; empty = refl }

session-IsAhead : IsAhead 1 session.tx_packet session.rx_packet
session-IsAhead = record { ahead = refl; some_ahead = omega arith; fits = omega arith }

abbrev passes : List TxPass
passes = record { tx_start = 1; sent = some 27; tx_end = 3; running = true } ∷ []

passes-Runs : Runs passes
passes-Runs = record { running = (refl, tt); some_pass = omega arith }

abbrev two_ticks : List Tick
two_ticks =
    record { passes = passes; arrival = some 300000000 }
    ∷ record { passes = passes; arrival = none }
    ∷ []

-- The last arrival was a second ago.
second_packet_lost : is_comm_lost 1300000000 (ticks decimal two_ticks session).rx_packet ≡ true
second_packet_lost =
    ticks_watched decimal two_ticks 1 1300000000 session (passes-Runs, (passes-Runs, tt))
      session-IsIdle session-IsAhead (omega arith) (omega arith) (omega arith)
