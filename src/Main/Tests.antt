-- ===== src/Main/Tests.antt =====
-- The program at concrete inputs.
use agent_team_test.Prelude.{
  ℕ, ◌≡◌, ◌≢◌, refl, true, none, some, List, [], ◌∷◌, ◌++◌, replicate, arith, codes,
}
use agent_team_test.AppPacket.Error.{AppPacketError}
use agent_team_test.AppPacket.State as Packets
use agent_team_test.AppPacket.State.{AppPacket}
use agent_team_test.AppPacket.Valid.{IsValid}
use agent_team_test.AppPacket.Codec.Image.{payload}
use agent_team_test.Socket.Error.{UdpNodeError}
use agent_team_test.Socket.{UdpNode}
use agent_team_test.Ring
use agent_team_test.Threads.State as Managers
use agent_team_test.Threads.State.{Manager, set_rx_callback}
use agent_team_test.Threads.Blank.{zeros, slots, blank-IsQueue}
use agent_team_test.Threads.Loops.{TxPass, tx_thread_loop}
use agent_team_test.Threads.Queues.{waiting}
use agent_team_test.Signals
use agent_team_test.Signals.{SignalHandler, register_callback, sigterm}
use agent_team_test.Events
use agent_team_test.Format.Decimal.{decimal}
use agent_team_test.Main.Loop.{
  World, checking, entering, finished, Machine, stop_callback, main_steps, signal,
}
use agent_team_test.Main.Loop.Stop.{Registers}
use agent_team_test.Main.Loop.Reach.{begins, signal_stops}
use agent_team_test.Main.Loop.Lost.{lost_stop}
use agent_team_test.Events.{dispatch_event}
use agent_team_test.Main.Handlers.{rx_packet_handler}
use agent_team_test.Main.Handlers.Sending.{sending, tx_timer_callback_arrives}

-- The application counts.
abbrev world : World ℕ
world = record { loop = Events.init; app = 0 }

abbrev handler : SignalHandler (World ℕ)
handler = register_callback (some stop_callback) Signals.init

handler-Registers : Registers handler
unfolding register_callback Signals.init
handler-Registers = record { earlier = []; registered = refl }

abbrev first_machine : Machine ℕ
first_machine = record { handler = handler; world = world; pc = checking }

signal_stops_example :
    (main_steps (replicate 20 (5 ∷ [])) (signal sigterm first_machine)).pc ≡ finished
signal_stops_example =
    signal_stops sigterm (replicate 20 (5 ∷ [])) (begins handler world handler-Registers) tt
      (omega arith)

lost_stop_example :
    (main_steps (replicate 40 []) (signal sigterm (record first_machine { pc = entering }))).pc
    ≢ finished
lost_stop_example =
    (lost_stop sigterm (record first_machine { pc = entering }) (replicate 40 []) refl).1

abbrev manager : Manager ℕ
manager = Managers.init 0 slots slots

abbrev packet : AppPacket
packet = record (Packets.init 0 0) { unique_id = 0x12345678; lifesign = 65535 }

packet-IsValid : IsValid packet
packet-IsValid = omega arith

abbrev node : UdpNode
node = record { sockfd = some 3; error = UdpNodeError.none }

-- One pass that sends a packet, and one that finds the queue empty.
abbrev passes : List TxPass
passes =
    record { tx_start = 1; sent = some 27; tx_end = 3; running = true }
    ∷ record { tx_start = 4; sent = none; tx_end = 5; running = true }
    ∷ []

tx_timer_callback_arrives_example :
    (bytes : List ℕ) × ((tx_thread_loop passes
        (sending decimal manager packet node zeros 0 [])).sends
      ≡ [] ++ waiting manager.tx_queue ++ bytes ∷ [])
    × ((rx_packet_handler decimal 7 bytes (Packets.init 0 0)).0.unique_id ≡ 0x12345678)
    × ((rx_packet_handler decimal 7 bytes (Packets.init 0 0)).0.rx_lifesign ≡ 65535)
    × (payload (rx_packet_handler decimal 7 bytes (Packets.init 0 0)).0 ≡ codes "Agent Team Test")
    × ((rx_packet_handler decimal 7 bytes (Packets.init 0 0)).0.error ≡ AppPacketError.none)
unfolding Managers.init Ring.init
tx_timer_callback_arrives_example =
    tx_timer_callback_arrives decimal passes manager packet node zeros 0 [] 7 (Packets.init 0 0)
      packet-IsValid blank-IsQueue (omega arith) (refl, (refl, tt)) (omega arith)
