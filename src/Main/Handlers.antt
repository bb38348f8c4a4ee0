-- ===== src/Main/Handlers.antt =====
-- The four callbacks of src/app/main.cpp, with what they log; what is logged has no need of the
-- terminal's state. The conversions of `std::format` are a parameter; a text is its bytes.
pub mod Sending
use agent_team_test.Prelude.{
  ℕ, ◌+◌, Bool, true, false, Option, none, some, List, [], ◌∷◌, ◌++◌, length, ltb, if◌then◌else◌,
  take, replicate, codes,
}
use agent_team_test.AppPacket.Error.{AppPacketError}
use agent_team_test.AppPacket.State.{
  AppPacket, set_data_pointer, get_unique_id, get_received_lifesign, get_data_length,
  get_last_interval_us, get_unstable_counter, get_error, is_comm_unstable, get_comm_timeout,
  get_lifesign,
}
use agent_team_test.AppPacket.Monitor.{is_comm_lost, get_time_since_last_change}
use agent_team_test.AppPacket.Codec.{encode, decode}
use agent_team_test.Stats.{Result, compute_stats}
use agent_team_test.Stats.Floating.{Double}
use agent_team_test.Threads.State.{
  Manager, queue_tx_packet, stats_capacity, get_tx_queue_size, get_tx_latency_stats,
  get_rx_latency_stats, get_rx_interval_stats,
}
use agent_team_test.Format.{Format}
use agent_team_test.Ui.{TerminalUi, log, update_stats}

-- `static_cast<int>` of an error.
unfoldable pub error_code : AppPacketError → ℕ
error_code AppPacketError.none = 0
error_code AppPacketError.invalid_data_pointer = 1
error_code AppPacketError.data_too_large = 2
error_code AppPacketError.buffer_too_small = 3
error_code AppPacketError.invalid_packet = 4
error_code AppPacketError.crc_mismatch = 5
error_code AppPacketError.unstable_communication = 6
error_code AppPacketError.loss_of_communication = 7

-- The bytes of the text, and the 0 behind them, which is not sent.
abbrev pub tx_payload : List ℕ
tx_payload = codes "Agent Team Test" ++ 0 ∷ []

abbrev pub tx_buffer_size : ℕ
tx_buffer_size = 256

module _ {D : Type 0} (f : Format D) where
  open f use {number, hex}

  unfoldable pub received_text : AppPacket → List ℕ
  received_text p =
      codes "[RX] UniqueId: 0x"
      ++ hex (get_unique_id p)
      ++ codes ", Lifesign: "
      ++ number (get_received_lifesign p)
      ++ codes ", DataLen: "
      ++ number (get_data_length p)
      ++ codes ", Interval: "
      ++ number (get_last_interval_us p)
      ++ codes " us\n"

  unfoldable pub unstable_text : AppPacket → List ℕ
  unstable_text p =
      codes "[RX] Warning: Communication unstable (count: "
      ++ number (get_unstable_counter p)
      ++ codes ")\n"

  unfoldable pub failed_text : AppPacket → List ℕ
  failed_text p =
      codes "[RX] Decode failed: error code " ++ number (error_code (get_error p)) ++ codes "\n"

  -- What is logged when `decode` has returned.
  unfoldable pub log_decoded : Bool → AppPacket → List ℕ
  log_decoded true p =
      log (received_text p) ++ (if is_comm_unstable p then log (unstable_text p) else [])
  log_decoded false p = log (failed_text p)

  -- The packet, and what is logged; `now` is what the monitor reads from the clock.
  unfoldable pub rx_packet_handler : ℕ → List ℕ → AppPacket → AppPacket × List ℕ
  rx_packet_handler now bytes p =
      let (q, decode_ok) = decode now (some bytes) (length bytes) p in (q, log_decoded decode_ok q)

  unfoldable pub lost_text : ℕ → AppPacket → List ℕ
  lost_text now p =
      codes "[MONITOR] Communication lost! No packet for "
      ++ number (get_time_since_last_change now p)
      ++ codes " ms (threshold: "
      ++ number (get_comm_timeout p)
      ++ codes " ms)\n"

  -- The clock is read twice.
  unfoldable pub comm_monitor_callback : ℕ → ℕ → AppPacket → List ℕ
  comm_monitor_callback now now' p = if is_comm_lost now p then log (lost_text now' p) else []

  unfoldable pub queued_text : AppPacket → ℕ → ℕ → List ℕ
  queued_text p encoded_len waiting =
      codes "[TX] Lifesign: "
      ++ number (get_lifesign p)
      ++ codes ", Queued: "
      ++ number encoded_len
      ++ codes " bytes (TX queue: "
      ++ number waiting
      ++ codes ")\n"

  module _ {App : Type 0} where
    -- What `txTimerCallback` does with the encoded bytes.
    unfoldable pub queue_encoded :
        Manager App → AppPacket → List ℕ → ℕ → Manager App × AppPacket × List ℕ
    queue_encoded m p bytes encoded_len =
        let (ok, m') = queue_tx_packet bytes m in
        if ok
        then (m', p, log (queued_text p encoded_len (get_tx_queue_size m')))
        else (m', p, log (codes "[TX] Failed to queue packet (queue full)\n"))

    unfoldable pub tx_timer_callback : Manager App → AppPacket → Manager App × AppPacket × List ℕ
    tx_timer_callback m p =
        let e =
          encode (set_data_pointer (some tx_payload) 15 p) (some (replicate tx_buffer_size 0))
            tx_buffer_size in
        if ltb 0 e.size
        then queue_encoded m e.packet (take e.size e.buffer) e.size
        else (m, e.packet, [])

-- The three statistics, in the order in which the dashboard shows them.
unfoldable pub stats_report_callback :
    {App : Type 0} (d : Double) → Format d.D → Manager App → TerminalUi → List ℕ
stats_report_callback d f m ui =
    update_stats f (compute_stats d stats_capacity (get_tx_latency_stats m))
      (compute_stats d stats_capacity (get_rx_latency_stats m))
      (compute_stats d stats_capacity (get_rx_interval_stats m)) ui
