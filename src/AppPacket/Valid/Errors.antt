-- ===== src/AppPacket/Valid/Errors.antt =====
-- Which errors an `AppPacket` can report.
use agent_team_test.Prelude.{ℕ, ◌≡◌, ◌≢◌, ◌↔◌, Bool, true, Option, none, some, List, arith}
use agent_team_test.AppPacket.Error.{AppPacketError}
use agent_team_test.AppPacket.State.{
  AppPacket, set_unique_id, set_data_pointer, set_comm_timeout, set_expected_interval,
  reset_comm_monitor, clear_monitor_error,
}
use agent_team_test.AppPacket.Monitor.{
  check_interval, track_lifesign, update_received_lifesign, raise_unstable, clear_unstable,
  clear_loss,
}
use agent_team_test.AppPacket.Wire.{AppPacketHeader, header_at}
use agent_team_test.AppPacket.Codec.{
  store_fields, write_packet, check_crc, decode_header, encode, decode,
}
use agent_team_test.AppPacket.Valid.Keeps.{
  Call, sets_id, sets_data, sets_timeout, sets_interval, resets, updates, encodes_null, encodes,
  decodes_null, decodes, Reach, fresh, then_call,
}

-- The outcome of `decode`: the value returned tells whether there was an error, and the two errors
-- of the monitor are never left.
record Reported (r : AppPacket × Bool) : Type 0 where
  told : (r.1 ≡ true) ↔ (r.0.error ≡ AppPacketError.none)
  stable : r.0.error ≢ AppPacketError.unstable_communication
  alive : r.0.error ≢ AppPacketError.loss_of_communication

check_crc-Reported : (buffer : List ℕ) (q : AppPacket) → Reported (check_crc buffer q)
unfolding check_crc
check_crc-Reported buffer q = ground arith

decode_header-Reported :
    (now n : ℕ) (h : AppPacketHeader) (buffer : List ℕ) (p : AppPacket)
    → Reported (decode_header now h buffer n p)
unfolding decode_header
decode_header-Reported now n h buffer p =
    ground (arith, check_crc-Reported buffer (store_fields now h buffer p))

decode-Reported : (now n : ℕ) (d : Option (List ℕ)) (p : AppPacket) → Reported (decode now d n p)
decode-Reported now n none p = unfold decode in ground arith
decode-Reported now n (some buffer) p =
    unfold decode in ground (arith, decode_header-Reported now n (header_at buffer) buffer p)

-- `decode` returns `true` exactly when it leaves no error. It never leaves `UnstableCommunication`,
-- also when the interval was out of tolerance, nor `LossOfCommunication`.
pub decode_errors :
    (now n : ℕ) (d : Option (List ℕ)) (p : AppPacket)
    → let (r, ok) = decode now d n p in
      ((ok ≡ true) ↔ (r.error ≡ AppPacketError.none))
      × (r.error ≢ AppPacketError.unstable_communication)
      × (r.error ≢ AppPacketError.loss_of_communication)
decode_errors now n d p = let h = decode-Reported now n d p in (h.told, h.stable, h.alive)

abbrev NotLost : AppPacket → Type 0
NotLost p = p.error ≢ AppPacketError.loss_of_communication

update-NotLost :
    (now l : ℕ) (p : AppPacket) → NotLost p → NotLost (update_received_lifesign now l p)
unfolding update_received_lifesign check_interval track_lifesign raise_unstable clear_unstable
    clear_loss
update-NotLost now l p h = ground arith

write_packet-NotLost : (p : AppPacket) (buffer : List ℕ) → NotLost (write_packet p buffer).packet
unfolding write_packet
write_packet-NotLost p buffer = λ e. cc

Call-NotLost : {p q : AppPacket} → Call p q → NotLost p → NotLost q
Call-NotLost (sets_id id h) v = unfold set_unique_id in v
Call-NotLost (sets_data none n h) v = unfold set_data_pointer in ground arith
Call-NotLost (sets_data (some bytes) n h) v = unfold set_data_pointer in ground arith
Call-NotLost (sets_timeout t h) v = unfold set_comm_timeout in v
Call-NotLost (sets_interval i t h k) v = unfold set_expected_interval in v
Call-NotLost {p} (resets now) v = unfold reset_comm_monitor clear_monitor_error in ground arith
Call-NotLost {p} (updates now l h) v = update-NotLost now l p v
Call-NotLost (encodes_null n) v = unfold encode in ground arith
Call-NotLost {p} (encodes buffer n h) v =
    unfold encode in ground (arith, write_packet-NotLost p buffer)
Call-NotLost {p} (decodes_null now n) v = (decode-Reported now n none p).alive
Call-NotLost {p} (decodes now buffer n h bytes) v = (decode-Reported now n (some buffer) p).alive

-- No sequence of calls on a new packet ever makes it report `LossOfCommunication`.
pub Reach-never-lost : {p : AppPacket} → Reach p → p.error ≢ AppPacketError.loss_of_communication
Reach-never-lost (fresh a b) = λ e. cc
Reach-never-lost (then_call r c) = Call-NotLost c (Reach-never-lost r)
