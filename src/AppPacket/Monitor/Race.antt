-- ===== src/AppPacket/Monitor/Race.antt =====
-- A packet that one thread decodes while another is inside `isCommLost`, between the reading of the
-- clock and that of the time of the last change.
use agent_team_test.Prelude.{
  ℕ, ◌+◌, ◌-◌, ◌/◌, ◌^◌, ◌≤◌, ◌≡◌, ◌≢◌, refl, true, some, List, arith, if◌then◌else◌, ◌∙◌, ap,
  nle→leb, le→leb, ne→==_false,
}
use agent_team_test.AppPacket.Error.{AppPacketError}
use agent_team_test.AppPacket.State.{AppPacket}
use agent_team_test.AppPacket.Wire.{word16_at}
use agent_team_test.AppPacket.Valid.Keeps.{received_lem}
use agent_team_test.AppPacket.Codec.{decode}
use agent_team_test.AppPacket.Codec.Decode.{IsSized, CrcMatches, received, decode_ok}
use agent_team_test.AppPacket.Monitor.{elapsed_ms, is_comm_lost}
use agent_team_test.AppPacket.Monitor.Lifesign.{update-change}

-- A time that lies ahead wraps to a long time.
elapsed_ms_ahead :
    (now since timeout : ℕ)
    → now + 1000000 ≤ since
    → (since - now) / 1000000 + timeout ≤ 2 ^ 32
    → timeout ≤ elapsed_ms now since
unfolding elapsed_ms
elapsed_ms_ahead now since timeout ahead short = rw (nle→leb since now (omega arith)) (omega arith)

is_comm_lost_ahead :
    (now : ℕ) (p : AppPacket)
    → now + 1000000 ≤ p.last_change_time
    → (p.last_change_time - now) / 1000000 + p.comm_timeout_ms ≤ 2 ^ 32
    → is_comm_lost now p ≡ true
unfolding is_comm_lost
is_comm_lost_ahead now p ahead short =
    le→leb p.comm_timeout_ms (elapsed_ms now p.last_change_time)
      (elapsed_ms_ahead now p.last_change_time p.comm_timeout_ms ahead short)

-- If the main thread has read the clock in `isCommLost`, and the receiver's thread decodes a good
-- packet with a new lifesign at least a millisecond later, before the main thread reads the time
-- of the last change, then the peer counts as lost although its packet has just been accepted. The
-- delay and the timeout together are at most 2^32 milliseconds.
pub is_comm_lost_overtaken :
    (now later n : ℕ) (buffer : List ℕ) (p : AppPacket)
    → IsSized buffer n
    → CrcMatches buffer
    → word16_at 4 buffer ≢ p.rx_lifesign
    → now + 1000000 ≤ later
    → (later - now) / 1000000 + p.comm_timeout_ms ≤ 2 ^ 32
    → let (r, ok) = decode later (some buffer) n p in (ok ≡ true) × (is_comm_lost now r ≡ true)
is_comm_lost_overtaken now later n buffer p sized m ne ahead short =
    rw (decode_ok later n buffer p sized m)
      (refl, is_comm_lost_ahead now r (omega (arith, change)) (omega (arith, change, timeout)))
  where
    r : AppPacket
    r = record (received later buffer p) { error = AppPacketError.none }

    change : r.last_change_time ≡ later
    change = rw (received_lem later buffer p) (
        (update-change later (word16_at 4 buffer) p).1
        ∙ ap (λ b. if b then p.last_change_time else later) (ne→==_false _ _ ne))

    timeout : r.comm_timeout_ms ≡ p.comm_timeout_ms
    timeout = rw (received_lem later buffer p) (update-change later (word16_at 4 buffer) p).2
