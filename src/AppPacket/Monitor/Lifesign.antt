-- ===== src/AppPacket/Monitor/Lifesign.antt =====
-- When the peer counts as lost: the time since the last change of its lifesign.
use agent_team_test.Prelude.{
  ℕ, ◌+◌, ◌-◌, ◌*◌, ◌/◌, ◌^◌, ◌≤◌, ◌<◌, ◌≡◌, ◌≢◌, refl, false, List, [], ◌∷◌, le→leb, ◌∙◌, ◌==◌,
  if◌then◌else◌, arith, some, u32,
}
use agent_team_test.AppPacket.Error.{AppPacketError}
use agent_team_test.AppPacket.State.{AppPacket}
use agent_team_test.AppPacket.Wire.{header_at, word16_at}
use agent_team_test.AppPacket.Codec.{store_fields, decode}
use agent_team_test.AppPacket.Codec.Decode.{IsSized, CrcMatches, decode_bad_crc}
use agent_team_test.AppPacket.Monitor.{
  check_interval, track_lifesign, update_received_lifesign, is_comm_lost, to_milliseconds,
  elapsed_ms,
}
use agent_team_test.AppPacket.Monitor.Stability.{Arrival}

-- The time of the last arrival whose lifesign differs from the one before, from the lifesign and
-- the time of change before the arrivals.
abbrev pub last_change : ℕ → ℕ → List Arrival → ℕ
last_change lifesign time [] = time
last_change lifesign time (a ∷ arrivals) =
    last_change a.lifesign (if a.lifesign == lifesign then time else a.time) arrivals

pub update-change :
    (now l : ℕ) (p : AppPacket)
    → let q = update_received_lifesign now l p in
      (q.rx_lifesign ≡ l)
      × (q.last_change_time ≡ (if l == p.rx_lifesign then p.last_change_time else now))
      × (q.comm_timeout_ms ≡ p.comm_timeout_ms)
unfolding update_received_lifesign check_interval track_lifesign
update-change now l p = ground arith

pub elapsed_ms_past :
    (now since : ℕ) → since ≤ now → elapsed_ms now since ≡ u32 (to_milliseconds (now - since))
unfolding elapsed_ms
elapsed_ms_past now since h = rw (le→leb since now h) refl

-- The elapsed time is taken in 32 bits of milliseconds: a peer that has been silent for a multiple
-- of 2^32 ms, and less than the timeout more, does not count as lost.
pub is_comm_lost_wraps :
    (now k : ℕ) (p : AppPacket)
    → (now - (p.last_change_time + k * (2 ^ 32 * 1000000))) / 1000000 < p.comm_timeout_ms
    → p.last_change_time + k * (2 ^ 32 * 1000000) ≤ now
    → p.comm_timeout_ms < 2 ^ 32
    → is_comm_lost now p ≡ false
unfolding is_comm_lost
is_comm_lost_wraps now k p h before fits = rw wrapped (ground arith)
  where
    wrapped :
        elapsed_ms now p.last_change_time
        ≡ (now - (p.last_change_time + k * (2 ^ 32 * 1000000))) / 1000000
    wrapped = elapsed_ms_past now p.last_change_time (omega arith) ∙ omega arith

-- A packet whose checksum does not match is refused, and yet its lifesign is stored, and a new
-- value of it counts as a sign of life: right after it the peer does not count as lost.
pub decode_bad_crc_counts_as_life :
    (now n : ℕ) (buffer : List ℕ) (p : AppPacket)
    → IsSized buffer n
    → ¬ CrcMatches buffer
    → word16_at 4 buffer ≢ p.rx_lifesign
    → 0 < p.comm_timeout_ms
    → let (r, ok) = decode now (some buffer) n p in
      (ok ≡ false)
      × (r.error ≡ AppPacketError.crc_mismatch)
      × (r.rx_lifesign ≡ word16_at 4 buffer)
      × (is_comm_lost now r ≡ false)
unfolding is_comm_lost store_fields header_at
decode_bad_crc_counts_as_life now n buffer p h m ne pos =
    let changed = update-change now (word16_at 4 buffer) (record p {
      unique_id = (header_at buffer).unique_id;
      data_length = (header_at buffer).data_length;
    }) in
    rw (decode_bad_crc now n buffer p h m)
      (refl, refl, changed.0, ground (arith, changed, ne, elapsed_ms_past now now))
