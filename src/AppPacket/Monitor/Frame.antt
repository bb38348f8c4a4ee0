-- ===== src/AppPacket/Monitor/Frame.antt =====
-- What `updateReceivedLifesign` stores, and what it leaves alone.
use agent_team_test.Prelude.{ℕ, ◌≡◌, arith}
use agent_team_test.AppPacket.State.{AppPacket}
use agent_team_test.AppPacket.Monitor.{check_interval, track_lifesign, update_received_lifesign}

-- The fields that the monitor does not touch.
pub record SameCodec (p q : AppPacket) : Type 0 where
  pub same_id : q.unique_id ≡ p.unique_id
  pub same_tx : q.lifesign ≡ p.lifesign
  pub same_ptr : q.data_ptr ≡ p.data_ptr
  pub same_length : q.data_length ≡ p.data_length
  pub same_crc : q.crc32 ≡ p.crc32
  pub same_timeout : q.comm_timeout_ms ≡ p.comm_timeout_ms
  pub same_expected : q.expected_interval_ms ≡ p.expected_interval_ms
  pub same_tolerance : q.tolerance_us ≡ p.tolerance_us

check_interval-SameCodec : (now : ℕ) (p : AppPacket) → SameCodec p (check_interval now p)
unfolding check_interval
check_interval-SameCodec now p = ground arith

track_lifesign-SameCodec : (now l : ℕ) (p : AppPacket) → SameCodec p (track_lifesign now l p)
unfolding track_lifesign
track_lifesign-SameCodec now l p = ground arith

rx_lifesign-track_lifesign : (now l : ℕ) (p : AppPacket) → (track_lifesign now l p).rx_lifesign ≡ l
unfolding track_lifesign
rx_lifesign-track_lifesign now l p = ground arith

pub update_received_lifesign-SameCodec :
    (now l : ℕ) (p : AppPacket) → SameCodec p (update_received_lifesign now l p)
unfolding update_received_lifesign
update_received_lifesign-SameCodec now l p =
    ground
      (arith, check_interval-SameCodec now p, track_lifesign-SameCodec now l (check_interval now p))

pub rx_lifesign-update_received_lifesign :
    (now l : ℕ) (p : AppPacket) → (update_received_lifesign now l p).rx_lifesign ≡ l
unfolding update_received_lifesign
rx_lifesign-update_received_lifesign now l p =
    rx_lifesign-track_lifesign now l (check_interval now p)
