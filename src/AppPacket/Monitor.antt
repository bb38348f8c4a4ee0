-- ===== src/AppPacket/Monitor.antt =====
-- The receive monitor of src/app/AppPacket.cpp: `updateReceivedLifesign`, `isCommLost` and
-- `getTimeSinceLastChange`. The clock is steady, so `now` is not before a time that the same thread
-- stored; it may be before one that another thread stores behind the reading of the clock.
pub mod Frame
pub mod Stability
pub mod Lifesign
pub mod Race
use agent_team_test.Prelude.{
  ℕ, ◌+◌, ◌-◌, ◌*◌, ◌/◌, Bool, true, false, not, ◌||◌, ltb, leb, ◌==◌, if◌then◌else◌, u16, u32,
  sub_u32,
}
use agent_team_test.AppPacket.Error.{AppPacketError}
use agent_team_test.AppPacket.State.{AppPacket}

-- `duration_cast<microseconds>` and `duration_cast<milliseconds>` of nanoseconds.
abbrev pub to_microseconds : ℕ → ℕ
to_microseconds ns = ns / 1000

abbrev pub to_milliseconds : ℕ → ℕ
to_milliseconds ns = ns / 1000000

unfoldable pub expected_us : AppPacket → ℕ
expected_us p = u32 (p.expected_interval_ms * 1000)

unfoldable pub lower_bound : AppPacket → ℕ
lower_bound p =
    if ltb p.tolerance_us (expected_us p) then sub_u32 (expected_us p) p.tolerance_us else 0

unfoldable pub upper_bound : AppPacket → ℕ
upper_bound p = u32 (expected_us p + p.tolerance_us)

unfoldable pub out_of_tolerance : AppPacket → ℕ → Bool
out_of_tolerance p interval_us = ltb interval_us (lower_bound p) || ltb (upper_bound p) interval_us

unfoldable pub raise_unstable : AppPacketError → AppPacketError
raise_unstable AppPacketError.none = AppPacketError.unstable_communication
raise_unstable e = e

unfoldable pub clear_unstable : AppPacketError → AppPacketError
clear_unstable AppPacketError.unstable_communication = AppPacketError.none
clear_unstable e = e

unfoldable pub clear_loss : AppPacketError → AppPacketError
clear_loss AppPacketError.loss_of_communication = AppPacketError.none
clear_loss e = e

-- The interval is measured, and judged against the bounds.
unfoldable pub check_interval : ℕ → AppPacket → AppPacket
check_interval now p =
    let interval : ℕ = u32 (to_microseconds (now - p.last_recv_time)) in
    if out_of_tolerance p interval
    then record p {
      last_interval_us = interval;
      last_recv_time = now;
      unstable_counter =
          if ltb p.unstable_counter 65535 then u16 (p.unstable_counter + 1) else p.unstable_counter;
      comm_unstable = true;
      error = raise_unstable p.error;
    }
    else record p {
      last_interval_us = interval;
      last_recv_time = now;
      unstable_counter = 0;
      comm_unstable = false;
      error = clear_unstable p.error;
    }

-- The lifesign is stored, and a change of it is a sign of life.
unfoldable pub track_lifesign : ℕ → ℕ → AppPacket → AppPacket
track_lifesign now lifesign p =
    if not (lifesign == p.rx_lifesign)
    then record p {
      rx_lifesign_prev = p.rx_lifesign;
      rx_lifesign = lifesign;
      last_change_time = now;
      error = clear_loss p.error;
    }
    else record p { rx_lifesign_prev = p.rx_lifesign; rx_lifesign = lifesign }

unfoldable pub update_received_lifesign : ℕ → ℕ → AppPacket → AppPacket
update_received_lifesign now lifesign p = track_lifesign now lifesign (check_interval now p)

-- The milliseconds from a stored time to `now`, rounded to 0, as a 32-bit word; a negative count
-- wraps.
unfoldable pub elapsed_ms : ℕ → ℕ → ℕ
elapsed_ms now since =
    if leb since now
    then u32 (to_milliseconds (now - since))
    else sub_u32 0 (u32 (to_milliseconds (since - now)))

unfoldable pub get_time_since_last_change : ℕ → AppPacket → ℕ
get_time_since_last_change now p = elapsed_ms now p.last_change_time

unfoldable pub is_comm_lost : ℕ → AppPacket → Bool
is_comm_lost now p = leb p.comm_timeout_ms (elapsed_ms now p.last_change_time)
