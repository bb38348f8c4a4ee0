-- ===== src/AppPacket/State.antt =====
-- The fields of `class AppPacket`, its constructor, its setters and `resetCommMonitor`.
-- A time point of `steady_clock` is its count of nanoseconds, and what `now()` returns is an
-- argument. A pointer to bytes is `none` for `nullptr`, or the bytes that lie from it on.
use agent_team_test.Prelude.{ℕ, Bool, false, Option, none, some, List, ltb, if◌then◌else◌}
use agent_team_test.AppPacket.Error.{AppPacketError}

abbrev pub max_data_size : ℕ
max_data_size = 256

abbrev pub default_comm_timeout_ms : ℕ
default_comm_timeout_ms = 1000

abbrev pub default_expected_interval_ms : ℕ
default_expected_interval_ms = 100

abbrev pub default_interval_tolerance_us : ℕ
default_interval_tolerance_us = 5000

pub record AppPacket : Type 0 where
  pub unique_id : ℕ
  pub lifesign : ℕ
  pub data_ptr : Option (List ℕ)
  pub data_length : ℕ
  pub crc32 : ℕ
  pub rx_lifesign : ℕ
  pub rx_lifesign_prev : ℕ
  pub last_change_time : ℕ
  pub last_recv_time : ℕ
  pub comm_timeout_ms : ℕ
  pub expected_interval_ms : ℕ
  pub tolerance_us : ℕ
  pub last_interval_us : ℕ
  pub unstable_counter : ℕ
  pub comm_unstable : Bool
  pub error : AppPacketError

-- The constructor reads the clock twice.
abbrev pub init : ℕ → ℕ → AppPacket
init now_change now_recv = record {
  unique_id = 0;
  lifesign = 0;
  data_ptr = none;
  data_length = 0;
  crc32 = 0;
  rx_lifesign = 0;
  rx_lifesign_prev = 0;
  last_change_time = now_change;
  last_recv_time = now_recv;
  comm_timeout_ms = default_comm_timeout_ms;
  expected_interval_ms = default_expected_interval_ms;
  tolerance_us = default_interval_tolerance_us;
  last_interval_us = 0;
  unstable_counter = 0;
  comm_unstable = false;
  error = AppPacketError.none;
}

unfoldable pub set_unique_id : ℕ → AppPacket → AppPacket
set_unique_id id p = record p { unique_id = id }

unfoldable pub set_data_pointer : Option (List ℕ) → ℕ → AppPacket → AppPacket
set_data_pointer none length p = record p {
  error = AppPacketError.invalid_data_pointer;
  data_ptr = none;
  data_length = 0;
}
set_data_pointer (some bytes) length p =
    if ltb max_data_size length
    then record p { error = AppPacketError.data_too_large; data_ptr = none; data_length = 0 }
    else record p { error = AppPacketError.none; data_ptr = some bytes; data_length = length }

unfoldable pub set_comm_timeout : ℕ → AppPacket → AppPacket
set_comm_timeout timeout_ms p = record p { comm_timeout_ms = timeout_ms }

unfoldable pub set_expected_interval : ℕ → ℕ → AppPacket → AppPacket
set_expected_interval interval_ms tolerance p = record p {
  expected_interval_ms = interval_ms;
  tolerance_us = tolerance;
}

-- The error that `resetCommMonitor` leaves: the two of the monitor are cleared.
unfoldable pub clear_monitor_error : AppPacketError → AppPacketError
clear_monitor_error AppPacketError.loss_of_communication = AppPacketError.none
clear_monitor_error AppPacketError.unstable_communication = AppPacketError.none
clear_monitor_error e = e

unfoldable pub reset_comm_monitor : ℕ → AppPacket → AppPacket
unfolding clear_monitor_error
reset_comm_monitor now p = record p {
  rx_lifesign = 0;
  rx_lifesign_prev = 0;
  last_change_time = now;
  last_recv_time = now;
  last_interval_us = 0;
  unstable_counter = 0;
  comm_unstable = false;
  error = clear_monitor_error p.error;
}

-- The getters.
abbrev pub get_unique_id : AppPacket → ℕ
get_unique_id p = p.unique_id

abbrev pub get_lifesign : AppPacket → ℕ
get_lifesign p = p.lifesign

abbrev pub get_received_lifesign : AppPacket → ℕ
get_received_lifesign p = p.rx_lifesign

abbrev pub get_data : AppPacket → Option (List ℕ)
get_data p = p.data_ptr

abbrev pub get_data_length : AppPacket → ℕ
get_data_length p = p.data_length

abbrev pub get_crc32 : AppPacket → ℕ
get_crc32 p = p.crc32

abbrev pub get_error : AppPacket → AppPacketError
get_error p = p.error

abbrev pub is_comm_unstable : AppPacket → Bool
is_comm_unstable p = p.comm_unstable

abbrev pub get_last_interval_us : AppPacket → ℕ
get_last_interval_us p = p.last_interval_us

abbrev pub get_expected_interval_ms : AppPacket → ℕ
get_expected_interval_ms p = p.expected_interval_ms

abbrev pub get_interval_tolerance_us : AppPacket → ℕ
get_interval_tolerance_us p = p.tolerance_us

abbrev pub get_unstable_counter : AppPacket → ℕ
get_unstable_counter p = p.unstable_counter

abbrev pub get_comm_timeout : AppPacket → ℕ
get_comm_timeout p = p.comm_timeout_ms
