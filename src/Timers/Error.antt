-- ===== src/Timers/Error.antt =====
-- `enum class TimerHandleError` of include/timer/timer.hpp.
pub data TimerHandleError : Type 0 where
  none timer_create_fail set_time_fail read_fail : TimerHandleError
