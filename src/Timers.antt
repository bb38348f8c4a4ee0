-- ===== src/Timers.antt =====
-- `class TimerHandle` of include/timer/timer.hpp and src/timer/Timer.cpp. What the kernel answers
-- is a parameter; a negative descriptor is `none`. A callback changes the state of the
-- application.
pub mod Error
pub mod Interval
pub mod Lifetime
mod Tests
use agent_team_test.Prelude.{
  ℕ, ◌*◌, ◌/◌, ◌%◌, ◌^◌, Bool, true, false, Option, none, some, List, [], ◌∷◌, ◌==◌, if◌then◌else◌,
  u64,
}
use Error.{TimerHandleError}

abbrev pub nsec_per_sec : ℕ
nsec_per_sec = 1000000000

abbrev pub nsec_per_msec : ℕ
nsec_per_msec = 1000000

-- `struct itimerspec`: the first expiration, then the period.
pub record Itimerspec : Type 0 where
  pub value_sec : ℕ
  pub value_nsec : ℕ
  pub interval_sec : ℕ
  pub interval_nsec : ℕ

pub record TimerHandle (App : Type 0) : Type 0 where
  pub timerfd : Option ℕ
  pub callback : Option (App → App)
  pub error : TimerHandleError

-- The answers of `timerfd_create` and of `timerfd_settime`.
pub record Kernel : Type 0 where
  pub create : Option ℕ
  pub settime : ℕ → Itimerspec → Bool

unfoldable pub msec2nsec : ℕ → ℕ
msec2nsec msec = u64 (msec * nsec_per_msec)

unfoldable pub sec2nsec : ℕ → ℕ
sec2nsec sec = u64 (sec * nsec_per_sec)

-- What `initialize` asks the kernel for.
unfoldable pub timespec_of : ℕ → Bool → Itimerspec
timespec_of interval_nsec periodic = record {
  value_sec = interval_nsec / nsec_per_sec;
  value_nsec = interval_nsec % nsec_per_sec;
  interval_sec = if periodic then interval_nsec / nsec_per_sec else 0;
  interval_nsec = if periodic then interval_nsec % nsec_per_sec else 0;
}

-- What a call of `initialize` leaves: the handle, and the setting that the kernel accepted.
pub record Initialized (App : Type 0) : Type 0 where
  pub handle : TimerHandle App
  pub armed : Option Itimerspec

-- Whether `read` returned the eight bytes of the count of expirations.
unfoldable pub read_all : Option ℕ → Bool
read_all none = false
read_all (some n) = n == 8

module _ {App : Type 0} where
  unfoldable pub init : TimerHandle App
  init = record { timerfd = none; callback = none; error = TimerHandleError.none }

  unfoldable pub set_time : Kernel → ℕ → Itimerspec → TimerHandle App → Initialized App
  set_time k fd spec t =
      if k.settime fd spec
      then record { handle = record t { error = TimerHandleError.none }; armed = some spec }
      else record { handle = record t { error = TimerHandleError.set_time_fail }; armed = none }

  unfoldable pub with_descriptor :
      Kernel → Option ℕ → Itimerspec → TimerHandle App → Initialized App
  with_descriptor k none spec t = record {
    handle = record t { timerfd = none; error = TimerHandleError.timer_create_fail };
    armed = none;
  }
  with_descriptor k (some fd) spec t = set_time k fd spec (record t { timerfd = some fd })

  unfoldable pub initialize : Kernel → ℕ → Bool → TimerHandle App → Initialized App
  initialize k interval_nsec periodic t =
      with_descriptor k k.create (timespec_of interval_nsec periodic) t

  unfoldable pub set_callback : Option (App → App) → TimerHandle App → TimerHandle App
  set_callback callback t = record t { callback = callback }

  unfoldable pub call : Option (App → App) → App → App
  call none app = app
  call (some callback) app = callback app

  -- `bytes_read` is what `read` returned.
  unfoldable pub handle_event : Option ℕ → TimerHandle App → App → TimerHandle App × App
  handle_event bytes_read t app =
      if read_all bytes_read
      then (t, call t.callback app)
      else (record t { error = TimerHandleError.read_fail }, app)

  -- The descriptors that it closes, beside the handle.
  unfoldable pub close : TimerHandle App → List ℕ × TimerHandle App
  close t = elim t.timerfd [ none ↦ ([], t) | some fd ↦ (fd ∷ [], record t { timerfd = none }) ]

  -- `~TimerHandle`
  abbrev pub destroy : TimerHandle App → List ℕ × TimerHandle App
  destroy t = close t

  abbrev pub get_fd : TimerHandle App → Option ℕ
  get_fd t = t.timerfd

  abbrev pub get_error : TimerHandle App → TimerHandleError
  get_error t = t.error
