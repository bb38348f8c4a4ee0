-- ===== src/Timers/Interval.antt =====
-- What the kernel is asked for is the interval of the caller.
use agent_team_test.Prelude.{
  ℕ, ◌+◌, ◌*◌, ◌<◌, ◌≡◌, ◌↔◌, refl, ap, ◌∙◌, Bool, true, false, Option, none, some, arith, IsU32,
  if◌then◌else◌, u64, Bool-cases, inl, inr,
}
use agent_team_test.Timers.Error.{TimerHandleError}
use agent_team_test.Timers.{
  nsec_per_sec, nsec_per_msec, Itimerspec, Kernel, TimerHandle, msec2nsec, timespec_of, initialize,
  with_descriptor, set_time,
}

-- Nanoseconds of the two halves of a setting.
abbrev pub first_nsec : Itimerspec → ℕ
first_nsec s = s.value_sec * nsec_per_sec + s.value_nsec

abbrev pub period_nsec : Itimerspec → ℕ
period_nsec s = s.interval_sec * nsec_per_sec + s.interval_nsec

-- `timerfd_settime` takes nanoseconds below a second only.
pub record IsWellFormed (s : Itimerspec) : Type 0 where
  pub value_ok : s.value_nsec < nsec_per_sec
  pub interval_ok : s.interval_nsec < nsec_per_sec

timespec_of_lem :
    (n : ℕ) (periodic : Bool)
    → IsWellFormed (timespec_of n periodic)
      × (first_nsec (timespec_of n periodic) ≡ n)
      × (period_nsec (timespec_of n periodic) ≡ (if periodic then n else 0))
unfolding timespec_of
timespec_of_lem n true = omega arith
timespec_of_lem n false = omega arith

set_time_errors :
    {App : Type 0} (k : Kernel) (fd : ℕ) (spec : Itimerspec) (t : TimerHandle App)
    → (((set_time k fd spec t).handle.error ≡ TimerHandleError.none) ↔ (k.settime fd spec ≡ true))
      × (((set_time k fd spec t).handle.error ≡ TimerHandleError.none)
          ↔ ((set_time k fd spec t).armed ≡ some spec))
unfolding set_time
set_time_errors k fd spec t = elim (Bool-cases (k.settime fd spec)) [
  | inl e ↦ rw e (ground arith)
  | inr e ↦ rw e (ground arith)
]

with_descriptor_errors :
    {App : Type 0} (k : Kernel) (c : Option ℕ) (spec : Itimerspec) (t : TimerHandle App)
    → let r = with_descriptor k c spec t in
      ((r.handle.error ≡ TimerHandleError.none)
        ↔ ((fd : ℕ) × (c ≡ some fd) × (k.settime fd spec ≡ true)))
      × ((r.handle.error ≡ TimerHandleError.none) ↔ (r.armed ≡ some spec))
unfolding with_descriptor
with_descriptor_errors k none spec t = ground arith
with_descriptor_errors k (some fd) spec t =
    let (when, armed) = set_time_errors k fd spec (record t { timerfd = some fd }) in
    ((λ h. (fd, refl, when.0 h), λ (fd', e, h). when.1 (ground arith)), armed)

-- A timer of `msec` milliseconds, a 32-bit word: if `initialize` leaves no error, the kernel was
-- given a well-formed setting whose first expiration is after `msec` milliseconds exactly, and
-- whose period is the same for a periodic timer and 0 for another. It leaves no error exactly when
-- the kernel made a descriptor and took this setting.
pub initialize-msec2nsec :
    {App : Type 0} (k : Kernel) (msec : ℕ) (periodic : Bool) (t : TimerHandle App)
    → IsU32 msec
    → let spec = timespec_of (msec2nsec msec) periodic in
      let r = initialize k (msec2nsec msec) periodic t in
      IsWellFormed spec
      × (first_nsec spec ≡ msec * 1000000)
      × (period_nsec spec ≡ (if periodic then msec * 1000000 else 0))
      × ((r.handle.error ≡ TimerHandleError.none)
          ↔ ((fd : ℕ) × (k.create ≡ some fd) × (k.settime fd spec ≡ true)))
      × ((r.handle.error ≡ TimerHandleError.none) ↔ (r.armed ≡ some spec))
unfolding initialize msec2nsec
initialize-msec2nsec k msec periodic t h =
    let exact : u64 (msec * nsec_per_msec) ≡ msec * 1000000 = omega arith in
    let (formed, first, period) = timespec_of_lem (msec2nsec msec) periodic in
    let (when, armed) =
      with_descriptor_errors k k.create (timespec_of (msec2nsec msec) periodic) t in
    (formed, first ∙ exact, period ∙ ap (λ n. if periodic then n else 0) exact, when, armed)
