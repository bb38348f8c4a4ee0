-- ===== src/Timers/Tests.antt =====
-- A timer at concrete answers of the kernel.
use agent_team_test.Prelude.{ℕ, ◌≡◌, refl, true, some, [], ◌∷◌, ◌++◌}
use agent_team_test.Timers.{
  Kernel, TimerHandle, init, initialize, msec2nsec, timespec_of, handle_event, close,
}
use agent_team_test.Timers.Lifetime.{fresh, initializes, handles, Reach-closes}

abbrev agrees : Kernel
agrees = record { create = some 5; settime = λ fd s. true }

-- The monitor's timer of `main`: 200 ms.
spec_runs :
    timespec_of (msec2nsec 1250) true
    ≡ record { value_sec = 1; value_nsec = 250000000; interval_sec = 1; interval_nsec = 250000000 }
unfolding timespec_of msec2nsec
spec_runs = refl

abbrev ticking : TimerHandle ℕ
ticking = (initialize agrees 200 true init).handle

abbrev after_event : TimerHandle ℕ
after_event = (handle_event (some 8) ticking 0).0

Reach-closes_example : (close after_event).0 ++ [] ≡ 5 ∷ []
unfolding init
Reach-closes_example =
    (Reach-closes (handles (some 8) 0 (initializes agrees 200 true refl fresh))).1
