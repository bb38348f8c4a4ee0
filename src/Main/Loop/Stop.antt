-- ===== src/Main/Loop/Stop.antt =====
-- When a signal ends the loop of the main thread.
use agent_team_test.Prelude.{
  ℕ, ◌+◌, ◌-◌, ◌≤◌, ◌≡◌, refl, sym, ap, true, false, Option, some, List, [], ◌∷◌, ◌++◌, arith,
  length, length-take, if◌then◌else◌,
}
use mathlib.Core.Path.{subst}
use agent_team_test.Signals.{
  SignalHandler, ShutdownCallback, is_shutdown_requested, signal_handler_function,
  execute_callbacks,
}
use agent_team_test.Signals.Callbacks.{execute_callbacks-append}
use agent_team_test.Events.{max_events, stop}
use agent_team_test.Main.Loop.{
  World, Pc, checking, entering, testing, waiting, finished, dispatching, Machine, stop_callback,
  go, main_step, main_steps, signal,
}

-- How many steps are left to the end of the loop once `m_running` is `false` for good.
abbrev pub steps_left : Pc → ℕ
steps_left checking = 1
steps_left entering = 0
steps_left testing = 2
steps_left waiting = 20
steps_left (dispatching events) = length events + 3
steps_left finished = 0

-- Not before `m_running = true` at the start of `run`.
abbrev pub IsPastStart : Pc → Type 0
IsPastStart entering = ⊥
IsPastStart pc = Unit

-- `epoll_wait` returns at most `max_events` events.
abbrev pub FitsEvents : Pc → Type 0
FitsEvents (dispatching events) = length events ≤ max_events
FitsEvents pc = Unit

none_left : (pc : Pc) → IsPastStart pc → steps_left pc ≤ 0 → pc ≡ finished
none_left checking a h = absurd (omega arith)
none_left entering a h = absurd a
none_left testing a h = absurd (omega arith)
none_left waiting a h = absurd (omega arith)
none_left (dispatching events) a h = absurd (omega arith)
none_left finished a h = refl

pub steps_left_le : (pc : Pc) → FitsEvents pc → steps_left pc ≤ 20
steps_left_le checking f = omega arith
steps_left_le entering f = omega arith
steps_left_le testing f = omega arith
steps_left_le waiting f = omega arith
steps_left_le (dispatching events) f = omega arith
steps_left_le finished f = omega arith

module _ {App : Type 0} where
  -- A signal was handled, and `m_running` is `false`.
  abbrev pub IsStopped : Machine App → Type 0
  IsStopped m = (m.handler.shutdown_requested ≡ true) × (m.world.loop.running ≡ false)

  pub record Nears (pc : Pc) (m : Machine App) : Type 0 where
    pub stopped : IsStopped m
    pub nearer : steps_left m.pc ≤ steps_left pc - 1
    pub past : IsPastStart m.pc

  pub main_step-Nears :
      (ready : List ℕ) (h : SignalHandler (World App)) (w : World App) (pc : Pc)
      → let m : Machine App = record { handler = h; world = w; pc = pc } in
        IsStopped m → IsPastStart pc → Nears pc (main_step ready m)
  unfolding main_step go is_shutdown_requested
  main_step-Nears ready h w checking s a =
      subst
        (λ b. Nears checking (
          if b
          then record { handler = h; world = w; pc = finished }
          else record { handler = h; world = w; pc = entering }))
        (sym s.0) (record { stopped = s; nearer = omega arith; past = tt })
  main_step-Nears ready h w entering s a = absurd a
  main_step-Nears ready h w testing s a =
      subst
        (λ b. Nears testing (
          if b
          then record { handler = h; world = w; pc = waiting }
          else record { handler = h; world = w; pc = checking }))
        (sym s.1) (record { stopped = s; nearer = omega arith; past = tt })
  main_step-Nears ready h w waiting s a = record {
    stopped = s;
    nearer = omega (arith, length-take {0} max_events ready);
    past = tt;
  }
  main_step-Nears ready h w (dispatching []) s a = record {
    stopped = s;
    nearer = omega arith;
    past = tt;
  }
  main_step-Nears ready h w (dispatching (fd ∷ events)) s a = record {
    stopped = s;
    nearer = omega arith;
    past = tt;
  }
  main_step-Nears ready h w finished s a = record { stopped = s; nearer = omega arith; past = tt }

  pub main_steps-finished :
      (answers : List (List ℕ)) (m : Machine App)
      → IsStopped m
      → IsPastStart m.pc
      → steps_left m.pc ≤ length answers
      → (main_steps answers m).pc ≡ finished
  unfolding main_steps
  main_steps-finished [] m s a h = none_left m.pc a h
  main_steps-finished (ready ∷ answers) m s a h =
      let n = main_step-Nears ready m.handler m.world m.pc s a in
      main_steps-finished answers (main_step ready m) n.stopped n.past (omega (arith, n.nearer))

  -- `main` registered the callback that stops the loop.
  pub record Registers (h : SignalHandler (World App)) : Type 0 where
    pub earlier : List (Option (ShutdownCallback (World App)))
    pub registered : h.callbacks ≡ earlier ++ some stop_callback ∷ []

  -- The callback of `main` runs last, and leaves `m_running` at `false`.
  callbacks_stop :
      (signum : ℕ) (h : SignalHandler (World App)) (w : World App)
      → Registers h
      → (execute_callbacks signum h.callbacks w).loop.running ≡ false
  unfolding execute_callbacks stop_callback stop
  callbacks_stop signum h w r =
      subst (λ cs. (execute_callbacks signum cs w).loop.running ≡ false) (sym r.registered)
        (ap (λ v. v.loop.running)
          (execute_callbacks-append signum r.earlier (some stop_callback ∷ []) w))

  pub signal-IsStopped :
      (signum : ℕ) (m : Machine App) → Registers m.handler → IsStopped (signal signum m)
  unfolding signal signal_handler_function
  signal-IsStopped signum m r = (refl, callbacks_stop signum m.handler m.world r)
