-- ===== src/Main/Loop/Reach.antt =====
-- The runs of the main thread with the signals that interrupt it: when a signal ends the loop, and
-- when it does not.
use agent_team_test.Prelude.{
  ℕ, ◌≤◌, ◌≡◌, refl, sym, ◌∙◌, true, List, [], ◌∷◌, length, arith, if◌then◌else◌, length-take,
  Bool-cases, inl, inr,
}
use mathlib.Core.Path.{subst}
use agent_team_test.Signals.{SignalHandler, is_shutdown_requested, signal_handler_function}
use agent_team_test.Events.{max_events}
use agent_team_test.Main.Loop.{
  World, Pc, checking, entering, testing, waiting, finished, dispatching, Machine, go, main_step,
  main_steps, signal,
}
use agent_team_test.Main.Loop.Stop.{
  IsPastStart, FitsEvents, steps_left_le, Registers, main_steps-finished, signal-IsStopped,
}

module _ {App : Type 0} where
  -- The states from the test of the flag on. The flag may be set before the callback is
  -- registered, and the other threads change what they share with the callbacks of the loop.
  pub data Reach : Machine App → Type 0 where
    begins :
        (h : SignalHandler (World App)) (w : World App)
        → Registers h
        → Reach (record { handler = h; world = w; pc = checking })
    steps : {m : Machine App} → (ready : List ℕ) → Reach m → Reach (main_step ready m)
    signals : {m : Machine App} → (signum : ℕ) → Reach m → Reach (signal signum m)
    shares :
        {m : Machine App}
        → (app : App) → Reach m
        → Reach (record m { world = record (m.world) { app = app } })

  abbrev IsRequested : Pc → SignalHandler (World App) → Type 0
  IsRequested finished h = h.shutdown_requested ≡ true
  IsRequested pc h = Unit

  record Inv (m : Machine App) : Type 0 where
    registers : Registers m.handler
    fits : FitsEvents m.pc
    requested : IsRequested m.pc m.handler

  main_step_at-Inv :
      (ready : List ℕ) (h : SignalHandler (World App)) (w : World App) (pc : Pc)
      → let m : Machine App = record { handler = h; world = w; pc = pc } in
        Inv m → Inv (main_step ready m)
  unfolding main_step go is_shutdown_requested
  main_step_at-Inv ready h w checking i = elim (Bool-cases h.shutdown_requested) [
    | inl e ↦
        subst (λ b. Inv (if b then at finished else at entering)) (sym e)
          (record { registers = i.registers; fits = tt; requested = e })
    | inr e ↦
        subst (λ b. Inv (if b then at finished else at entering)) (sym e)
          (record { registers = i.registers; fits = tt; requested = tt })
  ]
    where
      at : Pc → Machine App
      at pc = record { handler = h; world = w; pc = pc }
  main_step_at-Inv ready h w entering i = record {
    registers = i.registers;
    fits = tt;
    requested = tt;
  }
  main_step_at-Inv ready h w testing i = elim (Bool-cases w.loop.running) [
    | inl e ↦ rw e (record { registers = i.registers; fits = tt; requested = tt })
    | inr e ↦ rw e (record { registers = i.registers; fits = tt; requested = tt })
  ]
  main_step_at-Inv ready h w waiting i = record {
    registers = i.registers;
    fits = omega (arith, length-take {0} max_events ready);
    requested = tt;
  }
  main_step_at-Inv ready h w (dispatching []) i = record {
    registers = i.registers;
    fits = tt;
    requested = tt;
  }
  main_step_at-Inv ready h w (dispatching (fd ∷ events)) i = record {
    registers = i.registers;
    fits = omega (arith, i.fits);
    requested = tt;
  }
  main_step_at-Inv ready h w finished i = i

  main_step-Inv : (ready : List ℕ) (m : Machine App) → Inv m → Inv (main_step ready m)
  main_step-Inv ready m i = main_step_at-Inv ready m.handler m.world m.pc i

  -- The callbacks of a signal do not touch the handler's own list.
  Registers-same :
      (h h' : SignalHandler (World App)) → h'.callbacks ≡ h.callbacks → Registers h → Registers h'
  Registers-same h h' e r = record { earlier = r.earlier; registered = e ∙ r.registered }

  signal_asks :
      (pc : Pc) (h : SignalHandler (World App)) → h.shutdown_requested ≡ true → IsRequested pc h
  signal_asks checking h e = tt
  signal_asks entering h e = tt
  signal_asks testing h e = tt
  signal_asks waiting h e = tt
  signal_asks (dispatching events) h e = tt
  signal_asks finished h e = e

  signal-Inv : (signum : ℕ) (m : Machine App) → Inv m → Inv (signal signum m)
  unfolding signal signal_handler_function
  signal-Inv signum m i = record {
    registers = Registers-same m.handler (signal signum m).handler refl i.registers;
    fits = i.fits;
    requested = signal_asks m.pc (signal signum m).handler refl;
  }

  Reach-Inv : {m : Machine App} → Reach m → Inv m
  Reach-Inv (begins h w r) = record { registers = r; fits = tt; requested = tt }
  Reach-Inv (steps {m} ready r) = main_step-Inv ready m (Reach-Inv r)
  Reach-Inv (signals {m} signum r) = signal-Inv signum m (Reach-Inv r)
  Reach-Inv (shares app r) =
      let i = Reach-Inv r in
      record {
        registers = Registers-same _ _ refl i.registers;
        fits = i.fits;
        requested = i.requested;
      }

  -- A signal ends the loop, whatever the kernel answers afterwards, if the main thread does not
  -- stand at `m_running = true`: within 20 steps it is behind the loop. A step in `epoll_wait`
  -- ends when the kernel answers.
  pub signal_stops :
      {m : Machine App}
      → (signum : ℕ) (answers : List (List ℕ)) → Reach m
      → IsPastStart m.pc
      → 20 ≤ length answers
      → (main_steps answers (signal signum m)).pc ≡ finished
  unfolding signal
  signal_stops {m} signum answers r past enough =
      let i = Reach-Inv r in
      main_steps-finished answers (signal signum m) (signal-IsStopped signum m i.registers) past
        (omega (arith, steps_left_le m.pc i.fits))

  -- The main thread leaves the loop only after a signal was handled.
  pub Reach-finished_requested :
      {m : Machine App} → Reach m → m.pc ≡ finished → m.handler.shutdown_requested ≡ true
  Reach-finished_requested {m} r e =
      subst (λ pc. IsRequested pc m.handler) e (Reach-Inv r).requested
