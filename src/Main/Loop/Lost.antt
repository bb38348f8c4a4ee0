-- ===== src/Main/Loop/Lost.antt =====
-- The signal that comes between the test of the flag in `main` and `m_running = true` in `run`.
use agent_team_test.Prelude.{ℕ, ◌≡◌, ◌≢◌, refl, sym, true, List, [], ◌∷◌, if◌then◌else◌}
use mathlib.Core.Path.{subst}
use agent_team_test.Signals.{SignalHandler, signal_handler_function}
use agent_team_test.Main.Loop.{
  World, Pc, checking, entering, testing, waiting, finished, dispatching, Machine, go, main_step,
  main_steps, signal,
}

-- Inside `run`, after `m_running = true`.
abbrev IsInRun : Pc → Type 0
IsInRun testing = Unit
IsInRun waiting = Unit
IsInRun (dispatching events) = Unit
IsInRun pc = ⊥

module _ {App : Type 0} where
  record Runs (m : Machine App) : Type 0 where
    inside : IsInRun m.pc
    running : m.world.loop.running ≡ true

  main_step-Runs :
      (ready : List ℕ) (h : SignalHandler (World App)) (w : World App) (pc : Pc)
      → let m : Machine App = record { handler = h; world = w; pc = pc } in
        Runs m → Runs (main_step ready m)
  unfolding main_step go
  main_step-Runs ready h w checking r = absurd r.inside
  main_step-Runs ready h w entering r = absurd r.inside
  main_step-Runs ready h w testing r =
      subst (λ b. Runs (if b then at waiting else at checking)) (sym r.running)
        (record { inside = tt; running = r.running })
    where
      at : Pc → Machine App
      at pc = record { handler = h; world = w; pc = pc }
  main_step-Runs ready h w waiting r = record { inside = tt; running = r.running }
  main_step-Runs ready h w (dispatching []) r = record { inside = tt; running = r.running }
  main_step-Runs ready h w (dispatching (fd ∷ events)) r = record {
    inside = tt;
    running = r.running;
  }
  main_step-Runs ready h w finished r = absurd r.inside

  main_steps-Runs :
      (answers : List (List ℕ)) (m : Machine App) → Runs m → Runs (main_steps answers m)
  unfolding main_steps
  main_steps-Runs [] m r = r
  main_steps-Runs (ready ∷ answers) m r =
      main_steps-Runs answers (main_step ready m) (main_step-Runs ready m.handler m.world m.pc r)

  entering-Runs :
      (ready : List ℕ) (h : SignalHandler (World App)) (w : World App)
      → Runs (main_step ready (record { handler = h; world = w; pc = entering }))
  unfolding main_step
  entering-Runs ready h w = record { inside = tt; running = refl }

  not_finished :
      (m : Machine App)
      → m.pc ≡ entering
      → (answers : List (List ℕ)) → (main_steps answers m).pc ≢ finished
  unfolding main_steps
  not_finished m e [] = λ f. cc
  not_finished m e (ready ∷ answers) =
      let start : Runs (main_step ready m) =
        subst
          (λ pc. Runs (main_step ready (record { handler = m.handler; world = m.world; pc = pc })))
          (sym e) (entering-Runs ready m.handler m.world) in
      λ f. subst IsInRun f (main_steps-Runs answers (main_step ready m) start).inside

  -- If the main thread stands at `m_running = true` when a signal is handled, the flag is set, and
  -- yet the main thread never leaves the loop, whatever the kernel answers, unless another signal
  -- comes.
  pub lost_stop :
      (signum : ℕ) (m : Machine App) (answers : List (List ℕ))
      → m.pc ≡ entering
      → let m' = signal signum m in
        (m'.handler.shutdown_requested ≡ true) × ((main_steps answers m').pc ≢ finished)
  unfolding signal signal_handler_function
  lost_stop signum m answers e = (refl, not_finished (signal signum m) e answers)
