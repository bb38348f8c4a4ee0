-- ===== src/Main/Loop.antt =====
-- The main thread from the loop of `main` on, and a signal that interrupts it. The thread is in
-- `while (signalHandler.isShutdownRequested() == false) loop.run();`, with `EventLoop::run` of
-- src/event/EventLoop.cpp inside it; a signal handler runs whole between two of its steps.
pub mod Stop
pub mod Reach
pub mod Lost
use agent_team_test.Prelude.{ℕ, Bool, true, false, Option, some, List, [], ◌∷◌, if◌then◌else◌, take}
use agent_team_test.Signals.{
  SignalHandler, ShutdownCallback, is_shutdown_requested, signal_handler_function,
}
use agent_team_test.Events.{EventLoop, max_events, dispatch_event, stop}

-- What the shutdown callbacks work on.
pub record World (App : Type 0) : Type 0 where
  pub loop : EventLoop App
  pub app : App

-- Where the main thread stands: before the test of the flag, in `run` before `m_running = true`,
-- before the test of `m_running`, in `epoll_wait`, among the events that it returned, or behind
-- the loop.
pub data Pc : Type 0 where
  checking entering testing waiting finished : Pc
  dispatching : List ℕ → Pc

pub record Machine (App : Type 0) : Type 0 where
  pub handler : SignalHandler (World App)
  pub world : World App
  pub pc : Pc

module _ {App : Type 0} where
  -- `registerCallback([&loop](int) { loop.stop(); })`
  unfoldable pub stop_callback : ShutdownCallback (World App)
  stop_callback signum w = record w { loop = stop w.loop }

  unfoldable pub go : Pc → Machine App → Machine App
  go pc m = record m { pc = pc }

  -- One step of the main thread. The list answers `epoll_wait`: the descriptors that are ready, or
  -- none if it failed or a signal interrupted it.
  unfoldable pub main_step : List ℕ → Machine App → Machine App
  main_step ready m = elim m.pc [
    | checking ↦ if is_shutdown_requested m.handler then go finished m else go entering m
    | entering ↦ record m {
      world = record (m.world) { loop = record (m.world.loop) { running = true } };
      pc = testing;
    }
    | testing ↦ if m.world.loop.running then go waiting m else go checking m
    | waiting ↦ go (dispatching (take max_events ready)) m
    | dispatching events ↦ elim events [
      | [] ↦ go testing m
      | fd ∷ rest ↦ record m {
        world = record (m.world) { app = dispatch_event m.world.loop fd m.world.app };
        pc = dispatching rest;
      }
    ]
    | finished ↦ m
  ]

  unfoldable pub main_steps : List (List ℕ) → Machine App → Machine App
  main_steps [] m = m
  main_steps (ready ∷ answers) m = main_steps answers (main_step ready m)

  unfoldable pub signal : ℕ → Machine App → Machine App
  signal signum m =
      let (handler, world, out) = signal_handler_function signum m.handler m.world in
      record m { handler = handler; world = world }
