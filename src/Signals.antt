-- ===== src/Signals.antt =====
-- `class SignalHandler` of include/app/SignalHandler.hpp and src/app/SignalHandler.cpp. A callback
-- gets the signal's number and changes the state of the program; `none` is an empty
-- `std::function`.
pub mod Callbacks
mod Tests
use agent_team_test.Prelude.{
  ℕ, suc, ◌+◌, Bool, true, false, not, Option, none, some, List, [], ◌∷◌, ◌++◌, ◌==◌, if◌then◌else◌,
  take, codes,
}

abbrev pub ShutdownCallback : Type 0 → Type 0
ShutdownCallback World = ℕ → World → World

-- The singleton, with its two static members.
pub record SignalHandler (World : Type 0) : Type 0 where
  pub shutdown_requested : Bool
  pub signal_number : ℕ
  pub callbacks : List (Option (ShutdownCallback World))
  pub initialized : Bool

abbrev pub sigint : ℕ
sigint = 2

abbrev pub sigterm : ℕ
sigterm = 15

-- The loop that counts the bytes of a message: `do { len++; } while (msg[len] != '\0');`.
unfoldable pub count_from : List ℕ → ℕ → ℕ
count_from [] len = len
count_from (c ∷ cs) len = let rest = count_from cs (len + 1) in if c == 0 then len else rest

-- The bytes that `write` gets: those before the 0 that the loop finds, from index 1 on.
unfoldable pub written : List ℕ → List ℕ
written [] = []
written (c ∷ cs) = take (count_from cs 1) (c ∷ cs)

-- What the handler prints for a signal, without the 0 at its end.
unfoldable pub message : ℕ → List ℕ
message signum =
    if signum == sigint
    then codes "\n[Signal] Received SIGINT (Ctrl+C), initiating shutdown...\n"
    else if signum == sigterm
    then codes "\n[Signal] Received SIGTERM, initiating shutdown...\n"
    else codes "\n[Signal] Received signal, initiating shutdown...\n"

-- `waitForShutdown`: what the flag is at the end of each sleep, and how many sleeps it takes.
unfoldable pub wait_for_shutdown : List Bool → ℕ
wait_for_shutdown [] = 0
wait_for_shutdown (requested ∷ rest) =
    let more = suc (wait_for_shutdown rest) in if requested then 1 else more

module _ {World : Type 0} where
  unfoldable pub init : SignalHandler World
  init = record {
    shutdown_requested = false;
    signal_number = 0;
    callbacks = [];
    initialized = false;
  }

  -- Whether `sigaction` takes the handler for SIGINT, and for SIGTERM.
  unfoldable pub initialize : Bool → Bool → SignalHandler World → Bool × SignalHandler World
  initialize int_ok term_ok h =
      if h.initialized
      then (false, h)
      else if not int_ok
      then (false, h)
      else if not term_ok
      then (false, h)
      else (true, record h { initialized = true })

  unfoldable pub register_callback :
      Option (ShutdownCallback World) → SignalHandler World → SignalHandler World
  register_callback callback h = record h { callbacks = h.callbacks ++ callback ∷ [] }

  unfoldable pub is_shutdown_requested : SignalHandler World → Bool
  is_shutdown_requested h = h.shutdown_requested

  unfoldable pub reset : SignalHandler World → SignalHandler World
  reset h = record h { shutdown_requested = false; signal_number = 0 }

  unfoldable pub execute_callbacks : ℕ → List (Option (ShutdownCallback World)) → World → World
  execute_callbacks signum [] w = w
  execute_callbacks signum (none ∷ callbacks) w = execute_callbacks signum callbacks w
  execute_callbacks signum (some callback ∷ callbacks) w =
      execute_callbacks signum callbacks (callback signum w)

  -- The handler, the program's state, and the bytes written to the standard output.
  unfoldable pub signal_handler_function :
      ℕ → SignalHandler World → World → SignalHandler World × World × List ℕ
  signal_handler_function signum h w = (
    record h { signal_number = signum; shutdown_requested = true },
    execute_callbacks signum h.callbacks w,
    written (message signum ++ 0 ∷ []),
  )

  abbrev pub get_signal_number : SignalHandler World → ℕ
  get_signal_number h = h.signal_number

  -- `~SignalHandler`: the signals that get their default action again.
  unfoldable pub destroy : SignalHandler World → List ℕ
  destroy h = if h.initialized then sigint ∷ sigterm ∷ [] else []
