-- ===== src/Signals/Tests.antt =====
-- The signal handler at concrete inputs.
use agent_team_test.Prelude.{ℕ, ◌+◌, ◌≡◌, refl, true, false, none, some, [], ◌∷◌}
use agent_team_test.Signals.{
  SignalHandler, sigint, sigterm, init, initialize, register_callback, is_shutdown_requested, reset,
  execute_callbacks, signal_handler_function, wait_for_shutdown,
}
use agent_team_test.Signals.Callbacks.{signal_handler_function_lem}

-- The program's state is a number.
abbrev double_it : ℕ → ℕ → ℕ
double_it signum w = w + w

abbrev add_signal : ℕ → ℕ → ℕ
add_signal signum w = w + signum

abbrev handler : SignalHandler ℕ
handler = record {
  shutdown_requested = false;
  signal_number = 0;
  callbacks = some double_it ∷ none ∷ [];
  initialized = true;
}

signal_handler_function_lem_example :
    (signal_handler_function sigterm (register_callback (some add_signal) handler) 10).1 ≡ 35
unfolding execute_callbacks
signal_handler_function_lem_example = (signal_handler_function_lem sigterm add_signal handler 10).2

initializes_once : (initialize true true (initialize true true (init {World = ℕ})).1).0 ≡ false
unfolding initialize init
initializes_once = refl

sleeps_until_set : wait_for_shutdown (false ∷ false ∷ true ∷ false ∷ []) ≡ 3
unfolding wait_for_shutdown
sleeps_until_set = refl

reset_clears : is_shutdown_requested (reset (signal_handler_function sigint handler 1).0) ≡ false
unfolding is_shutdown_requested reset
reset_clears = refl
