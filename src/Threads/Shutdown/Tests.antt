-- ===== src/Threads/Shutdown/Tests.antt =====
-- A manager that is stopped while both loops run.
use agent_team_test.Prelude.{ℕ, ◌≤◌, ◌≡◌, ◌⊎◌, refl, false, none, []}
use agent_team_test.Socket.Error.{UdpNodeError}
use agent_team_test.Socket.{failed, eagain}
use agent_team_test.Threads.State.{init}
use agent_team_test.Threads.Loops.{RxPass, rx_step}
use agent_team_test.Threads.Shutdown.{
  Stopper, System, Step, Steps, rx_passes, here, then_step, after_rx, rx_view,
}
use agent_team_test.Threads.Shutdown.Ends.{IsStopping, stop_returns}

abbrev stopping : System ℕ
stopping = record {
  manager = init 0 [] [];
  node = record { sockfd = none; error = UdpNodeError.none };
  app = 0;
  tx_buffer = [];
  tx_length = 0;
  sends = [];
  threads = record { live = []; misjoined = false };
  rx_ended = false;
  tx_ended = false;
  stopper = Stopper.joins_rx;
}

stopping-IsStopping : IsStopping stopping
unfolding init
stopping-IsStopping = record { cleared = refl; inside = λ e. cc }

-- The receiver's last pass times out.
abbrev timeout : RxPass
timeout = record {
  received = failed eagain;
  rx_start = 1;
  callback_time = 1;
  rx_end = 1;
  running = false;
}

abbrev timed_out : System ℕ
timed_out = after_rx timeout (rx_step timeout (rx_view stopping)) stopping

one_pass : Steps stopping 1 timed_out
unfolding init
one_pass = then_step here (rx_passes timeout refl refl)

stop_returns_example :
    (1 ≤ 4) × ((timed_out.stopper ≡ Stopper.returned) ⊎ ((u : System ℕ) × Step timed_out u))
stop_returns_example = stop_returns stopping-IsStopping one_pass
