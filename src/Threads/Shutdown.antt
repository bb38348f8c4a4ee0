-- ===== src/Threads/Shutdown.antt =====
-- `UdpThreadManager::stop` of src/thread/UdpThreadManager.cpp beside the two thread loops: a pass
-- of a loop, the store of `m_running` and each join are steps, in any order. A pass that the store
-- comes into reads the new flag at its end, as a pass behind the store does.
pub mod Keeps
pub mod Ends
mod Tests
use agent_team_test.Prelude.{ℕ, Bool, true, false, not, ◌&&◌, ◌≡◌, ◌⊎◌, List}
use agent_team_test.Socket.{UdpNode}
use agent_team_test.Threads.State.{Manager}
use agent_team_test.Threads.Loops.{RxPass, RxState, TxPass, TxState, rx_step, tx_step}
use agent_team_test.Threads.Lifecycle.{Joinable, join_rx, join_tx}

-- Where the thread that stops the manager is: before `stop`, at one of its joins, or behind it.
pub data Stopper : Type 0 where
  outside : Stopper
  joins_rx : Stopper
  joins_tx : Stopper
  returned : Stopper

pub record System (App : Type 0) : Type 0 where
  pub manager : Manager App
  pub node : UdpNode
  pub app : App
  pub tx_buffer : List ℕ
  pub tx_length : ℕ
  pub sends : List (List ℕ)
  pub threads : Joinable
  pub rx_ended : Bool
  pub tx_ended : Bool
  pub stopper : Stopper

module _ {App : Type 0} where
  -- What each thread sees of the system.
  abbrev pub rx_view : System App → RxState App
  rx_view s = record { manager = s.manager; node = s.node; app = s.app }

  abbrev pub tx_view : System App → TxState App
  tx_view s = record {
    manager = s.manager;
    node = s.node;
    tx_buffer = s.tx_buffer;
    tx_length = s.tx_length;
    sends = s.sends;
  }

  -- The system behind a pass: the loop goes on while the flag is set and it should not exit.
  abbrev pub after_rx : RxPass → RxState App × Bool → System App → System App
  after_rx pass (r, should_exit) s = record s {
    manager = r.manager;
    node = r.node;
    app = r.app;
    rx_ended = not (pass.running && not should_exit);
  }

  abbrev pub after_tx : TxPass → TxState App → System App → System App
  after_tx pass t s = record s {
    manager = t.manager;
    node = t.node;
    tx_buffer = t.tx_buffer;
    tx_length = t.tx_length;
    sends = t.sends;
    tx_ended = not pass.running;
  }

  abbrev pub after_join_rx : Manager App × Joinable → System App → System App
  after_join_rx (m, j) s = record s { manager = m; threads = j; stopper = Stopper.joins_tx }

  abbrev pub after_join_tx : Manager App × Joinable → System App → System App
  after_join_tx (m, j) s = record s { manager = m; threads = j; stopper = Stopper.returned }

  -- A join waits for the end of its thread; without a thread there is no join.
  pub data Step (s : System App) : System App → Type 0 where
    rx_passes :
        (pass : RxPass)
        → s.rx_ended ≡ false
        → pass.running ≡ s.manager.running
        → Step s (after_rx pass (rx_step pass (rx_view s)) s)
    tx_passes :
        (pass : TxPass)
        → s.tx_ended ≡ false
        → pass.running ≡ s.manager.running
        → Step s (after_tx pass (tx_step pass (tx_view s)) s)
    stops :
        s.stopper ≡ Stopper.outside
        → s.manager.running ≡ true
        → Step s (record s {
          manager = record s.manager { running = false };
          stopper = Stopper.joins_rx;
        })
    finds_stopped :
        s.stopper ≡ Stopper.outside
        → s.manager.running ≡ false
        → Step s (record s { stopper = Stopper.returned })
    joins_receiver :
        s.stopper ≡ Stopper.joins_rx
        → (s.manager.rx_thread ≡ 0) ⊎ (s.rx_ended ≡ true)
        → Step s (after_join_rx (join_rx s.manager s.threads) s)
    joins_sender :
        s.stopper ≡ Stopper.joins_tx
        → (s.manager.tx_thread ≡ 0) ⊎ (s.tx_ended ≡ true)
        → Step s (after_join_tx (join_tx s.manager s.threads) s)

  -- A run of so many steps.
  pub data Steps (s : System App) : ℕ → System App → Type 0 where
    here : Steps s 0 s
    then_step : {n : ℕ} {t u : System App} → Steps s n t → Step t u → Steps s (ℕ.suc n) u
