-- ===== src/Main/Program/Served.antt =====
-- The application of `main` while its loop runs, and the callbacks that its timers hold: those that
-- `main` of src/app/main.cpp gave them.
use agent_team_test.Prelude.{ℕ, ◌≡◌, refl, ◌∙◌, Option, some, List, Bool-cases, inl, inr}
use agent_team_test.Stats.Floating.{Double}
use agent_team_test.Threads.State.{Manager}
use agent_team_test.Timers.{TimerHandle, set_callback, handle_event, read_all}
use agent_team_test.Format.{Format}
use agent_team_test.Main.Environment.{App, Shared, Receiver, Environment}
use agent_team_test.Main.Program.{
  on_tx_timer, on_comm_monitor, on_stats_report, on_tx_event, on_comm_monitor_event, on_stats_event,
  make_timer, make_app,
}

-- A handle keeps its callback.
handle_event-callback :
    {A : Type 0} (bytes_read : Option ℕ) (t : TimerHandle A) (x : A)
    → (handle_event bytes_read t x).0.callback ≡ t.callback
unfolding handle_event
handle_event-callback bytes_read t x = elim (Bool-cases (read_all bytes_read)) [
  | inl e ↦ rw e refl
  | inr e ↦ rw e refl
]

module _ (d : Double) (f : Format d.D) (inet_pton stoul : List ℕ → Option ℕ) where
  -- What becomes of the application that `main` makes: the other threads change what is shared, a
  -- `read` gets another answer, and the event loop runs the callbacks of its events.
  pub data Served (env : Environment) (m : Manager Receiver) : App → Type 0 where
    made : Served env m (make_app d f inet_pton stoul env m)
    shares : {x : App} (s : Shared) → Served env m x → Served env m (record x { shared = s })
    reads :
        {x : App} (bytes_read : Option ℕ)
        → Served env m x
        → Served env m (record x { bytes_read = bytes_read })
    sends : {x : App} → Served env m x → Served env m (on_tx_event d f inet_pton stoul x)
    monitors :
        {x : App} → Served env m x → Served env m (on_comm_monitor_event d f inet_pton stoul x)
    reports : {x : App} → Served env m x → Served env m (on_stats_event d f inet_pton stoul x)

  pub record HasCallbacks (x : App) : Type 0 where
    pub tx_callback : x.tx_timer.callback ≡ some (on_tx_timer d f inet_pton stoul)
    pub monitor_callback :
        x.comm_monitor_timer.callback ≡ some (on_comm_monitor d f inet_pton stoul)
    pub stats_callback : x.stats_timer.callback ≡ some (on_stats_report d f inet_pton stoul)

  make_app-HasCallbacks :
      (env : Environment) (m : Manager Receiver) → HasCallbacks (make_app d f inet_pton stoul env m)
  unfolding make_app make_timer set_callback
  make_app-HasCallbacks env m = record {
    tx_callback = refl;
    monitor_callback = refl;
    stats_callback = refl;
  }

  on_event-HasCallbacks :
      (x : App)
      → HasCallbacks x
      → HasCallbacks (on_tx_event d f inet_pton stoul x)
        × HasCallbacks (on_comm_monitor_event d f inet_pton stoul x)
        × HasCallbacks (on_stats_event d f inet_pton stoul x)
  unfolding on_tx_event on_comm_monitor_event on_stats_event
  on_event-HasCallbacks x h = (
    record {
      tx_callback = handle_event-callback x.bytes_read x.tx_timer x.shared ∙ h.tx_callback;
      monitor_callback = h.monitor_callback;
      stats_callback = h.stats_callback;
    },
    record {
      tx_callback = h.tx_callback;
      monitor_callback =
          handle_event-callback x.bytes_read x.comm_monitor_timer x.shared ∙ h.monitor_callback;
      stats_callback = h.stats_callback;
    },
    record {
      tx_callback = h.tx_callback;
      monitor_callback = h.monitor_callback;
      stats_callback = handle_event-callback x.bytes_read x.stats_timer x.shared ∙ h.stats_callback;
    },
  )

  pub Served-HasCallbacks :
      (env : Environment) (m : Manager Receiver) (x : App) → Served env m x → HasCallbacks x
  Served-HasCallbacks env m _ made = make_app-HasCallbacks env m
  Served-HasCallbacks env m _ (shares s r) =
      let h = Served-HasCallbacks env m _ r in
      record {
        tx_callback = h.tx_callback;
        monitor_callback = h.monitor_callback;
        stats_callback = h.stats_callback;
      }
  Served-HasCallbacks env m _ (reads bytes_read r) =
      let h = Served-HasCallbacks env m _ r in
      record {
        tx_callback = h.tx_callback;
        monitor_callback = h.monitor_callback;
        stats_callback = h.stats_callback;
      }
  Served-HasCallbacks env m _ (sends r) =
      (on_event-HasCallbacks _ (Served-HasCallbacks env m _ r)).0
  Served-HasCallbacks env m _ (monitors r) =
      (on_event-HasCallbacks _ (Served-HasCallbacks env m _ r)).1
  Served-HasCallbacks env m _ (reports r) =
      (on_event-HasCallbacks _ (Served-HasCallbacks env m _ r)).2
