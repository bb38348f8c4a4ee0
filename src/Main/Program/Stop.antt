-- ===== src/Main/Program/Stop.antt =====
-- What `main` does behind its loop.
use agent_team_test.Prelude.{
  ℕ, ◌≡◌, refl, ap, ◌∙◌, false, List, [], ◌∷◌, if◌then◌else◌, Option, arith,
}
use agent_team_test.Stats.Floating.{Double}
use agent_team_test.Threads.State.{Manager}
use agent_team_test.Threads.Lifecycle.{Joinable, stop, join_rx, join_tx}
use agent_team_test.Threads.Owned.{Reach, stops, Reach-threads}
use agent_team_test.Format.{Format}
use agent_team_test.Main.Environment.{Shared, exit_success}
use agent_team_test.Main.Program.{shut_down}

stop-running : {App : Type 0} (m : Manager App) (j : Joinable) → (stop m j).0.running ≡ false
unfolding stop join_rx join_tx
stop-running m j = ground arith

module _ (d : Double) (f : Format d.D) (inet_pton stoul : List ℕ → Option ℕ) where
  -- If the manager is as its methods leave it, then behind its loop `main` exits with success, the
  -- manager does not run, and no thread is left.
  pub shut_down_lem :
      (s : Shared) (j : Joinable)
      → Reach s.manager j
      → let (code, m, j', text) = shut_down d f inet_pton stoul s j in
        (code ≡ exit_success) × (m.running ≡ false) × (j'.live ≡ []) × (j'.misjoined ≡ false)
  unfolding shut_down
  shut_down_lem s j r =
      let (joined, live) = Reach-threads (stop s.manager j).0 (stop s.manager j).1 (stops r) in
      (
        refl,
        stop-running s.manager j,
        live
            ∙ ap
                (λ b.
                  if b
                  then (stop s.manager j).0.tx_thread ∷ (stop s.manager j).0.rx_thread ∷ []
                  else [])
                (stop-running s.manager j),
        joined,
      )
