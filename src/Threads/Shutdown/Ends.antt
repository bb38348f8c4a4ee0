-- ===== src/Threads/Shutdown/Ends.antt =====
-- `stop` returns: once the flag is cleared every step is one of at most four.
use agent_team_test.Prelude.{
  ℕ, ◌+◌, ◌≤◌, ◌<◌, ◌≡◌, ◌≢◌, ◌⊎◌, refl, ap, ◌∙◌, Bool, true, false, not, ◌&&◌, Bool-cases, inl,
  inr, arith, [], none,
}
use agent_team_test.Socket.{datagram}
use agent_team_test.Threads.State.{Manager}
use agent_team_test.Threads.Loops.{RxPass, TxPass, rx_step}
use agent_team_test.Threads.Lifecycle.{Joinable, join_rx, join_tx}
use agent_team_test.Threads.Shutdown.{
  Stopper, System, rx_view, tx_view, Step, Steps, rx_passes, tx_passes, stops, finds_stopped,
  joins_receiver, joins_sender, here, then_step,
}
use agent_team_test.Threads.Shutdown.Keeps.{running-rx_step, running-tx_step}

-- The work left: a pass of each loop that has not ended, and the joins.
abbrev loop_left : Bool → ℕ
loop_left true = 0
loop_left false = 1

abbrev joins_left : Stopper → ℕ
joins_left Stopper.outside = 2
joins_left Stopper.joins_rx = 2
joins_left Stopper.joins_tx = 1
joins_left Stopper.returned = 0

join_tx_ne_outside : Stopper.joins_tx ≢ Stopper.outside
join_tx_ne_outside e = cc

returned_ne_outside : Stopper.returned ≢ Stopper.outside
returned_ne_outside e = cc

-- The pass that reads the cleared flag is the loop's last.
last_pass : (running goes_on : Bool) → running ≡ false → loop_left (not (running && goes_on)) ≡ 0
last_pass running goes_on e = rw e refl

last_tx_pass : (running : Bool) → running ≡ false → loop_left (not running) ≡ 0
last_tx_pass running e = rw e refl

-- A pass in which nothing arrives, and one in which nothing is sent.
idle_rx : Bool → RxPass
idle_rx running = record {
  received = datagram [];
  rx_start = 0;
  callback_time = 0;
  rx_end = 0;
  running = running;
}

idle_tx : Bool → TxPass
idle_tx running = record { tx_start = 0; sent = none; tx_end = 0; running = running }

module _ {App : Type 0} where
  abbrev work_left : System App → ℕ
  work_left s = loop_left s.rx_ended + loop_left s.tx_ended + joins_left s.stopper

  -- Behind the store of the flag in `stop`.
  pub record IsStopping (s : System App) : Type 0 where
    pub cleared : s.manager.running ≡ false
    pub inside : s.stopper ≢ Stopper.outside

  running-join_rx : (m : Manager App) (j : Joinable) → (join_rx m j).0.running ≡ m.running
  unfolding join_rx
  running-join_rx m j = ground arith

  running-join_tx : (m : Manager App) (j : Joinable) → (join_tx m j).0.running ≡ m.running
  unfolding join_tx
  running-join_tx m j = ground arith

  -- Each step keeps this and does a part of the work.
  Step-IsStopping :
      {s t : System App} → Step s t → IsStopping s → IsStopping t × (work_left t < work_left s)
  Step-IsStopping {s} (rx_passes pass alive read) g = (
    record { cleared = running-rx_step pass (rx_view s) ∙ g.cleared; inside = g.inside },
    omega (
      arith,
      ap loop_left alive,
      last_pass pass.running (not (rx_step pass (rx_view s)).1) (read ∙ g.cleared),
    ),
  )
  Step-IsStopping {s} (tx_passes pass alive read) g = (
    record { cleared = running-tx_step pass (tx_view s) ∙ g.cleared; inside = g.inside },
    omega (arith, ap loop_left alive, last_tx_pass pass.running (read ∙ g.cleared)),
  )
  Step-IsStopping (stops at on) g = absurd (g.inside at)
  Step-IsStopping (finds_stopped at off) g = absurd (g.inside at)
  Step-IsStopping {s} (joins_receiver at waits) g = (
    record {
      cleared = running-join_rx s.manager s.threads ∙ g.cleared;
      inside = join_tx_ne_outside;
    },
    omega (arith, ap joins_left at),
  )
  Step-IsStopping {s} (joins_sender at waits) g = (
    record {
      cleared = running-join_tx s.manager s.threads ∙ g.cleared;
      inside = returned_ne_outside;
    },
    omega (arith, ap joins_left at),
  )

  Steps-IsStopping :
      {s : System App} {n : ℕ} {t : System App}
      → Steps s n t
      → IsStopping s
      → IsStopping t × (n + work_left t ≤ work_left s)
  Steps-IsStopping here g = (g, omega arith)
  Steps-IsStopping (then_step steps step) g =
      let (g', left) = Steps-IsStopping steps g in
      let (g'', less) = Step-IsStopping step g' in (g'', omega arith)

  -- Until `stop` has returned, a join or a pass that it waits for can be made.
  receiver_moves : (s : System App) → s.stopper ≡ Stopper.joins_rx → (u : System App) × Step s u
  unfolding idle_rx
  receiver_moves s at = elim (Bool-cases s.rx_ended) [
    | inl ended ↦ (_, joins_receiver at (inr ended))
    | inr alive ↦ (_, rx_passes (idle_rx s.manager.running) alive refl)
  ]

  sender_moves : (s : System App) → s.stopper ≡ Stopper.joins_tx → (u : System App) × Step s u
  unfolding idle_tx
  sender_moves s at = elim (Bool-cases s.tx_ended) [
    | inl ended ↦ (_, joins_sender at (inr ended))
    | inr alive ↦ (_, tx_passes (idle_tx s.manager.running) alive refl)
  ]

  can_step :
      (s : System App) (at : Stopper)
      → s.stopper ≡ at
      → at ≢ Stopper.outside
      → (s.stopper ≡ Stopper.returned) ⊎ ((u : System App) × Step s u)
  can_step s Stopper.outside e inside = absurd (inside refl)
  can_step s Stopper.joins_rx e inside = inr (receiver_moves s e)
  can_step s Stopper.joins_tx e inside = inr (sender_moves s e)
  can_step s Stopper.returned e inside = inl e

loop_left_le : (b : Bool) → loop_left b ≤ 1
loop_left_le true = omega arith
loop_left_le false = omega arith

joins_left_le : (at : Stopper) → joins_left at ≤ 2
joins_left_le Stopper.outside = omega arith
joins_left_le Stopper.joins_rx = omega arith
joins_left_le Stopper.joins_tx = omega arith
joins_left_le Stopper.returned = omega arith

-- Once `stop` has cleared the flag, whatever the kernel answers to the two loops and however they
-- interleave with the joins: no run is longer than four steps, one pass of each loop and the two
-- joins, and a run that cannot go on has returned from `stop`. So `stop` returns, if each pass
-- ends.
pub stop_returns :
    {App : Type 0} {s : System App} {n : ℕ} {t : System App}
    → IsStopping s
    → Steps s n t
    → (n ≤ 4) × ((t.stopper ≡ Stopper.returned) ⊎ ((u : System App) × Step t u))
stop_returns {s = s} {t = t} g run =
    let (g', left) = Steps-IsStopping run g in
    (
      omega
          (arith, left, loop_left_le s.rx_ended, loop_left_le s.tx_ended, joins_left_le s.stopper),
      can_step t t.stopper refl g'.inside,
    )
