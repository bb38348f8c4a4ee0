-- ===== src/Ui/Tests.antt =====
-- The terminal at concrete sizes and statistics.
use agent_team_test.Prelude.{
  ℕ, ◌≡◌, ◌≤◌, refl, none, some, List, [], ◌∷◌, get_or, All, arith, codes, length, true,
}
use agent_team_test.Stats.{Result}
use agent_team_test.Format.Decimal.{decimal, decimal-Laws}
use agent_team_test.Ui.{
  TerminalUi, draw_dashboard, init, initialize, update_stats, shutdown, log, resize,
}
use agent_team_test.Ui.Screen.{rows}
use agent_team_test.Ui.Width.{FitsRow, draw_dashboard_fits}

abbrev nothing : Result ℕ
nothing = record {
  count = 0;
  min_us = 0;
  max_us = 0;
  mean_us = 0;
  stdev_us = 0;
  p50_us = 0;
  p95_us = 0;
  p99_us = 0;
  p999_us = 0;
  p9999_us = 0;
}

abbrev some_samples : Result ℕ
some_samples = record nothing {
  count = 1200;
  min_us = 3;
  max_us = 41;
  p50_us = 10;
  p95_us = 20;
  p99_us = 30;
  p999_us = 40;
}

nothing-FitsRow : FitsRow decimal nothing
nothing-FitsRow = record {
  count = omega arith;
  values = record {
    fits_a = omega arith;
    fits_b = omega arith;
    fits_c = omega arith;
    fits_d = omega arith;
    fits_e = omega arith;
    fits_g = omega arith;
  };
}

some_samples-FitsRow : FitsRow decimal some_samples
some_samples-FitsRow = record {
  count = omega arith;
  values = record {
    fits_a = omega arith;
    fits_b = omega arith;
    fits_c = omega arith;
    fits_d = omega arith;
    fits_e = omega arith;
    fits_g = omega arith;
  };
}

-- The dashboard on a terminal of 100 columns.
abbrev dashboard : List (List ℕ)
dashboard = rows (draw_dashboard decimal 100 some_samples nothing nothing)

draw_dashboard_fits_example :
    (length dashboard ≡ 7)
    × (length (get_or dashboard 1 []) ≡ 81)
    × All (λ l. length l ≤ 100) dashboard
draw_dashboard_fits_example =
    let (count, headers, fits) =
      draw_dashboard_fits decimal decimal-Laws 100 some_samples nothing nothing in
    (count, headers, fits some_samples-FitsRow nothing-FitsRow nothing-FitsRow (omega arith))

abbrev shown : TerminalUi
shown = (initialize decimal (some (30, 100)) nothing init).0

-- The second call prints nothing, as the destructor's.
shuts_down_once : (shutdown decimal (shutdown decimal shown).0).1 ≡ []
unfolding shutdown initialize resize init
shuts_down_once = refl

silent_before_initialize : update_stats decimal nothing nothing nothing init ≡ []
unfolding update_stats init
silent_before_initialize = refl

keeps_default_size :
    (initialize decimal none nothing init).0 ≡ record { rows = 24; cols = 80; initialized = true }
unfolding initialize resize init
keeps_default_size = refl

shutdown_prints :
    (shutdown decimal shown).1
    ≡ 27 ∷ b'[' ∷ b'r' ∷ 27 ∷ b'[' ∷ b'3' ∷ b'0' ∷ b';' ∷ b'1' ∷ b'H' ∷ 10 ∷ []
unfolding shutdown initialize resize init
shutdown_prints = refl

logs_as_given : log (codes "x\n") ≡ b'x' ∷ 10 ∷ []
unfolding log
logs_as_given = refl
