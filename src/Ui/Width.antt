-- ===== src/Ui/Width.antt =====
-- How many rows the dashboard takes: a line that is wider than the terminal takes two of its rows,
-- and the dashboard then reaches into the scroll region.
use agent_team_test.Prelude.{
  ℕ, ◌-◌, ◌≤◌, ◌≡◌, ap, ◌∙◌, get_or, Bool-cases, inl, inr, List, [], ◌++◌, ◌==◌, replicate, All,
  arith, codes, length, length-append, length-replicate,
}
use agent_team_test.Stats.{Result}
use agent_team_test.Format.{Format, Laws}
use agent_team_test.Ui.Screen.{rows, draw_dashboard-rows}
use agent_team_test.Ui.{
  draw_dashboard, header_lines, title, title_text, separator_length, separator_text, right_dash,
  log_label_text, column, row_text, column_headers, data_text,
}

length-title_text : (cols : ℕ) → 22 ≤ cols → length (title_text cols) ≡ cols
unfolding title_text title
length-title_text cols h = omega (
  arith,
  length-append {0} title (replicate (cols - 22) b' '),
  length-replicate {0} {A = ℕ} (cols - 22) b' ',
)

separator_length_le : (cols : ℕ) → separator_length cols ≤ 78
unfolding separator_length
separator_length_le cols = ground arith

right_dash_le : (cols : ℕ) → right_dash cols ≤ 50
unfolding right_dash
right_dash_le cols = ground arith

right_dash_lt : (cols : ℕ) → 54 ≤ cols → right_dash cols ≤ cols - 36
unfolding right_dash
right_dash_lt cols h = ground arith

separator_text_le : (cols : ℕ) → length (separator_text cols) ≤ 79
unfolding separator_text
separator_text_le cols =
    omega
      (arith, separator_length_le cols, length-replicate {0} {A = ℕ} (separator_length cols) b'-')

log_label_text_le : (cols : ℕ) → 54 ≤ cols → length (log_label_text cols) ≤ cols
unfolding log_label_text
log_label_text_le cols h = omega (
  arith,
  right_dash_lt cols h,
  length-append {0} (replicate 20 b'-') (codes " Packet Log  " ++ replicate (right_dash cols) b'-'),
  length-append {0} (codes " Packet Log  ") (replicate (right_dash cols) b'-'),
  length-replicate {0} {A = ℕ} (right_dash cols) b'-',
)

-- The six texts fit their columns.
pub record FitsColumns (a b c d e g : List ℕ) : Type 0 where
  pub fits_a : length a ≤ 9
  pub fits_b : length b ≤ 9
  pub fits_c : length c ≤ 9
  pub fits_d : length d ≤ 9
  pub fits_e : length e ≤ 9
  pub fits_g : length g ≤ 9

module _ {D : Type 0} (f : Format D) where
  -- The values that a data row prints fit their columns.
  pub record FitsRow (r : Result D) : Type 0 where
    pub count : length (f.number r.count) ≤ 6
    pub values :
        FitsColumns
          (f.fixed 1 r.min_us)
          (f.fixed 1 r.p50_us)
          (f.fixed 1 r.p95_us)
          (f.fixed 1 r.p99_us)
          (f.fixed 1 r.p999_us)
          (f.fixed 1 r.max_us)

module _ {D : Type 0} (f : Format D) (laws : Laws f) where
  length-column : (text : List ℕ) → length text ≤ 9 → length (column f text) ≡ 10
  unfolding column
  length-column text h = omega (arith, laws.length-right 9 text)

  length-row_text :
      (label count a b c d e g : List ℕ)
      → length label ≤ 8
      → length count ≤ 6
      → FitsColumns a b c d e g
      → length (row_text f label count a b c d e g) ≡ 75
  unfolding row_text
  length-row_text label count a b c d e g l n h =
      simp
        (
          length-append,
          length-column a h.fits_a,
          length-column b h.fits_b,
          length-column c h.fits_c,
          length-column d h.fits_d,
          length-column e h.fits_e,
          length-column g h.fits_g,
        )
        (omega (
          arith,
          length-append {0} (f.left 8 label) (f.right 6 count),
          laws.length-left 8 label,
          laws.length-right 6 count,
        ))

  length-data_text :
      (label : List ℕ) (r : Result D)
      → length label ≤ 8
      → FitsRow f r
      → length (data_text f label r) ≡ 75
  unfolding data_text
  length-data_text label r l h = elim (Bool-cases (r.count == 0)) [
    | inl e ↦ rw e (
        length-row_text label _ _ _ _ _ _ _ l (omega arith) (record {
          fits_a = omega arith;
          fits_b = omega arith;
          fits_c = omega arith;
          fits_d = omega arith;
          fits_e = omega arith;
          fits_g = omega arith;
        }))
    | inr e ↦ rw e (length-row_text label _ _ _ _ _ _ _ l h.count h.values)
  ]

  length-column_headers : length (column_headers f) ≡ 81
  unfolding column_headers
  length-column_headers = omega (
    arith,
    length-append {0} (row_text f [] _ _ _ _ _ _ _) (codes "  (us)"),
    length-row_text [] (codes "count") (codes "min") (codes "p50") (codes "p95") (codes "p99")
        (codes "p99.9") (codes "max") (omega arith) (omega arith)
        (record {
          fits_a = omega arith;
          fits_b = omega arith;
          fits_c = omega arith;
          fits_d = omega arith;
          fits_e = omega arith;
          fits_g = omega arith;
        }),
  )

  lines_fit :
      (cols : ℕ) (tx rx interval : Result D)
      → FitsRow f tx
      → FitsRow f rx
      → FitsRow f interval
      → 81 ≤ cols
      → All (λ l. length l ≤ cols) (rows (draw_dashboard f cols tx rx interval))
  lines_fit cols tx rx interval t r i wide = rw (draw_dashboard-rows f laws cols tx rx interval) (
    omega (arith, length-title_text cols (omega arith)),
    (
      omega (arith, length-column_headers),
      (
        omega (arith, separator_text_le cols),
        (
          omega (arith, length-data_text (codes "TX Send") tx (omega arith) t),
          (
            omega (arith, length-data_text (codes "RX Proc") rx (omega arith) r),
            (
              omega (arith, length-data_text (codes "RX Intv") interval (omega arith) i),
              (omega (arith, log_label_text_le cols (omega arith)), tt),
            ),
          ),
        ),
      ),
    ),
  )

  -- Read the way a terminal reads it, control sequences aside, the dashboard is as many lines as
  -- it has rows reserved, and its second line, with the column headers, takes 81 columns, whatever
  -- the statistics and the size of the terminal. If the values that it prints fit their columns,
  -- none of its lines is wider than a terminal of 81 columns or more.
  pub draw_dashboard_fits :
      (cols : ℕ) (tx rx interval : Result D)
      → let shown = rows (draw_dashboard f cols tx rx interval) in
        (length shown ≡ header_lines)
        × (length (get_or shown 1 []) ≡ 81)
        × (FitsRow f tx
            → FitsRow f rx
            → FitsRow f interval
            → 81 ≤ cols
            → All (λ l. length l ≤ cols) shown)
  draw_dashboard_fits cols tx rx interval = (
    ap length (draw_dashboard-rows f laws cols tx rx interval),
    ap (λ shown. length (get_or shown 1 [])) (draw_dashboard-rows f laws cols tx rx interval)
        ∙ length-column_headers,
    lines_fit cols tx rx interval,
  )
