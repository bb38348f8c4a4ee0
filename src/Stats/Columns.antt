-- ===== src/Stats/Columns.antt =====
-- The frame that `toString` draws is straight: how long its lines are.
use agent_team_test.Prelude.{
  ℕ, ◌+◌, ◌-◌, ◌≤◌, ◌≡◌, refl, Bool, Option, none, some, List, [], ◌∷◌, ◌++◌, length, length-append,
  length-replicate, replicate, Bool-cases, inl, inr, arith, codes, All,
}
use agent_team_test.Stats.{Result}
use agent_team_test.Stats.Floating.{Double}
use agent_team_test.Format.{Format, Laws}
use agent_team_test.Stats.Text.{
  bar_width, full_cell, empty_cell, clamp_filled, format_bar, value_line, report_lines,
}

clamp_filled_le : (n : Option ℕ) → clamp_filled n ≤ bar_width
unfolding clamp_filled
clamp_filled_le none = omega arith
clamp_filled_le (some n) = ground arith

-- A bar of any two parts that make up the width.
length-bar :
    (filled : ℕ)
    → filled ≤ bar_width
    → length (replicate filled full_cell ++ replicate (bar_width - filled) empty_cell) ≡ bar_width
length-bar filled h = omega (
  arith,
  length-append {0} (replicate filled full_cell) (replicate (bar_width - filled) empty_cell),
  length-replicate {0} {A = ℕ} filled full_cell,
  length-replicate {0} {A = ℕ} (bar_width - filled) empty_cell,
)

module _ (d : Double) (f : Format d.D) (laws : Laws f) (le : d.D → d.D → Bool)
    (to_int : d.D → Option ℕ) where
  -- A bar has 20 cells, whatever the values.
  pub length-format_bar :
      (value max_val min_val : d.D)
      → length (format_bar d f le to_int value max_val min_val) ≡ bar_width
  unfolding format_bar
  length-format_bar value max_val min_val = elim (Bool-cases (le max_val min_val)) [
    | inl e ↦ rw e refl
    | inr e ↦ rw e (length-bar (clamp_filled _) (clamp_filled_le _))
  ]

  length-value_line :
      (name : List ℕ) (value : d.D) (r : Result d.D)
      → length name ≡ 11
      → length (f.fixed 2 value) ≤ 10
      → length (value_line d f le to_int name value r) ≡ 48
  unfolding value_line
  length-value_line name value r n h =
      simp (length-append, length-format_bar value r.max_us r.min_us)
        (omega (
          arith,
          length-append {0} name (f.right 10 (f.fixed 2 value)),
          laws.length-right 10 (f.fixed 2 value),
        ))

  -- What the frame has room for.
  pub record FitsFrame (label : List ℕ) (r : Result d.D) : Type 0 where
    pub label_fits : length label ≤ 33
    pub count_fits : length (f.number r.count) ≤ 34
    pub values_fit :
        All
          (λ v. length (f.fixed 2 v) ≤ 10)
          (r.min_us ∷ r.max_us ∷ r.mean_us ∷ r.stdev_us ∷ r.p50_us ∷ r.p95_us ∷ r.p99_us ∷ r.p999_us
            ∷ r.p9999_us ∷ [])

  padded_lem :
      (name : List ℕ) (text : List ℕ) (n : ℕ)
      → length text ≤ n
      → length (0x2502 ∷ name ++ f.left n text ++ b' ' ∷ 0x2502 ∷ []) ≡ length name + n + 3
  padded_lem name text n h =
      simp length-append
        (omega (arith, laws.length-left n text, length-append {0} name (f.left n text)))

  length-stdev_line :
      (r : Result d.D)
      → length (f.fixed 2 r.stdev_us) ≤ 10
      → length (
          0x2502 ∷ codes " StdDev  : "
          ++ f.right 10 (f.fixed 2 r.stdev_us)
          ++ codes " us                      "
          ++ 0x2502 ∷ [])
        ≡ 48
  length-stdev_line r h = simp length-append (
      omega (
        arith,
        laws.length-right 10 (f.fixed 2 r.stdev_us),
        length-append {0} (codes " StdDev  : ") (f.right 10 (f.fixed 2 r.stdev_us)),
      ))

  -- Every line of the report takes 48 columns, if its values fit.
  pub report_lines_lem :
      (label : List ℕ) (r : Result d.D)
      → FitsFrame label r
      → All (λ l. length l ≡ 48) (report_lines d f le to_int label r)
  unfolding report_lines
  report_lines_lem label r h =
      let (min_us, (max_us, (mean, (stdev, (p50, (p95, (p99, (p999, (p9999, nothing))))))))) =
        h.values_fit in
      (
        refl,
        (
          padded_lem (b' ' ∷ []) (label ++ codes " Statistics") 44
              (omega (arith, h.label_fits, length-append {0} label (codes " Statistics"))),
          (
            refl,
            (
              padded_lem (codes " Samples : ") (f.number r.count) 34 h.count_fits,
              (
                length-value_line _ r.min_us r refl min_us,
                (
                  length-value_line _ r.max_us r refl max_us,
                  (
                    length-value_line _ r.mean_us r refl mean,
                    (
                      length-stdev_line r stdev,
                      (
                        refl,
                        (
                          length-value_line _ r.p50_us r refl p50,
                          (
                            length-value_line _ r.p95_us r refl p95,
                            (
                              length-value_line _ r.p99_us r refl p99,
                              (
                                length-value_line _ r.p999_us r refl p999,
                                (length-value_line _ r.p9999_us r refl p9999, (refl, tt)),
                              ),
                            ),
                          ),
                        ),
                      ),
                    ),
                  ),
                ),
              ),
            ),
          ),
        ),
      )
