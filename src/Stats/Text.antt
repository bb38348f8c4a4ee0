-- ===== src/Stats/Text.antt =====
-- How `LatencyStats::Result` prints itself: `toString`, `toCsv`, `csvHeader` and `formatBar`. A
-- text is its characters here, since the frame and the bars are not ASCII.
use agent_team_test.Prelude.{
  ℕ, ◌-◌, Bool, Option, none, some, List, [], ◌∷◌, ◌++◌, replicate, ltb, ◌==◌, if◌then◌else◌, codes,
}
use agent_team_test.Stats.{Result}
use agent_team_test.Stats.Floating.{Double}
use agent_team_test.Format.{Format}

abbrev pub bar_width : ℕ
bar_width = 20

-- The full and the light block.
abbrev pub full_cell : ℕ
full_cell = 0x2588

abbrev pub empty_cell : ℕ
empty_cell = 0x2591

-- `std::clamp(filled, 0, BAR_WIDTH)` of an `int`, where a negative one is `none`.
unfoldable pub clamp_filled : Option ℕ → ℕ
clamp_filled none = 0
clamp_filled (some n) = if ltb bar_width n then bar_width else n

unfoldable pub csv_header : List ℕ
csv_header =
    codes "label,count,min_us,max_us,mean_us,stdev_us,p50_us,p95_us,p99_us,p999_us,p9999_us\n"

-- A horizontal line of the frame, between its corners.
abbrev pub frame : ℕ → ℕ → List ℕ
frame left right = left ∷ replicate 46 0x2500 ++ right ∷ []

-- `le` is `<=`, and `to_int` is `static_cast<int>`, `none` for a negative result.
module _ (d : Double) (f : Format d.D) (le : d.D → d.D → Bool) (to_int : d.D → Option ℕ) where
  open d use {D, literal, sub, mul, div}
  open f use {number, fixed, left, right}

  unfoldable pub format_bar : D → D → D → List ℕ
  format_bar value max_val min_val =
      let filled =
        clamp_filled
          (to_int (mul (div (sub value min_val) (sub max_val min_val)) (literal bar_width 0))) in
      if le max_val min_val
      then replicate bar_width full_cell
      else replicate filled full_cell ++ replicate (bar_width - filled) empty_cell

  -- A line with a value and its bar.
  unfoldable pub value_line : List ℕ → D → Result D → List ℕ
  value_line name value r =
      0x2502 ∷ name
      ++ right 10 (fixed 2 value)
      ++ codes " us "
      ++ format_bar value r.max_us r.min_us
      ++ b' ' ∷ 0x2502 ∷ []

  -- The lines of `toString`, without their line breaks.
  unfoldable pub report_lines : List ℕ → Result D → List (List ℕ)
  report_lines label r =
      frame 0x250C 0x2510
      ∷ (0x2502 ∷ b' ' ∷ left 44 (label ++ codes " Statistics") ++ b' ' ∷ 0x2502 ∷ [])
      ∷ frame 0x251C 0x2524
      ∷ (0x2502 ∷ codes " Samples : " ++ left 34 (number r.count) ++ b' ' ∷ 0x2502 ∷ [])
      ∷ value_line (codes " Min     : ") r.min_us r
      ∷ value_line (codes " Max     : ") r.max_us r
      ∷ value_line (codes " Mean    : ") r.mean_us r
      ∷ (0x2502 ∷ codes " StdDev  : "
          ++ right 10 (fixed 2 r.stdev_us)
          ++ codes " us                      "
          ++ 0x2502 ∷ [])
      ∷ frame 0x251C 0x2524
      ∷ value_line (codes " p50     : ") r.p50_us r
      ∷ value_line (codes " p95     : ") r.p95_us r
      ∷ value_line (codes " p99     : ") r.p99_us r
      ∷ value_line (codes " p99.9   : ") r.p999_us r
      ∷ value_line (codes " p99.99  : ") r.p9999_us r
      ∷ frame 0x2514 0x2518
      ∷ []

  unfoldable pub unlines : List (List ℕ) → List ℕ
  unlines [] = []
  unlines (line ∷ lines) = line ++ b'\n' ∷ unlines lines

  unfoldable pub to_string : List ℕ → Result D → List ℕ
  to_string label r =
      if r.count == 0
      then codes "[" ++ label ++ codes "] No samples collected\n"
      else unlines (report_lines label r)

  -- A comma and a value.
  unfoldable pub csv_field : D → List ℕ
  csv_field value = b',' ∷ fixed 2 value

  unfoldable pub to_csv : List ℕ → Result D → List ℕ
  to_csv label r =
      label
      ++ codes ","
      ++ number r.count
      ++ csv_field r.min_us
      ++ csv_field r.max_us
      ++ csv_field r.mean_us
      ++ csv_field r.stdev_us
      ++ csv_field r.p50_us
      ++ csv_field r.p95_us
      ++ csv_field r.p99_us
      ++ csv_field r.p999_us
      ++ csv_field r.p9999_us
      ++ codes "\n"
