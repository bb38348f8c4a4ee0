-- ===== src/Ui.antt =====
-- `class TerminalUI` of include/stats/TerminalUI.hpp. What is written to the standard output is a
-- list of bytes, returned beside the state. The mutex has no part: each operation is one step.
pub mod Lines
pub mod Screen
pub mod Width
mod Tests
use agent_team_test.Prelude.{
  ℕ, ◌+◌, ◌-◌, Bool, true, false, Option, none, some, List, [], ◌∷◌, ◌++◌, length, replicate, ltb,
  ◌==◌, if◌then◌else◌, codes,
}
use agent_team_test.Stats.{Result}
use agent_team_test.Format.{Format}

abbrev pub header_lines : ℕ
header_lines = 7

pub record TerminalUi : Type 0 where
  pub rows : ℕ
  pub cols : ℕ
  pub initialized : Bool

unfoldable pub init : TerminalUi
init = record { rows = 24; cols = 80; initialized = false }

-- The two bytes that begin a control sequence.
abbrev pub csi : List ℕ
csi = 27 ∷ b'[' ∷ []

unfoldable pub title : List ℕ
title = codes " UDP Latency Dashboard"

-- Line 1 between its control sequences; `pad` stops at 0.
unfoldable pub title_text : ℕ → List ℕ
title_text cols = title ++ replicate (cols - length title) b' '

-- How many dashes line 3 has. The terminal may be narrower than 2 columns, and then gets 10.
unfoldable pub separator_length : ℕ → ℕ
separator_length cols =
    let at_most : ℕ = if ltb 78 (cols - 2) then 78 else cols - 2 in
    if ltb at_most 10 then 10 else at_most

-- How many dashes line 7 has behind its label.
unfoldable pub right_dash : ℕ → ℕ
right_dash cols =
    let at_least : ℕ = if ltb (cols - 20 - 14 - 2) 4 then 4 else cols - 20 - 14 - 2 in
    if ltb 50 at_least then 50 else at_least

unfoldable pub separator_text : ℕ → List ℕ
separator_text cols = b' ' ∷ replicate (separator_length cols) b'-'

unfoldable pub log_label_text : ℕ → List ℕ
log_label_text cols =
    b' ' ∷ replicate 20 b'-' ++ codes " Packet Log  " ++ replicate (right_dash cols) b'-'

-- `log`; the state has no part in it.
unfoldable pub log : List ℕ → List ℕ
log msg = msg

abbrev pub is_initialized : TerminalUi → Bool
is_initialized ui = ui.initialized

module _ {D : Type 0} (f : Format D) where
  open f use {number, fixed, left, right}

  -- `{:>9}` behind a space.
  unfoldable pub column : List ℕ → List ℕ
  column text = b' ' ∷ right 9 text

  -- A row of the dashboard: the label, the count, and six columns.
  unfoldable pub row_text :
      List ℕ → List ℕ → List ℕ → List ℕ → List ℕ → List ℕ → List ℕ → List ℕ → List ℕ
  row_text label count a b c d e g =
      b' ' ∷ left 8 label
      ++ right 6 count
      ++ column a
      ++ column b
      ++ column c
      ++ column d
      ++ column e
      ++ column g

  unfoldable pub column_headers : List ℕ
  column_headers =
      row_text [] (codes "count") (codes "min") (codes "p50") (codes "p95") (codes "p99")
        (codes "p99.9") (codes "max")
      ++ codes "  (us)"

  unfoldable pub data_text : List ℕ → Result D → List ℕ
  data_text label r =
      if r.count == 0
      then row_text label (codes "-") (codes "-") (codes "-") (codes "-") (codes "-") (codes "-")
          (codes "-")
      else row_text label (number r.count) (fixed 1 r.min_us) (fixed 1 r.p50_us) (fixed 1 r.p95_us)
          (fixed 1 r.p99_us) (fixed 1 r.p999_us) (fixed 1 r.max_us)

  unfoldable pub draw_data_row : List ℕ → Result D → List ℕ
  draw_data_row label r = data_text label r ++ csi ++ codes "K\n"

  unfoldable pub draw_dashboard : ℕ → Result D → Result D → Result D → List ℕ
  draw_dashboard cols tx rx interval =
      (csi ++ codes "H")
      ++ (csi ++ codes "1;7m" ++ title_text cols ++ csi ++ codes "0m\n")
      ++ (csi ++ codes "2m" ++ column_headers ++ csi ++ codes "0m" ++ csi ++ codes "K\n")
      ++ (csi ++ codes "2m" ++ separator_text cols ++ csi ++ codes "0m" ++ csi ++ codes "K\n")
      ++ draw_data_row (codes "TX Send") tx
      ++ draw_data_row (codes "RX Proc") rx
      ++ draw_data_row (codes "RX Intv") interval
      ++ (csi ++ codes "2m" ++ log_label_text cols ++ csi ++ codes "0m" ++ csi ++ codes "K")

  -- The answer of `ioctl`: the rows and the columns of the terminal.
  unfoldable pub resize : Option (ℕ × ℕ) → TerminalUi → TerminalUi
  resize none ui = ui
  resize (some (rows, cols)) ui = record ui { rows = rows; cols = cols }

  -- `empty` is the result with all its fields 0.
  unfoldable pub initialize : Option (ℕ × ℕ) → Result D → TerminalUi → TerminalUi × List ℕ
  initialize winsize empty ui =
      let sized = resize winsize ui in
      (
        record sized { initialized = true },
        csi
            ++ codes "2J"
            ++ csi
            ++ codes "H"
            ++ draw_dashboard sized.cols empty empty empty
            ++ (csi ++ number (header_lines + 1) ++ codes ";" ++ number sized.rows ++ codes "r")
            ++ (csi ++ number (header_lines + 1) ++ codes ";1H"),
      )

  unfoldable pub update_stats : Result D → Result D → Result D → TerminalUi → List ℕ
  update_stats tx rx interval ui =
      if ui.initialized
      then csi ++ codes "s" ++ draw_dashboard ui.cols tx rx interval ++ csi ++ codes "u"
      else []

  unfoldable pub shutdown : TerminalUi → TerminalUi × List ℕ
  shutdown ui =
      if ui.initialized
      then (
        record ui { initialized = false },
        csi ++ codes "r" ++ csi ++ number ui.rows ++ codes ";1H\n",
      )
      else (ui, [])

  -- `~TerminalUI`
  abbrev pub destroy : TerminalUi → TerminalUi × List ℕ
  destroy ui = shutdown ui
