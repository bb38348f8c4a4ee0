-- ===== src/Ui/Screen.antt =====
-- What a terminal shows of a text that src/include/stats/TerminalUI.hpp prints: its rows, without
-- the control sequences.
use agent_team_test.Prelude.{
  ℕ, ◌≤◌, ◌≡◌, refl, sym, ap, ◌∙◌, List, [], ◌∷◌, ◌++◌, ◌==◌, ◌&&◌, leb, if◌then◌else◌, ne→==_false,
  append_assoc, append-nil, arith, codes, length,
}
use agent_team_test.Stats.{Result}
use agent_team_test.Format.{Format, Laws, IsPlain, line_feed}
use agent_team_test.Ui.{
  csi, title_text, separator_text, log_label_text, column_headers, data_text, draw_data_row,
  draw_dashboard,
}
use agent_team_test.Ui.Lines.{
  title_text-IsPlain, separator_text-IsPlain, log_label_text-IsPlain, column_headers-IsPlain,
  data_text-IsPlain,
}

-- Among characters, behind an escape character, or inside a control sequence.
pub data Mode : Type 0 where
  text escape control : Mode

-- A character in front of the first row.
abbrev pub push : ℕ → List (List ℕ) → List (List ℕ)
push c [] = (c ∷ []) ∷ []
push c (row ∷ more) = (c ∷ row) ∷ more

-- A control sequence ends with a character from `@` to `~`; a line break begins a new row.
unfoldable pub read : Mode → List ℕ → List (List ℕ)
read mode [] = [] ∷ []
read text (c ∷ cs) =
    let more = read text cs in
    let hidden = read escape cs in
    if c == 27 then hidden else if c == line_feed then [] ∷ more else push c more
read escape (c ∷ cs) =
    let sequence = read control cs in
    let more = read text cs in if c == b'[' then sequence else more
read control (c ∷ cs) =
    let sequence = read control cs in
    let more = read text cs in if leb 64 c && leb c 126 then more else sequence

-- The rows that a printed text shows, the cursor movements of `CSI H` aside.
abbrev pub rows : List ℕ → List (List ℕ)
rows = read text

-- A text in front of the first row.
abbrev before : List ℕ → List (List ℕ) → List (List ℕ)
before a [] = a ∷ []
before a (row ∷ more) = (a ++ row) ∷ more

push-before : (c : ℕ) (a : List ℕ) (r : List (List ℕ)) → push c (before a r) ≡ before (c ∷ a) r
push-before c a [] = refl
push-before c a (row ∷ more) = refl

before-nil : (r : List (List ℕ)) → 1 ≤ length r → before [] r ≡ r
before-nil [] h = absurd (omega arith)
before-nil (row ∷ more) h = refl

rows-plain :
    (a : List ℕ)
    → IsPlain a
    → (rest : List ℕ) → 1 ≤ length (rows rest)
    → rows (a ++ rest) ≡ before a (rows rest)
unfolding read
rows-plain [] h rest some = sym (before-nil (rows rest) some)
rows-plain (c ∷ a) h rest some =
    rw (ne→==_false c 27 (omega (arith, h.0)), ne→==_false c line_feed (omega (arith, h.0)))
      (ap (push c) (rows-plain a h.1 rest some) ∙ push-before c a (rows rest))

-- A text whose row ends behind it.
rows-row :
    (a rest : List ℕ) (more : List (List ℕ))
    → IsPlain a
    → rows rest ≡ [] ∷ more
    → rows (a ++ rest) ≡ a ∷ more
rows-row a rest more h e =
    rows-plain a h rest (rw e (omega arith))
    ∙ ap (before a) e
    ∙ ap (λ row. row ∷ more) (append-nil a)

-- The dashboard's control sequences around any seven texts: the terminal shows the texts.
module _ (t h s a b c l : List ℕ) where
  rows-dashboard :
      IsPlain t
      → IsPlain h
      → IsPlain s
      → IsPlain a × IsPlain b × IsPlain c
      → IsPlain l
      → rows (
          (csi ++ codes "H")
          ++ (csi ++ codes "1;7m" ++ t ++ csi ++ codes "0m\n")
          ++ (csi ++ codes "2m" ++ h ++ csi ++ codes "0m" ++ csi ++ codes "K\n")
          ++ (csi ++ codes "2m" ++ s ++ csi ++ codes "0m" ++ csi ++ codes "K\n")
          ++ (a ++ csi ++ codes "K\n")
          ++ (b ++ csi ++ codes "K\n")
          ++ (c ++ csi ++ codes "K\n")
          ++ (csi ++ codes "2m" ++ l ++ csi ++ codes "0m" ++ csi ++ codes "K"))
        ≡ t ∷ h ∷ s ∷ a ∷ b ∷ c ∷ l ∷ []
  unfolding read
  rows-dashboard pt ph ps pabc pl = simp append_assoc (
      rows-row t _ _ pt (
        begin (
          rows-row h _ _ ph (
            begin (
              rows-row s _ _ ps (
                begin (
                  rows-row a _ _ pabc.0 (
                    begin (
                      rows-row b _ _ pabc.1
                        (begin (rows-row c _ _ pabc.2 (begin (rows-row l _ _ pl refl)))))))))))))
    where
      begin : {r r' : List (List ℕ)} → r ≡ r' → [] ∷ r ≡ [] ∷ r'
      begin e = ap (λ r. [] ∷ r) e

module _ {D : Type 0} (f : Format D) (laws : Laws f) where
  -- The rows of the dashboard on the terminal.
  pub draw_dashboard-rows :
      (cols : ℕ) (tx rx interval : Result D)
      → rows (draw_dashboard f cols tx rx interval)
        ≡ title_text cols
          ∷ column_headers f
          ∷ separator_text cols
          ∷ data_text f (codes "TX Send") tx
          ∷ data_text f (codes "RX Proc") rx
          ∷ data_text f (codes "RX Intv") interval
          ∷ log_label_text cols
          ∷ []
  unfolding draw_dashboard draw_data_row
  draw_dashboard-rows cols tx rx interval =
      rows-dashboard (title_text cols) (column_headers f) (separator_text cols)
        (data_text f (codes "TX Send") tx) (data_text f (codes "RX Proc") rx)
        (data_text f (codes "RX Intv") interval) (log_label_text cols) (title_text-IsPlain cols)
        (column_headers-IsPlain f laws) (separator_text-IsPlain cols)
        (
          data_text-IsPlain f laws (codes "TX Send") tx (omega arith),
          data_text-IsPlain f laws (codes "RX Proc") rx (omega arith),
          data_text-IsPlain f laws (codes "RX Intv") interval (omega arith),
        )
        (log_label_text-IsPlain cols)
