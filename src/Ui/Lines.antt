-- ===== src/Ui/Lines.antt =====
-- The texts of the dashboard have no control characters.
use agent_team_test.Prelude.{
  ℕ, ◌-◌, ◌≤◌, Bool-cases, inl, inr, List, [], ◌∷◌, ◌++◌, ◌==◌, replicate, All-append, arith, codes,
}
use agent_team_test.Stats.{Result}
use agent_team_test.Format.{Format, Laws, IsPlain, replicate-IsPlain}
use agent_team_test.Ui.{
  title, title_text, separator_length, separator_text, right_dash, log_label_text, column, row_text,
  column_headers, data_text,
}

append-IsPlain : (a b : List ℕ) → IsPlain a → IsPlain b → IsPlain (a ++ b)
append-IsPlain a b = All-append (λ c. 32 ≤ c) a b

dashes-IsPlain : (n : ℕ) → IsPlain (replicate n b'-')
dashes-IsPlain n = replicate-IsPlain n b'-' (omega arith)

pub title_text-IsPlain : (cols : ℕ) → IsPlain (title_text cols)
unfolding title_text title
title_text-IsPlain cols =
    append-IsPlain title _ (omega arith) (replicate-IsPlain (cols - 22) b' ' (omega arith))

pub separator_text-IsPlain : (cols : ℕ) → IsPlain (separator_text cols)
unfolding separator_text
separator_text-IsPlain cols = (omega arith, dashes-IsPlain (separator_length cols))

pub log_label_text-IsPlain : (cols : ℕ) → IsPlain (log_label_text cols)
unfolding log_label_text
log_label_text-IsPlain cols =
    append-IsPlain (b' ' ∷ replicate 20 b'-' ++ codes " Packet Log  ") _ (omega arith)
      (dashes-IsPlain (right_dash cols))

module _ {D : Type 0} (f : Format D) (laws : Laws f) where
  column-IsPlain : (text : List ℕ) → IsPlain text → IsPlain (column f text)
  unfolding column
  column-IsPlain text h = (omega arith, laws.right-IsPlain 9 text h)

  row_text-IsPlain :
      (label count a b c d e g : List ℕ)
      → IsPlain label
      → IsPlain count
      → IsPlain a × IsPlain b × IsPlain c × IsPlain d × IsPlain e × IsPlain g
      → IsPlain (row_text f label count a b c d e g)
  unfolding row_text
  row_text-IsPlain label count a b c d e g l n h = (
    omega arith,
    append-IsPlain _ (column f g)
        (append-IsPlain _ (column f e)
          (append-IsPlain _ (column f d)
            (append-IsPlain _ (column f c)
              (append-IsPlain _ (column f b)
                (append-IsPlain _ (column f a)
                  (append-IsPlain (f.left 8 label) (f.right 6 count) (laws.left-IsPlain 8 label l)
                    (laws.right-IsPlain 6 count n))
                  (column-IsPlain a h.0))
                (column-IsPlain b h.1))
              (column-IsPlain c h.2))
            (column-IsPlain d h.3))
          (column-IsPlain e h.4))
        (column-IsPlain g h.5),
  )

  pub column_headers-IsPlain : IsPlain (column_headers f)
  unfolding column_headers
  column_headers-IsPlain =
      append-IsPlain _ (codes "  (us)")
        (row_text-IsPlain [] (codes "count") (codes "min") (codes "p50") (codes "p95") (codes "p99")
          (codes "p99.9") (codes "max") tt (omega arith) (omega arith))
        (omega arith)

  pub data_text-IsPlain :
      (label : List ℕ) (r : Result D) → IsPlain label → IsPlain (data_text f label r)
  unfolding data_text
  data_text-IsPlain label r h = elim (Bool-cases (r.count == 0)) [
    | inl e ↦ rw e (row_text-IsPlain label _ _ _ _ _ _ _ h (omega arith) (omega arith))
    | inr e ↦ rw e (
        row_text-IsPlain label _ _ _ _ _ _ _ h (laws.number-IsPlain r.count) (
          laws.fixed-IsPlain 1 _,
          laws.fixed-IsPlain 1 _,
          laws.fixed-IsPlain 1 _,
          laws.fixed-IsPlain 1 _,
          laws.fixed-IsPlain 1 _,
          laws.fixed-IsPlain 1 _,
        ))
  ]
