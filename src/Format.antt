-- ===== src/Format.antt =====
-- What the program uses of `std::format`. Its conversions are a parameter; a text is its bytes.
-- `Laws` is what the standard says of them: they print no control characters, and pad a text on one side
-- up to a width.
pub mod Decimal
use agent_team_test.Prelude.{ℕ, zero, suc, ◌-◌, ◌+◌, ◌≡◌, ◌≤◌, List, All, length, replicate}

pub record Format (D : Type 0) : Type 0 where
  -- `{}` of an integer.
  pub number : ℕ → List ℕ
  -- `{:08X}`
  pub hex : ℕ → List ℕ
  -- `{:.nf}`
  pub fixed : ℕ → D → List ℕ
  -- `{:<n}` and `{:>n}` of a text.
  pub left : ℕ → List ℕ → List ℕ
  pub right : ℕ → List ℕ → List ℕ

abbrev pub line_feed : ℕ
line_feed = 10

-- A text without control characters, as the line break and the escape character.
abbrev pub IsPlain : List ℕ → Type 0
IsPlain text = All (λ c. 32 ≤ c) text

pub record Laws {D : Type 0} (f : Format D) : Type 0 where
  pub number-IsPlain : (n : ℕ) → IsPlain (f.number n)
  pub hex-IsPlain : (n : ℕ) → IsPlain (f.hex n)
  pub fixed-IsPlain : (n : ℕ) (x : D) → IsPlain (f.fixed n x)
  pub left-IsPlain : (n : ℕ) (text : List ℕ) → IsPlain text → IsPlain (f.left n text)
  pub right-IsPlain : (n : ℕ) (text : List ℕ) → IsPlain text → IsPlain (f.right n text)
  pub length-left :
      (n : ℕ) (text : List ℕ) → length (f.left n text) ≡ length text + (n - length text)
  pub length-right :
      (n : ℕ) (text : List ℕ) → length (f.right n text) ≡ length text + (n - length text)

pub replicate-IsPlain : (n c : ℕ) → 32 ≤ c → IsPlain (replicate n c)
replicate-IsPlain zero c h = tt
replicate-IsPlain (suc n) c h = (h, replicate-IsPlain n c h)
