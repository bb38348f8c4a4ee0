-- ===== src/Args/Choices.antt =====
-- Which arguments `parseUdpPeerArgs` of src/app/ArgParser.cpp reads: the tokens that follow the two
-- options.
use agent_team_test.Prelude.{
  ℕ, ◌≡◌, ◌≢◌, ◌↔◌, refl, ap₂, ◌∙◌, true, false, List, [], ◌∷◌, ==_iff, ℕ_discrete, codes, arith,
}
use agent_team_test.Args.{src_option, dst_option, same_text}

pub data Choice : Type 0 where
  src : List ℕ → Choice
  dst : List ℕ → Choice

abbrev pub token_of : Choice → List ℕ
token_of (src token) = token
token_of (dst token) = token

pub nil_ne_cons : {x : ℕ} {xs : List ℕ} → [] ≢ x ∷ xs
nil_ne_cons e = ground (arith, e)

pub cons_ne_nil : {x : ℕ} {xs : List ℕ} → x ∷ xs ≢ []
cons_ne_nil e = ground (arith, e)

pub heads_ne : {x y : ℕ} {xs ys : List ℕ} → x ≢ y → x ∷ xs ≢ y ∷ ys
heads_ne n e = ground (arith, n, e)

pub tails_ne : {x y : ℕ} {xs ys : List ℕ} → xs ≢ ys → x ∷ xs ≢ y ∷ ys
tails_ne n e = ground (arith, n, e)

unfoldable pub text_dec : (a b : List ℕ) → Dec (a ≡ b)
unfolding ℕ_discrete
text_dec [] [] = yes refl
text_dec [] (y ∷ ys) = no nil_ne_cons
text_dec (x ∷ xs) [] = no cons_ne_nil
text_dec (x ∷ xs) (y ∷ ys) = elim (ℕ_discrete x y) [
  | yes e ↦ elim (text_dec xs ys) [
    | yes f ↦ yes (ap₂ (λ c cs. c ∷ cs) e f)
    | no n ↦ no (tails_ne n)
  ]
  | no n ↦ no (heads_ne n)
]

-- An option takes the argument behind it, whatever that is; at the end of the arguments, and any
-- other argument, is passed over.
unfoldable pub choices : List (List ℕ) → List Choice
unfolding text_dec
choices [] = []
choices (arg ∷ []) = []
choices (arg ∷ token ∷ argv) = elim (text_dec arg (codes "--src")) [
  | yes e ↦ src token ∷ choices argv
  | no n ↦ elim (text_dec arg (codes "--dst")) [
    | yes e ↦ dst token ∷ choices argv
    | no m ↦ choices (token ∷ argv)
  ]
]

dec_yes {ℓ κ} :
    {P : Type ℓ} {A : Type κ} (d : Dec P) (x y : A) → P → elim d [ yes e ↦ x | no n ↦ y ] ≡ x
dec_yes (yes e) x y p = refl
dec_yes (no n) x y p = absurd (n p)

dec_no {ℓ κ} :
    {P : Type ℓ} {A : Type κ} (d : Dec P) (x y : A) → ¬ P → elim d [ yes e ↦ x | no n ↦ y ] ≡ y
dec_no (yes e) x y p = absurd (p e)
dec_no (no n) x y p = refl

same_text_iff : (a b : List ℕ) → (same_text a b ≡ true) ↔ (a ≡ b)
same_text_iff [] [] = ground arith
same_text_iff [] (y ∷ ys) = ground arith
same_text_iff (x ∷ xs) [] = ground arith
same_text_iff (x ∷ xs) (y ∷ ys) = ground (arith, ==_iff x y, same_text_iff xs ys)

differs : (a b : List ℕ) → same_text a b ≡ false → a ≢ b
differs a b h e = ground (arith, h, (same_text_iff a b).1 e)

module _ (arg token : List ℕ) (argv : List (List ℕ)) where
  pub choices-src :
      same_text arg src_option ≡ true → choices (arg ∷ token ∷ argv) ≡ src token ∷ choices argv
  unfolding choices
  choices-src h = dec_yes (text_dec arg (codes "--src")) _ _ ((same_text_iff arg src_option).0 h)

  not_src :
      same_text arg src_option ≡ false
      → choices (arg ∷ token ∷ argv) ≡ elim (text_dec arg (codes "--dst")) [
        | yes e ↦ dst token ∷ choices argv
        | no m ↦ choices (token ∷ argv)
      ]
  unfolding choices
  not_src h = dec_no (text_dec arg (codes "--src")) _ _ (differs arg src_option h)

  pub choices-dst :
      same_text arg src_option ≡ false
      → same_text arg dst_option ≡ true
      → choices (arg ∷ token ∷ argv) ≡ dst token ∷ choices argv
  choices-dst h g =
      not_src h ∙ dec_yes (text_dec arg (codes "--dst")) _ _ ((same_text_iff arg dst_option).0 g)

  pub choices_skip :
      same_text arg src_option ≡ false
      → same_text arg dst_option ≡ false
      → choices (arg ∷ token ∷ argv) ≡ choices (token ∷ argv)
  choices_skip h g =
      not_src h ∙ dec_no (text_dec arg (codes "--dst")) _ _ (differs arg dst_option g)
