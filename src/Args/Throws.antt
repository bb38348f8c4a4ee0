-- ===== src/Args/Throws.antt =====
-- When `parseUdpPeerArgs` of src/app/ArgParser.cpp ends in the exception of `std::stoul`.
use agent_team_test.Prelude.{
  ℕ, ◌≡◌, ◌↔◌, ◌⊎◌, refl, sym, ap, ◌∙◌, Bool, true, false, ◌||◌, Option, none, some, List, [], ◌∷◌,
  arith, Bool-cases, inl, inr,
}
use agent_team_test.Args.{
  UdpPeerArgs, src_option, dst_option, same_text, AddrPort, malformed, parsed, throws, ParseState,
  threw, returned, parse_addr_port, store_src, store_dst, parse_arguments, flags_ok,
  parse_udp_peer_args,
}
use agent_team_test.Args.Tokens.{is_throws, IsBadPort, is_throws_iff}
use agent_team_test.Args.Choices.{Choice, token_of, choices, choices-src, choices-dst, choices_skip}

-- One of the tokens has the property.
abbrev pub AnyToken : (List ℕ → Type 0) → List Choice → Type 0
AnyToken P [] = ⊥
AnyToken P (c ∷ cs) = P (token_of c) ⊎ AnyToken P cs

abbrev is_none : Option ParseState → Bool
is_none none = true
is_none (some s) = false

or_iff {ℓ κ} :
    {P : Type ℓ} {Q : Type κ} {b c : Bool}
    → (b ≡ true) ↔ P
    → (c ≡ true) ↔ Q
    → ((b || c) ≡ true) ↔ (P ⊎ Q)
or_iff {b = true} {c = c} p q = ((λ h. inl (p.0 refl)), (λ h. refl))
or_iff {b = false} {c = c} p q =
    (λ h. inr (q.0 h), λ h. elim h [ inl x ↦ absurd (ground (arith, p.1 x)) | inr y ↦ q.1 y ])

module _ (inet_pton stoul : List ℕ → Option ℕ) where
  abbrev any_throws : List Choice → Bool
  any_throws [] = false
  any_throws (c ∷ cs) = is_throws (parse_addr_port inet_pton stoul (token_of c)) || any_throws cs

  any_throws_iff :
      (cs : List Choice) → (any_throws cs ≡ true) ↔ AnyToken (IsBadPort inet_pton stoul) cs
  any_throws_iff [] = ((λ h. absurd (ground (arith, h))), (λ h. absurd h))
  any_throws_iff (c ∷ cs) = or_iff (is_throws_iff inet_pton stoul (token_of c)) (any_throws_iff cs)

  abbrev Ends : List (List ℕ) → Type 0
  Ends argv =
      (s : ParseState)
      → is_none (parse_arguments inet_pton stoul argv s) ≡ any_throws (choices argv)

  after_src :
      (r : AddrPort) (argv : List (List ℕ))
      → Ends argv
      → (s : ParseState)
      → is_none
          (elim (store_src r s) [ none ↦ none | some s' ↦ parse_arguments inet_pton stoul argv s' ])
        ≡ (is_throws r || any_throws (choices argv))
  unfolding store_src
  after_src malformed argv ih s = ih _
  after_src (parsed addr port) argv ih s = ih _
  after_src throws argv ih s = refl

  after_dst :
      (r : AddrPort) (argv : List (List ℕ))
      → Ends argv
      → (s : ParseState)
      → is_none
          (elim (store_dst r s) [ none ↦ none | some s' ↦ parse_arguments inet_pton stoul argv s' ])
        ≡ (is_throws r || any_throws (choices argv))
  unfolding store_dst
  after_dst malformed argv ih s = ih _
  after_dst (parsed addr port) argv ih s = ih _
  after_dst throws argv ih s = refl

  parse_arguments-Ends : (argv : List (List ℕ)) → Ends argv
  unfolding parse_arguments choices
  parse_arguments-Ends [] s = refl
  parse_arguments-Ends (arg ∷ []) s = refl
  parse_arguments-Ends (arg ∷ token ∷ argv) s = elim (Bool-cases (same_text arg src_option)) [
    | inl is_src ↦
        rw (is_none, is_src)
          (after_src (parse_addr_port inet_pton stoul token) argv (parse_arguments-Ends argv) s
            ∙ ap any_throws (sym (choices-src arg token argv is_src)))
    | inr not_src ↦ elim (Bool-cases (same_text arg dst_option)) [
      | inl is_dst ↦
          rw (is_none, not_src, is_dst)
            (after_dst (parse_addr_port inet_pton stoul token) argv (parse_arguments-Ends argv) s
              ∙ ap any_throws (sym (choices-dst arg token argv not_src is_dst)))
      | inr neither ↦
          rw (is_none, not_src, neither)
            (parse_arguments-Ends (token ∷ argv) s
              ∙ ap any_throws (sym (choices_skip arg token argv not_src neither)))
    ]
  ]

  threw_iff :
      (o : Option ParseState)
      → (elim o [ none ↦ threw | some s ↦ returned (flags_ok s.flags) s.args ] ≡ threw)
        ↔ (is_none o ≡ true)
  threw_iff none = ((λ h. refl), (λ h. refl))
  threw_iff (some s) = ((λ h. absurd (ground (arith, h))), (λ h. absurd (ground (arith, h))))

  -- The parse throws, and returns nothing, exactly when one of the tokens behind `--src` or `--dst`
  -- is an address that `inet_pton` takes and a colon, but `stoul` reads no number behind the last
  -- colon; the other arguments, malformed ones included, do not matter.
  pub parse_udp_peer_args_throws :
      (argv : List (List ℕ)) (args : UdpPeerArgs)
      → (parse_udp_peer_args inet_pton stoul argv args ≡ threw)
        ↔ AnyToken (IsBadPort inet_pton stoul) (choices argv)
  unfolding parse_udp_peer_args
  parse_udp_peer_args_throws argv args =
      let start : ParseState = record { args = args; flags = 0 } in
      let ends = parse_arguments-Ends argv start in
      let (to, from) = threw_iff (parse_arguments inet_pton stoul argv start) in
      let (bad, throwing) = any_throws_iff (choices argv) in
      ((λ h. bad (sym ends ∙ to h)), (λ h. from (ends ∙ throwing h)))
