-- ===== src/Args/Accepts.antt =====
-- When the command line is accepted, and what becomes of a port.
use agent_team_test.Prelude.{
  ℕ, ◌%◌, ◌^◌, ◌≡◌, ◌≢◌, ◌↔◌, refl, sym, ap, ◌∙◌, Bool, true, false, not, ◌&&◌, ◌||◌, Option, none,
  some, List, [], ◌∷◌, ◌++◌, All, arith, Bool-cases, inl, inr,
}
use agent_team_test.Args.{
  UdpPeerArgs, colon, src_option, dst_option, same_text, AddrPort, malformed, parsed, throws,
  ParseState, Parsed, threw, returned, read_port, parse_addr_port, store_src, store_dst,
  parse_arguments, flags_ok, parse_udp_peer_args,
}
use agent_team_test.Args.Choices.{
  Choice, src, dst, token_of, choices, choices-src, choices-dst, choices_skip,
}
use agent_team_test.Args.Flags.{
  and_iff, iff_refl, flags_of, set_has_src, set_has_dst, set_err_src, set_err_dst, flags_ok_lem,
  dead_src, dead_dst, regroup_src, regroup_dst,
}
use agent_team_test.Args.Tokens.{split-colon, is_parsed, IsEndpoint, is_parsed_iff}

abbrev pub has_src : List Choice → Bool
has_src [] = false
has_src (src token ∷ cs) = true
has_src (dst token ∷ cs) = has_src cs

abbrev pub has_dst : List Choice → Bool
has_dst [] = false
has_dst (src token ∷ cs) = has_dst cs
has_dst (dst token ∷ cs) = true

abbrev pub accepted : Parsed → Bool
accepted threw = false
accepted (returned ok args) = ok

abbrev verdict : Option ParseState → Bool
verdict none = false
verdict (some s) = flags_ok s.flags

accepted-verdict :
    (o : Option ParseState)
    → accepted (elim o [ none ↦ threw | some s ↦ returned (flags_ok s.flags) s.args ]) ≡ verdict o
accepted-verdict none = refl
accepted-verdict (some s) = refl

module _ (inet_pton stoul : List ℕ → Option ℕ) where
  abbrev all_parsed : List Choice → Bool
  all_parsed [] = true
  all_parsed (src token ∷ cs) = is_parsed (parse_addr_port inet_pton stoul token) && all_parsed cs
  all_parsed (dst token ∷ cs) = is_parsed (parse_addr_port inet_pton stoul token) && all_parsed cs

  abbrev expected : List Choice → Bool → Bool → Bool → Bool → Bool
  expected cs s d es ed =
      all_parsed cs && (s || has_src cs) && (d || has_dst cs) && not es && not ed

  abbrev Goes : List (List ℕ) → Type 0
  Goes argv =
      (args : UdpPeerArgs) (s d es ed : Bool)
      → verdict (
          parse_arguments inet_pton stoul argv (record { args = args; flags = flags_of s d es ed }))
        ≡ expected (choices argv) s d es ed

  after_src :
      (r : AddrPort) (argv : List (List ℕ))
      → Goes argv
      → (args : UdpPeerArgs) (s d es ed : Bool)
      → verdict (elim (store_src r (record { args = args; flags = flags_of s d es ed })) [
        | none ↦ none
        | some s' ↦ parse_arguments inet_pton stoul argv s'
      ])
        ≡ (is_parsed r && expected (choices argv) true d es ed)
  unfolding store_src
  after_src malformed argv ih args s d es ed =
      rw (set_err_src s d es ed, ih args s d true ed)
        (dead_src (all_parsed (choices argv)) (s || has_src (choices argv))
          (d || has_dst (choices argv)) (not ed))
  after_src (parsed addr port) argv ih args s d es ed =
      rw (set_has_src s d es ed) (ih _ true d es ed)
  after_src throws argv ih args s d es ed = refl

  after_dst :
      (r : AddrPort) (argv : List (List ℕ))
      → Goes argv
      → (args : UdpPeerArgs) (s d es ed : Bool)
      → verdict (elim (store_dst r (record { args = args; flags = flags_of s d es ed })) [
        | none ↦ none
        | some s' ↦ parse_arguments inet_pton stoul argv s'
      ])
        ≡ (is_parsed r && expected (choices argv) s true es ed)
  unfolding store_dst
  after_dst malformed argv ih args s d es ed =
      rw (set_err_dst s d es ed, ih args s d es true)
        (dead_dst (all_parsed (choices argv)) (s || has_src (choices argv))
          (d || has_dst (choices argv)) (not es))
  after_dst (parsed addr port) argv ih args s d es ed =
      rw (set_has_dst s d es ed) (ih _ s true es ed)
  after_dst throws argv ih args s d es ed = refl

  parse_arguments-Goes : (argv : List (List ℕ)) → Goes argv
  unfolding parse_arguments choices
  parse_arguments-Goes [] args s d es ed = flags_ok_lem s d es ed ∙ ground arith
  parse_arguments-Goes (arg ∷ []) args s d es ed = flags_ok_lem s d es ed ∙ ground arith
  parse_arguments-Goes (arg ∷ token ∷ argv) args s d es ed =
      elim (Bool-cases (same_text arg src_option)) [
        | inl is_src ↦
            rw (verdict, is_src)
              (after_src (parse_addr_port inet_pton stoul token) argv (parse_arguments-Goes argv)
                  args s d es ed
                ∙ regroup_src (is_parsed (parse_addr_port inet_pton stoul token))
                    (all_parsed (choices argv)) s (d || has_dst (choices argv)) es ed
                ∙ same (choices-src arg token argv is_src))
        | inr not_src ↦ elim (Bool-cases (same_text arg dst_option)) [
          | inl is_dst ↦
              rw (verdict, not_src, is_dst)
                (after_dst (parse_addr_port inet_pton stoul token) argv (parse_arguments-Goes argv)
                    args s d es ed
                  ∙ regroup_dst (is_parsed (parse_addr_port inet_pton stoul token))
                      (all_parsed (choices argv)) (s || has_src (choices argv)) d es ed
                  ∙ same (choices-dst arg token argv not_src is_dst))
          | inr neither ↦
              rw (verdict, not_src, neither)
                (parse_arguments-Goes (token ∷ argv) args s d es ed
                  ∙ same (choices_skip arg token argv not_src neither))
        ]
      ]
    where
      same :
          {cs : List Choice}
          → choices (arg ∷ token ∷ argv) ≡ cs
          → expected cs s d es ed ≡ expected (choices (arg ∷ token ∷ argv)) s d es ed
      same e = ap (λ cs. expected cs s d es ed) (sym e)

  all_parsed_iff :
      (cs : List Choice)
      → (all_parsed cs ≡ true) ↔ All (λ c. IsEndpoint inet_pton stoul (token_of c)) cs
  all_parsed_iff [] = (λ h. tt, λ h. refl)
  all_parsed_iff (src token ∷ cs) =
      and_iff (is_parsed_iff inet_pton stoul token) (all_parsed_iff cs)
  all_parsed_iff (dst token ∷ cs) =
      and_iff (is_parsed_iff inet_pton stoul token) (all_parsed_iff cs)

  -- The command line is accepted exactly when `--src` and `--dst` both occur with a token behind
  -- them, and every token behind one of them is an address that `inet_pton` takes, a colon, and
  -- behind the last colon a text that `stoul` reads as a number.
  pub parse_udp_peer_args_lem :
      (argv : List (List ℕ)) (args : UdpPeerArgs)
      → (accepted (parse_udp_peer_args inet_pton stoul argv args) ≡ true) ↔ (
          All (λ c. IsEndpoint inet_pton stoul (token_of c)) (choices argv)
          × (has_src (choices argv) ≡ true)
          × (has_dst (choices argv) ≡ true))
  unfolding parse_udp_peer_args
  parse_udp_peer_args_lem argv args =
      let value : accepted (parse_udp_peer_args inet_pton stoul argv args)
          ≡ (all_parsed (choices argv) && has_src (choices argv) && has_dst (choices argv)) =
        accepted-verdict (parse_arguments inet_pton stoul argv (record { args = args; flags = 0 }))
        ∙ parse_arguments-Goes argv args false false false false
        ∙ ground arith in
      let (to, from) =
        and_iff {c = has_dst (choices argv)}
          (and_iff {c = has_src (choices argv)} (all_parsed_iff (choices argv)) (iff_refl _))
          (iff_refl _) in
      (
        λ ok. let h = to (sym value ∙ ok) in (h.0.0, h.0.1, h.1),
        λ (all, s, d). value ∙ from ((all, s), d),
      )

  -- A token of an address that `inet_pton` takes, a colon and a number that `stoul` reads is
  -- parsed, however large the number is: the port is what is left of it modulo 2^16.
  pub parse_addr_port_wraps :
      (before behind : List ℕ) (addr n : ℕ)
      → All (λ c. c ≢ colon) behind
      → inet_pton before ≡ some addr
      → stoul behind ≡ some n
      → parse_addr_port inet_pton stoul (before ++ colon ∷ behind) ≡ parsed addr (n % 2 ^ 16)
  unfolding parse_addr_port read_port
  parse_addr_port_wraps before behind addr n h a p =
      rw (parse_addr_port, split-colon before behind h, a, p) refl
