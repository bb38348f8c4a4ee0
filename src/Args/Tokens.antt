-- ===== src/Args/Tokens.antt =====
-- `parseAddrPort` of src/app/ArgParser.cpp: which tokens are an address and a port, and for which
-- `std::stoul` throws.
use agent_team_test.Prelude.{
  ℕ, ◌≡◌, ◌≢◌, ◌↔◌, ◌⊎◌, refl, ap, ◌∙◌, Bool, true, false, Option, none, some, Option-cases, inl,
  inr, List, [], ◌∷◌, ◌++◌, ◌==◌, All, Bool-cases, ne→==_false, ==_iff, arith,
}
use agent_team_test.Args.{
  AddrPort, malformed, parsed, throws, colon, split_last_colon, read_port, parse_addr_port,
}

pub split-no_colon : (text : List ℕ) → All (λ c. c ≢ colon) text → split_last_colon text ≡ none
unfolding split_last_colon
split-no_colon [] h = refl
split-no_colon (c ∷ cs) h = rw (split-no_colon cs h.1, ne→==_false c colon h.0) refl

pub split-colon :
    (before behind : List ℕ)
    → All (λ c. c ≢ colon) behind
    → split_last_colon (before ++ colon ∷ behind) ≡ some (before, behind)
unfolding split_last_colon
split-colon [] behind h = rw (split-no_colon behind h) refl
split-colon (c ∷ before) behind h = rw (split-colon before behind h) refl

-- What `rfind` finds: no colon, or the last one.
data LastColon (text : List ℕ) : Type 0 where
  whole : All (λ c. c ≢ colon) text → LastColon text
  parts :
      (before behind : List ℕ)
      → text ≡ before ++ colon ∷ behind
      → All (λ c. c ≢ colon) behind
      → LastColon text

LastColon-cons : (c : ℕ) (cs : List ℕ) → LastColon cs → LastColon (c ∷ cs)
LastColon-cons c cs (whole h) = elim (Bool-cases (c == colon)) [
  | inl e ↦ parts [] cs (ap (λ x. x ∷ cs) ((==_iff c colon).0 e)) h
  | inr e ↦ whole (ground (arith, e, ==_iff c colon), h)
]
LastColon-cons c cs (parts before behind e h) = parts (c ∷ before) behind (ap (λ l. c ∷ l) e) h

split_cases : (text : List ℕ) → LastColon text
split_cases [] = whole tt
split_cases (c ∷ cs) = LastColon-cons c cs (split_cases cs)

abbrev pub is_parsed : AddrPort → Bool
is_parsed malformed = false
is_parsed (parsed addr port) = true
is_parsed throws = false

abbrev pub is_throws : AddrPort → Bool
is_throws malformed = false
is_throws (parsed addr port) = false
is_throws throws = true

-- The token is split at its last colon, and `inet_pton` takes the text before it.
pub record HasAddress (inet_pton : List ℕ → Option ℕ) (token behind : List ℕ) : Type 0 where
  pub before : List ℕ
  pub is_token : token ≡ before ++ colon ∷ behind
  pub is_last : All (λ c. c ≢ colon) behind
  pub addr : ℕ
  pub is_addr : inet_pton before ≡ some addr

module _ (inet_pton stoul : List ℕ → Option ℕ) where
  -- The token is an address, a colon and a number: what `stoul` reads behind the last colon.
  abbrev pub IsEndpoint : List ℕ → Type 0
  IsEndpoint token =
      (behind : List ℕ) × HasAddress inet_pton token behind × ((n : ℕ) × (stoul behind ≡ some n))

  -- The token is an address and a colon, but `stoul` reads no number behind it.
  abbrev pub IsBadPort : List ℕ → Type 0
  IsBadPort token = (behind : List ℕ) × HasAddress inet_pton token behind × (stoul behind ≡ none)

  parse-address :
      {token behind : List ℕ} (h : HasAddress inet_pton token behind)
      → parse_addr_port inet_pton stoul token ≡ read_port (some h.addr) (stoul behind)
  unfolding parse_addr_port
  parse-address {token} {behind} h =
      ap (parse_addr_port inet_pton stoul) h.is_token
      ∙ rw (parse_addr_port, split-colon h.before behind h.is_last, h.is_addr) refl

  parse-no_colon :
      (token : List ℕ)
      → All (λ c. c ≢ colon) token
      → parse_addr_port inet_pton stoul token ≡ malformed
  unfolding parse_addr_port
  parse-no_colon token h = rw (parse_addr_port, split-no_colon token h) refl

  parse-bad_address :
      (token before behind : List ℕ)
      → token ≡ before ++ colon ∷ behind
      → All (λ c. c ≢ colon) behind
      → inet_pton before ≡ none
      → parse_addr_port inet_pton stoul token ≡ malformed
  unfolding parse_addr_port read_port
  parse-bad_address token before behind e h bad =
      ap (parse_addr_port inet_pton stoul) e
      ∙ rw (parse_addr_port, split-colon before behind h, bad) refl

  -- A token is malformed, or it has an address.
  token_cases :
      (token : List ℕ)
      → (parse_addr_port inet_pton stoul token ≡ malformed)
        ⊎ ((behind : List ℕ) × HasAddress inet_pton token behind)
  token_cases token = elim (split_cases token) [
    | whole h ↦ inl (parse-no_colon token h)
    | parts before behind e h ↦ elim (Option-cases (inet_pton before)) [
      | inl bad ↦ inl (parse-bad_address token before behind e h bad)
      | inr (addr, good) ↦ inr (
        behind,
        record { before = before; is_token = e; is_last = h; addr = addr; is_addr = good },
      )
    ]
  ]

  pub is_parsed_iff :
      (token : List ℕ)
      → (is_parsed (parse_addr_port inet_pton stoul token) ≡ true) ↔ IsEndpoint token
  unfolding read_port
  is_parsed_iff token = (
    λ ok. elim (token_cases token) [
      | inl bad ↦ absurd (ground (arith, ok, ap is_parsed bad))
      | inr (behind, h) ↦ elim (Option-cases (stoul behind)) [
        | inl e ↦
            absurd
              (ground (arith, ok, ap is_parsed (parse-address h ∙ ap (read_port (some h.addr)) e)))
        | inr (n, e) ↦ (behind, h, (n, e))
      ]
    ],
    λ (behind, h, (n, e)). ap is_parsed (parse-address h ∙ ap (read_port (some h.addr)) e),
  )

  pub is_throws_iff :
      (token : List ℕ)
      → (is_throws (parse_addr_port inet_pton stoul token) ≡ true) ↔ IsBadPort token
  unfolding read_port
  is_throws_iff token = (
    λ bad. elim (token_cases token) [
      | inl e ↦ absurd (ground (arith, bad, ap is_throws e))
      | inr (behind, h) ↦ elim (Option-cases (stoul behind)) [
        | inl e ↦ (behind, h, e)
        | inr (n, e) ↦
            absurd
              (ground (arith, bad, ap is_throws (parse-address h ∙ ap (read_port (some h.addr)) e)))
      ]
    ],
    λ (behind, h, e). ap is_throws (parse-address h ∙ ap (read_port (some h.addr)) e),
  )
