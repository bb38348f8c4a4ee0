-- ===== src/Args.antt =====
-- `parseAddrPort` and `parseUdpPeerArgs` of src/app/ArgParser.cpp. A text is its character codes.
-- `inet_pton` followed by `ntohl`, and `std::stoul`, are parameters; an exception ends the parse.
pub mod Tokens
pub mod Choices
pub mod Flags
pub mod Accepts
pub mod Throws
mod Tests
use agent_team_test.Prelude.{
  ℕ, Bool, true, false, ◌&&◌, Option, none, some, List, [], ◌∷◌, ◌==◌, if◌then◌else◌, bit_and,
  bit_or, u16,
}

pub record UdpPeerArgs : Type 0 where
  pub src_addr : ℕ
  pub src_port : ℕ
  pub dst_addr : ℕ
  pub dst_port : ℕ

abbrev pub flag_has_src : ℕ
flag_has_src = 1

abbrev pub flag_has_dst : ℕ
flag_has_dst = 2

abbrev pub flag_err_src_fmt : ℕ
flag_err_src_fmt = 4

abbrev pub flag_err_dst_fmt : ℕ
flag_err_dst_fmt = 8

abbrev pub flag_required_mask : ℕ
flag_required_mask = 3

abbrev pub flag_error_mask : ℕ
flag_error_mask = 12

-- ':'
abbrev pub colon : ℕ
colon = b':'

abbrev pub src_option : List ℕ
src_option = b'-' ∷ b'-' ∷ b's' ∷ b'r' ∷ b'c' ∷ []

abbrev pub dst_option : List ℕ
dst_option = b'-' ∷ b'-' ∷ b'd' ∷ b's' ∷ b't' ∷ []

-- `std::strcmp(a, b) == 0`
abbrev pub same_text : List ℕ → List ℕ → Bool
same_text [] [] = true
same_text [] (y ∷ ys) = false
same_text (x ∷ xs) [] = false
same_text (x ∷ xs) (y ∷ ys) = (x == y) && same_text xs ys

-- `token.rfind(':')` with the two substrings around it.
unfoldable pub split_last_colon : List ℕ → Option (List ℕ × List ℕ)
split_last_colon [] = none
split_last_colon (c ∷ cs) = elim (split_last_colon cs) [
  | some (before, behind) ↦ some (c ∷ before, behind)
  | none ↦ if c == colon then some ([], cs) else none
]

-- A call of `parseAddrPort`: it returns `false`, it returns `true` with its results, or it throws.
pub data AddrPort : Type 0 where
  malformed : AddrPort
  parsed : ℕ → ℕ → AddrPort
  throws : AddrPort

pub record ParseState : Type 0 where
  pub args : UdpPeerArgs
  pub flags : ℕ

-- A call of `parseUdpPeerArgs`.
pub data Parsed : Type 0 where
  threw : Parsed
  returned : Bool → UdpPeerArgs → Parsed

unfoldable pub read_port : Option ℕ → Option ℕ → AddrPort
read_port none port = malformed
read_port (some addr) none = throws
read_port (some addr) (some port) = parsed addr (u16 port)

unfoldable pub store_src : AddrPort → ParseState → Option ParseState
store_src malformed s = some (record s { flags = bit_or s.flags flag_err_src_fmt })
store_src (parsed addr port) s = some (record {
  args = record s.args { src_addr = addr; src_port = port };
  flags = bit_or s.flags flag_has_src;
})
store_src throws s = none

unfoldable pub store_dst : AddrPort → ParseState → Option ParseState
store_dst malformed s = some (record s { flags = bit_or s.flags flag_err_dst_fmt })
store_dst (parsed addr port) s = some (record {
  args = record s.args { dst_addr = addr; dst_port = port };
  flags = bit_or s.flags flag_has_dst;
})
store_dst throws s = none

unfoldable pub flags_ok : ℕ → Bool
flags_ok flags =
    (bit_and flags flag_required_mask == flag_required_mask) && (bit_and flags flag_error_mask == 0)

module _ (inet_pton stoul : List ℕ → Option ℕ) where
  unfoldable pub parse_addr_port : List ℕ → AddrPort
  parse_addr_port token = elim (split_last_colon token) [
    | none ↦ malformed
    | some (before, behind) ↦ read_port (inet_pton before) (stoul behind)
  ]

  -- The loop over the arguments behind the program's name.
  unfoldable pub parse_arguments : List (List ℕ) → ParseState → Option ParseState
  parse_arguments [] s = some s
  parse_arguments (arg ∷ []) s = some s
  parse_arguments (arg ∷ token ∷ argv) s = elim (same_text arg src_option) [
    | true ↦ elim (store_src (parse_addr_port token) s) [
      | none ↦ none
      | some s' ↦ parse_arguments argv s'
    ]
    | false ↦ elim (same_text arg dst_option) [
      | true ↦ elim (store_dst (parse_addr_port token) s) [
        | none ↦ none
        | some s' ↦ parse_arguments argv s'
      ]
      | false ↦ parse_arguments (token ∷ argv) s
    ]
  ]

  unfoldable pub parse_udp_peer_args : List (List ℕ) → UdpPeerArgs → Parsed
  parse_udp_peer_args argv args = elim (parse_arguments argv (record { args = args; flags = 0 })) [
    | none ↦ threw
    | some s ↦ returned (flags_ok s.flags) s.args
  ]
