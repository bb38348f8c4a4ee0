-- ===== src/Args/Tests.antt =====
-- The argument parser at concrete inputs. The two library functions know a few texts only.
use agent_team_test.Prelude.{
  ℕ, ◌≡◌, refl, true, Option, none, some, List, [], ◌∷◌, ◌++◌, if◌then◌else◌, arith, inl, inr,
}
use agent_team_test.Args.{
  UdpPeerArgs, colon, src_option, dst_option, same_text, parsed, threw, parse_addr_port,
  parse_udp_peer_args,
}
use agent_team_test.Args.Accepts.{accepted, parse_udp_peer_args_lem, parse_addr_port_wraps}
use agent_team_test.Args.Choices.{choices}
use agent_team_test.Args.Tokens.{HasAddress, IsEndpoint}
use agent_team_test.Args.Throws.{parse_udp_peer_args_throws}

abbrev loopback : List ℕ
loopback = b'1' ∷ b'2' ∷ b'7' ∷ b'.' ∷ b'0' ∷ b'.' ∷ b'0' ∷ b'.' ∷ b'1' ∷ []

abbrev inet_pton : List ℕ → Option ℕ
inet_pton text = if same_text text loopback then some 0x7F000001 else none

abbrev port_text : List ℕ
port_text = b'7' ∷ b'0' ∷ b'0' ∷ b'0' ∷ b'0' ∷ []

abbrev stoul : List ℕ → Option ℕ
stoul text = if same_text text port_text then some 70000 else none

abbrev token : List ℕ
token = loopback ++ colon ∷ port_text

abbrev no_args : UdpPeerArgs
no_args = record { src_addr = 0; src_port = 0; dst_addr = 0; dst_port = 0 }

token-HasAddress : HasAddress inet_pton token port_text
token-HasAddress = record {
  before = loopback;
  is_token = refl;
  is_last = omega arith;
  addr = 0x7F000001;
  is_addr = refl;
}

token-IsEndpoint : IsEndpoint inet_pton stoul token
token-IsEndpoint = (port_text, token-HasAddress, (70000, refl))

parse_udp_peer_args_lem_example :
    accepted
      (parse_udp_peer_args inet_pton stoul (dst_option ∷ token ∷ src_option ∷ token ∷ []) no_args)
    ≡ true
unfolding choices
parse_udp_peer_args_lem_example =
    (parse_udp_peer_args_lem inet_pton stoul (dst_option ∷ token ∷ src_option ∷ token ∷ [])
        no_args).1
      ((token-IsEndpoint, (token-IsEndpoint, tt)), refl, refl)

parse_addr_port_wraps_example : parse_addr_port inet_pton stoul token ≡ parsed 0x7F000001 4464
parse_addr_port_wraps_example =
    parse_addr_port_wraps inet_pton stoul loopback port_text 0x7F000001 70000 (omega arith) refl
      refl

-- The port is not a number.
abbrev bad_token : List ℕ
bad_token = loopback ++ colon ∷ b'x' ∷ []

bad_token-HasAddress : HasAddress inet_pton bad_token (b'x' ∷ [])
bad_token-HasAddress = record {
  before = loopback;
  is_token = refl;
  is_last = omega arith;
  addr = 0x7F000001;
  is_addr = refl;
}

-- Behind a malformed source, a destination makes the parse throw.
parse_udp_peer_args_throws_example :
    parse_udp_peer_args inet_pton stoul
      (src_option ∷ loopback ∷ dst_option ∷ bad_token ∷ [])
      no_args
    ≡ threw
unfolding choices
parse_udp_peer_args_throws_example =
    (parse_udp_peer_args_throws inet_pton stoul
        (src_option ∷ loopback ∷ dst_option ∷ bad_token ∷ []) no_args).1
      (inr (inl (b'x' ∷ [], bad_token-HasAddress, refl)))
