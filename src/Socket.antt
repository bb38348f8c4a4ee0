-- ===== src/Socket.antt =====
-- `class UdpNode` of include/socket/UdpNode.hpp and src/socket/UdpNode.cpp. What the kernel
-- answers to a call is an argument; a negative answer is `none`.
pub mod Error
pub mod Lifetime
mod Tests
use agent_team_test.Prelude.{
  ℕ, ◌≡◌, ◌↔◌, refl, Bool, true, false, Option, none, some, List, [], ◌∷◌, length, if◌then◌else◌,
  arith,
}
use Error.{UdpNodeError}

pub record UdpNode : Type 0 where
  pub sockfd : Option ℕ
  pub error : UdpNodeError

-- An IPv4 address and a port, in host byte order.
pub record Address : Type 0 where
  pub addr : ℕ
  pub port : ℕ

-- What the kernel answers while a socket is set up.
pub record Kernel : Type 0 where
  pub socket : Option ℕ
  pub bind : ℕ → Address → Bool
  pub connect : ℕ → Address → Bool

-- The values of `errno` that the receiver tells apart.
pub data Errno : Type 0 where
  eagain ewouldblock eintr econnrefused : Errno
  other : ℕ → Errno

-- What `recvfrom` does: it fills the buffer from its start with these bytes, or it fails.
pub data Received : Type 0 where
  datagram : List ℕ → Received
  failed : Errno → Received

abbrev pub init : UdpNode
init = record { sockfd = none; error = UdpNodeError.none }

-- The part of `initialize` behind the creation of the socket.
unfoldable pub attach : Kernel → ℕ → Address → Address → UdpNode → UdpNode
attach k fd src dst node =
    if k.bind fd src
    then if k.connect fd dst
      then record node { error = UdpNodeError.none }
      else record node { error = UdpNodeError.connect_fail }
    else record node { error = UdpNodeError.bind_fail }

unfoldable pub open_socket : Kernel → Option ℕ → Address → Address → UdpNode → UdpNode
open_socket k none src dst node = record node {
  sockfd = none;
  error = UdpNodeError.socket_create_fail;
}
open_socket k (some fd) src dst node = attach k fd src dst (record node { sockfd = some fd })

unfoldable pub initialize : Kernel → Address → Address → UdpNode → UdpNode
initialize k src dst node = open_socket k k.socket src dst node

-- `sent` is what `sendto` returned.
unfoldable pub send : Option ℕ → UdpNode → UdpNode
send none node = record node { error = UdpNodeError.send_fail }
send (some sent) node = record node { error = UdpNodeError.none }

unfoldable pub receive : Received → UdpNode → UdpNode
receive (datagram bytes) node = record node { error = UdpNodeError.none }
receive (failed errno) node = record node { error = UdpNodeError.recv_fail }

-- The descriptors that it closes, beside the node.
unfoldable pub close : UdpNode → List ℕ × UdpNode
close node = elim node.sockfd [
  | none ↦ ([], node)
  | some fd ↦ (fd ∷ [], record node { sockfd = none })
]

-- `~UdpNode`
abbrev pub destroy : UdpNode → List ℕ × UdpNode
destroy node = close node

abbrev pub get_fd : UdpNode → Option ℕ
get_fd node = node.sockfd

abbrev pub get_error : UdpNode → UdpNodeError
get_error node = node.error

-- `initialize` reports no error exactly when the kernel made a socket, bound it to the source
-- address and connected it to the destination.
pub initialize_lem :
    (k : Kernel) (src dst : Address) (node : UdpNode)
    → let error = (initialize k src dst node).error in
      (error ≡ UdpNodeError.none)
      ↔ ((fd : ℕ) × (k.socket ≡ some fd) × (k.bind fd src ≡ true) × (k.connect fd dst ≡ true))
unfolding initialize open_socket attach
initialize_lem k src dst node = ground arith
