-- ===== src/Socket/Lifetime.antt =====
-- The descriptor of a UDP node over its life.
use agent_team_test.Prelude.{
  ℕ, ◌≡◌, refl, sym, ap, ◌∙◌, Option, none, some, List, [], ◌∷◌, ◌++◌, Option-cases, inl, inr,
  arith,
}
use agent_team_test.Socket.{
  Kernel, Address, UdpNode, Received, datagram, failed, init, initialize, open_socket, attach, send,
  receive, close, destroy,
}

abbrev pub held : Option ℕ → List ℕ
held none = []
held (some fd) = fd ∷ []

-- What calls lead to, with the descriptors that were opened and those that were closed, the latest
-- first. `initialize` is called on a node that holds none.
pub data Reach : UdpNode → List ℕ → List ℕ → Type 0 where
  fresh : Reach init [] []
  initializes :
      {node : UdpNode} {opened closed : List ℕ} (k : Kernel) (src dst : Address)
      → node.sockfd ≡ none
      → Reach node opened closed
      → Reach (initialize k src dst node) (held k.socket ++ opened) closed
  sends :
      {node : UdpNode} {opened closed : List ℕ} (sent : Option ℕ)
      → Reach node opened closed
      → Reach (send sent node) opened closed
  receives :
      {node : UdpNode} {opened closed : List ℕ} (received : Received)
      → Reach node opened closed
      → Reach (receive received node) opened closed
  closes :
      {node : UdpNode} {opened closed : List ℕ}
      → Reach node opened closed
      → Reach (close node).1 opened ((close node).0 ++ closed)

sockfd-initialize :
    (k : Kernel) (src dst : Address) (node : UdpNode)
    → (initialize k src dst node).sockfd ≡ k.socket
unfolding initialize open_socket attach
sockfd-initialize k src dst node = ground arith

sockfd-send : (sent : Option ℕ) (node : UdpNode) → (send sent node).sockfd ≡ node.sockfd
unfolding send
sockfd-send none node = refl
sockfd-send (some n) node = refl

sockfd-receive : (r : Received) (node : UdpNode) → (receive r node).sockfd ≡ node.sockfd
unfolding receive
sockfd-receive (datagram bytes) node = refl
sockfd-receive (failed errno) node = refl

close_lem : (node : UdpNode) → ((close node).0 ≡ held node.sockfd) × ((close node).1.sockfd ≡ none)
unfolding close
close_lem node = elim (Option-cases node.sockfd) [
  | inl e ↦ rw e (refl, refl)
  | inr (fd, e) ↦ rw e (refl, refl)
]

keeps :
    {node : UdpNode} {opened closed : List ℕ}
    → Reach node opened closed
    → opened ≡ held node.sockfd ++ closed
keeps fresh = refl
keeps (initializes {node} {opened} {closed} k src dst e r) =
    rw (sockfd-initialize k src dst node)
      (ap (λ l. held k.socket ++ l) (keeps r ∙ ap (λ c. held c ++ closed) e))
keeps (sends {node} sent r) = rw (sockfd-send sent node) (keeps r)
keeps (receives {node} received r) = rw (sockfd-receive received node) (keeps r)
keeps (closes {node} r) = rw ((close_lem node).0, (close_lem node).1) (keeps r)

-- Over any calls on a new node that initialise it only while it holds no socket, whatever the
-- kernel answers, also where `bind` or `connect` fails: the sockets opened are the one it holds
-- and those that were closed, so none is closed twice or forgotten, and behind the destructor all
-- are closed.
pub Reach-destroyed :
    {node : UdpNode} {opened closed : List ℕ}
    → Reach node opened closed
    → (opened ≡ held node.sockfd ++ closed)
      × ((destroy node).0 ++ closed ≡ opened)
      × ((destroy node).1.sockfd ≡ none)
Reach-destroyed {node} {opened} {closed} r =
    (keeps r, ap (λ l. l ++ closed) (close_lem node).0 ∙ sym (keeps r), (close_lem node).1)
