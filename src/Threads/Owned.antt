-- ===== src/Threads/Owned.antt =====
-- Which threads `start` and `stop` leave, over any sequence of them.
use agent_team_test.Prelude.{
  ℕ, ◌%◌, ◌^◌, ◌<◌, ◌≡◌, ◌≢◌, ◌↔◌, refl, sym, ap₂, ◌∙◌, true, false, Option, some, List, [], ◌∷◌,
  arith, if◌then◌else◌, Bool-cases, Option-cases, inl, inr, ==_iff, ne→==_false,
}
use mathlib.Core.Path.{subst}
use agent_team_test.Ring.{Packet}
use agent_team_test.Socket.{UdpNode}
use agent_team_test.Threads.Error.{Error}
use agent_team_test.Threads.State.{Config, Manager, RxCallback, init, set_rx_callback}
use agent_team_test.Threads.Lifecycle.{
  Kernel, Joinable, spawn, has, remove, join, configure_buffers, configure_socket_buffers, start_tx,
  start_rx, start, join_rx, join_tx, stop,
}

-- The threads of a manager: both while it runs, none else.
data Owns {App : Type 0} (m : Manager App) (j : Joinable) : Type 0 where
  running :
      m.running ≡ true
      → m.rx_thread ≢ 0
      → m.tx_thread ≢ 0
      → m.rx_thread ≢ m.tx_thread
      → j.live ≡ m.tx_thread ∷ m.rx_thread ∷ []
      → j.misjoined ≡ false
      → Owns m j
  stopped : m.running ≡ false → j.live ≡ [] → j.misjoined ≡ false → Owns m j

-- The identifiers that the kernel gives are not 0, and those of two live threads differ.
pub record GivesFresh (k : Kernel) : Type 0 where
  pub rx_some : (rx : ℕ) → k.create_rx ≡ some rx → rx ≢ 0
  pub tx_some : (tx : ℕ) → k.create_tx ≡ some tx → tx ≢ 0
  pub differ : (rx tx : ℕ) → k.create_rx ≡ some rx → k.create_tx ≡ some tx → rx ≢ tx

module _ {App : Type 0} where
  start-Owns :
      (k : Kernel) (node : UdpNode) (config : Config) (m : Manager App) (j : Joinable)
      → GivesFresh k
      → Owns m j
      → Owns (start k node config m j).manager (start k node config m j).threads
  unfolding start start_rx start_tx spawn join has remove
  start-Owns k node config m j fresh (running e rx tx d l b) = rw e (running refl rx tx d l b)
  start-Owns k node config m j fresh (stopped e l b) =
      elim (Bool-cases (configure_socket_buffers k node.sockfd config)) [
        | inr bad ↦ rw (e, bad) (stopped refl l b)
        | inl good ↦ elim (Option-cases k.create_rx) [
          | inl no_rx ↦ rw (e, good, no_rx) (stopped refl l b)
          | inr (rx, got_rx) ↦ elim (Option-cases k.create_tx) [
            | inl no_tx ↦ rw (e, good, got_rx, no_tx, (==_iff rx rx).1 refl) (stopped refl l b)
            | inr (tx, got_tx) ↦
                rw (e, good, got_rx, got_tx, l)
                  (running refl (fresh.rx_some rx got_rx) (fresh.tx_some tx got_tx)
                    (fresh.differ rx tx got_rx got_tx) refl b)
          ]
        ]
      ]

  stop-Owns : (m : Manager App) (j : Joinable) → Owns m j → Owns (stop m j).0 (stop m j).1
  unfolding stop join_rx join_tx join has remove
  stop-Owns m j (running e rx tx d l b) =
      rw
        (
          e,
          ne→==_false m.rx_thread 0 rx,
          ne→==_false m.tx_thread 0 tx,
          l,
          ne→==_false m.rx_thread m.tx_thread d,
          (==_iff m.rx_thread m.rx_thread).1 refl,
          (==_iff m.tx_thread m.tx_thread).1 refl,
        )
        (stopped refl refl b)
  stop-Owns m j (stopped e l b) = rw e (stopped refl l b)

-- What calls of `setRxCallback`, `start` and `stop` on a new manager lead to, with anything
-- between them that keeps `m_running` and the two thread identifiers, as the queues and the loops
-- do.
pub data Reach {App : Type 0} : Manager App → Joinable → Type 0 where
  fresh :
      (now : ℕ) (rx_slots tx_slots : List Packet)
      → Reach (init now rx_slots tx_slots) (record { live = []; misjoined = false })
  sets :
      {m : Manager App} {j : Joinable} (callback : Option (RxCallback App))
      → Reach m j
      → Reach (set_rx_callback callback m) j
  works :
      {m m' : Manager App} {j : Joinable}
      → m'.running ≡ m.running
      → m'.rx_thread ≡ m.rx_thread
      → m'.tx_thread ≡ m.tx_thread
      → Reach m j
      → Reach m' j
  started :
      {m : Manager App} {j : Joinable} (k : Kernel) (node : UdpNode) (config : Config)
      → GivesFresh k
      → Reach m j
      → Reach (start k node config m j).manager (start k node config m j).threads
  stops : {m : Manager App} {j : Joinable} → Reach m j → Reach (stop m j).0 (stop m j).1

set_rx_callback-Owns :
    {App : Type 0} (callback : Option (RxCallback App)) (m : Manager App) (j : Joinable)
    → Owns m j
    → Owns (set_rx_callback callback m) j
unfolding set_rx_callback
set_rx_callback-Owns callback m j (running e rx tx d l b) = running e rx tx d l b
set_rx_callback-Owns callback m j (stopped e l b) = stopped e l b

works-Owns :
    {App : Type 0} (m m' : Manager App) (j : Joinable)
    → m'.running ≡ m.running
    → m'.rx_thread ≡ m.rx_thread
    → m'.tx_thread ≡ m.tx_thread
    → Owns m j
    → Owns m' j
works-Owns m m' j same_running same_rx same_tx (running e rx tx d l b) =
    running (same_running ∙ e) (λ z. rx (sym same_rx ∙ z)) (λ z. tx (sym same_tx ∙ z))
      (λ z. d (sym same_rx ∙ z ∙ same_tx)) (l ∙ sym (ap₂ (λ t r. t ∷ r ∷ []) same_tx same_rx)) b
works-Owns m m' j same_running same_rx same_tx (stopped e l b) = stopped (same_running ∙ e) l b

Reach-Owns : {App : Type 0} (m : Manager App) (j : Joinable) → Reach m j → Owns m j
unfolding init
Reach-Owns _ _ (fresh now rx_slots tx_slots) = stopped refl refl refl
Reach-Owns _ _ (sets callback r) = set_rx_callback-Owns callback _ _ (Reach-Owns _ _ r)
Reach-Owns _ _ (works same_running same_rx same_tx r) =
    works-Owns _ _ _ same_running same_rx same_tx (Reach-Owns _ _ r)
Reach-Owns _ _ (started k node config f r) = start-Owns k node config _ _ f (Reach-Owns _ _ r)
Reach-Owns _ _ (stops r) = stop-Owns _ _ (Reach-Owns _ _ r)

-- If the identifiers that the kernel gives are not 0 and those of two live threads differ: however
-- `setRxCallback`, `start`, `stop` and what keeps `m_running` and the identifiers follow each
-- other, and whatever the kernel refuses, no thread is joined that is not there to join, and the
-- threads not joined are the sender and the receiver while the manager runs, and none while it
-- does not.
pub Reach-threads :
    {App : Type 0} (m : Manager App) (j : Joinable)
    → Reach m j
    → (j.misjoined ≡ false) × (j.live ≡ (if m.running then m.tx_thread ∷ m.rx_thread ∷ [] else []))
Reach-threads m j r = owned (Reach-Owns m j r)
  where
    owned :
        Owns m j
        → (j.misjoined ≡ false)
          × (j.live ≡ (if m.running then m.tx_thread ∷ m.rx_thread ∷ [] else []))
    owned (running e rx tx d l b) = (b, rw e l)
    owned (stopped e l b) = (b, rw e l)

-- The node has a socket, and it takes each of the two buffer sizes that is not 0, cut to 32 bits.
pub record TakesBuffers (k : Kernel) (node : UdpNode) (config : Config) : Type 0 where
  pub fd : ℕ
  pub is_open : node.sockfd ≡ some fd
  pub takes_rcvbuf :
      0 < config.rx_buffer_size → k.set_rcvbuf fd (config.rx_buffer_size % 2 ^ 32) ≡ true
  pub takes_sndbuf :
      0 < config.tx_buffer_size → k.set_sndbuf fd (config.tx_buffer_size % 2 ^ 32) ≡ true

configure_buffers_lem :
    (k : Kernel) (fd : ℕ) (config : Config)
    → (configure_buffers k fd config ≡ true) ↔ (
        (0 < config.rx_buffer_size → k.set_rcvbuf fd (config.rx_buffer_size % 2 ^ 32) ≡ true)
        × (0 < config.tx_buffer_size → k.set_sndbuf fd (config.tx_buffer_size % 2 ^ 32) ≡ true))
unfolding configure_buffers
configure_buffers_lem k fd config = ground (
  arith,
  Bool-cases (k.set_rcvbuf fd (config.rx_buffer_size % 2 ^ 32)),
  Bool-cases (k.set_sndbuf fd (config.tx_buffer_size % 2 ^ 32)),
)

configure_socket_buffers_lem :
    (k : Kernel) (node : UdpNode) (config : Config)
    → (configure_socket_buffers k node.sockfd config ≡ true) ↔ TakesBuffers k node config
unfolding configure_socket_buffers
configure_socket_buffers_lem k node config = (
  λ good. elim (Option-cases node.sockfd) [
    | inl closed ↦
        absurd (ground (arith, subst (λ o. configure_socket_buffers k o config ≡ true) closed good))
    | inr (fd, is_open) ↦
        let (rcvbuf, sndbuf) =
          (configure_buffers_lem k fd config).0
            (subst (λ o. configure_socket_buffers k o config ≡ true) is_open good) in
        record { fd = fd; is_open = is_open; takes_rcvbuf = rcvbuf; takes_sndbuf = sndbuf }
  ],
  λ t.
      subst (λ o. configure_socket_buffers k o config ≡ true) (sym t.is_open)
        ((configure_buffers_lem k t.fd config).1 (t.takes_rcvbuf, t.takes_sndbuf)),
)

-- `start` on a manager that does not run succeeds exactly when the node has a socket, the socket
-- takes each of the two buffer sizes that is not 0, cut to 32 bits, and both threads are created;
-- exactly then the manager runs and has no error.
pub start_lem :
    {App : Type 0} (k : Kernel) (node : UdpNode) (config : Config) (m : Manager App) (j : Joinable)
    → m.running ≡ false
    → let o = start k node config m j in
      ((o.ok ≡ true) ↔ (
        TakesBuffers k node config
        × ((rx : ℕ) × (k.create_rx ≡ some rx))
        × ((tx : ℕ) × (k.create_tx ≡ some tx))))
      × (o.manager.running ≡ o.ok)
      × ((o.manager.error ≡ Error.none) ↔ (o.ok ≡ true))
unfolding start start_rx start_tx
start_lem k node config m j h = ground (
  arith,
  configure_socket_buffers_lem k node config,
  Bool-cases (configure_socket_buffers k node.sockfd config),
  Option-cases k.create_rx,
  Option-cases k.create_tx,
)
