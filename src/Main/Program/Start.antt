-- ===== src/Main/Program/Start.antt =====
-- When `main` gets to its loop, and what it leaves when it does not.
use agent_team_test.Prelude.{
  ℕ, ◌≡◌, ◌↔◌, refl, sym, ap, ◌∙◌, Bool, true, false, Option, List, [], ◌∷◌, if◌then◌else◌,
  Bool-cases, inl, inr, arith,
}
use mathlib.Core.Path.{subst}
use agent_team_test.Args.{UdpPeerArgs, Parsed, threw, returned, parse_udp_peer_args}
use agent_team_test.Socket
use agent_team_test.Socket.Error.{UdpNodeError}
use agent_team_test.Socket.{UdpNode}
use agent_team_test.Stats.Floating.{Double}
use agent_team_test.Threads.State.{Manager, init, set_rx_callback}
use agent_team_test.Threads.Lifecycle.{Outcome, start}
use agent_team_test.Threads.Owned
use agent_team_test.Threads.Owned.{GivesFresh, start_lem, fresh, sets, started, Reach-threads}
use agent_team_test.Signals
use agent_team_test.Signals.{SignalHandler, register_callback}
use agent_team_test.Format.{Format}
use agent_team_test.Main.Loop.{World, checking}
use agent_team_test.Main.Loop.Stop.{Registers}
use agent_team_test.Main.Loop.Reach.{Reach, begins}
use agent_team_test.Main.Environment.{
  App, Receiver, Environment, Started, exits, throws, runs, exit_failure, no_threads, has_error,
  thread_config, source_address, destination_address, no_args,
}
use agent_team_test.Main.Program.{
  new_manager, make_app, make_machine, with_node, with_args, with_handler, start_program,
}

has_error_iff : (e : UdpNodeError) → (has_error e ≡ false) ↔ (e ≡ UdpNodeError.none)
unfolding has_error
has_error_iff e = ground arith

abbrev pub IsRun : Started → Type 0
IsRun (runs m j) = Unit
IsRun s = ⊥

-- Before the loop `main` fails with no thread left, or the program that runs is before the
-- first test of the flag, with the shutdown callback and its two threads, as calls of the manager's methods leave them. A parse that
-- throws ends it in no way of its own.
abbrev pub IsClean : Started → Type 0
IsClean (exits code j) = (code ≡ exit_failure) × (j.live ≡ []) × (j.misjoined ≡ false)
IsClean throws = Unit
IsClean (runs m j) =
    let manager = m.world.app.shared.manager in
    (m.pc ≡ checking)
    × Registers m.handler
    × Reach m
    × Owned.Reach manager j
    × (j.live ≡ manager.tx_thread ∷ manager.rx_thread ∷ [])
    × (j.misjoined ≡ false)

module _ (d : Double) (f : Format d.D) (inet_pton stoul : List ℕ → Option ℕ) where
  abbrev pub outcome : Environment → UdpNode → Outcome Receiver
  outcome env node =
      start env.threads node thread_config (new_manager d f inet_pton stoul env) no_threads

  with_node-IsRun :
      (env : Environment) (h : SignalHandler (World App)) (node : UdpNode)
      → IsRun (with_node d f inet_pton stoul env h node)
        ↔ ((node.error ≡ UdpNodeError.none) × ((outcome env node).ok ≡ true))
  unfolding with_node
  with_node-IsRun env h node = ground (arith, has_error_iff node.error)

  make_machine-Reach :
      (env : Environment) (h : SignalHandler (World App)) (m : Manager Receiver)
      → Reach (make_machine d f inet_pton stoul env h m)
  unfolding make_machine register_callback
  make_machine-Reach env h m = begins _ _ (record { earlier = h.callbacks; registered = refl })

  with_node-IsClean :
      (env : Environment) (h : SignalHandler (World App)) (node : UdpNode)
      → GivesFresh env.threads
      → IsClean (with_node d f inet_pton stoul env h node)
  unfolding with_node make_machine register_callback make_app new_manager set_rx_callback init
  with_node-IsClean env h node kernel =
      let o = outcome env node in
      let reached : Owned.Reach o.manager o.threads =
        started env.threads node thread_config kernel
          (sets _ (fresh (env.clock 4) env.rx_slots env.tx_slots)) in
      let (joined, live) = Reach-threads o.manager o.threads reached in
      let runs_if_ok =
        (start_lem env.threads node thread_config (new_manager d f inet_pton stoul env) no_threads
          refl).1 in
      elim (Bool-cases (has_error node.error)) [
        | inl bad ↦ rw bad (refl, refl, refl)
        | inr good ↦ elim (Bool-cases o.ok) [
          | inl ok ↦
              rw (good, ok)
                (
                  refl,
                  record { earlier = h.callbacks; registered = refl },
                  make_machine-Reach env h o.manager,
                  reached,
                  live ∙ ap (λ b. if b then two o else []) (runs_if_ok ∙ ok),
                  joined,
                )
          | inr bad ↦
              rw (good, bad)
                (refl, live ∙ ap (λ b. if b then two o else []) (runs_if_ok ∙ bad), joined)
        ]
      ]
    where
      two : Outcome Receiver → List ℕ
      two o = o.manager.tx_thread ∷ o.manager.rx_thread ∷ []

  -- The node that `main` makes of its arguments.
  abbrev pub node_of : Environment → UdpPeerArgs → UdpNode
  node_of env args =
      Socket.initialize env.udp (source_address args) (destination_address args) Socket.init

  with_args-IsClean :
      (env : Environment) (h : SignalHandler (World App)) (parsed : Parsed)
      → GivesFresh env.threads
      → IsClean (with_args d f inet_pton stoul env h parsed)
  unfolding with_args
  with_args-IsClean env h threw kernel = tt
  with_args-IsClean env h (returned true args) kernel =
      with_node-IsClean env h (node_of env args) kernel
  with_args-IsClean env h (returned false args) kernel = (refl, refl, refl)

  -- What it takes to get to the loop, from the arguments on.
  abbrev pub IsReady : Environment → Parsed → Type 0
  IsReady env parsed =
      (args : UdpPeerArgs) × (parsed ≡ returned true args)
      × ((node_of env args).error ≡ UdpNodeError.none)
      × ((outcome env (node_of env args)).ok ≡ true)

  with_args-IsRun :
      (env : Environment) (h : SignalHandler (World App)) (parsed : Parsed)
      → IsRun (with_args d f inet_pton stoul env h parsed) ↔ IsReady env parsed
  unfolding with_args
  with_args-IsRun env h threw = ground arith
  with_args-IsRun env h (returned false args) = ground arith
  with_args-IsRun env h (returned true args) =
      let (to, from) = with_node-IsRun env h (node_of env args) in
      (
        λ r. (args, refl, (to r).0, (to r).1),
        λ (args', e, made, ok). from (
            subst
              (λ a.
                ((node_of env a).error ≡ UdpNodeError.none)
                × ((outcome env (node_of env a)).ok ≡ true))
              (sym (ap args_of e)) (made, ok)),
      )
    where
      args_of : Parsed → UdpPeerArgs
      args_of threw = no_args
      args_of (returned ok a) = a

  with_handler_lem :
      (env : Environment) (int_ok term_ok : Bool)
      → GivesFresh env.threads
      → let s =
          with_handler d f inet_pton stoul env (Signals.initialize int_ok term_ok Signals.init) in
        (IsRun s ↔ (
          (int_ok ≡ true)
          × (term_ok ≡ true)
          × IsReady env (parse_udp_peer_args inet_pton stoul env.argv no_args)))
        × IsClean s
  unfolding with_handler Signals.initialize Signals.init
  with_handler_lem env false term_ok kernel = (ground arith, (refl, refl, refl))
  with_handler_lem env true false kernel = (ground arith, (refl, refl, refl))
  with_handler_lem env true true kernel =
      let (to, from) = with_args-IsRun env handler parsed in
      ((λ r. (refl, refl, to r), λ (a, b, r). from r), with_args-IsClean env handler parsed kernel)
    where
      handler : SignalHandler (World App)
      handler = (Signals.initialize true true Signals.init).1

      parsed : Parsed
      parsed = parse_udp_peer_args inet_pton stoul env.argv no_args

  -- The threads' identifiers that the kernel gives are not 0, and differ. `main` gets to its loop
  -- exactly when both signals get their handler, the arguments are accepted, the socket is set up,
  -- and the threads are started; whether the event loop and the timers were created does not
  -- matter. Then the program is before the first test of the shutdown flag, with the callback that
  -- stops the event loop registered last and its two threads live. If it does not get there and the parse does not throw, it exits with a
  -- failure, and no thread is left.
  pub start_program_lem :
      (env : Environment)
      → GivesFresh env.threads
      → (IsRun (start_program d f inet_pton stoul env) ↔ (
          (env.int_ok ≡ true)
          × (env.term_ok ≡ true)
          × IsReady env (parse_udp_peer_args inet_pton stoul env.argv no_args)))
        × IsClean (start_program d f inet_pton stoul env)
  unfolding start_program
  start_program_lem env kernel = with_handler_lem env env.int_ok env.term_ok kernel
