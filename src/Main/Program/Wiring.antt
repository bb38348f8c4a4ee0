-- ===== src/Main/Program/Wiring.antt =====
-- What the event loop of `main` does when a timer has expired.
use agent_team_test.Prelude.{
  ℕ, ◌≡◌, ◌≢◌, refl, sym, ap, ◌∙◌, true, Option, none, some, List, Bool-cases, inl, inr,
}
use mathlib.Core.Path.{subst}
use agent_team_test.Stats.Floating.{Double}
use agent_team_test.Threads.State.{Manager}
use agent_team_test.Timers
use agent_team_test.Timers.{
  Kernel, TimerHandle, set_callback, with_descriptor, set_time, handle_event, read_all, call,
}
use agent_team_test.Events
use agent_team_test.Events.{
  EventLoop, Control, register_event, epoll_ctl, store_callback, dispatch_event,
}
use agent_team_test.Events.Registry.{register_event_lem}
use agent_team_test.Format.{Format}
use agent_team_test.Main.Environment.{
  App, Shared, Receiver, Environment, tx_interval_ms, comm_monitor_ms, stats_report_interval_ms,
}
use agent_team_test.Main.Program.Served.{Served, Served-HasCallbacks}
use agent_team_test.Main.Program.{
  on_tx_timer, on_comm_monitor, on_stats_report, on_tx_event, on_comm_monitor_event, on_stats_event,
  make_timer, make_app, make_loop,
}

-- The kernel gives every descriptor, three different ones to the timers, and takes them all.
pub record Grants (env : Environment) (tx monitor stats : ℕ) : Type 0 where
  pub epollfd : ℕ
  pub epoll_given : env.epollfd ≡ some epollfd
  pub tx_given : env.tx_timer.create ≡ some tx
  pub monitor_given : env.comm_monitor_timer.create ≡ some monitor
  pub stats_given : env.stats_timer.create ≡ some stats
  pub takes : (fd : ℕ) → env.ctl epollfd fd ≡ true
  pub tx_ne_monitor : tx ≢ monitor
  pub tx_ne_stats : tx ≢ stats
  pub monitor_ne_stats : monitor ≢ stats

set_time-fd :
    {A : Type 0} (k : Kernel) (fd : ℕ) (spec : Timers.Itimerspec) (t : TimerHandle A)
    → (set_time k fd spec t).handle.timerfd ≡ t.timerfd
unfolding set_time
set_time-fd k fd spec t = elim (Bool-cases (k.settime fd spec)) [
  | inl e ↦ rw e refl
  | inr e ↦ rw e refl
]

register_event-epollfd :
    {A : Type 0} (ctl : Control) (fd : Option ℕ) (callback : A → A) (loop : EventLoop A)
    → (register_event ctl fd callback loop).epollfd ≡ loop.epollfd
unfolding register_event store_callback
register_event-epollfd ctl none callback loop =
    elim (Bool-cases (epoll_ctl ctl loop.epollfd none)) [ inl e ↦ rw e refl | inr e ↦ rw e refl ]
register_event-epollfd ctl (some fd) callback loop =
    elim (Bool-cases (epoll_ctl ctl loop.epollfd (some fd))) [
      | inl e ↦ rw e refl
      | inr e ↦ rw e refl
    ]

-- Three registrations that the kernel takes.
module _ {A : Type 0} (ctl : Control) (epollfd a b c : ℕ) (on_a on_b on_c : A → A) where
  abbrev first : Option ℕ → EventLoop A → EventLoop A
  first fd loop = register_event ctl fd on_a loop

  abbrev second : Option ℕ → Option ℕ → EventLoop A → EventLoop A
  second fd fd' loop = register_event ctl fd' on_b (first fd loop)

  abbrev third : Option ℕ → Option ℕ → Option ℕ → EventLoop A → EventLoop A
  third fd fd' fd'' loop = register_event ctl fd'' on_c (second fd fd' loop)

  three_registered :
      (loop : EventLoop A) (x : A) (fd fd' fd'' : Option ℕ)
      → loop.epollfd ≡ some epollfd
      → ((n : ℕ) → ctl epollfd n ≡ true)
      → fd ≡ some a
      → fd' ≡ some b
      → fd'' ≡ some c
      → a ≢ b
      → a ≢ c
      → b ≢ c
      → (dispatch_event (third fd fd' fd'' loop) a x ≡ on_a x)
        × (dispatch_event (third fd fd' fd'' loop) b x ≡ on_b x)
        × (dispatch_event (third fd fd' fd'' loop) c x ≡ on_c x)
  three_registered loop x fd fd' fd'' created takes is_a is_b is_c ab ac bc =
      rw (is_a, is_b, is_c)
        (ofs_c.1 a x ac ∙ ofs_b.1 a x ab ∙ ofs_a.0 x, ofs_c.1 b x bc ∙ ofs_b.0 x, ofs_c.0 x)
    where
      created' : (first (some a) loop).epollfd ≡ some epollfd
      created' = register_event-epollfd ctl (some a) on_a loop ∙ created

      created'' : (second (some a) (some b) loop).epollfd ≡ some epollfd
      created'' = register_event-epollfd ctl (some b) on_b (first (some a) loop) ∙ created'

      Ofs : ℕ → (A → A) → EventLoop A → EventLoop A → Type 0
      Ofs n callback l l' =
          ((y : A) → dispatch_event l' n y ≡ callback y)
          × ((other : ℕ) (y : A) → other ≢ n → dispatch_event l' other y ≡ dispatch_event l other y)
          × (l'.error ≡ l.error)

      ofs_a : Ofs a on_a loop (first (some a) loop)
      ofs_a = (register_event_lem ctl epollfd a on_a loop created).0 (takes a)

      ofs_b : Ofs b on_b (first (some a) loop) (second (some a) (some b) loop)
      ofs_b = (register_event_lem ctl epollfd b on_b (first (some a) loop) created').0 (takes b)

      ofs_c : Ofs c on_c (second (some a) (some b) loop) (third (some a) (some b) (some c) loop)
      ofs_c =
          (register_event_lem ctl epollfd c on_c (second (some a) (some b) loop) created'').0
            (takes c)

-- An expired timer runs its callback.
handle_event_expired :
    {A : Type 0} (t : TimerHandle A) (callback : A → A) (x : A)
    → t.callback ≡ some callback
    → (handle_event (some 8) t x).1 ≡ callback x
unfolding handle_event read_all call
handle_event_expired t callback x e = ap (λ c. call c x) e

module _ (d : Double) (f : Format d.D) (inet_pton stoul : List ℕ → Option ℕ) where
  make_timer-fd :
      (k : Kernel) (interval_ms fd : ℕ) (callback : Shared → Shared)
      → k.create ≡ some fd
      → (make_timer d f inet_pton stoul k interval_ms callback).timerfd ≡ some fd
  unfolding make_timer set_callback Timers.initialize with_descriptor
  make_timer-fd k interval_ms fd callback e =
      subst
        (λ c.
          (with_descriptor {App = Shared} k c
            (Timers.timespec_of (Timers.msec2nsec interval_ms) true) Timers.init).handle.timerfd
          ≡ some fd)
        (sym e) (set_time-fd k fd _ _)

  abbrev pub loop_of : Environment → Manager Receiver → EventLoop App
  loop_of env m = make_loop d f inet_pton stoul env (make_app d f inet_pton stoul env m)

  loop_of-dispatch :
      (env : Environment) (m : Manager Receiver) (tx monitor stats : ℕ) (x : App)
      → Grants env tx monitor stats
      → (dispatch_event (loop_of env m) tx x ≡ on_tx_event d f inet_pton stoul x)
        × (dispatch_event (loop_of env m) monitor x ≡ on_comm_monitor_event d f inet_pton stoul x)
        × (dispatch_event (loop_of env m) stats x ≡ on_stats_event d f inet_pton stoul x)
  unfolding make_loop make_app Events.initialize
  loop_of-dispatch env m tx monitor stats x g =
      three_registered env.ctl g.epollfd tx monitor stats _ _ _
        (Events.initialize env.epollfd 0 Events.init) x _ _ _ (created env.epollfd g.epoll_given)
        g.takes (make_timer-fd env.tx_timer tx_interval_ms tx _ g.tx_given)
        (make_timer-fd env.comm_monitor_timer comm_monitor_ms monitor _ g.monitor_given)
        (make_timer-fd env.stats_timer stats_report_interval_ms stats _ g.stats_given)
        g.tx_ne_monitor g.tx_ne_stats g.monitor_ne_stats
    where
      created :
          (fd : Option ℕ)
          → fd ≡ some g.epollfd
          → (Events.initialize {App = App} fd 0 Events.init).epollfd ≡ some g.epollfd
      created fd e = rw e refl

  read_expired :
      (bytes_read : Option ℕ) (t : TimerHandle Shared) (callback : Shared → Shared) (s : Shared)
      → bytes_read ≡ some 8
      → t.callback ≡ some callback
      → (handle_event bytes_read t s).1 ≡ callback s
  read_expired bytes_read t callback s e c = rw e (handle_event_expired t callback s c)

  -- If the kernel gives the event loop and the timers their descriptors, three different ones to
  -- the timers, and takes their registration: whatever became of the application that `main` made
  -- while its loop ran, if the next `read` gets the count of expirations, an event on the
  -- descriptor of each timer runs the handler that `main` set for it, on the state that the three
  -- share.
  pub timers_run_handlers :
      (env : Environment) (m : Manager Receiver) (tx monitor stats : ℕ) (x : App)
      → Grants env tx monitor stats
      → Served d f inet_pton stoul env m x
      → x.bytes_read ≡ some 8
      → ((dispatch_event (loop_of env m) tx x).shared ≡ on_tx_timer d f inet_pton stoul x.shared)
        × ((dispatch_event (loop_of env m) monitor x).shared
            ≡ on_comm_monitor d f inet_pton stoul x.shared)
        × ((dispatch_event (loop_of env m) stats x).shared
            ≡ on_stats_report d f inet_pton stoul x.shared)
  unfolding on_tx_event on_comm_monitor_event on_stats_event
  timers_run_handlers env m tx monitor stats x g served read =
      let (is_tx, is_monitor, is_stats) = loop_of-dispatch env m tx monitor stats x g in
      let h = Served-HasCallbacks d f inet_pton stoul env m x served in
      (
        ap (λ y. y.shared) is_tx
            ∙ read_expired x.bytes_read x.tx_timer _ x.shared read h.tx_callback,
        ap (λ y. y.shared) is_monitor
            ∙ read_expired x.bytes_read x.comm_monitor_timer _ x.shared read h.monitor_callback,
        ap (λ y. y.shared) is_stats
            ∙ read_expired x.bytes_read x.stats_timer _ x.shared read h.stats_callback,
      )
