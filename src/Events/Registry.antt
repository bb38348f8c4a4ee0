-- ===== src/Events/Registry.antt =====
-- Which callback a descriptor has after `registerEvent`.
use agent_team_test.Prelude.{
  ℕ, ◌≡◌, ◌≢◌, refl, ap, true, false, some, List, [], ◌∷◌, ◌==◌, ==_iff, ne→==_false, Bool-cases,
  inl, inr, ℕ_discrete,
}
use agent_team_test.Events.Error.{EventLoopError}
use agent_team_test.Events.{
  EventLoop, Control, epoll_ctl, store, find, store_callback, register_event, invoke,
  dispatch_event,
}

module _ {App : Type 0} where
  find-store_same :
      (fd : ℕ) (callback : App → App) (callbacks : List (ℕ × (App → App)))
      → find fd (store fd callback callbacks) ≡ some callback
  unfolding find store
  find-store_same fd callback [] = rw ((==_iff fd fd).1 refl) refl
  find-store_same fd callback ((k, c) ∷ rest) = elim (Bool-cases (fd == k)) [
    | inl e ↦ rw (e, (==_iff fd fd).1 refl) refl
    | inr e ↦ rw (e, e, find-store_same fd callback rest) refl
  ]

  find-store_other :
      (fd other : ℕ) (callback : App → App) (callbacks : List (ℕ × (App → App)))
      → other ≢ fd
      → find other (store fd callback callbacks) ≡ find other callbacks
  unfolding find store
  find-store_other fd other callback [] ne = rw (ne→==_false other fd ne) refl
  find-store_other fd other callback ((k, c) ∷ rest) ne = elim (ℕ_discrete fd k) [
    | yes e ↦
        rw ((==_iff fd k).1 e, ne→==_false other fd ne, ne→==_false other k (rw (← e) ne)) refl
    | no n ↦ rw (ne→==_false fd k n, find-store_other fd other callback rest ne) refl
  ]

  -- If the kernel takes the descriptor, an event on it runs the callback just registered, also
  -- when it had another, events on other descriptors run what they ran before, and the error
  -- stays. If the kernel refuses, every event runs what it ran before, and the error is
  -- `AddEventFail`.
  pub register_event_lem :
      (ctl : Control) (epollfd fd : ℕ) (callback : App → App) (loop : EventLoop App)
      → loop.epollfd ≡ some epollfd
      → let loop' = register_event ctl (some fd) callback loop in
        (ctl epollfd fd ≡ true
          → ((app : App) → dispatch_event loop' fd app ≡ callback app)
            × ((other : ℕ) (app : App)
                → other ≢ fd
                → dispatch_event loop' other app ≡ dispatch_event loop other app)
            × (loop'.error ≡ loop.error))
        × (ctl epollfd fd ≡ false
            → ((other : ℕ) (app : App)
                → dispatch_event loop' other app ≡ dispatch_event loop other app)
              × (loop'.error ≡ EventLoopError.add_event_fail))
  unfolding register_event epoll_ctl store_callback dispatch_event invoke
  register_event_lem ctl epollfd fd callback loop e = (
    λ ok.
        rw (e, ok)
          (
            λ app. ap (λ c. invoke c app) (find-store_same fd callback loop.callbacks),
            λ other app ne.
                ap (λ c. invoke c app) (find-store_other fd other callback loop.callbacks ne),
            refl,
          ),
    λ bad. rw (e, bad) (λ other app. refl, refl),
  )
