-- ===== src/Timers/Lifetime.antt =====
-- The descriptor of a timer over its life.
use agent_team_test.Prelude.{
  ℕ, ◌≡◌, refl, sym, ap, ◌∙◌, Bool, Option, none, some, List, [], ◌∷◌, ◌++◌, Option-cases, inl, inr,
  Bool-cases,
}
use agent_team_test.Timers.{
  Kernel, TimerHandle, init, initialize, with_descriptor, set_time, timespec_of, set_callback,
  handle_event, read_all, close,
}

abbrev pub held : Option ℕ → List ℕ
held none = []
held (some fd) = fd ∷ []

-- What calls lead to, with the descriptors that were opened and those that were closed, the latest
-- first. `initialize` is called on a handle that holds none.
pub data Reach {App : Type 0} : TimerHandle App → List ℕ → List ℕ → Type 0 where
  fresh : Reach init [] []
  initializes :
      {t : TimerHandle App} {opened closed : List ℕ} (k : Kernel) (n : ℕ) (periodic : Bool)
      → t.timerfd ≡ none
      → Reach t opened closed
      → Reach (initialize k n periodic t).handle (held k.create ++ opened) closed
  sets :
      {t : TimerHandle App} {opened closed : List ℕ} (callback : Option (App → App))
      → Reach t opened closed
      → Reach (set_callback callback t) opened closed
  handles :
      {t : TimerHandle App} {opened closed : List ℕ} (bytes_read : Option ℕ) (app : App)
      → Reach t opened closed
      → Reach (handle_event bytes_read t app).0 opened closed
  closes :
      {t : TimerHandle App} {opened closed : List ℕ}
      → Reach t opened closed
      → Reach (close t).1 opened ((close t).0 ++ closed)

module _ {App : Type 0} where
  timerfd-initialize :
      (k : Kernel) (n : ℕ) (periodic : Bool) (t : TimerHandle App)
      → (initialize k n periodic t).handle.timerfd ≡ k.create
  unfolding initialize with_descriptor set_time
  timerfd-initialize k n periodic t = elim (Option-cases k.create) [
    | inl e ↦ rw e refl
    | inr (fd, e) ↦ elim (Bool-cases (k.settime fd (timespec_of n periodic))) [
      | inl ok ↦ rw (e, ok) refl
      | inr bad ↦ rw (e, bad) refl
    ]
  ]

  timerfd-handle_event :
      (bytes_read : Option ℕ) (t : TimerHandle App) (app : App)
      → (handle_event bytes_read t app).0.timerfd ≡ t.timerfd
  unfolding handle_event
  timerfd-handle_event b t app = elim (Bool-cases (read_all b)) [
    | inl e ↦ rw e refl
    | inr e ↦ rw e refl
  ]

  close_lem : (t : TimerHandle App) → ((close t).0 ≡ held t.timerfd) × ((close t).1.timerfd ≡ none)
  unfolding close
  close_lem t = elim (Option-cases t.timerfd) [
    | inl e ↦ rw e (refl, refl)
    | inr (fd, e) ↦ rw e (refl, refl)
  ]

  -- Over any calls on a new timer that initialise it only while it holds no descriptor, the
  -- descriptors opened are the one it holds and those that were closed: none is closed twice or
  -- forgotten, and after `close`, so after the destructor, all that were opened are closed.
  pub Reach-closes :
      {t : TimerHandle App} {opened closed : List ℕ}
      → Reach t opened closed
      → (opened ≡ held t.timerfd ++ closed) × ((close t).0 ++ closed ≡ opened)
  unfolding init set_callback
  Reach-closes {t} {opened} {closed} r =
      let kept = keeps r in (kept, ap (λ l. l ++ closed) (close_lem t).0 ∙ sym kept)
    where
      keeps :
          {t : TimerHandle App} {opened closed : List ℕ}
          → Reach t opened closed
          → opened ≡ held t.timerfd ++ closed
      keeps fresh = refl
      keeps (initializes {t} {opened} {closed} k n periodic e r) =
          rw (timerfd-initialize k n periodic t)
            (ap (λ l. held k.create ++ l) (keeps r ∙ ap (λ c. held c ++ closed) e))
      keeps (sets callback r) = keeps r
      keeps (handles {t} b app r) = rw (timerfd-handle_event b t app) (keeps r)
      keeps (closes {t} r) = rw ((close_lem t).0, (close_lem t).1) (keeps r)
