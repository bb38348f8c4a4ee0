-- ===== src/Events.antt =====
-- `class EventLoop` of include/event/EventLoop.hpp and src/event/EventLoop.cpp. What the kernel
-- answers is an argument; a negative descriptor is `none`. A callback changes the state of the
-- application.
pub mod Error
pub mod Registry
mod Tests
use agent_team_test.Prelude.{
  ℕ, Bool, true, false, Option, none, some, List, [], ◌∷◌, ◌==◌, if◌then◌else◌, take,
}
use Error.{EventLoopError}

abbrev pub max_events : ℕ
max_events = 16

-- `m_callbacks` is an association list.
pub record EventLoop (App : Type 0) : Type 0 where
  pub epollfd : Option ℕ
  pub timfd : Option ℕ
  pub running : Bool
  pub callbacks : List (ℕ × (App → App))
  pub error : EventLoopError

-- What `epoll_ctl` answers for two open descriptors. It refuses a negative one.
abbrev pub Control : Type 0
Control = ℕ → ℕ → Bool

unfoldable pub epoll_ctl : Control → Option ℕ → Option ℕ → Bool
epoll_ctl ctl none fd = false
epoll_ctl ctl (some epollfd) none = false
epoll_ctl ctl (some epollfd) (some fd) = ctl epollfd fd

module _ {App : Type 0} where
  unfoldable pub init : EventLoop App
  init = record {
    epollfd = none;
    timfd = none;
    running = false;
    callbacks = [];
    error = EventLoopError.none;
  }

  -- `created` is what `epoll_create1` returned; the interval has no use.
  unfoldable pub initialize : Option ℕ → ℕ → EventLoop App → EventLoop App
  initialize none interval_nsec loop = record loop {
    epollfd = none;
    error = EventLoopError.event_create_fail;
  }
  initialize (some fd) interval_nsec loop = record loop { epollfd = some fd }

  -- `m_callbacks[fd] = callback`
  unfoldable pub store : ℕ → (App → App) → List (ℕ × (App → App)) → List (ℕ × (App → App))
  store fd callback [] = (fd, callback) ∷ []
  store fd callback ((k, c) ∷ rest) =
      let stored = store fd callback rest in
      if fd == k then (fd, callback) ∷ rest else (k, c) ∷ stored

  -- `m_callbacks.find(fd)`
  unfoldable pub find : ℕ → List (ℕ × (App → App)) → Option (App → App)
  find fd [] = none
  find fd ((k, c) ∷ rest) = let found = find fd rest in if fd == k then some c else found

  unfoldable pub store_callback : Option ℕ → (App → App) → EventLoop App → EventLoop App
  store_callback none callback loop = loop
  store_callback (some fd) callback loop = record loop {
    callbacks = store fd callback loop.callbacks;
  }

  unfoldable pub register_event : Control → Option ℕ → (App → App) → EventLoop App → EventLoop App
  register_event ctl fd callback loop =
      if epoll_ctl ctl loop.epollfd fd
      then store_callback fd callback loop
      else record loop { error = EventLoopError.add_event_fail }

  -- One round of the loop over the events.
  unfoldable pub invoke : Option (App → App) → App → App
  invoke none app = app
  invoke (some callback) app = callback app

  unfoldable pub dispatch_event : EventLoop App → ℕ → App → App
  dispatch_event loop fd app = invoke (find fd loop.callbacks) app

  unfoldable pub stop : EventLoop App → EventLoop App
  stop loop = record loop { running = false }
