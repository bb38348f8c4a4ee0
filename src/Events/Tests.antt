-- ===== src/Events/Tests.antt =====
-- The event loop at concrete answers of the kernel.
use agent_team_test.Prelude.{ℕ, ◌+◌, ◌≡◌, refl, false, some, ltb}
use agent_team_test.Events.Error.{EventLoopError}
use agent_team_test.Events.{
  EventLoop, Control, init, initialize, register_event, epoll_ctl, store_callback, store, find,
  invoke, dispatch_event, stop,
}

-- The kernel takes the descriptors below 8.
abbrev takes_small : Control
takes_small epollfd fd = ltb fd 8

abbrev add_one : ℕ → ℕ
add_one n = n + 1

abbrev add_ten : ℕ → ℕ
add_ten n = n + 10

abbrev created : EventLoop ℕ
created = initialize (some 3) 0 init

abbrev registered : EventLoop ℕ
registered = register_event takes_small (some 5) add_one created

refuses_large :
    (register_event takes_small (some 9) add_one created).error ≡ EventLoopError.add_event_fail
unfolding register_event epoll_ctl store_callback init initialize
refuses_large = refl

ignores_unknown : dispatch_event registered 6 1 ≡ 1
unfolding dispatch_event invoke find register_event epoll_ctl store_callback store init initialize
ignores_unknown = refl

fails_without_epoll :
    (register_event takes_small (some 5) add_one (init {App = ℕ})).error
    ≡ EventLoopError.add_event_fail
unfolding register_event epoll_ctl init
fails_without_epoll = refl

stops : (stop registered).running ≡ false
unfolding stop
stops = refl
