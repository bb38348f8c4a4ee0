-- ===== src/Events/Error.antt =====
-- `enum class EventLoopError` of include/event/EventLoop.hpp.
pub data EventLoopError : Type 0 where
  none event_create_fail add_event_fail remove_event_fail : EventLoopError
