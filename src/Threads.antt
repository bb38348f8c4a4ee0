-- ===== src/Threads.antt =====
-- `class UdpThreadManager` of include/thread/UdpThreadManager.hpp and
-- src/thread/UdpThreadManager.cpp.
pub mod Error
pub mod State
pub mod Loops
pub mod Lifecycle
pub mod Owned
pub mod Queues
pub mod Deliveries
pub mod Receiver
pub mod Sender
pub mod Drain
pub mod Blank
pub mod Shutdown
mod Tests
