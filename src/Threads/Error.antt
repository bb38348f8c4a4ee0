-- ===== src/Threads/Error.antt =====
-- `enum class Error` of include/thread/UdpThreadManager.hpp.
pub data Error : Type 0 where
  none thread_create_fail set_affinity_fail set_scheduler_fail set_socket_buffer_fail : Error
