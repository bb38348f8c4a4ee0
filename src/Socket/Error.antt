-- ===== src/Socket/Error.antt =====
-- `enum class UdpNodeError` of include/socket/UdpNode.hpp.
pub data UdpNodeError : Type 0 where
  none socket_create_fail bind_fail connect_fail send_fail recv_fail : UdpNodeError
