-- ===== src/AppPacket/Error.antt =====
-- `enum class AppPacketError` of include/app/AppPacket.hpp.
pub data AppPacketError : Type 0 where
  none invalid_data_pointer data_too_large buffer_too_small : AppPacketError
  invalid_packet crc_mismatch unstable_communication loss_of_communication : AppPacketError
