-- ===== src/AppPacket.antt =====
-- `class AppPacket`: the transmit side (payload, encode) and the receive side (decode, monitor).
-- `Error`, `State`, `Wire`, `Monitor` and `Codec` hold the definitions; the others prove.
pub mod Error
pub mod State
pub mod Wire
pub mod Monitor
pub mod Codec
pub mod Valid
mod Tests
