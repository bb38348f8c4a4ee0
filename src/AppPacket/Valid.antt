-- ===== src/AppPacket/Valid.antt =====
-- The invariant of `class AppPacket`: every field fits its width, the payload fits a packet, and
-- the data pointer covers the data length. Each operation keeps it.
pub mod Keeps
pub mod Errors
use agent_team_test.Prelude.{
  ℕ, ◌≤◌, ◌≡◌, Option, none, some, List, length, All, IsByte, IsU16, IsU32,
}
use agent_team_test.AppPacket.State.{AppPacket, max_data_size}

-- At least `n` bytes lie from the pointer on; a null pointer covers none.
abbrev pub PointsAt : Option (List ℕ) → ℕ → Type 0
PointsAt none n = n ≡ 0
PointsAt (some bytes) n = (n ≤ length bytes) × All IsByte bytes

pub record IsValid (p : AppPacket) : Type 0 where
  pub id_fits : IsU32 p.unique_id
  pub lifesign_fits : IsU16 p.lifesign
  pub small : p.data_length ≤ max_data_size
  pub points : PointsAt p.data_ptr p.data_length
  pub crc_fits : IsU32 p.crc32
  pub rx_fits : IsU16 p.rx_lifesign
  pub rx_prev_fits : IsU16 p.rx_lifesign_prev
  pub timeout_fits : IsU32 p.comm_timeout_ms
  pub expected_fits : IsU32 p.expected_interval_ms
  pub tolerance_fits : IsU32 p.tolerance_us
  pub interval_fits : IsU32 p.last_interval_us
  pub counter_fits : IsU16 p.unstable_counter
