-- ===== src/Ring.antt =====
-- `LockFreeRingBuffer<MaxPacketSize, Capacity>` of include/thread/LockFreeRingBuffer.hpp. The
-- functions here are whole calls; `Spsc` has the same code as the steps of two threads.
pub mod Queue
pub mod Window
pub mod Valid
pub mod Refine
pub mod Spsc
mod Tests
use agent_team_test.Prelude.{
  ℕ, ◌+◌, ◌-◌, ◌%◌, Bool, true, false, List, [], ◌++◌, length, get_or, set, take, drop, replicate,
  ltb, leb, ◌==◌, if◌then◌else◌, u16, u64,
}

-- `struct Packet`: the bytes array always has `MaxPacketSize` elements.
pub record Packet : Type 0 where
  pub length : ℕ
  pub bytes : List ℕ

-- What stands for a slot outside the array.
abbrev pub no_packet : Packet
no_packet = record { length = 0; bytes = [] }

pub record Ring : Type 0 where
  pub slots : List Packet
  pub write_idx : ℕ
  pub read_idx : ℕ

-- `memcpy` of bytes to the start of an array.
abbrev pub copy_to : List ℕ → List ℕ → List ℕ
copy_to bytes array = bytes ++ drop (length bytes) array

-- The index behind `i`.
abbrev pub next_index : ℕ → ℕ → ℕ
next_index capacity i = u64 (i + 1) % capacity

-- What `push` stores in the slot that it writes.
unfoldable pub fill_slot : List ℕ → ℕ → Packet → Packet
fill_slot bytes n slot = record { length = u16 n; bytes = copy_to (take n bytes) slot.bytes }

-- What a call of `pop` leaves: its result, the output buffer, `actualLength`, and the ring.
pub record Popped : Type 0 where
  pub ok : Bool
  pub out : List ℕ
  pub actual_length : ℕ
  pub ring : Ring

-- The template parameters.
module _ (max_packet_size capacity : ℕ) where
  unfoldable pub push : List ℕ → ℕ → Ring → Bool × Ring
  push bytes n r =
      if ltb max_packet_size n
      then (false, r)
      else if next_index capacity r.write_idx == r.read_idx
      then (false, r)
      else (
        true,
        record r {
          slots =
              set r.slots r.write_idx (fill_slot bytes n (get_or r.slots r.write_idx no_packet));
          write_idx = next_index capacity r.write_idx;
        },
      )

  unfoldable pub pop : List ℕ → ℕ → ℕ → Ring → Popped
  pop out max_length actual r =
      let slot = get_or r.slots r.read_idx no_packet in
      if r.read_idx == r.write_idx
      then record { ok = false; out = out; actual_length = actual; ring = r }
      else if ltb max_length slot.length
      then record { ok = false; out = out; actual_length = slot.length; ring = r }
      else record {
        ok = true;
        out = copy_to (take slot.length slot.bytes) out;
        actual_length = slot.length;
        ring = record r { read_idx = next_index capacity r.read_idx };
      }

  unfoldable pub size : Ring → ℕ
  size r =
      if leb r.read_idx r.write_idx
      then r.write_idx - r.read_idx
      else u64 (capacity - r.read_idx + r.write_idx)

  unfoldable pub is_empty : Ring → Bool
  is_empty r = r.read_idx == r.write_idx

  unfoldable pub is_full : Ring → Bool
  is_full r = next_index capacity r.write_idx == r.read_idx

  -- The constructor. The array is not initialised: its bytes are those of `slots`.
  unfoldable pub init : List Packet → Ring
  init slots = record { slots = slots; write_idx = 0; read_idx = 0 }
