-- ===== src/Ring/Queue.antt =====
-- What the ring promises: a first-in first-out queue of byte strings, each of at most
-- `max_packet_size` bytes, and at most `capacity - 1` of them.
use agent_team_test.Prelude.{
  ℕ, ◌+◌, Bool, true, false, Option, none, some, List, [], ◌∷◌, ◌++◌, length, ltb, ◌==◌, ◌||◌,
  if◌then◌else◌,
}

pub data Op : Type 0 where
  put : List ℕ → Op
  get : Op

-- Whether a packet was taken, or the packet that came out.
pub data Reply : Type 0 where
  took : Bool → Reply
  gave : Option (List ℕ) → Reply

abbrev pub Queue : Type 0
Queue = List (List ℕ)

module _ (max_packet_size capacity : ℕ) where
  unfoldable pub step : Op → Queue → Reply × Queue
  step (put bytes) q =
      if ltb max_packet_size (length bytes) || length q + 1 == capacity
      then (took false, q)
      else (took true, q ++ bytes ∷ [])
  step get [] = (gave none, [])
  step get (bytes ∷ q) = (gave (some bytes), q)

  unfoldable pub run : List Op → Queue → List Reply
  run [] q = []
  run (op ∷ ops) q = let (reply, q') = step op q in reply ∷ run ops q'
