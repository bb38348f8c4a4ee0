-- ===== src/Threads/Blank.antt =====
-- Queues of the program's size that hold nothing but zeros, for runs of the model.
use agent_team_test.Prelude.{
  ℕ, zero, suc, ◌≡◌, List, arith, length, length-replicate, replicate, All,
}
use agent_team_test.Ring
use agent_team_test.Ring.{Packet}
use agent_team_test.Threads.State.{max_packet_size, queue_capacity}
use agent_team_test.Threads.Queues.{IsQueue}

abbrev pub zeros : List ℕ
zeros = replicate max_packet_size 0

abbrev blank : Packet
blank = record { length = 0; bytes = zeros }

abbrev pub slots : List Packet
slots = replicate queue_capacity blank

All-replicate {ℓ κ} : {A : Type ℓ} (P : A → Type κ) (n : ℕ) (a : A) → P a → All P (replicate n a)
All-replicate P zero a h = tt
All-replicate P (suc n) a h = (h, All-replicate P n a h)

pub blank-IsQueue : IsQueue (Ring.init max_packet_size queue_capacity slots)
unfolding Ring.init
blank-IsQueue = record {
  slot_count = length-replicate queue_capacity blank;
  write_in = omega arith;
  read_in = omega arith;
  arrays =
      All-replicate (λ s. length s.bytes ≡ max_packet_size) queue_capacity blank
        (length-replicate {A = ℕ} max_packet_size 0);
  lengths = tt;
}
