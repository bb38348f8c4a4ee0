-- ===== src/Ring/Tests.antt =====
-- Runs of the ring buffer, and its theorems at concrete inputs: slots of 4 bytes, 3 of them.
use agent_team_test.Prelude.{
  ℕ, ◌≤◌, ◌≡◌, ◌≢◌, refl, true, false, none, some, List, [], ◌∷◌, ◌++◌, arith, replicate,
}
use agent_team_test.Ring.{Packet, Ring, push, pop, fill_slot}
use agent_team_test.Ring.Queue
use agent_team_test.Ring.Queue.{Op, put, get, took, gave}
use agent_team_test.Ring.Valid.{FitsParams, IsValid, contents}
use agent_team_test.Ring.Refine.Run.{run, step, run_refines}
use agent_team_test.Ring.Spsc.{
  Producer, Consumer, System, system, write_length, write_bytes, Reach, start, then_step,
  push_loads, push_free, push_sizes, push_copies, push_publishes, pop_loads, pop_ready, pop_sizes,
}
use agent_team_test.Ring.Spsc.Safety.{Reach-fifo, Reach-race_free, Reach-never_stuck}

abbrev blank : Packet
blank = record { length = 0; bytes = 0 ∷ 0 ∷ 0 ∷ 0 ∷ [] }

abbrev slots : List Packet
slots = blank ∷ blank ∷ blank ∷ []

abbrev empty : Ring
empty = record { slots = slots; write_idx = 0; read_idx = 0 }

-- Two packets wait, round the end of the array.
abbrev wrapped : Ring
wrapped = record {
  slots =
      record { length = 2; bytes = 8 ∷ 9 ∷ 0 ∷ 0 ∷ [] }
      ∷ blank
      ∷ record { length = 1; bytes = 7 ∷ 0 ∷ 0 ∷ 0 ∷ [] }
      ∷ [];
  write_idx = 1;
  read_idx = 2;
}

fits_4_3 : FitsParams 4 3
fits_4_3 = omega arith

wrapped-IsValid : IsValid 4 3 wrapped
wrapped-IsValid = record {
  slot_count = refl;
  write_in = omega arith;
  read_in = omega arith;
  arrays = (refl, (refl, (refl, tt)));
  lengths = (omega arith, (omega arith, tt));
}

contents-wrapped : contents 3 wrapped ≡ (7 ∷ []) ∷ (8 ∷ 9 ∷ []) ∷ []
contents-wrapped = refl

abbrev script : List Op
script = put (1 ∷ []) ∷ get ∷ put (2 ∷ []) ∷ put (3 ∷ []) ∷ get ∷ get ∷ get ∷ []

abbrev out : List ℕ
out = replicate 4 0

run-script :
    run 4 3 out script wrapped
    ≡ took false
      ∷ gave (some (7 ∷ []))
      ∷ took true
      ∷ took false
      ∷ gave (some (8 ∷ 9 ∷ []))
      ∷ gave (some (2 ∷ []))
      ∷ gave none
      ∷ []
unfolding run step push pop fill_slot
run-script = refl

run_refines_example : run 4 3 out script wrapped ≡ Queue.run 4 3 script (contents 3 wrapped)
run_refines_example = run_refines fits_4_3 out script wrapped wrapped-IsValid

-- A packet was pushed; the consumer reads its slot while the producer fills the next one.
abbrev first : Ring
first = record (write_bytes 0 (5 ∷ 6 ∷ []) (write_length 0 (5 ∷ 6 ∷ []) empty)) { write_idx = 1 }

abbrev halfway : System
halfway = system first (Producer.free (9 ∷ []) 1) (Consumer.sized 0 2) ((5 ∷ 6 ∷ []) ∷ []) []

Reach-first : Reach 4 3 4 (system first Producer.idle Consumer.idle ((5 ∷ 6 ∷ []) ∷ []) [])
Reach-first =
    then_step
      (then_step
        (then_step
          (then_step
            (then_step (start slots refl (refl, (refl, (refl, tt))))
              (push_loads (5 ∷ 6 ∷ []) empty Consumer.idle [] [] (omega arith)))
            (push_free (5 ∷ 6 ∷ []) 0 empty Consumer.idle [] [] (omega arith)))
          (push_sizes (5 ∷ 6 ∷ []) 0 empty Consumer.idle [] []))
        (push_copies (5 ∷ 6 ∷ []) 0 (write_length 0 (5 ∷ 6 ∷ []) empty) Consumer.idle [] []))
      (push_publishes (5 ∷ 6 ∷ []) 0
        (write_bytes 0 (5 ∷ 6 ∷ []) (write_length 0 (5 ∷ 6 ∷ []) empty)) Consumer.idle [] [])

Reach-halfway : Reach 4 3 4 halfway
Reach-halfway =
    then_step
      (then_step
        (then_step
          (then_step (then_step Reach-first (pop_loads first Producer.idle _ []))
            (pop_ready 0 first Producer.idle _ [] (omega arith)))
          (push_loads (9 ∷ []) first (Consumer.ready 0) _ [] (omega arith)))
        (push_free (9 ∷ []) 1 first (Consumer.ready 0) _ [] (omega arith)))
      (pop_sizes 0 first (Producer.free (9 ∷ []) 1) _ [])

Reach-fifo_example : halfway.sent ≡ halfway.received ++ contents 3 first
Reach-fifo_example = (Reach-fifo fits_4_3 4 halfway Reach-halfway).0

Reach-race_free_example : ◌≢◌ {A = ℕ} 1 0
Reach-race_free_example = (Reach-race_free fits_4_3 4 halfway 1 0 Reach-halfway refl refl).0

Reach-never_stuck_example : 2 ≤ 4
Reach-never_stuck_example =
    Reach-never_stuck fits_4_3 4 halfway 0 2 (omega arith) Reach-halfway refl
