-- ===== src/AppPacket/Tests.antt =====
-- Runs of the packet code, and its theorems at concrete inputs.
use agent_team_test.Prelude.{
  ℕ, ◌+◌, ◌*◌, ◌^◌, ◌≡◌, ◌≢◌, ◌↔◌, refl, true, false, some, List, [], ◌∷◌, ◌++◌, arith, replicate,
  get_or, ap,
}
use agent_team_test.Crc.{calculate_crc32}
use agent_team_test.AppPacket.Error.{AppPacketError}
use agent_team_test.AppPacket.State.{AppPacket, init, set_unique_id}
use agent_team_test.AppPacket.Wire.{word16_at, word32_at, header_bytes, bytes16, bytes32, write_at}
use agent_team_test.AppPacket.Monitor.{
  update_received_lifesign, check_interval, track_lifesign, out_of_tolerance, lower_bound,
  upper_bound, expected_us, is_comm_lost,
}
use agent_team_test.AppPacket.Monitor.Stability.{
  Arrival, receive_all, receive_all_stability, check_interval_wraps,
}
use agent_team_test.AppPacket.Monitor.Lifesign.{is_comm_lost_wraps, decode_bad_crc_counts_as_life}
use agent_team_test.AppPacket.Monitor.Race.{is_comm_lost_overtaken}
use agent_team_test.AppPacket.Codec.{
  encode, decode, total_size, write_packet, packet_header, copy_payload,
}
use agent_team_test.AppPacket.Codec.Layout.{encode_lem}
use agent_team_test.AppPacket.Codec.Decode.{IsSized, CrcMatches, decode_accepts_iff}
use agent_team_test.AppPacket.Codec.RoundTrip.{sent, decode-encode}
use agent_team_test.AppPacket.Codec.Burst.{decode_detects_burst}
use agent_team_test.AppPacket.Valid.{IsValid}
use agent_team_test.AppPacket.Valid.Keeps.{sets_id, encodes, Call-IsValid, fresh, then_call}
use agent_team_test.AppPacket.Valid.Errors.{decode_errors, Reach-never-lost}

-- A sender with the identifier of `main` and three bytes to send, and a fresh receiver.
abbrev tx : AppPacket
tx = record (init 0 0) {
  unique_id = 0x12345678;
  lifesign = 7;
  data_ptr = some (65 ∷ 66 ∷ 67 ∷ []);
  data_length = 3;
}

abbrev rx : AppPacket
rx = init 0 0

abbrev room : List ℕ
room = replicate 20 0

abbrev wire_bytes : List ℕ
wire_bytes = 0x78 ∷ 0x56 ∷ 0x34 ∷ 0x12 ∷ 7 ∷ 0 ∷ 3 ∷ 0 ∷ 65 ∷ 66 ∷ 67 ∷ 217 ∷ 205 ∷ 234 ∷ 8 ∷ []

tx-IsValid : IsValid tx
tx-IsValid = omega arith

sent_bytes : sent tx room 20 ≡ wire_bytes
unfolding encode total_size write_packet packet_header copy_payload write_at header_bytes bytes16
    bytes32 calculate_crc32
sent_bytes = refl

-- The first packet after 100 ms is in time; one 20 ms later is not.
second_late :
    let p = update_received_lifesign 120000000 2 (update_received_lifesign 100000000 1 rx) in
    (p.unstable_counter ≡ 1) × (p.comm_unstable ≡ true) × (p.last_interval_us ≡ 20000)
unfolding update_received_lifesign check_interval track_lifesign out_of_tolerance lower_bound
    upper_bound expected_us
second_late = (refl, refl, refl)

encode_lem_example :
    (encode tx (some room) 10 ≡ record {
      packet = record tx { error = AppPacketError.buffer_too_small };
      buffer = room;
      size = 0;
    })
    × (encode tx (some room) 20 ≡ record {
      packet = record tx { crc32 = 0x08EACDD9; error = AppPacketError.none; lifesign = 8 };
      buffer = wire_bytes ++ replicate 5 0;
      size = 15;
    })
unfolding calculate_crc32
encode_lem_example = (
  (encode_lem room 10 tx-IsValid (omega arith)).0 (omega arith),
  (encode_lem room 20 tx-IsValid (omega arith)).1 (omega arith),
)

decode-encode_example :
    (decode 5 (some (sent tx room 20 ++ 1 ∷ [])) (encode tx (some room) 20).size rx).1 ≡ true
decode-encode_example =
    (decode-encode room (1 ∷ []) 20 5 rx tx-IsValid (omega arith) (omega arith)).0

decode_accepts_iff_example :
    ((decode 5 (some wire_bytes) 15 rx).1 ≡ true) ↔ (IsSized wire_bytes 15 × CrcMatches wire_bytes)
decode_accepts_iff_example = decode_accepts_iff 5 15 wire_bytes rx (omega arith)

abbrev arrivals : List Arrival
arrivals =
    record { time = 100000000; lifesign = 1 }
    ∷ record { time = 300000000; lifesign = 2 }
    ∷ record { time = 500000000; lifesign = 2 }
    ∷ []

-- Two intervals of 200 ms come after one of 100 ms.
receive_all_stability_example : (receive_all arrivals rx).unstable_counter ≡ 2
receive_all_stability_example =
    (receive_all_stability arrivals rx (omega arith) refl refl (omega arith)).0

check_interval_wraps_example :
    (check_interval (100000000 + 1 * (2 ^ 32 * 1000)) rx).comm_unstable
    ≡ (check_interval 100000000 rx).comm_unstable
check_interval_wraps_example = (check_interval_wraps 100000000 1 rx (omega arith)).0

is_comm_lost_wraps_example : is_comm_lost (2 ^ 32 * 1000000 + 5) rx ≡ false
is_comm_lost_wraps_example =
    is_comm_lost_wraps (2 ^ 32 * 1000000 + 5) 1 rx (omega arith) (omega arith) (omega arith)

-- The image with a damaged lifesign.
abbrev damaged : List ℕ
damaged = 0x78 ∷ 0x56 ∷ 0x34 ∷ 0x12 ∷ 9 ∷ 0 ∷ 3 ∷ 0 ∷ 65 ∷ 66 ∷ 67 ∷ 217 ∷ 205 ∷ 234 ∷ 8 ∷ []

damaged-IsSized : IsSized damaged 15
unfolding word16_at
damaged-IsSized = omega arith

damaged-ne-CrcMatches : ¬ CrcMatches damaged
unfolding word16_at word32_at calculate_crc32
damaged-ne-CrcMatches = λ e. omega arith

decode_bad_crc_counts_as_life_example : is_comm_lost 5 (decode 5 (some damaged) 15 rx).0 ≡ false
decode_bad_crc_counts_as_life_example =
    (decode_bad_crc_counts_as_life 5 15 damaged rx damaged-IsSized damaged-ne-CrcMatches
      (unfold word16_at in omega arith) (omega arith)).3

Call-IsValid_example : IsValid (encode tx (some room) 20).packet
Call-IsValid_example = Call-IsValid (encodes room 20 (omega arith)) tx-IsValid

decode_errors_example :
    (decode 5 (some damaged) 15 rx).0.error ≢ AppPacketError.unstable_communication
decode_errors_example = (decode_errors 5 15 (some damaged) rx).1

Reach-never-lost_example :
    (set_unique_id 0x12345678 rx).error ≢ AppPacketError.loss_of_communication
Reach-never-lost_example =
    Reach-never-lost (then_call (fresh 0 0) (sets_id 0x12345678 (omega arith)))

overwritten_ne : ◌≢◌ {A = List ℕ} (1 ∷ 2 ∷ 3 ∷ 4 ∷ []) (67 ∷ 217 ∷ 205 ∷ 234 ∷ [])
overwritten_ne e = omega (arith, ap (λ (l : List ℕ). get_or l 0 0) e)

-- The last byte of the payload and the first three of the footer are damaged.
decode_detects_burst_example :
    (decode 5
      (some (
        ((0x78 ∷ 0x56 ∷ 0x34 ∷ 0x12 ∷ 7 ∷ 0 ∷ 3 ∷ 0 ∷ 65 ∷ 66 ∷ [])
          ++ ((1 ∷ 2 ∷ 3 ∷ 4 ∷ []) ++ (8 ∷ [])))
        ++ (0 ∷ [])))
      (encode tx (some room) 20).size
      rx).1
    ≡ false
unfolding word16_at
decode_detects_burst_example =
    (decode_detects_burst room (0x78 ∷ 0x56 ∷ 0x34 ∷ 0x12 ∷ 7 ∷ 0 ∷ 3 ∷ 0 ∷ 65 ∷ 66 ∷ [])
      (67 ∷ 217 ∷ 205 ∷ 234 ∷ []) (1 ∷ 2 ∷ 3 ∷ 4 ∷ []) (8 ∷ []) (0 ∷ []) 20 5 rx tx-IsValid
      (omega arith) (omega arith) sent_bytes (omega arith) refl (omega arith) (omega arith) refl
      overwritten_ne).0

wire_bytes-IsSized : IsSized wire_bytes 15
unfolding word16_at
wire_bytes-IsSized = omega arith

wire_bytes-CrcMatches : CrcMatches wire_bytes
unfolding word16_at word32_at calculate_crc32
wire_bytes-CrcMatches = refl

-- The packet arrives two milliseconds after the clock was read.
is_comm_lost_overtaken_example :
    ((decode 2000000 (some wire_bytes) 15 rx).1 ≡ true)
    × (is_comm_lost 0 (decode 2000000 (some wire_bytes) 15 rx).0 ≡ true)
is_comm_lost_overtaken_example =
    is_comm_lost_overtaken 0 2000000 15 wire_bytes rx wire_bytes-IsSized wire_bytes-CrcMatches
      (unfold word16_at in omega arith) (omega arith) (omega arith)
