-- ===== src/AppPacket/Valid/Keeps.antt =====
-- Every call of an `AppPacket` method keeps the invariant.
use agent_team_test.Prelude.{
  ℕ, zero, suc, ◌+◌, ◌∙◌, if◌then◌else◌, lt→ltb, u64, ◌≤◌, ◌≡◌, refl, ap, Option, none, some, List,
  length, All, IsByte, IsU16, IsU32, arith, drop, All-drop, length-drop, ltb, dec_lt,
}
use agent_team_test.Crc.Detect.{calculate_crc32_word}
use agent_team_test.AppPacket.Error.{AppPacketError}
use agent_team_test.AppPacket.State.{
  AppPacket, init, set_unique_id, set_data_pointer, set_comm_timeout, set_expected_interval,
  reset_comm_monitor,
}
use agent_team_test.AppPacket.Wire.{word16_at, word32_at, header_at}
use agent_team_test.AppPacket.Wire.Words.{word16_at_fits, word32_at_fits}
use agent_team_test.AppPacket.Monitor.{
  check_interval, track_lifesign, update_received_lifesign, out_of_tolerance, lower_bound,
  upper_bound, expected_us,
}
use agent_team_test.AppPacket.Codec.{store_fields, encode, decode}
use agent_team_test.AppPacket.Codec.Image.{body, encode-image}
use agent_team_test.AppPacket.Codec.Decode.{
  length_field, IsSized, IsSized-dec, CrcMatches-dec, received, decode_ok, decode_bad_crc,
  decode_unsized,
}
use agent_team_test.AppPacket.Codec.RoundTrip.{body-bytes}
use agent_team_test.AppPacket.Valid.{PointsAt, IsValid}

-- What the caller owes for a pointer and a length that `setDataPointer` accepts.
abbrev pub Owed : Option (List ℕ) → ℕ → Type 0
Owed none n = Unit {0}
Owed (some bytes) n = (n ≤ length bytes) × All IsByte bytes

-- One call of a method, with arguments of its parameter types and buffers of the size given.
pub data Call (p : AppPacket) : AppPacket → Type 0 where
  sets_id : (id : ℕ) → IsU32 id → Call p (set_unique_id id p)
  sets_data : (d : Option (List ℕ)) (n : ℕ) → Owed d n → Call p (set_data_pointer d n p)
  sets_timeout : (t : ℕ) → IsU32 t → Call p (set_comm_timeout t p)
  sets_interval : (i t : ℕ) → IsU32 i → IsU32 t → Call p (set_expected_interval i t p)
  resets : (now : ℕ) → Call p (reset_comm_monitor now p)
  updates : (now l : ℕ) → IsU16 l → Call p (update_received_lifesign now l p)
  encodes_null : (n : ℕ) → Call p (encode p none n).packet
  encodes : (buffer : List ℕ) (n : ℕ) → n ≤ length buffer → Call p (encode p (some buffer) n).packet
  decodes_null : (now n : ℕ) → Call p (decode now none n p).0
  decodes :
      (now : ℕ) (buffer : List ℕ) (n : ℕ)
      → n ≤ length buffer
      → All IsByte buffer
      → Call p (decode now (some buffer) n p).0

set_data_pointer-IsValid :
    {p : AppPacket} (d : Option (List ℕ)) (n : ℕ)
    → Owed d n
    → IsValid p
    → IsValid (set_data_pointer d n p)
unfolding set_data_pointer
set_data_pointer-IsValid none n h v = ground arith
set_data_pointer-IsValid (some bytes) n h v = ground arith

reset_comm_monitor-IsValid :
    {p : AppPacket} (now : ℕ) → IsValid p → IsValid (reset_comm_monitor now p)
unfolding reset_comm_monitor
reset_comm_monitor-IsValid now v = ground arith

check_interval-IsValid : {p : AppPacket} (now : ℕ) → IsValid p → IsValid (check_interval now p)
unfolding check_interval
check_interval-IsValid now v = ground arith

track_lifesign-IsValid :
    {p : AppPacket} (now l : ℕ) → IsU16 l → IsValid p → IsValid (track_lifesign now l p)
unfolding track_lifesign
track_lifesign-IsValid now l h v = ground arith

update_received_lifesign-IsValid :
    {p : AppPacket} (now l : ℕ) → IsU16 l → IsValid p → IsValid (update_received_lifesign now l p)
unfolding update_received_lifesign
update_received_lifesign-IsValid now l h v =
    track_lifesign-IsValid now l h (check_interval-IsValid now v)

encode-IsValid :
    {p : AppPacket} (buffer : List ℕ) (n : ℕ)
    → n ≤ length buffer
    → IsValid p
    → IsValid (encode p (some buffer) n).packet
encode-IsValid {p} buffer n h v = elim (dec_lt n (12 + p.data_length)) [
  | yes small ↦ rw ((encode-image buffer n v h).0 small) (ground arith)
  | no fits ↦
      rw ((encode-image buffer n v h).1 (omega arith))
        (ground (arith, calculate_crc32_word (body p) (length (body p)) (body-bytes v)))
]

-- The monitor does not read the identifier and the data length.
check_interval_frame :
    (now id n : ℕ) (p : AppPacket)
    → check_interval now (record p { unique_id = id; data_length = n })
      ≡ record (check_interval now p) { unique_id = id; data_length = n }
unfolding check_interval out_of_tolerance lower_bound upper_bound expected_us
check_interval_frame now id n p = ground arith

track_lifesign_frame :
    (now l id n : ℕ) (p : AppPacket)
    → track_lifesign now l (record p { unique_id = id; data_length = n })
      ≡ record (track_lifesign now l p) { unique_id = id; data_length = n }
unfolding track_lifesign
track_lifesign_frame now l id n p = ground arith

update_frame :
    (now l id n : ℕ) (p : AppPacket)
    → update_received_lifesign now l (record p { unique_id = id; data_length = n })
      ≡ record (update_received_lifesign now l p) { unique_id = id; data_length = n }
unfolding update_received_lifesign
update_frame now l id n p =
    ap (track_lifesign now l) (check_interval_frame now id n p)
    ∙ track_lifesign_frame now l id n (check_interval now p)

pub received_lem :
    (now : ℕ) (buffer : List ℕ) (p : AppPacket)
    → received now buffer p ≡ record (update_received_lifesign now (word16_at 4 buffer) p) {
      unique_id = word32_at 0 buffer;
      data_length = length_field buffer;
      data_ptr = if ltb 0 (length_field buffer) then some (drop 8 buffer) else none;
      crc32 = word32_at (u64 (8 + length_field buffer)) buffer;
    }
unfolding store_fields header_at
received_lem now buffer p =
    rw (update_frame now (word16_at 4 buffer) (word32_at 0 buffer) (length_field buffer) p)

points-received :
    (n : ℕ) (buffer : List ℕ)
    → 8 + n ≤ length buffer
    → All IsByte buffer
    → PointsAt (if ltb 0 n then some (drop 8 buffer) else none) n
points-received zero buffer h bytes = refl
points-received (suc n) buffer h bytes =
    rw (lt→ltb 0 (suc n) (omega arith))
      (omega (arith, length-drop 8 buffer), All-drop IsByte 8 buffer bytes)

received-IsValid :
    {p : AppPacket} (now n : ℕ) (buffer : List ℕ) (e : AppPacketError)
    → n ≤ length buffer
    → All IsByte buffer
    → IsSized buffer n
    → IsValid p
    → IsValid (record (received now buffer p) { error = e })
received-IsValid {p} now n buffer e room bytes sized v = rw (received_lem now buffer p) (record {
  id_fits = word32_at_fits 0 buffer bytes;
  lifesign_fits = u.lifesign_fits;
  small = sized.small;
  points = points-received (length_field buffer) buffer (omega arith) bytes;
  crc_fits = word32_at_fits (u64 (8 + length_field buffer)) buffer bytes;
  rx_fits = u.rx_fits;
  rx_prev_fits = u.rx_prev_fits;
  timeout_fits = u.timeout_fits;
  expected_fits = u.expected_fits;
  tolerance_fits = u.tolerance_fits;
  interval_fits = u.interval_fits;
  counter_fits = u.counter_fits;
})
  where
    u : IsValid (update_received_lifesign now (word16_at 4 buffer) p)
    u = update_received_lifesign-IsValid now (word16_at 4 buffer) (word16_at_fits 4 buffer bytes) v

decode-IsValid :
    {p : AppPacket} (now n : ℕ) (buffer : List ℕ)
    → n ≤ length buffer
    → All IsByte buffer
    → IsValid p
    → IsValid (decode now (some buffer) n p).0
decode-IsValid {p} now n buffer room bytes v = elim (IsSized-dec buffer n) [
  | no unsized ↦ let (e, r) = decode_unsized now n buffer p bytes unsized in rw r (ground arith)
  | yes sized ↦ elim (CrcMatches-dec buffer) [
    | yes m ↦
        rw (decode_ok now n buffer p sized m)
          (received-IsValid now n buffer AppPacketError.none room bytes sized v)
    | no m ↦
        rw (decode_bad_crc now n buffer p sized m)
          (received-IsValid now n buffer AppPacketError.crc_mismatch room bytes sized v)
  ]
]

-- Every method call, with arguments of its parameter types and buffers as long as it is told, keeps
-- every field within its width, the data length at most 256, and the data pointer covering it.
pub Call-IsValid : {p q : AppPacket} → Call p q → IsValid p → IsValid q
Call-IsValid (sets_id id h) v = unfold set_unique_id in ground arith
Call-IsValid (sets_data d n h) v = set_data_pointer-IsValid d n h v
Call-IsValid (sets_timeout t h) v = unfold set_comm_timeout in ground arith
Call-IsValid (sets_interval i t h k) v = unfold set_expected_interval in ground arith
Call-IsValid (resets now) v = reset_comm_monitor-IsValid now v
Call-IsValid (updates now l h) v = update_received_lifesign-IsValid now l h v
Call-IsValid (encodes_null n) v = unfold encode in ground arith
Call-IsValid (encodes buffer n h) v = encode-IsValid buffer n h v
Call-IsValid (decodes_null now n) v = unfold decode in ground arith
Call-IsValid (decodes now buffer n h bytes) v = decode-IsValid now n buffer h bytes v

-- The packets that calls reach from a new one.
pub data Reach : AppPacket → Type 0 where
  fresh : (now_change now_recv : ℕ) → Reach (init now_change now_recv)
  then_call : {p q : AppPacket} → Reach p → Call p q → Reach q

pub Reach-IsValid : {p : AppPacket} → Reach p → IsValid p
Reach-IsValid (fresh a b) = omega arith
Reach-IsValid (then_call r c) = Call-IsValid c (Reach-IsValid r)
