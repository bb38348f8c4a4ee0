-- ===== src/AppPacket/Codec/Decode.antt =====
-- `decode` on each of its branches.
use agent_team_test.Prelude.{
  ℕ, ◌+◌, ◌≤◌, ◌≡◌, ◌↔◌, sym, ap, ◌∙◌, List, true, false, some, All, IsByte, arith, u64,
  ne→==_false, dec_lt, dec_le, ℕ_discrete, ==_iff,
}
use agent_team_test.Crc.{calculate_crc32}
use agent_team_test.AppPacket.Error.{AppPacketError}
use agent_team_test.AppPacket.State.{AppPacket}
use agent_team_test.AppPacket.Wire.{AppPacketHeader, word16_at, word32_at, header_at}
use agent_team_test.AppPacket.Wire.Words.{word16_at_fits}
use agent_team_test.AppPacket.Monitor.Frame.{
  update_received_lifesign-SameCodec, rx_lifesign-update_received_lifesign,
}
use agent_team_test.AppPacket.Codec.{store_fields, check_crc, decode_header, decode}

-- The length field of a received buffer.
abbrev pub length_field : List ℕ → ℕ
length_field buffer = word16_at 6 buffer

-- The sizes that a received buffer must have.
pub record IsSized (buffer : List ℕ) (buffer_size : ℕ) : Type 0 where
  pub frame : 12 ≤ buffer_size
  pub covers : 12 + length_field buffer ≤ buffer_size
  pub small : length_field buffer ≤ 256

-- The stored checksum is that of the header and the payload.
abbrev pub CrcMatches : List ℕ → Type 0
CrcMatches buffer =
    calculate_crc32 buffer (8 + length_field buffer) ≡ word32_at (8 + length_field buffer) buffer

store_fields-data_length :
    (now : ℕ) (h : AppPacketHeader) (buffer : List ℕ) (p : AppPacket)
    → (store_fields now h buffer p).data_length ≡ h.data_length
unfolding store_fields
store_fields-data_length now h buffer p =
    (update_received_lifesign-SameCodec now h.lifesign
      (record p { unique_id = h.unique_id; data_length = h.data_length })).same_length

pub unique_id-store_fields :
    (now : ℕ) (h : AppPacketHeader) (buffer : List ℕ) (p : AppPacket)
    → (store_fields now h buffer p).unique_id ≡ h.unique_id
unfolding store_fields
unique_id-store_fields now h buffer p =
    (update_received_lifesign-SameCodec now h.lifesign
      (record p { unique_id = h.unique_id; data_length = h.data_length })).same_id

pub rx_lifesign-store_fields :
    (now : ℕ) (h : AppPacketHeader) (buffer : List ℕ) (p : AppPacket)
    → (store_fields now h buffer p).rx_lifesign ≡ h.lifesign
unfolding store_fields
rx_lifesign-store_fields now h buffer p =
    rx_lifesign-update_received_lifesign now h.lifesign
      (record p { unique_id = h.unique_id; data_length = h.data_length })

-- Behind the size checks `decode` stores the fields and looks at the checksum.
pub decode_sized :
    (now n : ℕ) (buffer : List ℕ) (p : AppPacket)
    → IsSized buffer n
    → decode now (some buffer) n p ≡ check_crc buffer (store_fields now (header_at buffer) buffer p)
unfolding decode decode_header header_at
decode_sized now n buffer p h = ground arith

-- Before them it only sets the error.
pub decode_unsized :
    (now n : ℕ) (buffer : List ℕ) (p : AppPacket)
    → All IsByte buffer
    → ¬ IsSized buffer n
    → (e : AppPacketError) × (decode now (some buffer) n p ≡ (record p { error = e }, false))
unfolding decode decode_header header_at
decode_unsized now n buffer p bytes h = elim (dec_lt n 12) [
  | yes short ↦ (AppPacketError.invalid_packet, ground arith)
  | no long ↦ elim (dec_lt n (12 + length_field buffer)) [
    | yes cut ↦ (AppPacketError.invalid_packet, ground (arith, word16_at_fits 6 buffer bytes))
    | no whole ↦ elim (dec_lt 256 (length_field buffer)) [
      | yes big ↦ (AppPacketError.data_too_large, ground (arith, word16_at_fits 6 buffer bytes))
      | no small ↦ absurd (h (omega arith))
    ]
  ]
]

crc32-store_fields :
    (now : ℕ) (h : AppPacketHeader) (buffer : List ℕ) (p : AppPacket)
    → h.data_length ≤ 256
    → (store_fields now h buffer p).crc32 ≡ word32_at (8 + h.data_length) buffer
unfolding store_fields
crc32-store_fields now h buffer p small = ap (λ k. word32_at k buffer) (omega arith)

-- With a matching checksum the packet is accepted, and otherwise it is refused.
pub check_crc_ok :
    (buffer : List ℕ) (q : AppPacket)
    → length_field buffer ≤ 256
    → q.data_length ≡ length_field buffer
    → q.crc32 ≡ word32_at (8 + length_field buffer) buffer
    → CrcMatches buffer
    → check_crc buffer q ≡ (record q { error = AppPacketError.none }, true)
unfolding check_crc
check_crc_ok buffer q small l c m = rw ((==_iff _ _).1 same)
  where
    offset : u64 (8 + q.data_length) ≡ 8 + length_field buffer
    offset = omega arith

    same : calculate_crc32 buffer (u64 (8 + q.data_length)) ≡ q.crc32
    same = ap (calculate_crc32 buffer) offset ∙ m ∙ sym c

pub check_crc_bad :
    (buffer : List ℕ) (q : AppPacket)
    → length_field buffer ≤ 256
    → q.data_length ≡ length_field buffer
    → q.crc32 ≡ word32_at (8 + length_field buffer) buffer
    → ¬ CrcMatches buffer
    → check_crc buffer q ≡ (record q { error = AppPacketError.crc_mismatch }, false)
unfolding check_crc
check_crc_bad buffer q small l c m =
    rw (ne→==_false _ _ (λ e. m (sym (ap (calculate_crc32 buffer) offset) ∙ e ∙ c)))
  where
    offset : u64 (8 + q.data_length) ≡ 8 + length_field buffer
    offset = omega arith

-- What a packet holds once the fields of a received buffer are stored.
abbrev pub received : ℕ → List ℕ → AppPacket → AppPacket
received now buffer p = store_fields now (header_at buffer) buffer p

pub received_length :
    (now : ℕ) (buffer : List ℕ) (p : AppPacket)
    → (received now buffer p).data_length ≡ length_field buffer
unfolding header_at
received_length now buffer p = store_fields-data_length now (header_at buffer) buffer p

pub received_crc :
    (now : ℕ) (buffer : List ℕ) (p : AppPacket)
    → length_field buffer ≤ 256
    → (received now buffer p).crc32 ≡ word32_at (8 + length_field buffer) buffer
unfolding header_at
received_crc now buffer p small = crc32-store_fields now (header_at buffer) buffer p small

pub decode_ok :
    (now n : ℕ) (buffer : List ℕ) (p : AppPacket)
    → IsSized buffer n
    → CrcMatches buffer
    → decode now (some buffer) n p
      ≡ (record (received now buffer p) { error = AppPacketError.none }, true)
decode_ok now n buffer p h m =
    decode_sized now n buffer p h
    ∙ check_crc_ok buffer (received now buffer p) h.small (received_length now buffer p)
        (received_crc now buffer p h.small) m

pub decode_bad_crc :
    (now n : ℕ) (buffer : List ℕ) (p : AppPacket)
    → IsSized buffer n
    → ¬ CrcMatches buffer
    → decode now (some buffer) n p
      ≡ (record (received now buffer p) { error = AppPacketError.crc_mismatch }, false)
decode_bad_crc now n buffer p h m =
    decode_sized now n buffer p h
    ∙ check_crc_bad buffer (received now buffer p) h.small (received_length now buffer p)
        (received_crc now buffer p h.small) m

pub IsSized-dec : (buffer : List ℕ) (n : ℕ) → Dec (IsSized buffer n)
IsSized-dec buffer n = elim (dec_le 12 n) [
  | no short ↦ no (λ h. short h.frame)
  | yes frame ↦ elim (dec_le (12 + length_field buffer) n) [
    | no cut ↦ no (λ h. cut h.covers)
    | yes covers ↦ elim (dec_le (length_field buffer) 256) [
      | no big ↦ no (λ h. big h.small)
      | yes small ↦ yes (omega arith)
    ]
  ]
]

pub CrcMatches-dec : (buffer : List ℕ) → Dec (CrcMatches buffer)
CrcMatches-dec buffer =
    ℕ_discrete (calculate_crc32 buffer (8 + length_field buffer))
      (word32_at (8 + length_field buffer) buffer)

-- `decode` accepts a buffer exactly when it holds a header and a footer, covers the payload that
-- its length field announces, this length is at most 256, and the checksum of the header and the
-- payload is the stored one.
pub decode_accepts_iff :
    (now n : ℕ) (buffer : List ℕ) (p : AppPacket)
    → All IsByte buffer
    → ((decode now (some buffer) n p).1 ≡ true) ↔ (IsSized buffer n × CrcMatches buffer)
decode_accepts_iff now n buffer p bytes =
    (forward, λ h. ap (λ r. r.1) (decode_ok now n buffer p h.0 h.1))
  where
    forward : (decode now (some buffer) n p).1 ≡ true → IsSized buffer n × CrcMatches buffer
    forward e = elim (IsSized-dec buffer n) [
      | no unsized ↦
          let (err, r) = decode_unsized now n buffer p bytes unsized in cc (ap (λ x. x.1) r)
      | yes sized ↦ elim (CrcMatches-dec buffer) [
        | yes m ↦ (sized, m)
        | no m ↦ cc (ap (λ x. x.1) (decode_bad_crc now n buffer p sized m))
      ]
    ]
