-- ===== src/AppPacket/Wire/Words.antt =====
-- Words written to the wire are read back.
use agent_team_test.Prelude.{
  ℕ, ◌+◌, ◌<◌, ◌≡◌, ap, List, ◌++◌, arith, length, get_or, get_or-append_right, IsU16, IsU32,
  IsByte, All, ◌≢◌, set, get_or-set_ne, get_or-set_self, ◌≤◌, All-get_or,
}
use agent_team_test.AppPacket.Wire.{
  AppPacketHeader, bytes32, header_bytes, word16_at, word32_at, header_at,
}

pub header_at-header_bytes :
    (h : AppPacketHeader) (rest : List ℕ)
    → IsU32 h.unique_id
    → IsU16 h.lifesign
    → IsU16 h.data_length
    → header_at (header_bytes h ++ rest) ≡ h
unfolding header_at header_bytes
header_at-header_bytes h rest p q r =
    λ i. record { unique_id = id_eq i; lifesign = lifesign_eq i; data_length = length_eq i }
  where
    id_eq : word32_at 0 (header_bytes h ++ rest) ≡ h.unique_id
    id_eq = omega arith

    lifesign_eq : word16_at 4 (header_bytes h ++ rest) ≡ h.lifesign
    lifesign_eq = omega arith

    length_eq : word16_at 6 (header_bytes h ++ rest) ≡ h.data_length
    length_eq = omega arith

pub word32_at-bytes32 :
    (n w : ℕ) (xs rest : List ℕ)
    → n ≡ length xs
    → IsU32 w
    → word32_at n (xs ++ (bytes32 w ++ rest)) ≡ w
unfolding word32_at bytes32
word32_at-bytes32 n w xs rest h p =
    omega
      (arith, at 0, at 1, at 2, at 3, ap (λ k. get_or (xs ++ (bytes32 w ++ rest)) k 0) zero_offset)
  where
    at : (i : ℕ) → get_or (xs ++ (bytes32 w ++ rest)) (n + i) 0 ≡ get_or (bytes32 w ++ rest) i 0
    at i = get_or-append_right n i xs (bytes32 w ++ rest) 0 h

    zero_offset : n + 0 ≡ n
    zero_offset = omega arith

pub word32_at_fits : (i : ℕ) (buffer : List ℕ) → All IsByte buffer → IsU32 (word32_at i buffer)
unfolding word32_at
word32_at_fits i buffer h = omega (arith, byte i, byte (i + 1), byte (i + 2), byte (i + 3))
  where
    byte : (j : ℕ) → get_or buffer j 0 < 256
    byte j = All-get_or IsByte buffer j 0 h (omega arith)

pub word16_at_fits : (i : ℕ) (buffer : List ℕ) → All IsByte buffer → IsU16 (word16_at i buffer)
unfolding word16_at
word16_at_fits i buffer h = omega (arith, byte i, byte (i + 1))
  where
    byte : (j : ℕ) → get_or buffer j 0 < 256
    byte j = All-get_or IsByte buffer j 0 h (omega arith)

-- A changed byte outside a word leaves the word, and inside it changes the word.
pub word16_at-set_ne :
    (i j b : ℕ) (buffer : List ℕ)
    → j ≢ i
    → j ≢ i + 1
    → word16_at i (set buffer j b) ≡ word16_at i buffer
unfolding word16_at
word16_at-set_ne i j b buffer p q =
    omega (arith, get_or-set_ne buffer j i b 0 p, get_or-set_ne buffer j (i + 1) b 0 q)

pub word32_at-set_lt :
    (i j b : ℕ) (buffer : List ℕ) → j < i → word32_at i (set buffer j b) ≡ word32_at i buffer
unfolding word32_at
word32_at-set_lt i j b buffer h = omega (arith, at i, at (i + 1), at (i + 2), at (i + 3))
  where
    at : (k : ℕ) → i ≤ k → get_or (set buffer j b) k 0 ≡ get_or buffer k 0
    at k p = get_or-set_ne buffer j k b 0 (omega arith)

pub word32_at-set_ne :
    (i k b : ℕ) (buffer : List ℕ)
    → k < 4
    → i + k < length buffer
    → b ≢ get_or buffer (i + k) 0
    → word32_at i (set buffer (i + k) b) ≢ word32_at i buffer
unfolding word32_at
word32_at-set_ne i k b buffer small inside ne e =
    grind (arith, at 0, at 1, at 2, at 3, changed, zero_offset)
  where
    changed : get_or (set buffer (i + k) b) (i + k) 0 ≡ b
    changed = get_or-set_self buffer (i + k) b 0 inside

    at : (j : ℕ) → k ≢ j → get_or (set buffer (i + k) b) (i + j) 0 ≡ get_or buffer (i + j) 0
    at j h = get_or-set_ne buffer (i + k) (i + j) b 0 (omega arith)

    zero_offset : i + 0 ≡ i
    zero_offset = omega arith
