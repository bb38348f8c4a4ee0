-- ===== src/Main/Handlers/Sending.antt =====
-- The way of a packet: from the timer's callback through the send queue and the sender's thread to
-- the callback of the receiver that gets its bytes.
use agent_team_test.Prelude.{
  ℕ, ◌+◌, ◌≤◌, ◌<◌, ◌≡◌, sym, ap, ap₂, ◌∙◌, Bool, true, some, List, [], ◌∷◌, ◌++◌, append_assoc,
  append-nil, arith, length, length-append, length-replicate, All, take-append_length, drop,
  replicate, codes, inl, inr,
}
use mathlib.Core.Path.{subst}
use agent_team_test.AppPacket.Error.{AppPacketError}
use agent_team_test.AppPacket.State.{AppPacket, set_data_pointer}
use agent_team_test.AppPacket.Valid.{IsValid}
use agent_team_test.AppPacket.Valid.Keeps.{sets_data, Call-IsValid}
use agent_team_test.AppPacket.Wire.{bytes32}
use agent_team_test.AppPacket.Codec.{encode, decode}
use agent_team_test.AppPacket.Codec.Image.{
  payload, body, body_crc, image, length-body, length-bytes32, encode-image,
}
use agent_team_test.AppPacket.Codec.RoundTrip.{sent, sent-image, decode-encode}
use agent_team_test.Socket.{UdpNode}
use agent_team_test.Threads.Queues.{IsQueue, waiting, push-IsQueue, push_cases}
use agent_team_test.Threads.State.{Manager, queue_tx_packet}
use agent_team_test.Threads.Loops.{TxPass, TxState, tx_thread_loop}
use agent_team_test.Threads.Sender.{tx_thread_loop_lem}
use agent_team_test.Threads.Drain.{tx_thread_loop-drains}
use agent_team_test.Format.{Format}
use agent_team_test.Main.Handlers.{tx_payload, rx_packet_handler, queue_encoded, tx_timer_callback}

-- A call of `decode` accepted the packet `p`.
abbrev Accepts : AppPacket → AppPacket × Bool → Type 0
Accepts p (r, ok) =
    (ok ≡ true)
    × (r.unique_id ≡ p.unique_id)
    × (r.rx_lifesign ≡ p.lifesign)
    × (payload r ≡ payload p)
    × (r.error ≡ AppPacketError.none)

pub length-image : {p : AppPacket} → IsValid p → length (image p) ≡ 12 + p.data_length
length-image {p} v = omega (
  arith,
  length-append {0} (body p) (bytes32 (body_crc p)),
  length-body v,
  length-bytes32 (body_crc p),
)

-- A receiver in any state accepts the image of a valid packet.
pub decode-image :
    {p : AppPacket} (now : ℕ) (q : AppPacket)
    → IsValid p
    → Accepts p (decode now (some (image p)) (length (image p)) q)
decode-image {p} now q v =
    let r = decode-encode buffer [] n now q v (omega arith) room in
    subst {A = List ℕ × ℕ} (λ a. Accepts p (decode now (some a.0) a.1 q))
      (ap₂ (λ a n. (a, n)) bytes size) (r.0, r.1, r.2, r.4, r.6)
  where
    n : ℕ
    n = 12 + p.data_length

    buffer : List ℕ
    buffer = replicate n 0

    room : n ≤ length buffer
    room = omega (arith, length-replicate {0} {A = ℕ} n 0)

    bytes : sent p buffer n ++ [] ≡ image p
    bytes = append-nil (sent p buffer n) ∙ sent-image buffer n v (omega arith) room

    size : (encode p (some buffer) n).size ≡ length (image p)
    size = ap (λ e. e.size) ((encode-image buffer n v room).1 (omega arith)) ∙ sym (length-image v)

-- The packet that the callback encodes.
abbrev pub with_payload : AppPacket → AppPacket
with_payload p = set_data_pointer (some tx_payload) 15 p

pub with_payload-IsValid : {p : AppPacket} → IsValid p → IsValid (with_payload p)
with_payload-IsValid {p} v = Call-IsValid (sets_data (some tx_payload) 15 (omega arith)) v

module _ {D : Type 0} (f : Format D) {App : Type 0} where
  queue_encoded_lem :
      (m : Manager App) (p : AppPacket) (bytes : List ℕ) (n : ℕ)
      → IsQueue m.tx_queue
      → length bytes ≤ 2048
      → length (waiting m.tx_queue) < 1023
      → let m' = (queue_encoded f m p bytes n).0 in
        IsQueue m'.tx_queue × (waiting m'.tx_queue ≡ waiting m.tx_queue ++ bytes ∷ [])
  unfolding queue_encoded queue_tx_packet
  queue_encoded_lem m p bytes n v fits free = elim (push_cases bytes m.tx_queue v fits) [
    | inl (full, refused, same) ↦ absurd (omega arith)
    | inr (room, taken, longer) ↦ rw taken (push-IsQueue bytes m.tx_queue v fits, longer)
  ]

  -- The callback queues the image of its packet, if the queue has room.
  pub tx_timer_callback-queues :
      (m : Manager App) (p : AppPacket)
      → IsValid p
      → IsQueue m.tx_queue
      → length (waiting m.tx_queue) < 1023
      → let m' = (tx_timer_callback f m p).0 in
        IsQueue m'.tx_queue
        × (waiting m'.tx_queue ≡ waiting m.tx_queue ++ image (with_payload p) ∷ [])
  unfolding tx_timer_callback set_data_pointer
  tx_timer_callback-queues m p v queue free =
      rw
        (
          (encode-image (replicate 256 0) 256 (with_payload-IsValid v) (omega arith)).1
              (omega arith),
          take-append_length 27 (image (with_payload p)) (drop 27 (replicate 256 0))
              (sym (length-image (with_payload-IsValid v))),
        )
        (queue_encoded_lem m _ (image (with_payload p)) 27 queue
          (omega (arith, length-image (with_payload-IsValid v))) free)

  -- The sender's thread behind the callback: its buffer and length, and what it has sent.
  abbrev pub sending : Manager App → AppPacket → UdpNode → List ℕ → ℕ → List (List ℕ) → TxState App
  sending m p node buffer n sends = record {
    manager = (tx_timer_callback f m p).0;
    node = node;
    tx_buffer = buffer;
    tx_length = n;
    sends = sends;
  }

  -- A valid packet, a valid send queue with room, and a manager that runs for at least one pass of
  -- the sender's thread more than packets wait: whatever the kernel answers, the thread then has
  -- handed the waiting packets and behind them exactly one more to the socket. The callback of a
  -- receiver in any state that gets its bytes holds the sender's identifier and lifesign, the text
  -- "Agent Team Test", and no error.
  pub tx_timer_callback_arrives :
      (passes : List TxPass) (m : Manager App) (p : AppPacket) (node : UdpNode) (buffer : List ℕ)
      (n : ℕ) (sends : List (List ℕ)) (now : ℕ) (q : AppPacket)
      → IsValid p
      → IsQueue m.tx_queue
      → length (waiting m.tx_queue) < 1023
      → All (λ pass. pass.running ≡ true) passes
      → length (waiting m.tx_queue) < length passes
      → (bytes : List ℕ) × ((tx_thread_loop passes (sending m p node buffer n sends)).sends
          ≡ sends ++ waiting m.tx_queue ++ bytes ∷ [])
        × ((rx_packet_handler f now bytes q).0.unique_id ≡ p.unique_id)
        × ((rx_packet_handler f now bytes q).0.rx_lifesign ≡ p.lifesign)
        × (payload (rx_packet_handler f now bytes q).0 ≡ codes "Agent Team Test")
        × ((rx_packet_handler f now bytes q).0.error ≡ AppPacketError.none)
  unfolding rx_packet_handler set_data_pointer
  tx_timer_callback_arrives passes m p node buffer n sends now q v queue free on enough =
      let (queue', queued) = tx_timer_callback-queues m p v queue free in
      let loop = tx_thread_loop_lem passes (sending m p node buffer n sends) queue' in
      let s' = tx_thread_loop passes (sending m p node buffer n sends) in
      let empty = tx_thread_loop-drains passes (sending m p node buffer n sends) queue' on (
        omega (
          arith,
          ap length queued,
          length-append {0} (waiting m.tx_queue) (image (with_payload p) ∷ []),
        )) in
      let a = decode-image now q (with_payload-IsValid v) in
      (
        image (with_payload p),
        sym (append-nil s'.sends)
            ∙ ap (λ w. s'.sends ++ w) (sym empty)
            ∙ loop.0
            ∙ ap (λ w. sends ++ w) queued
            ∙ sym (append_assoc sends (waiting m.tx_queue) (image (with_payload p) ∷ [])),
        a.1,
        a.2,
        a.3,
        a.4,
      )
