-- ===== src/Main/Session/Sent.antt =====
-- What one tick sends, and what it makes of the sender.
use agent_team_test.Prelude.{
  ℕ, ◌+◌, ◌<◌, ◌≡◌, refl, sym, ap, ◌∙◌, true, some, List, [], ◌∷◌, ◌++◌, append-nil, arith, length,
  All, replicate, u16, take, ltb, Bool-cases, inl, inr,
}
use agent_team_test.AppPacket.State.{AppPacket, set_data_pointer}
use agent_team_test.AppPacket.Valid.{IsValid}
use agent_team_test.AppPacket.Valid.Keeps.{encodes, Call-IsValid}
use agent_team_test.AppPacket.Codec.{Encoded, encode}
use agent_team_test.AppPacket.Codec.Image.{image, encode-image}
use agent_team_test.Threads.Queues.{IsQueue, waiting}
use agent_team_test.Threads.State.{Manager}
use agent_team_test.Threads.Loops.{TxPass, TxState, tx_thread_loop}
use agent_team_test.Threads.Sender.{Sends, tx_thread_loop-Sends}
use agent_team_test.Threads.Drain.{tx_thread_loop-drains}
use agent_team_test.Format.{Format}
use agent_team_test.Main.Handlers.{tx_timer_callback, queue_encoded}
use agent_team_test.Main.Handlers.Sending.{
  with_payload, with_payload-IsValid, tx_timer_callback-queues,
}
use agent_team_test.Main.Session.{Tick, Session, sender, tick, arrive}

-- The sender's thread makes at least one pass, and the manager runs.
pub record Runs (passes : List TxPass) : Type 0 where
  pub running : All (λ pass. pass.running ≡ true) passes
  pub some_pass : 0 < length passes

-- What `encode` makes of the packet at a tick.
abbrev pub encoded : AppPacket → AppPacket
encoded p = (encode (with_payload p) (some (replicate 256 0)) 256).packet

pub encoded_lem :
    {p : AppPacket}
    → IsValid p
    → IsValid (encoded p) × ((encoded p).lifesign ≡ u16 (p.lifesign + 1))
unfolding set_data_pointer
encoded_lem {p} v = (
  Call-IsValid (encodes (replicate 256 0) 256 (omega arith)) (with_payload-IsValid v),
  ap (λ e. e.packet.lifesign)
      ((encode-image (replicate 256 0) 256 (with_payload-IsValid v) (omega arith)).1 (omega arith)),
)

-- The sender between two ticks: nothing waits.
pub record IsIdle {App : Type 0} (s : Session App) : Type 0 where
  pub packet : IsValid s.tx_packet
  pub queue : IsQueue s.manager.tx_queue
  pub empty : waiting s.manager.tx_queue ≡ []

module _ {D : Type 0} (f : Format D) {App : Type 0} where
  tx_packet-queue_encoded :
      (m : Manager App) (p : AppPacket) (bytes : List ℕ) (n : ℕ)
      → (queue_encoded f m p bytes n).1 ≡ p
  unfolding queue_encoded
  tx_packet-queue_encoded m p bytes n = ground arith

  tx_packet-tx_timer_callback :
      (m : Manager App) (p : AppPacket) → (tx_timer_callback f m p).1 ≡ encoded p
  unfolding tx_timer_callback
  tx_packet-tx_timer_callback m p = elim (Bool-cases (ltb 0 e.size)) [
    | inl some_bytes ↦
        rw some_bytes (tx_packet-queue_encoded m e.packet (take e.size e.buffer) e.size)
    | inr no_bytes ↦ rw no_bytes refl
  ]
    where
      e : Encoded
      e = encode (with_payload p) (some (replicate 256 0)) 256

  -- A tick sends the image of one packet, and leaves the sender as it was, but for the lifesign.
  pub tick_lem :
      (t : Tick) (s : Session App)
      → Runs t.passes
      → IsIdle s
      → IsIdle (tick f t s)
        × ((tick f t s).tx_packet ≡ encoded s.tx_packet)
        × ((tick f t s).rx_packet
            ≡ arrive f t.arrival (image (with_payload s.tx_packet) ∷ []) s.rx_packet)
  unfolding tick
  tick_lem t s r h = (
    record {
      packet = rw same_packet (encoded_lem h.packet).0;
      queue = after.queue;
      empty = drained;
    },
    same_packet,
    ap (λ sends. arrive f t.arrival sends s.rx_packet) sends_one,
  )
    where
      m : Manager App
      m = (tx_timer_callback f s.manager s.tx_packet).0

      w : TxState App
      w = tx_thread_loop t.passes (sender f m s)

      same_packet : (tx_timer_callback f s.manager s.tx_packet).1 ≡ encoded s.tx_packet
      same_packet = tx_packet-tx_timer_callback s.manager s.tx_packet

      queued :
          IsQueue m.tx_queue
          × (waiting m.tx_queue
              ≡ waiting s.manager.tx_queue ++ image (with_payload s.tx_packet) ∷ [])
      queued =
          tx_timer_callback-queues f s.manager s.tx_packet h.packet h.queue
            (omega (arith, ap length h.empty))

      one_waits : waiting m.tx_queue ≡ image (with_payload s.tx_packet) ∷ []
      one_waits = queued.1 ∙ ap (λ l. l ++ image (with_payload s.tx_packet) ∷ []) h.empty

      after : Sends (sender f m s) w
      after = tx_thread_loop-Sends t.passes (sender f m s) queued.0

      drained : waiting w.manager.tx_queue ≡ []
      drained =
          tx_thread_loop-drains t.passes (sender f m s) queued.0 r.running
            (omega (arith, ap length one_waits, r.some_pass))

      sends_one : w.sends ≡ image (with_payload s.tx_packet) ∷ []
      sends_one =
          sym (append-nil w.sends) ∙ ap (λ l. w.sends ++ l) (sym drained) ∙ after.same ∙ one_waits
