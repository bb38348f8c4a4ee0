-- ===== src/Main/Session/Watched.antt =====
-- When the receiving peer counts the other as lost: by the packets that arrive.
use agent_team_test.Prelude.{
  ℕ, ◌+◌, ◌-◌, ◌/◌, ◌^◌, ◌≤◌, ◌<◌, ◌≡◌, refl, ap, ◌∙◌, Option, none, some, List, [], ◌∷◌, ◌++◌,
  append-nil, arith, length, All, u16, ne→==_false, ◌≢◌, leb, ◌==◌, if◌then◌else◌,
}
use mathlib.Core.Path.{subst}
use agent_team_test.AppPacket.Error.{AppPacketError}
use agent_team_test.AppPacket.State.{AppPacket, set_data_pointer}
use agent_team_test.AppPacket.Valid.{IsValid}
use agent_team_test.AppPacket.Valid.Keeps.{received_lem}
use agent_team_test.AppPacket.Wire.{header_at, word16_at}
use agent_team_test.AppPacket.Monitor.{is_comm_lost, elapsed_ms}
use agent_team_test.AppPacket.Monitor.Lifesign.{update-change, elapsed_ms_past}
use agent_team_test.AppPacket.Codec.{decode}
use agent_team_test.AppPacket.Codec.Image.{image}
use agent_team_test.AppPacket.Codec.Decode.{received, decode_ok}
use agent_team_test.AppPacket.Codec.RoundTrip.{lifesign-image, IsSized-image, CrcMatches-image}
use agent_team_test.Format.{Format}
use agent_team_test.Main.Handlers.{rx_packet_handler}
use agent_team_test.Main.Handlers.Sending.{with_payload, with_payload-IsValid, length-image}
use agent_team_test.Main.Session.{Tick, Session, deliver, arrive, tick, ticks}
use agent_team_test.Main.Session.Sent.{Runs, IsIdle, encoded, encoded_lem, tick_lem}

-- What a packet with the lifesign `l` at `now` makes of the monitor.
pub record Noted (now l : ℕ) (q r : AppPacket) : Type 0 where
  pub lifesign : r.rx_lifesign ≡ l
  pub change : r.last_change_time ≡ (if l == q.rx_lifesign then q.last_change_time else now)
  pub timeout : r.comm_timeout_ms ≡ q.comm_timeout_ms

received-Noted :
    (now : ℕ) (buffer : List ℕ) (q : AppPacket)
    → Noted now
        (word16_at 4 buffer)
        q
        (record (received now buffer q) { error = AppPacketError.none })
received-Noted now buffer q =
    let u = update-change now (word16_at 4 buffer) q in
    rw (received_lem now buffer q) (record { lifesign = u.0; change = u.1; timeout = u.2 })

decode-image-Noted :
    {p : AppPacket} (now : ℕ) (q : AppPacket)
    → IsValid p
    → Noted now p.lifesign q (decode now (some (image p)) (length (image p)) q).0
decode-image-Noted {p} now q v =
    subst (λ (l : List ℕ). Noted now p.lifesign q (decode now (some l) (length (image p)) q).0)
      (append-nil (image p))
      (rw
        (decode_ok now (length (image p)) (image p ++ []) q
          (IsSized-image v [] (length (image p)) (omega (arith, length-image v)))
          (CrcMatches-image v []))
        (subst
          (λ l.
            Noted now l q (record (received now (image p ++ []) q) { error = AppPacketError.none }))
          same_lifesign (received-Noted now (image p ++ []) q)))
  where
    same_lifesign : word16_at 4 (image p ++ []) ≡ p.lifesign
    same_lifesign = unfold header_at in lifesign-image v []

abbrev pub later_of : Option ℕ → ℕ → ℕ
later_of none time = time
later_of (some now) time = now

-- The time of the last tick whose packet arrived, from a time before.
abbrev pub last_arrival : ℕ → List Tick → ℕ
last_arrival time [] = time
last_arrival time (t ∷ rest) = last_arrival (later_of t.arrival time) rest

-- The sender's next lifesign is `k` ahead of the last one that the receiver got.
pub record IsAhead (k : ℕ) (p q : AppPacket) : Type 0 where
  pub ahead : u16 (q.rx_lifesign + k) ≡ p.lifesign
  pub some_ahead : 1 ≤ k
  pub fits : q.rx_lifesign < 2 ^ 16

if_ne : {A : Type 0} (m n : ℕ) (x y : A) → m ≢ n → (if m == n then x else y) ≡ y
if_ne m n x y ne = rw (ne→==_false m n ne) refl

abbrev next_ahead : Option ℕ → ℕ → ℕ
next_ahead none k = k + 1
next_ahead (some now) k = 1

-- At each tick the sender is fewer than 2^16 lifesigns ahead of the receiver, from `k` on: one
-- more for each packet lost, and one behind an arrival.
abbrev pub NoLongGap : ℕ → List Tick → Type 0
NoLongGap k [] = Unit
NoLongGap k (t ∷ ts) = (k < 2 ^ 16) × NoLongGap (next_ahead t.arrival k) ts

module _ {D : Type 0} (f : Format D) where
  pub lifesign-with_payload : (p : AppPacket) → (with_payload p).lifesign ≡ p.lifesign
  unfolding set_data_pointer
  lifesign-with_payload p = refl

  pub arrive-Noted :
      {p : AppPacket} (now : ℕ) (q : AppPacket)
      → IsValid p
      → Noted now p.lifesign q (arrive f (some now) (image (with_payload p) ∷ []) q)
  unfolding arrive deliver rx_packet_handler
  arrive-Noted {p} now q v =
      subst (λ l. Noted now l q (arrive f (some now) (image (with_payload p) ∷ []) q))
        (lifesign-with_payload p) (decode-image-Noted now q (with_payload-IsValid v))

  -- How a tick changes what the monitor compares.
  record Followed (k : ℕ) (p q r : AppPacket) (change : ℕ) : Type 0 where
    still : IsAhead k p r
    change_eq : r.last_change_time ≡ change
    timeout_eq : r.comm_timeout_ms ≡ q.comm_timeout_ms

  arrive-Followed :
      {p q : AppPacket} (arrival : Option ℕ) (k : ℕ)
      → IsValid p
      → IsAhead k p q
      → k < 2 ^ 16
      → Followed
          (next_ahead arrival k)
          (encoded p)
          q
          (arrive f arrival (image (with_payload p) ∷ []) q)
          (later_of arrival q.last_change_time)
  arrive-Followed {p} {q} none k v a small =
      unfold arrive in
      record {
        still = record {
          ahead = omega (arith, a.ahead, (encoded_lem v).1);
          some_ahead = omega arith;
          fits = a.fits;
        };
        change_eq = refl;
        timeout_eq = refl;
      }
  arrive-Followed {p} {q} (some now) k v a small =
      let n = arrive-Noted now q v in
      record {
        still = record {
          ahead = omega (arith, n.lifesign, (encoded_lem v).1);
          some_ahead = omega arith;
          fits = omega (arith, n.lifesign, v.lifesign_fits);
        };
        change_eq =
            n.change
            ∙ if_ne p.lifesign q.rx_lifesign _ _ (omega (arith, a.ahead, a.some_ahead, a.fits));
        timeout_eq = n.timeout;
      }

  module _ {App : Type 0} where
    ticks-change :
        (ts : List Tick) (k : ℕ) (s : Session App)
        → All (λ t. Runs t.passes) ts
        → IsIdle s
        → IsAhead k s.tx_packet s.rx_packet
        → NoLongGap k ts
        → let q = (ticks f ts s).rx_packet in
          (q.last_change_time ≡ last_arrival s.rx_packet.last_change_time ts)
          × (q.comm_timeout_ms ≡ s.rx_packet.comm_timeout_ms)
    unfolding ticks
    ticks-change [] k s r h a small = (refl, refl)
    ticks-change (t ∷ ts) k s r h a small =
        let (idle, packet, got) = tick_lem f t s r.0 h in
        let n = followed packet got in
        let rest = ticks-change ts (next_ahead t.arrival k) (tick f t s) r.1 idle n.still small.1 in
        (rest.0 ∙ ap (λ c. last_arrival c ts) n.change_eq, rest.1 ∙ n.timeout_eq)
      where
        followed :
            (tick f t s).tx_packet ≡ encoded s.tx_packet
            → (tick f t s).rx_packet
              ≡ arrive f t.arrival (image (with_payload s.tx_packet) ∷ []) s.rx_packet
            → Followed
                (next_ahead t.arrival k)
                (tick f t s).tx_packet
                s.rx_packet
                (tick f t s).rx_packet
                (later_of t.arrival s.rx_packet.last_change_time)
        followed e g = rw (e, g) (arrive-Followed t.arrival k h.packet a small.0)

    -- From a sender whose queue is empty, over ticks at each of which its thread makes a pass, to
    -- a receiver whose last lifesign is `k` behind the sender's next, some of the packets lost on
    -- the way, but never so many in a row that the sender is 2^16 lifesigns ahead: the receiver
    -- counts the sender as lost exactly when at least its timeout has passed since the last
    -- arrival, which is not after now, as long as less than 2^32 milliseconds have.
    pub ticks_watched :
        (ts : List Tick) (k now : ℕ) (s : Session App)
        → All (λ t. Runs t.passes) ts
        → IsIdle s
        → IsAhead k s.tx_packet s.rx_packet
        → NoLongGap k ts
        → last_arrival s.rx_packet.last_change_time ts ≤ now
        → (now - last_arrival s.rx_packet.last_change_time ts) / 1000000 < 2 ^ 32
        → is_comm_lost now (ticks f ts s).rx_packet
          ≡ leb s.rx_packet.comm_timeout_ms
              ((now - last_arrival s.rx_packet.last_change_time ts) / 1000000)
    unfolding is_comm_lost
    ticks_watched ts k now s r h a small past recent =
        let c = ticks-change ts k s r h a small in rw (c.0, c.1, whole) refl
      where
        whole :
            elapsed_ms now (last_arrival s.rx_packet.last_change_time ts)
            ≡ (now - last_arrival s.rx_packet.last_change_time ts) / 1000000
        whole =
            elapsed_ms_past now (last_arrival s.rx_packet.last_change_time ts) past
            ∙ omega (arith, recent)
