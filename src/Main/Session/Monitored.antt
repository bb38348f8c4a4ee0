-- ===== src/Main/Session/Monitored.antt =====
-- A session is to the receiver's monitor what its arrivals are to `updateReceivedLifesign` of
-- src/app/AppPacket.cpp.
use agent_team_test.Prelude.{
  ℕ, ◌+◌, ◌≡◌, refl, sym, ap, ◌∙◌, Bool, Option, none, some, List, [], ◌∷◌, ◌++◌, append-nil, arith,
  length, All, u16,
}
use agent_team_test.AppPacket.Error.{AppPacketError}
use agent_team_test.AppPacket.State.{AppPacket}
use agent_team_test.AppPacket.Valid.{IsValid}
use agent_team_test.AppPacket.Valid.Keeps.{received_lem}
use agent_team_test.AppPacket.Wire.{header_at, word16_at}
use agent_team_test.AppPacket.Monitor.{
  update_received_lifesign, check_interval, track_lifesign, out_of_tolerance, lower_bound,
  upper_bound, expected_us,
}
use agent_team_test.AppPacket.Monitor.Stability.{Arrival, receive_all}
use agent_team_test.AppPacket.Codec.{decode}
use agent_team_test.AppPacket.Codec.Image.{image}
use agent_team_test.AppPacket.Codec.Decode.{decode_ok}
use agent_team_test.AppPacket.Codec.RoundTrip.{lifesign-image, IsSized-image, CrcMatches-image}
use agent_team_test.Format.{Format}
use agent_team_test.Main.Handlers.{rx_packet_handler}
use agent_team_test.Main.Handlers.Sending.{with_payload, with_payload-IsValid, length-image}
use agent_team_test.Main.Session.{Tick, Session, deliver, arrive, tick, ticks}
use agent_team_test.Main.Session.Sent.{Runs, IsIdle, encoded_lem, tick_lem}
use agent_team_test.Main.Session.Watched.{lifesign-with_payload}

-- The packet with only what the monitor reads and writes.
abbrev pub bare : AppPacket → AppPacket
bare p = record p {
  unique_id = 0;
  lifesign = 0;
  data_ptr = none;
  data_length = 0;
  crc32 = 0;
  error = AppPacketError.none;
}

bare-check_interval :
    (now : ℕ) (p : AppPacket) → bare (check_interval now p) ≡ bare (check_interval now (bare p))
unfolding check_interval out_of_tolerance lower_bound upper_bound expected_us
bare-check_interval now p = ground arith

bare-track_lifesign :
    (now l : ℕ) (p : AppPacket)
    → bare (track_lifesign now l p) ≡ bare (track_lifesign now l (bare p))
unfolding track_lifesign
bare-track_lifesign now l p = ground arith

bare-update :
    (now l : ℕ) (p : AppPacket)
    → bare (update_received_lifesign now l p) ≡ bare (update_received_lifesign now l (bare p))
unfolding update_received_lifesign
bare-update now l p =
    bare-track_lifesign now l (check_interval now p)
    ∙ ap (λ q. bare (track_lifesign now l q)) (bare-check_interval now p)
    ∙ sym (bare-track_lifesign now l (check_interval now (bare p)))

bare-receive_all :
    (arrivals : List Arrival) (p q : AppPacket)
    → bare p ≡ bare q
    → bare (receive_all arrivals p) ≡ bare (receive_all arrivals q)
unfolding receive_all
bare-receive_all [] p q e = e
bare-receive_all (a ∷ arrivals) p q e =
    bare-receive_all arrivals (update_received_lifesign a.time a.lifesign p)
      (update_received_lifesign a.time a.lifesign q)
      (bare-update a.time a.lifesign p
        ∙ ap (λ r. bare (update_received_lifesign a.time a.lifesign r)) e
        ∙ sym (bare-update a.time a.lifesign q))

decode-image-bare :
    {p : AppPacket} (now : ℕ) (q : AppPacket)
    → IsValid p
    → bare (decode now (some (image p)) (length (image p)) q).0
      ≡ bare (update_received_lifesign now p.lifesign q)
decode-image-bare {p} now q v =
    ap (λ (l : List ℕ). bare (decode now (some l) (length (image p)) q).0)
      (sym (append-nil (image p)))
    ∙ ap (λ (r : AppPacket × Bool). bare r.0)
        (decode_ok now (length (image p)) (image p ++ []) q
          (IsSized-image v [] (length (image p)) (omega (arith, length-image v)))
          (CrcMatches-image v []))
    ∙ ap bare (received_lem now (image p ++ []) q)
    ∙ ap (λ l. bare (update_received_lifesign now l q)) same_lifesign
  where
    same_lifesign : word16_at 4 (image p ++ []) ≡ p.lifesign
    same_lifesign = unfold header_at in lifesign-image v []

-- The arrivals of a session, from the sender's next lifesign on.
abbrev pub arrived : Option ℕ → ℕ → List Arrival → List Arrival
arrived none l rest = rest
arrived (some now) l rest = record { time = now; lifesign = l } ∷ rest

abbrev pub arrivals_of : ℕ → List Tick → List Arrival
arrivals_of l [] = []
arrivals_of l (t ∷ ts) = arrived t.arrival l (arrivals_of (u16 (l + 1)) ts)

module _ {D : Type 0} (f : Format D) where
  arrive-bare :
      {p : AppPacket} (arrival : Option ℕ) (rest : List Arrival) (q : AppPacket)
      → IsValid p
      → bare (receive_all rest (arrive f arrival (image (with_payload p) ∷ []) q))
        ≡ bare (receive_all (arrived arrival p.lifesign rest) q)
  unfolding arrive deliver rx_packet_handler receive_all
  arrive-bare none rest q v = refl
  arrive-bare {p} (some now) rest q v = bare-receive_all rest _ _ (
      decode-image-bare now q (with_payload-IsValid v)
      ∙ ap (λ l. bare (update_received_lifesign now l q)) (lifesign-with_payload f p))

  module _ {App : Type 0} where
    pub ticks-receive_all :
        (ts : List Tick) (s : Session App)
        → All (λ t. Runs t.passes) ts
        → IsIdle s
        → bare (ticks f ts s).rx_packet
          ≡ bare (receive_all (arrivals_of s.tx_packet.lifesign ts) s.rx_packet)
    unfolding ticks receive_all
    ticks-receive_all [] s r h = refl
    ticks-receive_all (t ∷ ts) s r h =
        let (idle, packet, got) = tick_lem f t s r.0 h in
        ticks-receive_all ts (tick f t s) r.1 idle
        ∙ ap (λ l. bare (receive_all (arrivals_of l ts) (tick f t s).rx_packet))
            (ap (λ (p : AppPacket). p.lifesign) packet ∙ (encoded_lem h.packet).1)
        ∙ ap (λ q. bare (receive_all (arrivals_of (u16 (s.tx_packet.lifesign + 1)) ts) q)) got
        ∙ arrive-bare t.arrival (arrivals_of (u16 (s.tx_packet.lifesign + 1)) ts) s.rx_packet
            h.packet
