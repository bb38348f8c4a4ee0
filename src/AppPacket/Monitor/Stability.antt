-- ===== src/AppPacket/Monitor/Stability.antt =====
-- When the receive timing counts as unstable.
use agent_team_test.Prelude.{
  ℕ, ◌+◌, ◌-◌, ◌*◌, ◌/◌, ◌^◌, ◌≤◌, ◌<◌, ◌≡◌, refl, min, Bool, true, false, ◌||◌, List, [], ◌∷◌, ltb,
  if◌then◌else◌, arith, Bool-cases, inl, inr, u32,
}
use agent_team_test.AppPacket.State.{AppPacket}
use agent_team_test.AppPacket.Monitor.{
  expected_us, lower_bound, upper_bound, out_of_tolerance, check_interval, track_lifesign,
  to_microseconds, update_received_lifesign,
}
use agent_team_test.AppPacket.Monitor.Frame.{SameCodec, update_received_lifesign-SameCodec}

-- A received lifesign and the time of its arrival.
pub record Arrival : Type 0 where
  pub time : ℕ
  pub lifesign : ℕ

unfoldable pub receive_all : List Arrival → AppPacket → AppPacket
receive_all [] p = p
receive_all (a ∷ arrivals) p = receive_all arrivals (update_received_lifesign a.time a.lifesign p)

-- No word of the bounds wraps.
abbrev pub NoWrap : AppPacket → Type 0
NoWrap p = p.expected_interval_ms * 1000 + p.tolerance_us < 2 ^ 32

-- The interval differs from the expected one by more than the tolerance.
abbrev pub is_off : ℕ → ℕ → ℕ → Bool
is_off expected tolerance interval =
    ltb (interval + tolerance) expected || ltb (expected + tolerance) interval

-- If no word of the bounds wraps, the bounds of the code say whether the interval lies within the
-- tolerance of the expected one.
pub out_of_tolerance_lem :
    (p : AppPacket) (interval_us : ℕ)
    → NoWrap p
    → out_of_tolerance p interval_us
      ≡ is_off (p.expected_interval_ms * 1000) p.tolerance_us interval_us
unfolding out_of_tolerance lower_bound upper_bound expected_us
out_of_tolerance_lem p interval h = ground arith

-- The verdicts on the intervals between arrivals, from the time of the arrival before.
abbrev pub verdicts : ℕ → ℕ → ℕ → List Arrival → List Bool
verdicts expected tolerance last [] = []
verdicts expected tolerance last (a ∷ arrivals) =
    is_off expected tolerance ((a.time - last) / 1000) ∷ verdicts expected tolerance a.time arrivals

-- How many verdicts are `true` since the last `false`, `n` of them from before.
abbrev pub streak : ℕ → List Bool → ℕ
streak n [] = n
streak n (true ∷ bs) = streak (n + 1) bs
streak n (false ∷ bs) = streak 0 bs

streak-cons :
    (n : ℕ) (b : Bool) (bs : List Bool) → streak n (b ∷ bs) ≡ streak (if b then n + 1 else 0) bs
streak-cons n true bs = refl
streak-cons n false bs = refl

-- The intervals fit a 32-bit count of microseconds, and the clock does not run backwards.
abbrev pub Paced : ℕ → List Arrival → Type 0
Paced last [] = Unit
Paced last (a ∷ arrivals) =
    (last ≤ a.time) × ((a.time - last) / 1000 < 2 ^ 32) × Paced a.time arrivals

-- The verdict on an arrival at `now`.
abbrev verdict : ℕ → AppPacket → Bool
verdict now p =
    is_off (p.expected_interval_ms * 1000) p.tolerance_us ((now - p.last_recv_time) / 1000)

record Judged (now : ℕ) (p q : AppPacket) : Type 0 where
  counter : q.unstable_counter ≡ (if verdict now p then min (p.unstable_counter + 1) 65535 else 0)
  unstable : q.comm_unstable ≡ verdict now p
  interval : q.last_interval_us ≡ (now - p.last_recv_time) / 1000
  time : q.last_recv_time ≡ now

check_interval-Judged :
    (now : ℕ) (p : AppPacket)
    → NoWrap p
    → p.unstable_counter ≤ 65535
    → (now - p.last_recv_time) / 1000 < 2 ^ 32
    → Judged now p (check_interval now p)
unfolding check_interval
check_interval-Judged now p h c k =
    rw (interval_fits, out_of_tolerance_lem p ((now - p.last_recv_time) / 1000) h)
      (elim (Bool-cases (verdict now p)) [
        | inl off ↦ rw off (ground arith)
        | inr on ↦ rw on (ground arith)
      ])
  where
    interval_fits : u32 (to_microseconds (now - p.last_recv_time)) ≡ (now - p.last_recv_time) / 1000
    interval_fits = omega arith

track_lifesign-Judged :
    (now t l : ℕ) (p q : AppPacket) → Judged now p q → Judged now p (track_lifesign t l q)
unfolding track_lifesign
track_lifesign-Judged now t l p q j = ground arith

update-Judged :
    (now l : ℕ) (p : AppPacket)
    → NoWrap p
    → p.unstable_counter ≤ 65535
    → (now - p.last_recv_time) / 1000 < 2 ^ 32
    → Judged now p (update_received_lifesign now l p)
unfolding update_received_lifesign
update-Judged now l p h c k =
    track_lifesign-Judged now now l p (check_interval now p) (check_interval-Judged now p h c k)

-- A packet configured with `e` and `t` after an arrival at `last`, `c` verdicts into a streak.
record Tracks (e t last c : ℕ) (p : AppPacket) : Type 0 where
  expected : p.expected_interval_ms ≡ e
  tolerance : p.tolerance_us ≡ t
  time : p.last_recv_time ≡ last
  counter : p.unstable_counter ≡ min c 65535
  unstable : p.comm_unstable ≡ ltb 0 c

module _ (e t : ℕ) (fits : e * 1000 + t < 2 ^ 32) where
  update-Tracks :
      (now l last c : ℕ) (p : AppPacket)
      → (now - last) / 1000 < 2 ^ 32
      → Tracks e t last c p
      → Tracks e t now
          (if is_off (e * 1000) t ((now - last) / 1000) then c + 1 else 0)
          (update_received_lifesign now l p)
  update-Tracks now l last c p k h = elim (Bool-cases (is_off (e * 1000) t ((now - last) / 1000))) [
    | inl off ↦ rw off (ground (arith, same, judged, verdict_eq, off))
    | inr on ↦ rw on (ground (arith, same, judged, verdict_eq, on))
  ]
    where
      same : SameCodec p (update_received_lifesign now l p)
      same = update_received_lifesign-SameCodec now l p

      verdict_eq : verdict now p ≡ is_off (e * 1000) t ((now - last) / 1000)
      verdict_eq = rw (h.expected, h.tolerance, h.time)

      judged : Judged now p (update_received_lifesign now l p)
      judged =
          update-Judged now l p (rw (h.expected, h.tolerance) fits) (omega (arith, h.counter))
            (rw h.time k)

  receive_all-Tracks :
      (arrivals : List Arrival) (last c : ℕ) (p : AppPacket)
      → Paced last arrivals
      → Tracks e t last c p
      → let n = streak c (verdicts (e * 1000) t last arrivals) in
        ((receive_all arrivals p).unstable_counter ≡ min n 65535)
        × ((receive_all arrivals p).comm_unstable ≡ ltb 0 n)
  unfolding receive_all
  receive_all-Tracks [] last c p h k = (k.counter, k.unstable)
  receive_all-Tracks (a ∷ arrivals) last c p h k = rw (streak-cons c _ _) (
      receive_all-Tracks arrivals a.time
        (if is_off (e * 1000) t ((a.time - last) / 1000) then c + 1 else 0)
        (update_received_lifesign a.time a.lifesign p) h.2
        (update-Tracks a.time a.lifesign last c p h.1 k))

-- If no word of the bounds wraps: after any arrivals, each less than 2^32 microseconds after the
-- one before, the counter of a monitor that starts at 0 is the number of intervals since the last
-- one within the tolerance, held at 65535, and the communication counts as unstable exactly when
-- this number is not 0.
pub receive_all_stability :
    (arrivals : List Arrival) (p : AppPacket)
    → NoWrap p
    → p.unstable_counter ≡ 0
    → p.comm_unstable ≡ false
    → Paced p.last_recv_time arrivals
    → let n =
        streak 0
          (verdicts (p.expected_interval_ms * 1000) p.tolerance_us p.last_recv_time arrivals) in
      ((receive_all arrivals p).unstable_counter ≡ min n 65535)
      × ((receive_all arrivals p).comm_unstable ≡ ltb 0 n)
receive_all_stability arrivals p h c u k =
    receive_all-Tracks p.expected_interval_ms p.tolerance_us h arrivals p.last_recv_time 0 p k
      (record { expected = refl; tolerance = refl; time = refl; counter = c; unstable = u })

-- The interval is kept in 32 bits: one that is 2^32 microseconds longer is judged the same.
pub check_interval_wraps :
    (now k : ℕ) (p : AppPacket)
    → p.last_recv_time ≤ now
    → let late = check_interval (now + k * (2 ^ 32 * 1000)) p in
      (late.comm_unstable ≡ (check_interval now p).comm_unstable)
      × (late.last_interval_us ≡ (check_interval now p).last_interval_us)
unfolding check_interval
check_interval_wraps now k p h = rw wrapped (ground arith)
  where
    wrapped :
        u32 (to_microseconds (now + k * (2 ^ 32 * 1000) - p.last_recv_time))
        ≡ u32 (to_microseconds (now - p.last_recv_time))
    wrapped = omega arith
