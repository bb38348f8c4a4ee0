-- ===== src/Threads/Receiver.antt =====
-- What the receiver thread hands to the callback, counts and queues.
use agent_team_test.Prelude.{
  ℕ, ◌+◌, ◌-◌, ◌^◌, ◌≤◌, ◌<◌, ◌≡◌, refl, sym, ap, ap₂, ◌∙◌, not, ◌&&◌, List, [], ◌∷◌, ◌++◌, map,
  append-nil, arith, All, length, length-append, take, take-length, take-append_length, u64,
  Bool-cases, inl, inr, lt→ltb,
}
use agent_team_test.Threads.Queues.{IsQueue, waiting, push-IsQueue, push_cases}
use agent_team_test.Socket
use agent_team_test.Socket.{
  Received, datagram, failed, Errno, eagain, ewouldblock, eintr, econnrefused, other,
}
use agent_team_test.Threads.State.{Manager, max_packet_size}
use agent_team_test.Threads.Loops.{
  RxPass, RxState, is_transient_error, measure_interval, push_received, run_callback,
  handle_datagram, handle_received, rx_step, rx_thread_loop,
}
use agent_team_test.Threads.Deliveries.{
  deliveries_of, is_fatal, delivered, received_bytes, FitsBuffer, run_callbacks, IsReady, Delivers,
  Delivers-nil, Delivers-append,
}

module _ {App : Type 0} where
  -- What a step of the pass leaves as it was.
  record SameCounts (m m' : Manager App) : Type 0 where
    callback : m'.rx_callback ≡ m.rx_callback
    count : m'.rx_packet_count ≡ m.rx_packet_count

  measure_interval-same :
      (t : ℕ) (m : Manager App)
      → SameCounts m (measure_interval t m)
        × ((measure_interval t m).rx_queue ≡ m.rx_queue)
        × ((measure_interval t m).rx_drop_count ≡ m.rx_drop_count)
  unfolding measure_interval
  measure_interval-same t m = elim (Bool-cases m.first_rx_packet) [
    | inl e ↦ rw e (record { callback = refl; count = refl }, refl, refl)
    | inr e ↦ rw e (record { callback = refl; count = refl }, refl, refl)
  ]

  push_received_lem :
      (bytes : List ℕ) (m : Manager App)
      → IsQueue m.rx_queue
      → m.rx_drop_count < 2 ^ 64
      → length bytes ≤ max_packet_size
      → let m' = push_received bytes m in
        SameCounts m m'
        × IsQueue m'.rx_queue
        × (waiting m'.rx_queue ≡ take 1023 (waiting m.rx_queue ++ bytes ∷ []))
        × (m'.rx_drop_count ≡ u64 (m.rx_drop_count + (length (waiting m.rx_queue) + 1 - 1023)))
  unfolding push_received
  push_received_lem bytes m v small fits = elim (push_cases bytes m.rx_queue v fits) [
    | inl (full, refused, same) ↦
        rw (refused, same)
          (
            record { callback = refl; count = refl },
            push-IsQueue bytes m.rx_queue v fits,
            sym (take-append_length 1023 (waiting m.rx_queue) (bytes ∷ []) (omega arith)),
            omega (arith, full),
          )
    | inr (free, taken, longer) ↦
        rw (taken, longer)
          (
            record { callback = refl; count = refl },
            push-IsQueue bytes m.rx_queue v fits,
            sym (
                take-length 1023 _
                  (omega (arith, length-append {0} (waiting m.rx_queue) (bytes ∷ [])))),
            omega arith,
          )
  ]

  handle_datagram-Delivers :
      (pass : RxPass) (bytes : List ℕ) (s : RxState App)
      → IsReady s.manager
      → length bytes ≤ max_packet_size
      → Delivers
          (record { time = pass.callback_time; bytes = bytes } ∷ [])
          s
          (handle_datagram pass bytes s)
  unfolding handle_datagram
  handle_datagram-Delivers pass bytes s r fits =
      let counted : Manager App = record s.manager {
        rx_packet_count = u64 (s.manager.rx_packet_count + 1);
      } in
      let (same, queue, drop) = measure_interval-same pass.rx_start counted in
      let (same', valid, contents, dropped) =
        push_received_lem bytes (measure_interval pass.rx_start counted) (rw queue r.queue)
          (omega (arith, drop, r.drop_fits)) fits in
      record {
        same_callback = same'.callback ∙ same.callback;
        app_eq =
            ap (λ c. run_callback c pass.callback_time bytes s.app)
              (same'.callback ∙ same.callback);
        count_eq = same'.count ∙ same.count;
        queue_eq = contents ∙ ap (λ w. take 1023 (waiting w ++ bytes ∷ [])) queue;
        drop_eq = dropped ∙ ap₂ (λ d w. u64 (d + (length (waiting w) + 1 - 1023))) drop queue;
        ready = record {
          queue = valid;
          count_fits = omega (arith, same'.count, same.count);
          drop_fits = omega (arith, dropped);
        };
      }

  handle_received-Delivers :
      (pass : RxPass) (received : Received) (s : RxState App)
      → IsReady s.manager
      → length (received_bytes received) ≤ max_packet_size
      → Delivers (deliveries_of received pass.callback_time) s (handle_received pass received s).0
        × ((handle_received pass received s).1 ≡ is_fatal received)
  unfolding handle_received is_transient_error
  handle_received-Delivers pass (datagram []) s r fits = (Delivers-nil s _ refl refl r, refl)
  handle_received-Delivers pass (datagram (b ∷ bytes)) s r fits =
      rw (lt→ltb 0 (length (b ∷ bytes)) (omega arith))
        (handle_datagram-Delivers pass (b ∷ bytes) s r fits, refl)
  handle_received-Delivers pass (failed eagain) s r fits = (Delivers-nil s _ refl refl r, refl)
  handle_received-Delivers pass (failed ewouldblock) s r fits = (Delivers-nil s _ refl refl r, refl)
  handle_received-Delivers pass (failed eintr) s r fits = (Delivers-nil s _ refl refl r, refl)
  handle_received-Delivers pass (failed econnrefused) s r fits =
      (Delivers-nil s _ refl refl r, refl)
  handle_received-Delivers pass (failed (other n)) s r fits = (Delivers-nil s _ refl refl r, refl)

  rx_step-Delivers :
      (pass : RxPass) (s : RxState App)
      → IsReady s.manager
      → FitsBuffer pass
      → Delivers (deliveries_of pass.received pass.callback_time) s (rx_step pass s).0
        × ((rx_step pass s).1 ≡ is_fatal pass.received)
  unfolding rx_step
  rx_step-Delivers pass s r fits =
      let received = Socket.receive pass.received s.node in
      let (d, fatal) =
        handle_received-Delivers pass pass.received (record s { node = received }) r fits in
      (
        Delivers-append [] _ s (record s { node = received }) _
            (Delivers-nil s (record s { node = received }) refl refl r) d,
        fatal,
      )

  rx_thread_loop-Delivers :
      (passes : List RxPass) (s : RxState App)
      → IsReady s.manager
      → All FitsBuffer passes
      → Delivers (delivered passes) s (rx_thread_loop passes s)
  unfolding rx_thread_loop
  rx_thread_loop-Delivers [] s r fits = Delivers-nil s s refl refl r
  rx_thread_loop-Delivers (pass ∷ passes) s r fits =
      let (d, fatal) = rx_step-Delivers pass s r fits.0 in
      elim (Bool-cases (pass.running && not (is_fatal pass.received))) [
        | inl more ↦
            rw (fatal, more)
              (Delivers-append _ (delivered passes) s (rx_step pass s).0 _ d
                (rx_thread_loop-Delivers passes (rx_step pass s).0 d.ready fits.1))
        | inr done ↦ rw (fatal, done, append-nil) d
      ]

-- From a valid receive queue and 64-bit counters, with datagrams that fit the buffer of 2048
-- bytes: up to the pass that ends the receiver's loop, every datagram of at least one byte is
-- handed to the callback exactly once, in order, and counted. The receive queue keeps the first
-- 1023 of those that it held and those that arrive, and each of the others is counted as dropped,
-- the counters modulo 2^64.
pub rx_thread_loop_lem :
    {App : Type 0} (passes : List RxPass) (s : RxState App)
    → IsReady s.manager
    → All FitsBuffer passes
    → let s' = rx_thread_loop passes s in
      let ds = delivered passes in
      let queue = waiting s.manager.rx_queue in
      (s'.app ≡ run_callbacks s.manager.rx_callback ds s.app)
      × (s'.manager.rx_packet_count ≡ u64 (s.manager.rx_packet_count + length ds))
      × (waiting s'.manager.rx_queue ≡ take 1023 (queue ++ map (λ d. d.bytes) ds))
      × (s'.manager.rx_drop_count
          ≡ u64 (s.manager.rx_drop_count + (length queue + length ds - 1023)))
rx_thread_loop_lem passes s r fits =
    let d = rx_thread_loop-Delivers passes s r fits in (d.app_eq, d.count_eq, d.queue_eq, d.drop_eq)
