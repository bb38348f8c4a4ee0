-- ===== src/Threads/Deliveries.antt =====
-- What a run of the receiver delivers: the datagrams, and what they make of the manager.
use agent_team_test.Prelude.{
  ℕ, zero, suc, ◌+◌, ◌-◌, ◌^◌, ◌≤◌, ◌<◌, ◌≡◌, refl, sym, ap, ◌∙◌, Bool, true, false, not, ◌&&◌,
  Option, List, [], ◌∷◌, ◌++◌, map, append_assoc, append-nil, arith, length, length-append,
  length-take, length-map, take, take-length, if◌then◌else◌, u64,
}
use mathlib.Core.List.{map-append}
use agent_team_test.Threads.Queues.{IsQueue, waiting, length-waiting_le}
use agent_team_test.Socket.{Received, datagram, failed, other}
use agent_team_test.Threads.State.{Manager, RxCallback, max_packet_size}
use agent_team_test.Threads.Loops.{RxPass, RxState, run_callback}

-- A datagram and the time of its callback.
pub record Delivery : Type 0 where
  pub time : ℕ
  pub bytes : List ℕ

abbrev pub deliveries_of : Received → ℕ → List Delivery
deliveries_of (datagram []) time = []
deliveries_of (datagram (b ∷ bytes)) time = record { time = time; bytes = b ∷ bytes } ∷ []
deliveries_of (failed errno) time = []

abbrev pub is_fatal : Received → Bool
is_fatal (datagram bytes) = false
is_fatal (failed (other n)) = true
is_fatal (failed errno) = false

-- The datagrams that arrive until the loop ends: after the pass that finds the manager stopped, or
-- whose receive fails for good.
abbrev pub delivered : List RxPass → List Delivery
delivered [] = []
delivered (pass ∷ passes) =
    deliveries_of pass.received pass.callback_time
    ++ (if pass.running && not (is_fatal pass.received) then delivered passes else [])

abbrev pub received_bytes : Received → List ℕ
received_bytes (datagram bytes) = bytes
received_bytes (failed errno) = []

-- `recvfrom` fills at most the buffer that it gets.
abbrev pub FitsBuffer : RxPass → Type 0
FitsBuffer pass = length (received_bytes pass.received) ≤ max_packet_size

abbrev pub run_callbacks : {App : Type 0} → Option (RxCallback App) → List Delivery → App → App
run_callbacks callback [] app = app
run_callbacks callback (d ∷ ds) app =
    run_callbacks callback ds (run_callback callback d.time d.bytes app)

take-take_append {ℓ} :
    {A : Type ℓ} (n : ℕ) (xs ys : List A) → take n (take n xs ++ ys) ≡ take n (xs ++ ys)
take-take_append zero xs ys = refl
take-take_append (suc n) [] ys = refl
take-take_append (suc n) (x ∷ xs) ys = ap (λ l. x ∷ l) (take-take_append n xs ys)

module _ {App : Type 0} where
  -- The queue is valid and the counters are 64-bit words.
  pub record IsReady (m : Manager App) : Type 0 where
    pub queue : IsQueue m.rx_queue
    pub count_fits : m.rx_packet_count < 2 ^ 64
    pub drop_fits : m.rx_drop_count < 2 ^ 64

  -- How the deliveries `ds` change the state.
  pub record Delivers (ds : List Delivery) (s s' : RxState App) : Type 0 where
    pub same_callback : s'.manager.rx_callback ≡ s.manager.rx_callback
    pub app_eq : s'.app ≡ run_callbacks s.manager.rx_callback ds s.app
    pub count_eq : s'.manager.rx_packet_count ≡ u64 (s.manager.rx_packet_count + length ds)
    pub queue_eq :
        waiting s'.manager.rx_queue
        ≡ take 1023 (waiting s.manager.rx_queue ++ map (λ d. d.bytes) ds)
    pub drop_eq :
        s'.manager.rx_drop_count
        ≡ u64 (s.manager.rx_drop_count + (length (waiting s.manager.rx_queue) + length ds - 1023))
    pub ready : IsReady s'.manager

  pub Delivers-nil :
      (s s' : RxState App)
      → s'.manager ≡ s.manager
      → s'.app ≡ s.app
      → IsReady s.manager
      → Delivers [] s s'
  Delivers-nil s s' e a r = rw e (record {
    same_callback = refl;
    app_eq = a;
    count_eq = omega (arith, r.count_fits);
    queue_eq = sym (
        take-length 1023 (waiting s.manager.rx_queue ++ []) (omega (arith, small, none_more))
        ∙ append-nil _);
    drop_eq = omega (arith, r.drop_fits, small);
    ready = r;
  })
    where
      small : length (waiting s.manager.rx_queue) ≤ 1023
      small = length-waiting_le s.manager.rx_queue r.queue

      none_more : length (waiting s.manager.rx_queue ++ []) ≡ length (waiting s.manager.rx_queue)
      none_more = ap length (append-nil _)

  run_callbacks-append :
      (callback : Option (RxCallback App)) (a b : List Delivery) (app : App)
      → run_callbacks callback (a ++ b) app
        ≡ run_callbacks callback b (run_callbacks callback a app)
  run_callbacks-append callback [] b app = refl
  run_callbacks-append callback (d ∷ a) b app =
      run_callbacks-append callback a b (run_callback callback d.time d.bytes app)

  pub Delivers-append :
      (a b : List Delivery) (s s' s'' : RxState App)
      → Delivers a s s'
      → Delivers b s' s''
      → Delivers (a ++ b) s s''
  Delivers-append a b s s' s'' f g = record {
    same_callback = g.same_callback ∙ f.same_callback;
    app_eq =
        g.app_eq
        ∙ rw (f.same_callback, f.app_eq)
            (sym (run_callbacks-append s.manager.rx_callback a b s.app));
    count_eq = omega (arith, g.count_eq, f.count_eq, length-append {0} a b);
    queue_eq =
        g.queue_eq
        ∙ ap (λ q. take 1023 (q ++ map (λ d. d.bytes) b)) f.queue_eq
        ∙ take-take_append 1023 (waiting s.manager.rx_queue ++ map (λ d. d.bytes) a) _
        ∙ ap (take 1023) (
            append_assoc _ (map (λ d. d.bytes) a) _
            ∙ ap (λ l. waiting s.manager.rx_queue ++ l) (sym (map-append (λ d. d.bytes) a b)));
    drop_eq = omega (
      arith,
      g.drop_eq,
      f.drop_eq,
      ap length f.queue_eq,
      length-take {0} 1023 (waiting s.manager.rx_queue ++ map (λ d. d.bytes) a),
      length-append {0} (waiting s.manager.rx_queue) (map (λ d. d.bytes) a),
      length-bytes,
      length-append {0} a b,
    );
    ready = g.ready;
  }
    where
      length-bytes : length (map (λ d. d.bytes) a) ≡ length a
      length-bytes = length-map (λ d. d.bytes) a
