-- ===== src/Signals/Callbacks.antt =====
-- What a signal does: the flag, the callbacks in the order of their registration, and the message.
use agent_team_test.Prelude.{
  ℕ, suc, ◌+◌, ◌≡◌, ◌≢◌, refl, ap, ◌∙◌, true, Option, none, some, List, [], ◌∷◌, ◌++◌, All, arith,
  length, take, take-append_length, ◌==◌, ne→==_false, Bool-cases, inl, inr,
}
use agent_team_test.Signals.{
  ShutdownCallback, SignalHandler, sigint, sigterm, count_from, written, message, register_callback,
  execute_callbacks, signal_handler_function,
}

count_from_lem :
    (text : List ℕ) (len : ℕ)
    → All (λ c. c ≢ 0) text
    → count_from (text ++ 0 ∷ []) len ≡ len + length text
unfolding count_from
count_from_lem [] len h = omega arith
count_from_lem (c ∷ text) len h =
    rw (ne→==_false c 0 h.0) (count_from_lem text (len + 1) h.1 ∙ omega arith)

-- A text that is not empty is written whole.
written_lem :
    (c : ℕ) (text : List ℕ) → All (λ d. d ≢ 0) text → written (c ∷ text ++ 0 ∷ []) ≡ c ∷ text
unfolding written
written_lem c text h =
    let count : count_from (text ++ 0 ∷ []) 1 ≡ suc (length text) =
      count_from_lem text 1 h ∙ omega arith in
    ap (λ n. take n (c ∷ text ++ 0 ∷ [])) count
    ∙ take-append_length (suc (length text)) (c ∷ text) (0 ∷ []) (omega arith)

-- Every message of the handler is written whole.
written-message : (signum : ℕ) → written (message signum ++ 0 ∷ []) ≡ message signum
unfolding message
written-message signum = elim (Bool-cases (signum == sigint)) [
  | inl e ↦ rw e (written_lem _ _ (omega arith))
  | inr e ↦ elim (Bool-cases (signum == sigterm)) [
    | inl f ↦ rw (e, f) (written_lem _ _ (omega arith))
    | inr f ↦ rw (e, f) (written_lem _ _ (omega arith))
  ]
]

module _ {World : Type 0} where
  pub execute_callbacks-append :
      (signum : ℕ) (a b : List (Option (ShutdownCallback World))) (w : World)
      → execute_callbacks signum (a ++ b) w
        ≡ execute_callbacks signum b (execute_callbacks signum a w)
  unfolding execute_callbacks
  execute_callbacks-append signum [] b w = refl
  execute_callbacks-append signum (none ∷ a) b w = execute_callbacks-append signum a b w
  execute_callbacks-append signum (some c ∷ a) b w =
      execute_callbacks-append signum a b (c signum w)

  -- A signal sets the flag, records its number, runs the callback registered last on what the
  -- earlier ones leave, and writes its message whole, without the 0 at its end.
  pub signal_handler_function_lem :
      (signum : ℕ) (callback : ShutdownCallback World) (h : SignalHandler World) (w : World)
      → let (h', w', out) =
          signal_handler_function signum (register_callback (some callback) h) w in
        (h'.shutdown_requested ≡ true)
        × (h'.signal_number ≡ signum)
        × (w' ≡ callback signum (execute_callbacks signum h.callbacks w))
        × (out ≡ message signum)
  unfolding signal_handler_function register_callback
  signal_handler_function_lem signum callback h w = (
    refl,
    refl,
    execute_callbacks-append signum h.callbacks (some callback ∷ []) w
        ∙ (unfold execute_callbacks in refl),
    written-message signum,
  )
