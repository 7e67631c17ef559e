-- ===== src/Transaction/Run/Escapes.antt =====
-- Which exceptions leave `run`.
use kace.Prelude.{true, false, ◌||◌, String, List, [], ◌∷◌, ◌≡◌, arith}
use kace.Effects.{Exc, Exec, Result, ok, err, is_exception, is_interrupt, is_publication_error}
use kace.Effects.Triples.{
  Outcome, Triple, Triple-pure, Triple-gets, Triple-bind, Triple-if, Triple-attempt, Triple-lift,
  Triple-finally, Triple-weaken, Triple-assume,
}
use kace.Effects.Ending.{Anywhere, Keeps-Anywhere, Triple-err}
use kace.Transaction.Interface.{Environment, Tx, call, returned}
use kace.Transaction.Recovery.{rollback}
use kace.Transaction.Run.{
  roll_back_interrupted, interrupted, escaped, with_lock, with_destination, run_locked, run_secured,
  destination_identity, run,
}

-- The exceptions that `run` lets pass.
abbrev Passes : Exc → Type 0
Passes e = (is_interrupt e ≡ false) × (is_publication_error e ≡ false)

uncaught-Passes : (e : Exc) → (is_interrupt e || is_publication_error e) ≡ false → Passes e
uncaught-Passes e h = ground arith

module _ {W : Type 0} (env : Environment W) where
  roll_back_interrupted-Passes :
      (names : List String)
      → Triple Anywhere (roll_back_interrupted env names) (λ _. Anywhere) (λ e (_ : Tx W). Passes e)
  unfolding roll_back_interrupted
  roll_back_interrupted-Passes [] = Triple-pure _ (λ t p. tt)
  roll_back_interrupted-Passes (name ∷ names) =
      Triple-attempt _ _ _ _ (Keeps-Anywhere (rollback env)).triple
        (λ rolled. Triple-pure rolled (λ t p. tt)) (λ e c. Triple-pure _ (λ t p. tt))
        (λ e t c p. quiet_exc e c)
    where
      quiet_exc : (e : Exc) → (is_exception e || is_interrupt e) ≡ false → Passes e
      quiet_exc e c = ground arith

  escaped-Passes :
      (e : Exc) → Triple Anywhere (escaped env e) (λ _. Anywhere) (λ e (_ : Tx W). Passes e)
  unfolding escaped interrupted
  escaped-Passes e =
      Triple-if (is_interrupt e) _ _
        (λ _. Triple-bind {R = λ _. Anywhere} _ _ (Triple-gets _ (λ t p. tt)) λ names.
          Triple-bind _ _ (roll_back_interrupted-Passes names) λ rolled.
            Triple-bind {R = λ _. Anywhere} _ _ (Triple-gets _ (λ t p. tt))
              λ snapshot. Triple-pure _ (λ t p. tt))
        (λ _.
          Triple-bind {R = λ _. Anywhere} _ _ (Triple-gets _ (λ t p. tt))
            λ snapshot. Triple-pure _ (λ t p. tt))

  run_secured-Passes : Triple Anywhere (run_secured env) (λ _. Anywhere) (λ e (_ : Tx W). Passes e)
  unfolding run_secured
  run_secured-Passes =
      Triple-attempt _ _ _ _ (Keeps-Anywhere (with_destination env (run_locked env))).triple
        (λ r. Triple-pure r (λ t p. tt)) (λ e c. escaped-Passes e) (λ e t c p. uncaught-Passes e c)

  identity-ok :
      (key : Result (List String)) (parts : List String)
      → key ≡ ok parts
      → (e : Exc) → destination_identity key ≡ err e
      → is_exception e ≡ true
  unfolding destination_identity
  identity-ok key [] k e h = ground arith
  identity-ok key (part ∷ parts) k e h = ground arith

  -- Taking and releasing the process's lock raises no exception that `run` would not let pass.
  pub record IsUninterrupted : Type 0 where
    pub acquired : Triple Anywhere env.acquire (λ _. Anywhere) (λ e _. Passes e)
    pub released : Triple Anywhere env.release (λ _. Anywhere) (λ e _. Passes e)

  call-Passes :
      (m : Exec W (Unit {0}))
      → Triple Anywhere m (λ _. Anywhere) (λ e _. Passes e)
      → Triple Anywhere (call m) (λ _. Anywhere) (λ e (_ : Tx W). Passes e)
  unfolding call
  call-Passes m h = record { at = λ t p. through t (m t.world) (h.at t.world tt) }
    where
      through :
          (t : Tx W) (o : Result (Unit {0}) × W)
          → Outcome (λ _. Anywhere) (λ e _. Passes e) o
          → Outcome (λ _. Anywhere) (λ e (_ : Tx W). Passes e) (returned t o)
      through t (ok a, w) h = tt
      through t (err e, w) h = h

  run-Passes :
      (parts : List String)
      → env.transport.destination_key ≡ ok parts
      → IsUninterrupted
      → Triple Anywhere (run env) (λ _. Anywhere) (λ e (_ : Tx W). Passes e)
  unfolding run with_lock
  run-Passes parts k calm =
      Triple-attempt is_exception _ _ _
        (Triple-lift {E = λ e _. is_exception e ≡ true} _ (λ a t e p. tt)
          (λ e t h p. identity-ok _ parts k e h))
        (λ _. Triple-bind _ _ (call-Passes env.acquire calm.acquired) λ _.
          Triple-finally _ _ run_secured-Passes
            (λ r.
              Triple-weaken (call-Passes env.release calm.released) (λ t h. tt) (λ _ t h. tt)
                (λ e t h. h))
            (λ e.
              Triple-weaken
                (Triple-assume λ passes.
                  Triple-weaken (call-Passes env.release calm.released) (λ t h. tt)
                    (λ _ t h. passes) (λ f t h. h))
                (λ t h. (h, tt)) (λ _ t h. h) (λ f t h. h)))
        (λ e c. Triple-pure _ (λ t p. tt)) (λ e t c p. absurd (cc (c, p)))

  -- With a destination key that can be read, and with the process's lock taken and released without
  -- one of the exceptions named here, whatever `run` raises is neither a KeyboardInterrupt nor one
  -- of OSError, TimeoutError and ConfigConflictError. An interrupt arrives in a call.
  pub run_raises :
      (parts : List String)
      → env.transport.destination_key ≡ ok parts
      → IsUninterrupted
      → (t t' : Tx W) (e : Exc) → run env t ≡ (err e, t')
      → (is_interrupt e ≡ false) × (is_publication_error e ≡ false)
  run_raises parts k calm t t' e h = Triple-err (run-Passes parts k calm) tt h
