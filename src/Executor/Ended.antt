-- ===== src/Executor/Ended.antt =====
-- How the calls at the manual gate end: a failure leaves a final state, an observation leaves all
-- but the observations.
use kace.Prelude.{Bool-cases, inl, inr, Bool, true, false, String, ◌≡◌, refl, arith, ◌⊎◌}
use kace.Effects.{Exc, is_exception, ExecutionErrorType, message, Result, ok, err}
use kace.Effects.Triples.{
  Triple, Triple-bind, Triple-gets, Triple-if, Triple-pure, Triple-raise, Triple-weaken,
  Triple-attempt, Triple-finally,
}
use kace.Effects.Keeping.{Keeps, Keeps-bind, Keeps-if, Keeps-gets}
use kace.Effects.Ending.{Anywhere, Keeps-Anywhere, Triple-ok, Triple-err}
use kace.Executor.Session.{
  ContractDeploymentState, waiting_for_manual_power_cycle, failed, verified, PowerObservation,
  ContractDeploymentSession,
}
use kace.Executor.Steps.{
  Executor, Stage, outside, clock_text, is_final, record_state, transition, close_quietly,
  fail_session, raise_proved,
}
use kace.Executor.Gate.{
  is_at_gate, record_power_observation, follow_failed, close_at_end, is_closing,
  confirm_manual_power_cycle,
}
use kace.Executor.Rules.{
  On, Any, Triple-change, Keeps-change, Keeps-raise_proved, Keeps-close_quietly, Keeps-attach,
}
use kace.Executor.Steady.{end-Keeps, outside-Keeps}

-- The session has come to an end.
abbrev IsEnded : ContractDeploymentSession → Type 0
IsEnded x = is_final x.state ≡ true

-- What a raise leaves: the end, unless nothing catches it.
abbrev Closed : {W : Type 0} → Exc → Stage W → Type 0
Closed e s = is_exception e ≡ true → On IsEnded Any s

final-cases : (b : ContractDeploymentState) → is_final b ≡ true → (b ≡ verified) ⊎ (b ≡ failed)
final-cases b h = ground arith

-- What an observation does not touch.
abbrev pub SameProgress : ContractDeploymentSession → ContractDeploymentSession → Type 0
SameProgress x y =
    (y.state ≡ x.state)
    × (y.steps ≡ x.steps)
    × (y.manual_confirmation ≡ x.manual_confirmation)
    × (y.errors ≡ x.errors)

module _ {W : Type 0} (executor : Executor W) where
  clock_text-Triple :
      {R : ContractDeploymentSession → Type 0} {E : Exc → Stage W → Type 0}
      → Triple (On R Any) (clock_text executor) (λ _. On R Any) E
  unfolding clock_text outside
  clock_text-Triple = record { at = λ s p. record { session = p.session; world = tt } }

  record_failed-Triple :
      (detail : String)
      → Triple
          (On Any Any)
          (record_state executor failed detail)
          (λ _. On IsEnded Any)
          (λ _. On IsEnded Any)
  unfolding record_state
  record_failed-Triple detail = Triple-bind _ _ clock_text-Triple λ at.
      Triple-bind {R = λ _. On IsEnded Any} _ _ (Triple-change _ (λ x h. refl))
        λ _. (end-Keeps executor (is_final failed) detail (λ end x h. h)).triple

  raise-Triple :
      {A : Type 0} {Q : A → Stage W → Type 0} (type : ExecutionErrorType) (code text : String)
      → Triple
          (On IsEnded Any)
          (raise_proved {W = W} {A = A} type code text)
          Q
          (λ _. On IsEnded Any)
  unfolding raise_proved
  raise-Triple type code text = Triple-bind _ _ Keeps-attach.triple (λ _. Triple-raise _ (λ s p. p))

  -- `_fail` raises, and leaves the session at an end.
  fail_session-Triple :
      {A : Type 0} {Q : A → Stage W → Type 0} (e : Exc) (type : ExecutionErrorType) (code : String)
      → Triple Anywhere (fail_session executor {A = A} e type code) Q (λ _. On IsEnded Any)
  unfolding fail_session transition
  fail_session-Triple e type code =
      Triple-bind {R = λ _. On Any Any} _ _
        (Triple-weaken (Triple-change {R = Any} {R' = Any} _ (λ x h. tt))
          (λ s p. record { session = tt; world = tt }) (λ _ s p. p) (λ f s p. p))
        λ _.
          Triple-bind {R = λ x s. (s.session ≡ x) × On Any Any s} _ _
            (Triple-gets _ (λ s p. (refl, p)))
            λ x.
              Triple-bind {R = λ _. On IsEnded Any} _ _
                (Triple-if (is_final x.state) _ _
                  (λ ended.
                    Triple-pure tt
                      (λ s p. record { session = ground (arith, ended, p.0); world = tt }))
                  (λ _.
                    Triple-bind {R = λ _. On Any Any} _ _ (Triple-gets _ (λ s p. p.1))
                      (λ y. record_failed-Triple (message e))))
                λ _.
                  Triple-bind _ _ (Keeps-close_quietly executor (Keeps-Anywhere _)).triple
                    (λ _. raise-Triple type code (message e))

  -- Closing leaves the session alone, and lets no exception out.
  close-Triple :
      {R : ContractDeploymentSession → Type 0}
      → Triple
          (On R Any)
          (close_quietly executor)
          (λ _. On R Any)
          (λ e (_ : Stage W). is_exception e ≡ false)
  unfolding close_quietly
  close-Triple {R} =
      Triple-attempt {F = λ _. On R Any} is_exception _ _ _ (outside-Keeps _).triple
        (λ _. Triple-pure tt (λ s p. p)) (λ e c. Triple-pure tt (λ s p. p)) (λ e s c p. c)

  module _ (matches : String → String → Bool) where
    close_at_end-Triple :
        {R : ContractDeploymentSession → Type 0}
        → Triple
            (On R Any)
            (close_at_end executor matches)
            (λ _. On R Any)
            (λ e (_ : Stage W). is_exception e ≡ false)
    unfolding close_at_end
    close_at_end-Triple {R} =
        Triple-bind {R = λ (x : ContractDeploymentSession). On R Any} _ _ (Triple-gets _ (λ s p. p))
          λ x.
            Triple-if (is_closing x.state) _ _ (λ _. close-Triple) (λ _. Triple-pure tt (λ s p. p))

    close_after-Triple :
        (e : Exc) → Triple (Closed {W = W} e) (close_at_end executor matches) (λ _. Closed e) Closed
    close_after-Triple e = elim (Bool-cases (is_exception e)) [
      | inl holds ↦
          Triple-weaken close_at_end-Triple (λ s h. h holds) (λ _ s p _. p)
            (λ f s out caught. absurd (ground (arith, out, caught)))
      | inr fails ↦
          Triple-weaken (close_at_end-Triple {R = Any}) (λ s h. record { session = tt; world = tt })
            (λ _ s p caught. absurd (ground (arith, fails, caught)))
            (λ f s out caught. absurd (ground (arith, out, caught)))
    ]

    confirm-Triple :
        (confirmed defer : Bool)
        → Triple
            (λ (s : Stage W). is_at_gate s.session.state ≡ true)
            (confirm_manual_power_cycle executor matches confirmed defer)
            (λ _ _. Unit {0})
            Closed
    unfolding confirm_manual_power_cycle follow_failed
    confirm-Triple confirmed defer =
        Triple-bind {R = λ x s. is_at_gate x.state ≡ true} _ _ (Triple-gets _ (λ s p. p)) λ x.
          Triple-if (is_at_gate x.state) _ _
            (λ _.
              Triple-if confirmed _ _
                (λ _.
                  Triple-weaken
                    (Triple-bind {R = λ _. Anywhere} _ _
                      (Triple-weaken clock_text-Triple (λ s p. record { session = tt; world = tt })
                        (λ a s p. tt) (λ f s p. p))
                      λ at.
                        Triple-bind {R = λ _. Anywhere} _ _
                          (Triple-weaken (Triple-change {R = Any} {R' = Any} _ (λ y h. tt))
                            (λ s p. record { session = tt; world = tt }) (λ _ s p. tt) (λ f s p. p))
                          λ _.
                            Triple-finally {F = Closed} _ _
                              (Triple-attempt {F = λ _. Anywhere} is_exception _ _ _
                                (Keeps-Anywhere _).triple (λ p. Triple-pure p (λ s h. tt))
                                (λ e c.
                                  Triple-weaken (fail_session-Triple e _ _) (λ s h. h) (λ a s h. h)
                                    (λ f s h _. h))
                                (λ e s c h caught. absurd (ground (arith, c, caught))))
                              (λ p.
                                Triple-weaken (close_at_end-Triple {R = Any})
                                  (λ s h. record { session = tt; world = tt }) (λ _ s h. tt)
                                  (λ f s out caught. absurd (ground (arith, out, caught))))
                              close_after-Triple)
                    (λ s p. tt) (λ a s p. tt) (λ e s p. p))
                (λ _. Triple-gets _ (λ s p. tt)))
            (λ away. record { at = λ s p. absurd (ground (arith, away, p)) })

    -- A `confirm_manual_power_cycle` at the manual gate that ends in an exception leaves the session
    -- VERIFIED or FAILED: no failure behind the gate leaves it waiting. An interrupt is not meant.
    pub confirm_failure_final :
        (confirmed defer : Bool) (s s' : Stage W) (e : Exc)
        → s.session.state ≡ waiting_for_manual_power_cycle
        → confirm_manual_power_cycle executor matches confirmed defer s ≡ (err e, s')
        → is_exception e ≡ true
        → (s'.session.state ≡ verified) ⊎ (s'.session.state ≡ failed)
    confirm_failure_final confirmed defer s s' e gate run caught =
        final-cases s'.session.state
          (Triple-err (confirm-Triple confirmed defer) (ground (arith, gate)) run caught).session

    observation-Keeps :
        (observation : PowerObservation) (x : ContractDeploymentSession)
        → Keeps
            (On {W = W} (SameProgress x) Any)
            (record_power_observation executor matches observation)
    unfolding record_power_observation
    observation-Keeps observation x = Keeps-bind _ _ (Keeps-gets _) λ y.
        Keeps-if _ _ _ (Keeps-bind _ _ (Keeps-change _ (λ z h. h)) (λ _. Keeps-gets _))
          (Keeps-raise_proved _ _ _)

    -- Recording a power observation, whatever it says and wherever the session stands, neither
    -- moves the session on nor counts as a confirmation: its state, its steps, its confirmation and
    -- its errors stay.
    pub observation_advances_nothing :
        (observation : PowerObservation) (s s' : Stage W) (r : Result ContractDeploymentSession)
        → record_power_observation executor matches observation s ≡ (r, s')
        → SameProgress s.session s'.session
    observation_advances_nothing observation s s' (ok x) run =
        (Triple-ok (observation-Keeps observation s.session).triple
          (record { session = (refl, refl, refl, refl); world = tt }) run).session
    observation_advances_nothing observation s s' (err e) run =
        (Triple-err (observation-Keeps observation s.session).triple
          (record { session = (refl, refl, refl, refl); world = tt }) run).session
