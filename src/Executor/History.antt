-- ===== src/Executor/History.antt =====
-- The steps that a session records are a path through the states, whatever the deployment meets.
use kace.Prelude.{ℕ, ◌+◌, true, false, String, List, [], ◌∷◌, ◌++◌, ◌≡◌, refl, arith}
use kace.Effects.{Exc, Exec, ExecutionErrorType, message}
use kace.Effects.Triples.{
  Triple, Triple-bind, Triple-if, Triple-gets, Triple-raise, Triple-weaken, Triple-pure,
}
use kace.Effects.Keeping.{Keeps, Keeps-pure, Keeps-bind, Keeps-if}
use kace.Effects.Ending.{Keeps-Anywhere}
use kace.Executor.Session.{
  ContractDeploymentState, prepared, media_selected, media_verified, copied, copy_verified, ejected,
  waiting_for_manual_power_cycle, waiting_for_mcu_reenumeration, mcu_reenumerated,
  waiting_for_klipper, verifying_firmware, verified, failed, DeploymentStepRecord,
  ContractDeploymentSession,
}
use kace.Executor.Steps.{
  Executor, Stage, outside, the_session, is_failed, is_allowed, is_final, record_state, transition,
  fail_session, enter,
}
use kace.Executor.Rules.{
  On, Any, Keeps-outside, Triple-change, Keeps-change, Keeps-raise_proved, Keeps-clock_text,
  Keeps-emit_state, Keeps-close_quietly,
}

-- The place of a state in the procedure; FAILED is out of the line.
abbrev pub place : ContractDeploymentState → ℕ
place prepared = 0
place media_selected = 1
place media_verified = 2
place copied = 3
place copy_verified = 4
place ejected = 5
place waiting_for_manual_power_cycle = 6
place waiting_for_mcu_reenumeration = 7
place mcu_reenumerated = 8
place waiting_for_klipper = 9
place verifying_firmware = 10
place verified = 11
place failed = 20

-- One step: to the next place, or to FAILED from a state that is not an end.
infix 30 ◌⟶◌
pub data ◌⟶◌ : ContractDeploymentState → ContractDeploymentState → Type 0 where
  next : {a b : ContractDeploymentState} → place b ≡ place a + 1 → a ⟶ b
  give_up : {a : ContractDeploymentState} → is_final a ≡ false → a ⟶ failed

-- The records of a path from PREPARED to the state.
pub data PathTo : List DeploymentStepRecord → ContractDeploymentState → Type 0 where
  start :
      (at detail : String)
      → PathTo (record { state = prepared; timestamp = at; detail = detail } ∷ []) prepared
  then :
      {steps : List DeploymentStepRecord} {a b : ContractDeploymentState} (at detail : String)
      → PathTo steps a
      → a ⟶ b
      → PathTo (steps ++ (record { state = b; timestamp = at; detail = detail } ∷ [])) b

abbrev pub HasHistory : ContractDeploymentSession → Type 0
HasHistory session = PathTo session.steps session.state

allowed-next : (a b : ContractDeploymentState) → is_allowed a b ≡ true → place b ≡ place a + 1
allowed-next a b h = ground arith

-- The steps are a path, and `b` may follow.
abbrev MayEnter : ContractDeploymentState → ContractDeploymentSession → Type 0
MayEnter b session = HasHistory session × (session.state ⟶ b)

is_failed-failed : (a : ContractDeploymentState) → is_failed a ≡ true → a ≡ failed
is_failed-failed a h = ground arith

module _ {W : Type 0} where
  -- A condition on the stage where nothing of the world matters.
  abbrev pub OnPath : Stage W → Type 0
  OnPath = On HasHistory Any

  pub outside-OnPath : {A : Type 0} (m : Exec W A) → Keeps OnPath (outside m)
  outside-OnPath m = Keeps-outside m (Keeps-Anywhere m)

  -- Reading the session, with what is known of it.
  pub session-known :
      {R : ContractDeploymentSession → Type 0} {E : Exc → Stage W → Type 0}
      → Triple (On R Any) (the_session {W = W}) (λ x s. (s.session ≡ x) × On R Any s) E
  session-known = Triple-gets _ (λ s p. (refl, p))

module _ {W : Type 0} (executor : Executor W) where
  pub record_state-Triple :
      (b : ContractDeploymentState) (detail : String)
      → Triple (On (MayEnter b) Any) (record_state executor b detail) (λ _. OnPath) (λ _. OnPath)
  unfolding record_state
  record_state-Triple b detail =
      Triple-bind {R = λ _. On (MayEnter b) Any} _ _
        (Triple-weaken (Keeps-clock_text executor (λ w p. tt)).triple (λ s p. p) (λ a s p. p)
          (λ e s p. record { session = p.session.0; world = tt }))
        λ at.
          Triple-bind {R = λ _. OnPath} _ _
            (Triple-change (enter b at detail) (λ x h. then at detail h.0 h.1))
            λ _.
              (Keeps-bind _ _
                (Keeps-if (is_final b) _ _
                  (Keeps-bind _ _ (Keeps-clock_text executor (λ w p. tt))
                    (λ end. Keeps-change _ (λ x h. h)))
                  (Keeps-pure tt))
                (λ _. Keeps-emit_state executor (λ e. Keeps-Anywhere _) detail)).triple

  -- A transition that is not to FAILED.
  pub transition-OnPath :
      (b : ContractDeploymentState) (detail : String)
      → is_failed b ≡ false
      → Keeps OnPath (transition executor b detail)
  unfolding transition
  transition-OnPath b detail h = record {
    triple = Triple-bind _ _ session-known λ x.
        Triple-if (is_failed b) _ _ (λ f. absurd (ground (arith, h, f)))
          λ _.
            Triple-if (is_allowed x.state b) _ _
              (λ allowed.
                Triple-weaken (record_state-Triple b detail)
                  (λ s p. record {
                    session =
                        (p.1.session, next (ground (arith, p.0, allowed-next x.state b allowed)));
                    world = tt;
                  })
                  (λ a s p. p) (λ e s p. p))
              (λ _. Triple-raise _ (λ s p. p.1));
  }

  pub fail_transition-OnPath :
      (detail : String)
      → Triple
          (λ s. (is_final s.session.state ≡ false) × OnPath s)
          (transition executor failed detail)
          (λ _. OnPath)
          (λ _. OnPath)
  unfolding transition
  fail_transition-OnPath detail =
      Triple-bind {R = λ x s. (is_final s.session.state ≡ false) × OnPath s} _ _
        (Triple-gets _ (λ s p. p))
        λ x.
          Triple-weaken (record_state-Triple failed detail)
            (λ s p. record { session = (p.1.session, give_up p.0); world = tt }) (λ a s p. p)
            (λ e s p. p)

  pub fail_session-OnPath :
      {A : Type 0} (e : Exc) (type : ExecutionErrorType) (code : String)
      → Keeps OnPath (fail_session executor {A = A} e type code)
  unfolding fail_session
  fail_session-OnPath e type code = Keeps-bind _ _ (Keeps-change _ (λ x h. h)) λ _. record {
    triple = Triple-bind _ _ session-known λ x.
        Triple-bind {R = λ _. OnPath} _ _
          (Triple-if (is_final x.state) _ _ (λ _. Triple-pure tt (λ s p. p.1))
            (λ going.
              Triple-weaken (fail_transition-OnPath (message e))
                (λ s p. (ground (arith, going, p.0), p.1)) (λ a s p. p) (λ f s p. p)))
          λ _.
            (Keeps-bind _ _ (Keeps-close_quietly executor (Keeps-Anywhere _))
              (λ _. Keeps-raise_proved _ _ _)).triple;
  }
