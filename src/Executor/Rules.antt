-- ===== src/Executor/Rules.antt =====
-- The rules for a condition on a stage: one on its session with one on its world.
use kace.Prelude.{String, Option, List, ℕ}
use kace.Effects.{Exc, Result, ok, err, Exec, ExecutionErrorType}
use kace.Effects.Triples.{Outcome, Triple, Triple-modify}
use kace.Effects.Keeping.{
  Keeps, Keeps-modify, Keeps-pure, Keeps-gets, Keeps-bind, Keeps-attempt, keeps_rules,
}
use kace.Executor.Session.{ContractDeploymentSession, DeploymentProof}
use kace.Executor.Steps.{
  Executor, Stage, outside, change, set_sequences, attach, raise_proved, clock_text, emit_state,
  close_quietly,
}

-- A record, so that a rule's conclusion shows both conditions.
pub record On {W : Type 0} (R : ContractDeploymentSession → Type 0) (P : W → Type 0) (s : Stage W)
    : Type 0 where
  pub session : R s.session
  pub world : P s.world

-- No condition on the session, or on the world.
abbrev pub Any : {X : Type 0} → X → Type 0
Any x = Unit {0}

outside-Outcome :
    {W A : Type 0} (R : ContractDeploymentSession → Type 0) (Q : A → W → Type 0)
    (E : Exc → W → Type 0) (session : ContractDeploymentSession) (sequences : List (String × ℕ))
    (attached : Option DeploymentProof) (r : Result A × W)
    → R session
    → Outcome Q E r
    → Outcome
        (λ a. On R (Q a))
        (λ e. On R (E e))
        (r.0, record { session = session; sequences = sequences; attached = attached; world = r.1 })
outside-Outcome R Q E session sequences attached (ok a, w) k h = record { session = k; world = h }
outside-Outcome R Q E session sequences attached (err e, w) k h = record { session = k; world = h }

module _ {W A : Type 0} {P : W → Type 0} where
  -- A call outside leaves the session alone.
  pub Triple-outside :
      {Q : A → W → Type 0} {E : Exc → W → Type 0} (R : ContractDeploymentSession → Type 0)
      (m : Exec W A)
      → Triple P m Q E
      → Triple (On R P) (outside m) (λ a. On R (Q a)) (λ e. On R (E e))
  unfolding outside
  Triple-outside {Q} {E} R m t = record {
    at = λ s p.
        outside-Outcome R Q E s.session s.sequences s.attached (m s.world) p.session
          (t.at s.world p.world);
  }

  pub Keeps-outside :
      {R : ContractDeploymentSession → Type 0} (m : Exec W A)
      → Keeps P m
      → Keeps (On R P) (outside m)
  Keeps-outside {R} m h = record { triple = Triple-outside R m h.triple }

module _ {W : Type 0} {P : W → Type 0} where
  -- A change of the session leaves the world alone.
  pub Triple-change :
      {R R' : ContractDeploymentSession → Type 0} {E : Exc → Stage W → Type 0}
      (f : ContractDeploymentSession → ContractDeploymentSession)
      → ((x : ContractDeploymentSession) → R x → R' (f x))
      → Triple (On R P) (change f) (λ _. On R' P) E
  unfolding change
  Triple-change f h =
      Triple-modify _ (λ s p. record { session = h s.session p.session; world = p.world })

  module _ {R : ContractDeploymentSession → Type 0} where
    pub Keeps-change :
        (f : ContractDeploymentSession → ContractDeploymentSession)
        → ((x : ContractDeploymentSession) → R x → R (f x))
        → Keeps (On R P) (change f)
    Keeps-change f h = record { triple = Triple-change f h }

    pub Keeps-set_sequences : (m : List (String × ℕ)) → Keeps (On R P) (set_sequences m)
    unfolding set_sequences
    Keeps-set_sequences m = Keeps-modify _ (λ s p. record { session = p.session; world = p.world })

    pub Keeps-attach : Keeps (On {W = W} R P) attach
    unfolding attach
    Keeps-attach = Keeps-modify _ (λ s p. record { session = p.session; world = p.world })

    pub Keeps-raise_proved :
        {A : Type 0} (type : ExecutionErrorType) (code text : String)
        → Keeps (On R P) (raise_proved {A = A} type code text)
    unfolding raise_proved
    Keeps-raise_proved type code text = search (Keeps-attach, keeps_rules)

pub ruleset stage_rules =
    (keeps_rules, Keeps-outside, Keeps-set_sequences, Keeps-attach, Keeps-raise_proved)

module _ {W : Type 0} (executor : Executor W) {R : ContractDeploymentSession → Type 0}
    {P : W → Type 0} where
  pub Keeps-clock_text :
      ((w : W) → P w → P (executor.ports.clock w).1) → Keeps (On R P) (clock_text executor)
  unfolding clock_text
  Keeps-clock_text h = Keeps-outside _ (record { triple = record { at = λ w p. h w p } })

  pub Keeps-emit_state :
      ((e : _) → Keeps P (executor.ports.event_sink e))
      → (detail : String) → Keeps (On R P) (emit_state executor detail)
  unfolding emit_state
  Keeps-emit_state sink detail =
      Keeps-bind _ _ (Keeps-gets _)
        λ s. Keeps-bind _ _ (Keeps-set_sequences _) (λ _. Keeps-outside _ (sink _))

  pub Keeps-close_quietly : Keeps P executor.ports.close → Keeps (On R P) (close_quietly executor)
  unfolding close_quietly
  Keeps-close_quietly h =
      Keeps-attempt _ _ _ _ (Keeps-outside _ h) (λ e. Keeps-pure tt) (λ a. Keeps-pure tt)
