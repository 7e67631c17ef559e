-- ===== src/Executor/Steady.antt =====
-- Conditions on a session that no transition changes, and what a transition that returns leaves.
use kace.Prelude.{Bool, String, ◌≡◌, refl, if◌then◌else◌}
use kace.Effects.{Exec, pure, ◌>>=◌, ◌>>◌}
use kace.Effects.Triples.{}
use kace.Effects.Keeping.{Keeps, Keeps-pure, Keeps-bind, Keeps-if, Keeps-gets, keeps_rules}
use kace.Effects.Ending.{
  Ends, Ends-raise, Ends-if, Ends-then, Ends-bind, Ends-Keeps, Keeps-Anywhere,
}
use kace.Executor.Session.{ContractDeploymentState, ContractDeploymentSession}
use kace.Executor.Steps.{
  Executor, outside, change, clock_text, emit_state, transition, record_state, enter,
}
use kace.Executor.Media.{}
use kace.Executor.Gate.{}
use kace.Executor.Rules.{
  On, Any, Keeps-outside, Triple-change, Keeps-change, Keeps-clock_text, Keeps-emit_state,
}

-- A condition that does not read what a transition writes.
pub record IsSteady (R : ContractDeploymentSession → Type 0) : Type 0 where
  pub entered :
      (b : ContractDeploymentState) (at detail : String) (x : ContractDeploymentSession)
      → R x
      → R (enter b at detail x)
  pub finished :
      (end : String) (x : ContractDeploymentSession) → R x → R (record x { finished_at = end })

module _ {W : Type 0} {R : ContractDeploymentSession → Type 0} where
  pub outside-Keeps : {A : Type 0} (m : Exec W A) → Keeps (On R Any) (outside m)
  outside-Keeps m = Keeps-outside m (Keeps-Anywhere m)

  pub change-Ends :
      {R' : ContractDeploymentSession → Type 0}
      (f : ContractDeploymentSession → ContractDeploymentSession)
      → ((x : ContractDeploymentSession) → R x → R' (f x))
      → Ends (On {W = W} R Any) (λ _. On R' Any) (change f)
  change-Ends f h = record { triple = Triple-change f h }

-- The condition with a known state.
abbrev pub At :
    ContractDeploymentState
    → (ContractDeploymentSession → Type 0)
    → ContractDeploymentSession
    → Type 0
At b R x = R x × (x.state ≡ b)

module _ {W : Type 0} (executor : Executor W) where
  -- What `record_state` does behind the new record.
  pub end-Keeps :
      {R : ContractDeploymentSession → Type 0} (b : Bool) (detail : String)
      → ((end : String) (x : ContractDeploymentSession) → R x → R (record x { finished_at = end }))
      → Keeps (On R Any) (
          (if b
            then (clock_text executor >>= λ end.
                change (λ session. record session { finished_at = end }))
            else pure tt)
          >> emit_state executor detail)
  end-Keeps b detail h =
      Keeps-bind _ _
        (Keeps-if b _ _
          (Keeps-bind _ _ (Keeps-clock_text executor (λ w p. tt)) (λ end. Keeps-change _ (h end)))
          (Keeps-pure tt))
        (λ _. Keeps-emit_state executor (λ e. Keeps-Anywhere _) detail)

  module _ {R : ContractDeploymentSession → Type 0} (steady : IsSteady R)
      (b : ContractDeploymentState) (detail : String) where
    record_state-Keeps : Keeps (On R Any) (record_state executor b detail)
    unfolding record_state
    record_state-Keeps = Keeps-bind _ _ (Keeps-clock_text executor (λ w p. tt)) λ at.
        Keeps-bind _ _ (Keeps-change _ (steady.entered b at detail))
          λ _. end-Keeps _ detail steady.finished

    pub transition-Keeps : Keeps (On R Any) (transition executor b detail)
    unfolding transition
    transition-Keeps = search (record_state-Keeps, keeps_rules)

    record_state-Ends :
        Ends (On {W = W} R Any) (λ _. On (At b R) Any) (record_state executor b detail)
    unfolding record_state
    record_state-Ends = Ends-bind _ _ (Keeps-clock_text executor (λ w p. tt)) λ at.
        Ends-then {R = λ _. On (At b R) Any} _ _
          (change-Ends _ (λ x h. (steady.entered b at detail x h, refl)))
          λ _.
            Ends-Keeps _ (end-Keeps _ detail (λ end x h. (steady.finished end x h.0, h.1)))
              (λ _ s p. p)

    -- A transition that returns is in the new state.
    pub transition-Ends :
        Ends (On {W = W} R Any) (λ _. On (At b R) Any) (transition executor b detail)
    unfolding transition
    transition-Ends =
        Ends-bind _ _ (Keeps-gets _)
          λ x. Ends-if _ _ _ record_state-Ends (Ends-if _ _ _ record_state-Ends (Ends-raise _))
