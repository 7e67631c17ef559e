-- ===== src/Executor/Calls.antt =====
-- The operations at the manual gate keep the recorded history a path, and so does every sequence
-- of calls.
use kace.Prelude.{arith, Bool, false, String, Option, none, some, ◌≡◌}
use kace.Effects.{Exc, Result}
use kace.Effects.Triples.{Triple-bind, Triple-weaken, Triple-if, Triple-modify}
use kace.Effects.Keeping.{
  Keeps, Keeps-pure, Keeps-bind, Keeps-if, Keeps-gets, Keeps-attempt, Keeps-raise, Keeps-finally,
}
use kace.Effects.Ending.{Keeps-Anywhere}
use kace.Contract.{DeploymentPlan, FirmwareBuildIdentity}
use kace.Executor.Session.{PowerObservation, ContractDeploymentSession, DeploymentProof}
use kace.Executor.Steps.{change, is_final, Executor, Stage}
use kace.Executor.Media.{prepare_media}
use kace.Executor.Gate.{
  record_power_observation, cancel_at_manual_gate, confirm_manual_power_cycle, need_identity,
  verify_fingerprint, follow_mcu, follow_failed, close_at_end, is_closing, is_at_gate,
}
use kace.Executor.Rules.{Keeps-change, Keeps-raise_proved, Keeps-clock_text, Keeps-close_quietly}
use kace.Executor.History.{
  HasHistory, OnPath, fail_session-OnPath, session-known, fail_transition-OnPath,
}
use kace.Executor.Recorded.{kept, path_rules, prepare_media-OnPath}

module _ {W : Type 0} (executor : Executor W) where
  module _ (matches : String → String → Bool) where
    need_identity-OnPath :
        (o : Option FirmwareBuildIdentity) → Keeps (OnPath {W = W}) (need_identity o)
    unfolding need_identity
    need_identity-OnPath none = Keeps-raise _
    need_identity-OnPath (some identity) = Keeps-pure _

    verify_fingerprint-OnPath : Keeps OnPath (verify_fingerprint executor matches)
    unfolding verify_fingerprint
    verify_fingerprint-OnPath = search (need_identity-OnPath, path_rules) depth 30

    follow_mcu-OnPath : (defer : Bool) → Keeps OnPath (follow_mcu executor matches defer)
    unfolding follow_mcu
    follow_mcu-OnPath defer = search (verify_fingerprint-OnPath, path_rules) depth 30

    follow_failed-OnPath :
        {A : Type 0} (e : Exc) → Keeps OnPath (follow_failed executor matches {A = A} e)
    unfolding follow_failed
    follow_failed-OnPath e = fail_session-OnPath executor e _ _

    close_at_end-OnPath : Keeps OnPath (close_at_end executor matches)
    unfolding close_at_end
    close_at_end-OnPath = Keeps-bind _ _ (Keeps-gets _) λ x.
        Keeps-if (is_closing x.state) _ _ (Keeps-close_quietly executor (Keeps-Anywhere _))
          (Keeps-pure tt)

    confirm-OnPath :
        (confirmed defer : Bool)
        → Keeps OnPath (confirm_manual_power_cycle executor matches confirmed defer)
    unfolding confirm_manual_power_cycle
    confirm-OnPath confirmed defer = Keeps-bind _ _ (Keeps-gets _) λ x.
        Keeps-if (is_at_gate x.state) _ _
          (Keeps-if confirmed _ _
            (Keeps-bind _ _ (Keeps-clock_text executor (λ w p. tt)) λ at.
              Keeps-bind _ _ (Keeps-change _ (λ y h. h)) λ _.
                Keeps-finally _ _
                  (Keeps-attempt _ _ _ _ (follow_mcu-OnPath defer) (λ e. follow_failed-OnPath e)
                    (λ p. Keeps-pure p))
                  close_at_end-OnPath)
            (Keeps-gets _))
          (Keeps-raise_proved _ _ _)

    record_power_observation-OnPath :
        (observation : PowerObservation)
        → Keeps OnPath (record_power_observation executor matches observation)
    unfolding record_power_observation
    record_power_observation-OnPath observation = search path_rules depth 12

    cancel-OnPath : (reason : String) → Keeps OnPath (cancel_at_manual_gate executor matches reason)
    unfolding cancel_at_manual_gate change
    cancel-OnPath reason = record {
      triple = Triple-bind _ _ session-known λ x.
          Triple-if (is_at_gate x.state) _ _
            (λ gate.
              Triple-bind {R = λ _ s. (is_final s.session.state ≡ false) × OnPath s} _ _
                (Triple-modify _ (λ s p.
                  (ground (arith, gate, p.0), record { session = p.1.session; world = tt })))
                λ _. Triple-bind {R = λ _. OnPath} _ _ (fail_transition-OnPath executor _) λ _.
                  (Keeps-bind _ _ (Keeps-close_quietly executor (Keeps-Anywhere _))
                    (λ _. Keeps-gets _)).triple)
            (λ _.
              Triple-weaken (Keeps-raise_proved _ _ _).triple (λ s p. p.1) (λ a s p. p)
                (λ e s p. p));
    }

    -- One call of the executor, with its session, whatever it comes to.
    pub data CallOf (s s' : Stage W) : Type 0 where
      preparing :
          (plan : DeploymentPlan) (id : String) (r : Result ContractDeploymentSession)
          → prepare_media executor plan id s ≡ (r, s')
          → CallOf s s'
      observing :
          (observation : PowerObservation) (r : Result ContractDeploymentSession)
          → record_power_observation executor matches observation s ≡ (r, s')
          → CallOf s s'
      cancelling :
          (reason : String) (r : Result DeploymentProof)
          → cancel_at_manual_gate executor matches reason s ≡ (r, s')
          → CallOf s s'
      confirming :
          (confirmed defer : Bool) (r : Result DeploymentProof)
          → confirm_manual_power_cycle executor matches confirmed defer s ≡ (r, s')
          → CallOf s s'

    pub data CallsFrom (s : Stage W) : Stage W → Type 0 where
      none_yet : CallsFrom s s
      and_then : {s' s'' : Stage W} → CallsFrom s s' → CallOf s' s'' → CallsFrom s s''

    call-HasHistory : {s s' : Stage W} → CallOf s s' → HasHistory s.session → HasHistory s'.session
    call-HasHistory (preparing plan id r e) h = kept (prepare_media-OnPath executor plan id) h r e
    call-HasHistory (observing observation r e) h =
        kept (record_power_observation-OnPath observation) h r e
    call-HasHistory (cancelling reason r e) h = kept (cancel-OnPath reason) h r e
    call-HasHistory (confirming confirmed defer r e) h = kept (confirm-OnPath confirmed defer) h r e

    -- In whatever order the executor's operations are called on a session, and however each of
    -- them ends, the recorded steps stay a path: from PREPARED, each step is the next one of the
    -- procedure or leads from a state that is not an end to FAILED, and the last step is the
    -- session's state. The session begins so, as `prepare_media` makes it.
    pub history_recorded :
        {s s' : Stage W} → CallsFrom s s' → HasHistory s.session → HasHistory s'.session
    history_recorded none_yet h = h
    history_recorded (and_then calls call) h = call-HasHistory call (history_recorded calls h)
