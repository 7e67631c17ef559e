-- ===== src/Executor/Verified.antt =====
-- What stands behind a VERIFIED proof.
use kace.Prelude.{Bool, true, String, Option, none, some, ◌≡◌, refl, sym, ◌∙◌, ap, subst}
use kace.Effects.{is_exception, ok}
use kace.Effects.Triples.{Triple-gets, Triple-weaken, Triple-finally, Triple-assume}
use kace.Effects.Keeping.{Keeps-gets}
use kace.Effects.Ending.{
  Ends, Anywhere, Ends-pure, Ends-raise, Ends-if, Ends-then, Ends-bind, Ends-require, Ends-value,
  Ends-try, Ends-Anywhere, Keeps-Anywhere, Triple-ok,
}
use kace.Contract.{DeploymentPlan, FirmwareBuildIdentity}
use kace.Executor.Session.{
  waiting_for_manual_power_cycle, verified, eject_done, SafeEjectResult, McuIdentityEvidence,
  ContractDeploymentSession, DeploymentProof, proof,
}
use kace.Executor.Steps.{Executor, Stage, outside, raise_proved}
use kace.Executor.Media.{prepare_media}
use kace.Executor.Gate.{
  need_identity, verify_fingerprint, follow_mcu, follow_failed, confirm_manual_power_cycle,
}
use kace.Executor.Rules.{On, Any, Triple-outside, Keeps-change, Keeps-clock_text}
use kace.Executor.Steady.{
  IsSteady, At, outside-Keeps, change-Ends, transition-Keeps, transition-Ends,
}
use kace.Executor.Ready.{IsReady, fail_session-Ends, prepare_media-Ends}

-- The user has confirmed the power cycle of a ready medium.
abbrev IsConfirmed : DeploymentPlan → ContractDeploymentSession → Type 0
IsConfirmed plan x = IsReady plan x × (x.manual_confirmation ≡ true)

-- An MCU came back, with an identity that is expected.
abbrev IsBack : (McuIdentityEvidence → Type 0) → DeploymentPlan → ContractDeploymentSession → Type 0
IsBack expected plan x =
    IsConfirmed plan x
    × ((evidence : McuIdentityEvidence) × (x.observed_mcu_identity ≡ some evidence)
        × expected evidence)

-- Klipper has told a fingerprint.
abbrev IsTold :
    (McuIdentityEvidence → Type 0) → DeploymentPlan → String → ContractDeploymentSession → Type 0
IsTold expected plan fingerprint x = IsBack expected plan x × (x.observed_fingerprint ≡ fingerprint)

IsConfirmed-IsSteady : (plan : DeploymentPlan) → IsSteady (IsConfirmed plan)
IsConfirmed-IsSteady plan = record { entered = λ b at detail x h. h; finished = λ end x h. h }

IsBack-IsSteady :
    (expected : McuIdentityEvidence → Type 0) (plan : DeploymentPlan)
    → IsSteady (IsBack expected plan)
IsBack-IsSteady expected plan = record { entered = λ b at detail x h. h; finished = λ end x h. h }

IsTold-IsSteady :
    (expected : McuIdentityEvidence → Type 0) (plan : DeploymentPlan) (fingerprint : String)
    → IsSteady (IsTold expected plan fingerprint)
IsTold-IsSteady expected plan fingerprint = record {
  entered = λ b at detail x h. h;
  finished = λ end x h. h;
}

module _ {W : Type 0} (executor : Executor W) (matches : String → String → Bool)
    (plan : DeploymentPlan) (expected : McuIdentityEvidence → Type 0) where
  -- The evidence of a proof for a plan: the file on the medium had the plan's size and hash when it
  -- was read back, the medium was unmounted, the user confirmed the power cycle, an MCU with an
  -- expected identity came back, and the firmware told a fingerprint that matches the build's.
  abbrev pub IsEvident : DeploymentProof → Type 0
  IsEvident p =
      (p.plan_digest ≡ plan.plan_digest)
      × (p.media_readback_size ≡ plan.artifact.size_bytes)
      × (p.media_readback_hash ≡ plan.transformation.final_sha256)
      × ((result : SafeEjectResult) × (p.safe_eject ≡ some result) × (result.status ≡ eject_done))
      × (p.manual_confirmation ≡ true)
      × ((evidence : McuIdentityEvidence) × (p.observed_mcu_identity ≡ some evidence)
          × expected evidence)
      × ((identity : FirmwareBuildIdentity) × (plan.artifact.firmware_identity ≡ some identity)
          × (matches p.observed_fingerprint identity.reported_version ≡ true))

  -- A proof is the session's, and has the evidence where its state is VERIFIED.
  abbrev Gives : DeploymentProof → Stage W → Type 0
  Gives p s = p.final_state ≡ verified → IsEvident p

  told-IsEvident :
      (x : ContractDeploymentSession) (fingerprint : String) (identity : FirmwareBuildIdentity)
      → IsTold expected plan fingerprint x
      → plan.artifact.firmware_identity ≡ some identity
      → matches fingerprint identity.reported_version ≡ true
      → IsEvident (proof x)
  told-IsEvident x fingerprint identity h e m =
      let back = h.0 in
      let confirmed = back.0 in
      let ready = confirmed.0 in
      (
        ap (λ (q : DeploymentPlan). q.plan_digest) (ready.0.0),
        ready.0.1,
        ready.0.2,
        ready.1,
        confirmed.1,
        back.1,
        (identity, e, ap (λ f. matches f identity.reported_version) (h.1) ∙ m),
      )

  need_identity-Ends :
      {R : ContractDeploymentSession → Type 0} (o : Option FirmwareBuildIdentity)
      → Ends
          (On {W = W} R Any)
          (λ text s.
            ((identity : FirmwareBuildIdentity) × (o ≡ some identity)
              × (identity.reported_version ≡ text))
            × On R Any s)
          (need_identity o)
  unfolding need_identity
  need_identity-Ends none = Ends-raise _
  need_identity-Ends (some identity) = Ends-pure _ (λ s p. ((identity, refl, refl), p))

  verify_fingerprint-Ends :
      Ends (On (IsBack expected plan) Any) Gives (verify_fingerprint executor matches)
  unfolding verify_fingerprint
  verify_fingerprint-Ends =
      Ends-bind _ _ (transition-Keeps executor (IsBack-IsSteady expected plan) _ _) λ _.
        Ends-value {F = λ x. x.plan ≡ plan} _ _
          (record { triple = Triple-gets _ (λ s p. (p.session.0.0.0.0, p)) })
          λ x own.
            Ends-value _ _ (need_identity-Ends x.plan.artifact.firmware_identity) λ version known.
              Ends-bind _ _ (outside-Keeps _) λ result.
                Ends-then _ _
                  (change-Ends {R' = IsTold expected plan result.observed_fingerprint} _
                    (λ y h. (h, refl)))
                  λ _. Ends-require _ _ λ connected.
                    Ends-bind _ _ (transition-Keeps executor (IsTold-IsSteady expected plan _) _ _)
                      λ _. Ends-require _ _ λ all.
                        Ends-then _ _
                          (transition-Ends executor (IsTold-IsSteady expected plan _) _ _)
                          λ _. record {
                            triple = Triple-gets _ λ s p _.
                                told-IsEvident s.session result.observed_fingerprint (known.0)
                                  (p.session.0)
                                  (ap (λ (q : DeploymentPlan). q.artifact.firmware_identity)
                                      (sym own)
                                    ∙ known.1)
                                  (ap (λ t. matches result.observed_fingerprint t) (known.2)
                                    ∙ all.0);
                          }

  -- What the monitor's wait returns is expected.
  module _
      (seen : Ends {S = W} Anywhere
        (λ evidence _. expected evidence)
        executor.ports.wait_for_present) where
    wait-Ends :
        (R : ContractDeploymentSession → Type 0)
        → Ends
            (On R Any)
            (λ evidence s. expected evidence × On R Any s)
            (outside executor.ports.wait_for_present)
    wait-Ends R = record {
      triple =
          Triple-weaken (Triple-outside R _ seen.triple) (λ s p. p)
            (λ evidence s p. (p.world, record { session = p.session; world = tt })) (λ e s p. tt);
    }

    follow_mcu-Ends :
        (defer : Bool) → Ends (On (IsConfirmed plan) Any) Gives (follow_mcu executor matches defer)
    unfolding follow_mcu
    follow_mcu-Ends defer =
        Ends-bind _ _ (transition-Keeps executor (IsConfirmed-IsSteady plan) _ _) λ _.
          Ends-value _ _ (wait-Ends (IsConfirmed plan)) λ evidence match.
            Ends-then _ _
              (change-Ends {R' = IsBack expected plan} _ (λ x h. (h, (evidence, refl, match))))
              λ _. Ends-then _ _ (transition-Ends executor (IsBack-IsSteady expected plan) _ _) λ _.
                Ends-if defer _ _
                  (Ends-bind _ _ (Keeps-change _ (λ x h. h))
                    λ _. record { triple = Triple-gets _ (λ s p v. absurd (cc (p.session.1, v))) })
                  (record {
                    triple =
                        Triple-weaken verify_fingerprint-Ends.triple
                          (λ s p. record { session = p.session.0; world = tt }) (λ a s p. p)
                          (λ e s p. p);
                  })

    confirm-Ends :
        (confirmed defer : Bool)
        → Ends
            (On (At waiting_for_manual_power_cycle (IsReady plan)) Any)
            Gives
            (confirm_manual_power_cycle executor matches confirmed defer)
    unfolding confirm_manual_power_cycle raise_proved follow_failed
    confirm-Ends confirmed defer = Ends-bind _ _ (Keeps-gets _) λ x.
        Ends-if _ _ _
          (Ends-if confirmed _ _
            (Ends-bind _ _ (Keeps-clock_text executor (λ w p. tt)) λ at.
              Ends-then _ _ (change-Ends {R' = IsConfirmed plan} _ (λ y h. (h.0, refl))) λ _.
                record {
                  triple =
                      Triple-finally _ _
                        (Ends-try is_exception _ _ _ (follow_mcu-Ends defer)
                          (λ e. fail_session-Ends executor e _ _)
                          (λ p. Ends-pure p (λ s h. h))).triple
                        (λ p.
                          Triple-weaken
                            (Triple-assume λ gives.
                              Triple-weaken (Keeps-Anywhere _).triple (λ s h. h) (λ _ s h. gives)
                                (λ e s h. tt))
                            (λ s h. (h, tt)) (λ _ s h. h) (λ e s h. h))
                        (λ e.
                          Triple-weaken (Keeps-Anywhere _).triple (λ s h. h) (λ _ s h. tt)
                            (λ f s h. tt));
                })
            (record { triple = Triple-gets _ (λ s p v. absurd (cc (p.session.1, v))) }))
          (Ends-Anywhere _ (Ends-bind _ _ (Keeps-Anywhere _) (λ _. Ends-raise _)))

    -- A proof that `confirm_manual_power_cycle` returns with the state VERIFIED, for the session
    -- that `prepare_media` returned for a plan, has the whole evidence: the readback has the size
    -- and the hash of the plan, the medium was unmounted, the user confirmed, the recorded MCU
    -- identity has what every identity has that the monitor's wait returns, and the fingerprint
    -- that Klipper told matches the one of the plan's firmware identity. Between the two calls the
    -- session stays, the rest of the stage may change.
    pub verified-IsEvident :
        (id : String) (confirmed defer : Bool) (s s' t t' : Stage W)
        (session : ContractDeploymentSession) (p : DeploymentProof)
        → prepare_media executor plan id s ≡ (ok session, s')
        → t.session ≡ session
        → confirm_manual_power_cycle executor matches confirmed defer t ≡ (ok p, t')
        → p.final_state ≡ verified
        → IsEvident p
    verified-IsEvident id confirmed defer s s' t t' session p made same told =
        let ready = Triple-ok (prepare_media-Ends executor plan id).triple tt made in
        Triple-ok (confirm-Ends confirmed defer).triple
          (record {
            session = subst (At waiting_for_manual_power_cycle (IsReady plan)) (sym same) ready.1;
            world = tt;
          })
          told
