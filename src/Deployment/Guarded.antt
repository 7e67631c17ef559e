-- ===== src/Deployment/Guarded.antt =====
-- No blocked artifact reaches a deployment method.
use kace.Prelude.{
  true, String, str_eq_iff, Option, none, some, List, [], ◌∷◌, ◌≡◌, ◌≢◌, ◌↔◌, refl, ap, arith,
}
use kace.Effects.{Exc, Result, ok, err}
use kace.Effects.Triples.{
  Triple, Triple-lift, Triple-bind, Triple-attempt, Triple-pure, Triple-weaken,
}
use kace.Effects.Keeping.{Keeps}
use kace.Effects.Ending.{Triple-ok, Triple-err}
use kace.Deployment.{
  BuildArtifact, is_real, is_digest, deployment_artifact_blockers, refuse_blockers,
  require_deployable_artifact, PreparedDeployment, DeploymentResult, failed, Service, is_unsafe,
  verify_prepared_artifact, check_prepared, finish, execute,
}

-- An artifact may be deployed exactly if it is a real build, marked flashable, has a SHA-256 of 64
-- hexadecimal digits, and its firmware identity names that same digest.
pub deployment_artifact_blockers_iff :
    (artifact : BuildArtifact)
    → (deployment_artifact_blockers artifact ≡ []) ↔ (
        (is_real artifact.provenance ≡ true)
        × (artifact.flashable ≡ true)
        × (is_digest artifact.sha256 ≡ true)
        × (artifact.firmware_identity ≡ some artifact.sha256))
unfolding deployment_artifact_blockers
deployment_artifact_blockers_iff artifact = go artifact.firmware_identity refl
  where
    go :
        (o : Option String)
        → artifact.firmware_identity ≡ o
        → (deployment_artifact_blockers artifact ≡ []) ↔ (
            (is_real artifact.provenance ≡ true)
            × (artifact.flashable ≡ true)
            × (is_digest artifact.sha256 ≡ true)
            × (artifact.firmware_identity ≡ some artifact.sha256))
    go none e = ground (arith, e)
    go (some d) e = ground (arith, e, str_eq_iff d artifact.sha256)

refused :
    (artifact : BuildArtifact) (bs : List String)
    → deployment_artifact_blockers artifact ≡ bs
    → bs ≢ []
    → (e : Exc) × (require_deployable_artifact artifact ≡ err e) × (is_unsafe e ≡ true)
unfolding require_deployable_artifact
refused artifact [] e ne = absurd (ne refl)
refused artifact (b ∷ bs) e ne = (_, ap refuse_blockers e, refl)

-- A result, if there is one, is FAILED.
abbrev pub IsFailed : Result DeploymentResult → Type 0
IsFailed (ok result) = result.status ≡ failed
IsFailed (err e) = Unit

module _ {W : Type 0} (service : Service W) (P : W → Type 0)
    (emits : (id state detail : String) → Keeps P (service.emit id state detail))
    (writes : (prepared : PreparedDeployment) (state : String) (result : Option DeploymentResult)
      → Keeps P (service.write_manifest prepared state result)) where
  finish-IsFailed :
      (prepared : PreparedDeployment) (result : DeploymentResult) (state : String)
      → result.status ≡ failed
      → Triple P (finish service prepared result state) (λ r w. P w × (r.status ≡ failed)) (λ _. P)
  unfolding finish
  finish-IsFailed prepared result state h =
      Triple-bind _ _ (emits _ _ _).triple
        λ _. Triple-bind _ _ (writes _ _ _).triple λ _. Triple-pure result (λ w p. (p, h))

  check_prepared-refuses :
      (prepared : PreparedDeployment)
      → deployment_artifact_blockers prepared.plan.artifact ≢ []
      → Triple P (check_prepared service prepared) (λ _ _. ⊥) (λ e w. P w × (is_unsafe e ≡ true))
  unfolding check_prepared verify_prepared_artifact
  check_prepared-refuses prepared ne =
      let (e, raised, caught) = refused prepared.plan.artifact _ refl ne in
      Triple-bind {R = λ _ _. ⊥} _ _
        (Triple-bind {R = λ _ _. ⊥} _ _
          (Triple-lift _ (λ a w ret p. absurd (cc (raised, ret)))
            (λ x w r p. (p, same_exc raised r caught)))
          (λ _. record { at = λ w f. absurd f }))
        (λ _. record { at = λ w f. absurd f })
    where
      same_exc :
          {r : Result (Unit {0})} {e x : Exc}
          → r ≡ err e
          → r ≡ err x
          → is_unsafe e ≡ true
          → is_unsafe x ≡ true
      same_exc a b c = cc (a, b, c)

  execute-IsFailed :
      (prepared : PreparedDeployment)
      → deployment_artifact_blockers prepared.plan.artifact ≢ []
      → Triple P (execute service prepared) (λ r w. P w × (r.status ≡ failed)) (λ _. P)
  unfolding execute
  execute-IsFailed prepared ne =
      Triple-attempt is_unsafe _ _ _ (check_prepared-refuses prepared ne)
        (λ _. record { at = λ w f. absurd f })
        (λ e c.
          Triple-weaken (finish-IsFailed prepared _ "FAILED_FLASH" refl) (λ w p. p.0) (λ r w q. q)
            (λ x w q. q))
        (λ e w c p. p.0)

  -- Executing a deployment whose artifact is blocked never calls the deployment method: however
  -- the execution ends, every predicate on the world that events and the manifest keep still
  -- holds, and a result that it returns is FAILED.
  pub execute_refuses :
      (prepared : PreparedDeployment) (w w' : W) (r : Result DeploymentResult)
      → deployment_artifact_blockers prepared.plan.artifact ≢ []
      → P w
      → execute service prepared w ≡ (r, w')
      → P w' × IsFailed r
  execute_refuses prepared w w' (ok result) ne p e = Triple-ok (execute-IsFailed prepared ne) p e
  execute_refuses prepared w w' (err x) ne p e = (Triple-err (execute-IsFailed prepared ne) p e, tt)
