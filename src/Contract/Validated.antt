-- ===== src/Contract/Validated.antt =====
-- A plan that passed the validation is bound, field by field, to its contract, its artifact and its
-- own digest.
use kace.Prelude.{
  false, String, str_eq_iff, prefix, ◌<>◌, Option, none, some, List, ◌≡◌, refl, In, arith, ◌∙◌, sym,
  ap, subst, texts_eq_iff,
}
use kace.Effects.{ok}
use kace.Effects.Keeping.{Keeps, Keeps-pure, Keeps-raise, keeps_rules}
use kace.Effects.Ending.{
  Ends, Ends-map, Anywhere, Ends-pure, Ends-raise, Ends-bind, Ends-require, Ends-value,
  Keeps-Anywhere, Triple-ok,
}
use kace.Boards.{BuildTarget, HardwareVariant, BoardContract, find_variant, find_target}
use kace.Boards.Resolved.{find_variant-In, find_target-In}
use kace.Contract.{BuildArtifact, DeploymentPlan, DeploymentStepId, FirmwareBuildIdentity, Library}
use kace.Contract.Validation.{
  choose, steps_for, typed_steps, named_file, final_filename, require_contract_identity,
  compute_deployment_plan_digest, validate_transformation, validate_deployment_plan,
}

module _ {W : Type 0} {P : W → Type 0} where
  choose-Keeps : {A : Type 0} (text : String) (o : Option A) → Keeps P (choose text o)
  unfolding choose
  choose-Keeps text none = Keeps-raise _
  choose-Keeps text (some a) = Keeps-pure a

  steps_for-Keeps :
      (target : BuildTarget) (o : Option (List DeploymentStepId)) (ids : List DeploymentStepId)
      → Keeps P (steps_for target o ids)
  unfolding steps_for
  steps_for-Keeps target none ids = Keeps-raise _
  steps_for-Keeps target (some expected) ids = search keeps_rules

  typed_steps-Keeps : (target : BuildTarget) → Keeps P (typed_steps target)
  unfolding typed_steps
  typed_steps-Keeps target = search (choose-Keeps, steps_for-Keeps, keeps_rules)

module _ {W : Type 0} (library : Library W) {P : W → Type 0} where
  final_filename-Keeps :
      (target : BuildTarget) (artifact : BuildArtifact)
      → Keeps P (final_filename library target artifact)
  unfolding final_filename named_file
  final_filename-Keeps target artifact = search keeps_rules depth 14

  pub require_contract_identity-Keeps :
      (contract : BoardContract) (artifact : BuildArtifact)
      → Keeps P (require_contract_identity library contract artifact)
  unfolding require_contract_identity
  require_contract_identity-Keeps contract artifact = search (choose-Keeps, keeps_rules) depth 14

  -- Validating a plan does nothing to the world.
  pub validate-Keeps :
      (contract : BoardContract) (plan : DeploymentPlan)
      → Keeps P (validate_deployment_plan library contract plan)
  unfolding validate_deployment_plan validate_transformation
  validate-Keeps contract plan =
      search
        (
          choose-Keeps, typed_steps-Keeps, final_filename-Keeps, require_contract_identity-Keeps,
          keeps_rules,
        )
        depth 30

pub choose-Ends :
    {W A : Type 0} {P : W → Type 0} (text : String) (o : Option A)
    → Ends P (λ a s. (o ≡ some a) × P s) (choose text o)
unfolding choose
choose-Ends text none = Ends-raise _
choose-Ends text (some a) = Ends-pure a (λ s p. (refl, p))

module _ {W : Type 0} (library : Library W) where
  -- The plan's files are the artifact's bytes under the final name, the artifact is the identified
  -- build, and the plan is signed by its digest.
  abbrev pub IsExact : DeploymentPlan → Type 0
  IsExact plan =
      ((identity : FirmwareBuildIdentity) × (plan.artifact.firmware_identity ≡ some identity)
        × (identity.artifact_sha256 ≡ plan.artifact.sha256)
        × (identity.klipper_commit ≡ plan.klipper_commit))
      × (library.file_name plan.transformation.final_path ≡ plan.transformation.final_filename)
      × (plan.transformation.native_sha256 ≡ plan.artifact.sha256)
      × (plan.transformation.final_sha256 ≡ plan.artifact.sha256)
      × (plan.transformation.size_bytes ≡ plan.artifact.size_bytes)
      × (plan.transformation.content_changed ≡ false)
      × (plan.plan_digest ≡ compute_deployment_plan_digest library plan)
      × (plan.deployment_id ≡ "board-contract-" <> prefix 24 plan.plan_digest)

  -- The target of the plan in the contract.
  abbrev pub IsTarget : BoardContract → DeploymentPlan → BuildTarget → Type 0
  IsTarget contract plan target =
      (plan.board_id ≡ contract.board_id)
      × (plan.board_contract_digest ≡ contract.contract_digest)
      × (plan.klipper_commit ≡ contract.validated_commit)
      × (plan.warnings ≡ contract.warnings)
      × ((variant : HardwareVariant) × In variant contract.hardware_variants
          × In target variant.build_targets
          × (variant.id ≡ library.fold plan.hardware_variant_id))
      × (target.id ≡ library.fold plan.build_target_id)
      × (plan.artifact.build_proof_digest ≡ plan.build_proof_digest)

  validate_transformation-Ends :
      (plan : DeploymentPlan) (target : BuildTarget)
      → Ends Anywhere
          (λ found w. (found ≡ target) × IsExact plan)
          (validate_transformation library plan target)
  unfolding validate_transformation
  validate_transformation-Ends plan target =
      Ends-value _ _ (choose-Ends _ plan.artifact.firmware_identity) λ identity e.
        Ends-require _ _ λ known. Ends-bind _ _ (Keeps-Anywhere _) λ filename.
          Ends-bind _ _ (Keeps-Anywhere _) λ w. Ends-require _ _ λ all.
            let digest = (str_eq_iff _ _).0 (all.1.1.1.1.1.1.1.1.0) in
            Ends-pure target λ _ _. (
              refl,
              (
                (identity, e, (str_eq_iff _ _).0 (known.1.0), (str_eq_iff _ _).0 (known.0)),
                (str_eq_iff _ _).0 (all.1.0) ∙ sym ((str_eq_iff _ _).0 (all.0)),
                (str_eq_iff _ _).0 (all.1.1.1.1.0),
                (str_eq_iff _ _).0 (all.1.1.1.1.1.0),
                ground (arith, all.1.1.1.1.1.1.0),
                ground (arith, all.1.1.1.1.1.1.1.0),
                digest,
                (str_eq_iff _ _).0 (all.1.1.1.1.1.1.1.1.1.0)
                    ∙ ap (λ d. "board-contract-" <> prefix 24 d) (sym digest),
              ),
            )

  validate-Ends :
      (contract : BoardContract) (plan : DeploymentPlan)
      → Ends Anywhere
          (λ target w. IsTarget contract plan target × IsExact plan)
          (validate_deployment_plan library contract plan)
  unfolding validate_deployment_plan
  validate-Ends contract plan = Ends-require _ _ λ own.
      Ends-value _ _ (choose-Ends _ (find_variant _ contract.hardware_variants)) λ variant v.
        Ends-value _ _ (choose-Ends _ (find_target _ variant.build_targets)) λ target t.
          Ends-require _ _ λ strategy. Ends-bind _ _ (Keeps-Anywhere _) λ steps.
            Ends-require _ _ λ recipe. Ends-bind _ _ (Keeps-Anywhere _) λ found.
              Ends-require _ _ λ same.
                Ends-map _ (validate_transformation-Ends plan target) λ a w q.
                  let (place, named) = find_variant-In _ _ variant v in
                  let (inside, id) = find_target-In _ _ target t in
                  let target_same : target ≡ a = sym q.0 in
                  (
                    subst (IsTarget contract plan) target_same (
                      (str_eq_iff _ _).0 (own.0),
                      (str_eq_iff _ _).0 (own.1.0),
                      (str_eq_iff _ _).0 (own.1.1.0),
                      (texts_eq_iff _ _).0 (recipe.1.0),
                      (variant, place, inside, named),
                      id,
                      (str_eq_iff _ _).0 (same.1.0),
                    ),
                    q.1,
                  )

  -- A plan that `validate_deployment_plan` accepts names the contract by board, digest and Klipper
  -- commit, the returned target is the one that the plan names, in the variant that it names, and
  -- the warnings are the contract's. The artifact is the plan's build, identified by its hash and
  -- its commit; native and staged file have its hash and its size under the final name, without a
  -- changed content; the plan's digest is that of its payload, and its id is made from it.
  pub validated_bound :
      (contract : BoardContract) (plan : DeploymentPlan) (target : BuildTarget) (w w' : W)
      → validate_deployment_plan library contract plan w ≡ (ok target, w')
      → IsTarget contract plan target × IsExact plan
  validated_bound contract plan target w w' e = Triple-ok (validate-Ends contract plan).triple tt e
