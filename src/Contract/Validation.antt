-- ===== src/Contract/Validation.antt =====
-- `validate_deployment_plan` and what it calls: the strict test of a plan, before it is executed.
-- Reading `Path.resolve` is all that it does to the world.
use kace.Prelude.{
  Bool, not, ◌&&◌, ◌||◌, String, str_eq, texts_eq, codes, any, prefix, ends_with, text_or_empty,
  map, ◌==◌, Option, none, some, List, [], ◌∷◌, if◌then◌else◌, ◌<>◌,
}
use kace.Effects.{Exc, contract_error, Exec, pure, raise, gets, need, require, ◌>>=◌, ◌>>◌}
use kace.Boards.{
  FilenamePolicy, BuildTarget, HardwareVariant, BoardContract, find_variant, find_target,
}
use kace.Contract.{
  BuildArtifact, DeploymentStepId, DeploymentStep, DeploymentPlan, FirmwareBuildIdentity,
  PlanPayload, Library, step_ids, ids_eq, steps_eq, number_from, strategy_name, strategy_eq,
  expected_steps, is_sha256, is_brace, is_rename_only,
}

abbrev pub quoted : String → String
quoted text = "'" <> text <> "'"

-- `if observed != expected: raise`, with the texts in the message.
abbrev pub same_text : String → String → String → Bool × Exc
same_text what observed expected = (
  str_eq observed expected,
  contract_error (what <> "=" <> quoted observed <> " does not match " <> quoted expected),
)

abbrev pub refuse : Bool → String → Bool × Exc
refuse b message = (not b, contract_error message)

abbrev pub demand : Bool → String → Bool × Exc
demand b message = (b, contract_error message)

module _ {W : Type 0} where
  -- `if o is None: raise`.
  unfoldable pub choose : {A : Type 0} → String → Option A → Exec W A
  choose message none = raise (contract_error message)
  choose message (some a) = pure a

  unfoldable pub steps_for :
      BuildTarget
      → Option (List DeploymentStepId)
      → List DeploymentStepId
      → Exec W (List DeploymentStep)
  steps_for target none ids = raise (
      contract_error
        ("contract has no exact non-executing plan for " <> strategy_name target.flash.strategy))
  steps_for target (some expected) ids =
      if ids_eq ids expected
      then pure (number_from 1 ids)
      else raise (
          contract_error (
            "contract has no exact non-executing plan for " <> strategy_name target.flash.strategy))

  unfoldable pub typed_steps : BuildTarget → Exec W (List DeploymentStep)
  typed_steps target =
      choose "contract flash recipe contains a non-Phase-3 deployment step"
        (step_ids target.flash.steps)
      >>= λ ids. steps_for target (expected_steps target.flash.strategy) ids

module _ {W : Type 0} (library : Library W) where
  unfoldable pub named_file : FilenamePolicy → BuildArtifact → Exec W String
  named_file policy artifact =
      if str_eq policy.strategy "fixed"
      then need "value" policy.value
      else if str_eq policy.strategy "native"
      then pure artifact.native_filename
      else if str_eq policy.strategy "build-id"
      then (need "template" policy.template >>= λ template.
          pure (library.fill template (prefix 12 artifact.build_id)))
      else raise (contract_error ("unsupported filename strategy " <> quoted policy.strategy))

  abbrev pub is_basename : String → Bool
  is_basename filename =
      not (str_eq filename "")
      && str_eq (library.file_name filename) filename
      && not (str_eq filename ".")
      && not (str_eq filename "..")

  abbrev pub has_suffix : String → String → Bool
  has_suffix filename suffix =
      ends_with (codes (library.lower_text filename)) (codes (library.lower_text suffix))

  abbrev pub filename_checks : FilenamePolicy → String → List (Bool × Exc)
  filename_checks policy filename =
      demand (is_basename filename) "final firmware filename must be a safe basename"
      ∷ refuse (any is_brace (codes filename))
          "final firmware filename contains an unresolved template"
      ∷ demand
          (str_eq (text_or_empty policy.required_suffix) ""
            || has_suffix filename (text_or_empty policy.required_suffix))
          ("final filename "
            <> quoted filename
            <> " must end in "
            <> quoted (text_or_empty policy.required_suffix))
      ∷ []

  -- `_final_filename`.
  unfoldable pub final_filename : BuildTarget → BuildArtifact → Exec W String
  final_filename target artifact =
      named_file target.artifact.final_filename artifact >>= λ filename.
      require (filename_checks target.artifact.final_filename filename) >> pure filename

  unfoldable pub require_contract_identity :
      BoardContract → BuildArtifact → Exec W (HardwareVariant × BuildTarget)
  require_contract_identity contract artifact =
      require (
        same_text "artifact board_id" artifact.board_id contract.board_id
        ∷ same_text "artifact board_contract_digest" artifact.board_contract_digest
            contract.contract_digest
        ∷ same_text "artifact klipper_commit" artifact.klipper_commit contract.validated_commit
        ∷ [])
      >> (choose
            ("artifact variant "
              <> quoted artifact.hardware_variant_id
              <> " is not in the contract")
            (find_variant (library.fold artifact.hardware_variant_id) contract.hardware_variants)
          >>= λ variant.
              choose
                ("artifact target "
                  <> quoted artifact.build_target_id
                  <> " is not in the selected variant")
                (find_target (library.fold artifact.build_target_id) variant.build_targets)
              >>= λ target.
                  require (
                    demand (is_sha256 artifact.build_proof_digest)
                      "artifact has no valid BuildProof digest"
                    ∷ [])
                  >> pure (variant, target))

  abbrev pub deployment_plan_payload : DeploymentPlan → PlanPayload
  deployment_plan_payload plan = record {
    schema = plan.schema;
    board_id = plan.board_id;
    hardware_variant_id = plan.hardware_variant_id;
    build_target_id = plan.build_target_id;
    board_contract_digest = plan.board_contract_digest;
    klipper_commit = plan.klipper_commit;
    build_proof_digest = plan.build_proof_digest;
    strategy = plan.strategy;
    artifact_sha256 = plan.artifact.sha256;
    transformation = plan.transformation;
    steps = map (λ (step : DeploymentStep). step.id) plan.steps;
    warnings = plan.warnings;
  }

  abbrev pub compute_deployment_plan_digest : DeploymentPlan → String
  compute_deployment_plan_digest plan = library.digest (deployment_plan_payload plan)

  abbrev pub plan_checks : BoardContract → DeploymentPlan → List (Bool × Exc)
  plan_checks contract plan =
      same_text "plan board_id" plan.board_id contract.board_id
      ∷ same_text "plan board_contract_digest" plan.board_contract_digest contract.contract_digest
      ∷ same_text "plan klipper_commit" plan.klipper_commit contract.validated_commit
      ∷ []

  abbrev pub recipe_checks :
      BoardContract → DeploymentPlan → List DeploymentStep → List (Bool × Exc)
  recipe_checks contract plan steps =
      demand (steps_eq plan.steps steps) "plan steps differ from FlashRecipe"
      ∷ demand (texts_eq plan.warnings contract.warnings) "plan warnings differ from the contract"
      ∷ []

  abbrev pub same_target : HardwareVariant × BuildTarget → HardwareVariant → BuildTarget → Bool
  same_target found variant target = str_eq found.0.id variant.id && str_eq found.1.id target.id

  abbrev pub identity_checks : DeploymentPlan → FirmwareBuildIdentity → List (Bool × Exc)
  identity_checks plan identity =
      demand (str_eq identity.klipper_commit plan.klipper_commit)
        "firmware identity has a different Klipper commit"
      ∷ demand (str_eq identity.artifact_sha256 plan.artifact.sha256)
          "firmware identity has a different artifact hash"
      ∷ demand (identity.artifact_size == plan.artifact.size_bytes)
          "firmware identity has a different artifact size"
      ∷ demand (is_rename_only plan.transformation.kind)
          "physical SD execution permits rename-only artifacts"
      ∷ []

  abbrev pub transformation_checks : W → DeploymentPlan → String → List (Bool × Exc)
  transformation_checks w plan filename =
      demand (str_eq plan.transformation.final_filename filename)
        "plan final filename differs from ArtifactPolicy"
      ∷ demand (str_eq (library.file_name plan.transformation.final_path) filename)
          "plan staged path filename differs from ArtifactPolicy"
      ∷ demand (str_eq plan.transformation.native_filename plan.artifact.native_filename)
          "plan native filename differs from BuildArtifact"
      ∷ demand (str_eq plan.transformation.native_path (library.resolve w plan.artifact.path))
          "plan native path differs from BuildArtifact"
      ∷ demand (str_eq plan.transformation.native_sha256 plan.artifact.sha256)
          "plan native hash differs from BuildArtifact"
      ∷ demand (str_eq plan.transformation.final_sha256 plan.artifact.sha256)
          "plan staged hash differs from BuildArtifact"
      ∷ demand (plan.transformation.size_bytes == plan.artifact.size_bytes)
          "plan staged size differs from BuildArtifact"
      ∷ refuse plan.transformation.content_changed "rename-only plan records changed content"
      ∷ demand (str_eq plan.plan_digest (compute_deployment_plan_digest plan))
          "DeploymentPlan digest is invalid"
      ∷ demand
          (str_eq plan.deployment_id
            ("board-contract-" <> prefix 24 (compute_deployment_plan_digest plan)))
          "DeploymentPlan ID is not derived from its digest"
      ∷ []

  -- The part of `validate_deployment_plan` behind the test of the artifact's own identity.
  unfoldable pub validate_transformation : DeploymentPlan → BuildTarget → Exec W BuildTarget
  validate_transformation plan target =
      choose "contract artifact has no firmware identity" plan.artifact.firmware_identity
      >>= λ identity.
          require (identity_checks plan identity)
          >> (final_filename target plan.artifact >>= λ filename.
              gets (λ w. w) >>= λ w. require (transformation_checks w plan filename) >> pure target)

  unfoldable pub validate_deployment_plan : BoardContract → DeploymentPlan → Exec W BuildTarget
  validate_deployment_plan contract plan =
      require (plan_checks contract plan)
      >> (choose "plan hardware variant is not in the contract"
            (find_variant (library.fold plan.hardware_variant_id) contract.hardware_variants)
          >>= λ variant.
              choose "plan build target is not in the variant"
                (find_target (library.fold plan.build_target_id) variant.build_targets)
              >>= λ target.
                  require (
                    demand (strategy_eq plan.strategy target.flash.strategy)
                      "plan strategy differs from FlashRecipe"
                    ∷ [])
                  >> (typed_steps target >>= λ steps.
                      require (recipe_checks contract plan steps)
                      >> (require_contract_identity contract plan.artifact >>= λ found.
                          require (
                            demand (same_target found variant target)
                              "plan and artifact target identities differ"
                            ∷ demand
                                (str_eq plan.artifact.build_proof_digest plan.build_proof_digest)
                                "plan and artifact BuildProof digests differ"
                            ∷ [])
                          >> validate_transformation plan target)))
