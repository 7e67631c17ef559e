-- ===== src/Boards/Promotion.antt =====
-- firmware/boards/promotion.py: a physical deployment as the evidence for a better support status.
-- The digest of a proof (canonical JSON, SHA-256), the clock, and the two foldings of names are
-- parameters.
pub mod Evidence
use kace.Prelude.{
  ℕ, zero, suc, Bool, true, false, String, str_eq, Option, none, some, if◌then◌else◌, ◌<>◌, prefix,
}
use kace.Effects.{Exc, other_error, Result, ok, err}
use kace.Boards.{
  SupportStatus, provisional, build_verified, deployment_verified, runtime_supported, config_only,
  blocked, BuildTarget, HardwareVariant, BoardContract, BoardCatalog, by_id, find_variant,
  find_target,
}
use kace.Executor.Session.{ContractDeploymentState, verified, DeploymentProof}

pub record DeploymentPromotionRequest : Type 0 where
  pub schema : String
  pub request_id : String
  pub created_at : String
  pub review_required : Bool
  pub source_status : SupportStatus
  pub requested_status : SupportStatus
  pub deployment_proof_digest : String
  pub deployment_id : String
  pub plan_digest : String
  pub board_id : String
  pub hardware_variant_id : String
  pub build_target_id : String
  pub board_contract_digest : String
  pub klipper_commit : String
  pub build_proof_digest : String
  pub artifact_staged_hash : String
  pub observed_fingerprint : String

abbrev pub is_verified : ContractDeploymentState → Bool
is_verified verified = true
is_verified _ = false

abbrev pub is_promotable : SupportStatus → Bool
is_promotable runtime_supported = true
is_promotable deployment_verified = true
is_promotable _ = false

abbrev pub status_name : SupportStatus → String
status_name provisional = "PROVISIONAL"
status_name build_verified = "BUILD_VERIFIED"
status_name deployment_verified = "DEPLOYMENT_VERIFIED"
status_name runtime_supported = "RUNTIME_SUPPORTED"
status_name config_only = "CONFIG_ONLY"
status_name blocked = "BLOCKED"

module _ (digest : DeploymentProof → String) (now : String) where
  unfoldable pub promote_target :
      DeploymentProof → Option BuildTarget → Result DeploymentPromotionRequest
  promote_target proof none = err (other_error "DeploymentProof target is absent from the contract")
  promote_target proof (some target) =
      if is_promotable target.support_status
      then ok (record {
        schema = "kace-board-deployment-promotion/v1";
        request_id = "promote-" <> proof.deployment_id <> "-" <> prefix 12 (digest proof);
        created_at = now;
        review_required = true;
        source_status = target.support_status;
        requested_status = deployment_verified;
        deployment_proof_digest = digest proof;
        deployment_id = proof.deployment_id;
        plan_digest = proof.plan_digest;
        board_id = proof.board_id;
        hardware_variant_id = proof.hardware_variant_id;
        build_target_id = proof.build_target_id;
        board_contract_digest = proof.board_contract_digest;
        klipper_commit = proof.klipper_commit;
        build_proof_digest = proof.build_proof_digest;
        artifact_staged_hash = proof.artifact_staged_hash;
        observed_fingerprint = proof.observed_fingerprint;
      })
      else err (
          other_error (
            "target status "
            <> status_name target.support_status
            <> " is not eligible for promotion"))

  module _ (normalize fold : String → String) where
    unfoldable pub target_in : DeploymentProof → Option HardwareVariant → Option BuildTarget
    target_in proof none = none
    target_in proof (some variant) = find_target (fold proof.build_target_id) variant.build_targets

    unfoldable pub promote_contract :
        DeploymentProof → Option BoardContract → Result DeploymentPromotionRequest
    promote_contract proof none =
        err (other_error "DeploymentProof does not match the current contract")
    promote_contract proof (some contract) =
        if str_eq contract.contract_digest proof.board_contract_digest
        then (if str_eq contract.validated_commit proof.klipper_commit
            then promote_target proof (
                target_in proof
                  (find_variant (fold proof.hardware_variant_id) contract.hardware_variants))
            else err (other_error "DeploymentProof Klipper commit is not current"))
        else err (other_error "DeploymentProof does not match the current contract")

    unfoldable pub create_deployment_promotion_request :
        DeploymentProof → BoardCatalog → Result DeploymentPromotionRequest
    create_deployment_promotion_request proof catalog =
        if is_verified proof.final_state
        then promote_contract proof (by_id normalize catalog proof.board_id)
        else err (other_error "only a VERIFIED physical deployment can be promoted")
