-- ===== src/Boards/Promotion/Evidence.antt =====
-- What stands behind a promotion request.
use kace.Prelude.{
  ◌⊎◌, true, Bool-cases, String, str_eq, str_eq_iff, Option, none, some, ◌≡◌, refl, arith, In, inl,
  inr,
}
use kace.Effects.{ok}
use kace.Boards.{
  SupportStatus, provisional, build_verified, runtime_supported, config_only, blocked,
  deployment_verified, BuildTarget, HardwareVariant, BoardContract, BoardCatalog, by_id,
  find_variant,
}
use kace.Boards.Resolved.{find_variant-In, find_target-In}
use kace.Executor.Session.{verified, ContractDeploymentState, DeploymentProof}
use kace.Boards.Promotion.{
  DeploymentPromotionRequest, is_verified, is_promotable, promote_target, target_in,
  promote_contract, create_deployment_promotion_request,
}

pub is_verified-verified : (s : ContractDeploymentState) → is_verified s ≡ true → s ≡ verified
is_verified-verified s h = ground arith

eligible :
    (s : SupportStatus)
    → is_promotable s ≡ true
    → (s ≡ runtime_supported) ⊎ (s ≡ deployment_verified)
eligible runtime_supported h = inl refl
eligible deployment_verified h = inr refl
eligible provisional h = absurd (cc h)
eligible build_verified h = absurd (cc h)
eligible config_only h = absurd (cc h)
eligible blocked h = absurd (cc h)

module _ (digest : DeploymentProof → String) (now : String) where
  -- The target's status is one of the two eligible ones, and the request asks a reviewer for DEPLOYMENT_VERIFIED.
  abbrev pub AsksReview : DeploymentProof → BuildTarget → DeploymentPromotionRequest → Type 0
  AsksReview proof target request =
      ((target.support_status ≡ runtime_supported) ⊎ (target.support_status ≡ deployment_verified))
      × (request.source_status ≡ target.support_status)
      × (request.requested_status ≡ deployment_verified)
      × (request.review_required ≡ true)
      × (request.deployment_proof_digest ≡ digest proof)

  promote_target-AsksReview :
      (proof : DeploymentProof) (o : Option BuildTarget) (request : DeploymentPromotionRequest)
      → promote_target digest now proof o ≡ ok request
      → (target : BuildTarget) × (o ≡ some target) × AsksReview proof target request
  unfolding promote_target
  promote_target-AsksReview proof none request h = absurd (cc h)
  promote_target-AsksReview proof (some target) request h =
      elim (Bool-cases (is_promotable target.support_status)) [
        | inl holds ↦ (
          target,
          refl,
          (
            eligible target.support_status holds,
            ground (arith, holds, h),
            ground (arith, holds, h),
            ground (arith, holds, h),
            ground (arith, holds, h),
          ),
        )
        | inr fails ↦ absurd (ground (arith, fails, h))
      ]

  module _ (normalize fold : String → String) where
    -- The target of the proof, in a variant of the contract.
    abbrev pub HasTarget : DeploymentProof → BoardContract → BuildTarget → Type 0
    HasTarget proof contract target =
        (variant : HardwareVariant) × In variant contract.hardware_variants
        × (variant.id ≡ fold proof.hardware_variant_id)
        × In target variant.build_targets
        × (target.id ≡ fold proof.build_target_id)

    target_in-HasTarget :
        (proof : DeploymentProof) (contract : BoardContract) (o : Option HardwareVariant)
        (target : BuildTarget)
        → find_variant (fold proof.hardware_variant_id) contract.hardware_variants ≡ o
        → target_in digest now normalize fold proof o ≡ some target
        → HasTarget proof contract target
    unfolding target_in
    target_in-HasTarget proof contract none target e h = absurd (cc h)
    target_in-HasTarget proof contract (some variant) target e h =
        let (found, named) = find_variant-In _ _ variant e in
        let (inside, id) = find_target-In _ _ target h in (variant, found, named, inside, id)

    promote_contract-parts :
        (proof : DeploymentProof) (contract : BoardContract) (request : DeploymentPromotionRequest)
        → promote_contract digest now normalize fold proof (some contract) ≡ ok request
        → (str_eq contract.contract_digest proof.board_contract_digest ≡ true)
          × (str_eq contract.validated_commit proof.klipper_commit ≡ true)
          × (promote_target digest now proof (
                target_in digest now normalize fold proof
                  (find_variant (fold proof.hardware_variant_id) contract.hardware_variants))
              ≡ ok request)
    unfolding promote_contract
    promote_contract-parts proof contract request h = ground arith

    -- The contract of the proof's board, with the target that the request is about.
    abbrev pub IsBacked : DeploymentProof → BoardCatalog → DeploymentPromotionRequest → Type 0
    IsBacked proof catalog request =
        (contract : BoardContract) × (by_id normalize catalog proof.board_id ≡ some contract)
        × (contract.contract_digest ≡ proof.board_contract_digest)
        × (contract.validated_commit ≡ proof.klipper_commit)
        × (target : BuildTarget) × HasTarget proof contract target
        × AsksReview proof target request

    promote_contract-IsBacked :
        (proof : DeploymentProof) (catalog : BoardCatalog) (request : DeploymentPromotionRequest)
        (o : Option BoardContract)
        → by_id normalize catalog proof.board_id ≡ o
        → promote_contract digest now normalize fold proof o ≡ ok request
        → IsBacked proof catalog request
    unfolding promote_contract
    promote_contract-IsBacked proof catalog request none e h = absurd (cc h)
    promote_contract-IsBacked proof catalog request (some contract) e h =
        let (same_digest, same_commit, made) = promote_contract-parts proof contract request h in
        let (target, found, asked) = promote_target-AsksReview proof _ request made in
        (
          contract,
          e,
          (str_eq_iff _ _).0 same_digest,
          (str_eq_iff _ _).0 same_commit,
          target,
          target_in-HasTarget proof contract _ target refl found,
          asked,
        )

    create-parts :
        (proof : DeploymentProof) (catalog : BoardCatalog) (request : DeploymentPromotionRequest)
        → create_deployment_promotion_request digest now normalize fold proof catalog ≡ ok request
        → (is_verified proof.final_state ≡ true)
          × (promote_contract digest now normalize fold proof
                (by_id normalize catalog proof.board_id)
              ≡ ok request)
    unfolding create_deployment_promotion_request
    create-parts proof catalog request h = ground arith

    -- A promotion request is created only for a VERIFIED proof of the current contract, by digest
    -- and by Klipper commit, whose target the contract has with the status RUNTIME_SUPPORTED or
    -- DEPLOYMENT_VERIFIED; it asks a reviewer for DEPLOYMENT_VERIFIED and names the proof by its digest.
    pub promotion_justified :
        (proof : DeploymentProof) (catalog : BoardCatalog) (request : DeploymentPromotionRequest)
        → create_deployment_promotion_request digest now normalize fold proof catalog ≡ ok request
        → (proof.final_state ≡ verified) × IsBacked proof catalog request
    promotion_justified proof catalog request h =
        let (state, made) = create-parts proof catalog request h in
        (
          is_verified-verified proof.final_state state,
          promote_contract-IsBacked proof catalog request _ refl made,
        )
