-- ===== src/Executor/Checks.antt =====
-- The executor's tests of the plan, of the artifact files and of the medium.
use kace.Prelude.{
  ℕ, Bool, true, false, not, ◌&&◌, ◌||◌, ◌==◌, leb, String, str_eq, codes, any, keep, Option, none,
  some, List, [], ◌∷◌, if◌then◌else◌, ◌<>◌, lookup, text_or_empty,
}
use kace.Effects.{
  Exc, contract_error, execution_error, execution_error_type, unsupported_strategy_type,
  media_selection_type, media_verification_type, artifact_execution_type, os_error, message, Exec,
  pure, raise, gets, attempt, require, ◌>>=◌, ◌>>◌,
}
use kace.Boards.{
  SupportStatus, runtime_supported, deployment_verified, TransportKind, usb, FlashStrategy, sd_card,
  BuildTarget, BoardContract, by_id,
}
use kace.Boards.Promotion.{status_name}
use kace.Contract.{DeploymentPlan, strategy_name}
use kace.Contract.Validation.{validate_deployment_plan}
use kace.Executor.Session.{MediaCandidate}
use kace.Executor.Steps.{Executor}

abbrev pub is_sd_card : FlashStrategy → Bool
is_sd_card sd_card = true
is_sd_card _ = false

abbrev pub is_executable : SupportStatus → Bool
is_executable runtime_supported = true
is_executable deployment_verified = true
is_executable _ = false

abbrev pub is_usb : TransportKind → Bool
is_usb usb = true
is_usb _ = false

abbrev pub is_hex_digit : ℕ → Bool
is_hex_digit c =
    (leb b'0' c && leb c b'9') || (leb b'a' c && leb c b'f') || (leb b'A' c && leb c b'F')

-- `[0-9a-fA-F]{4}:[0-9a-fA-F]{4}`.
abbrev pub is_vid_pid : List ℕ → Bool
is_vid_pid (a ∷ b ∷ c ∷ d ∷ colon ∷ e ∷ f ∷ g ∷ h ∷ []) =
    is_hex_digit a
    && is_hex_digit b
    && is_hex_digit c
    && is_hex_digit d
    && colon == b':'
    && is_hex_digit e
    && is_hex_digit f
    && is_hex_digit g
    && is_hex_digit h
is_vid_pid _ = false

-- `except ContractDeploymentError`.
abbrev pub is_contract_error : Exc → Bool
is_contract_error (contract_error m) = true
is_contract_error _ = false

abbrev pub is_os_error : Exc → Bool
is_os_error (os_error m) = true
is_os_error _ = false

abbrev pub artifact_error_of : Bool → String → String → Bool × Exc
artifact_error_of b code text = (b, execution_error artifact_execution_type code text)

abbrev pub medium_error_of : Bool → String → String → Bool × Exc
medium_error_of b code text = (b, execution_error media_verification_type code text)

-- `_select_media`'s candidates with the id.
abbrev pub with_id : String → List MediaCandidate → List MediaCandidate
with_id id candidates = keep (λ (c : MediaCandidate). str_eq c.stable_id id) candidates

module _ {W : Type 0} (executor : Executor W) where
  abbrev pub execution_checks : BuildTarget → List (Bool × Exc)
  execution_checks target =
      (
        is_sd_card target.flash.strategy,
        execution_error unsupported_strategy_type "UNSUPPORTED_STRATEGY" (
            "physical strategy "
            <> strategy_name target.flash.strategy
            <> " is unsupported in Phase 4B"),
      )
      ∷ (
        is_executable target.support_status,
        execution_error execution_error_type "TARGET_NOT_RUNTIME_SUPPORTED" (
            "target support status "
            <> status_name target.support_status
            <> " cannot execute physically"),
      )
      ∷ (
        not (is_usb target.transport.kind)
            || is_vid_pid
                (codes (text_or_empty (lookup "application_vid_pid" target.transport.endpoint))),
        execution_error execution_error_type "MCU_IDENTITY_CONTRACT_INCOMPLETE"
            "USB target has no exact application VID:PID identity",
      )
      ∷ []

  unfoldable pub validate_against : DeploymentPlan → Option BoardContract → Exec W BuildTarget
  validate_against plan none = raise (
      execution_error execution_error_type "CONTRACT_NOT_FOUND"
        "DeploymentPlan board is absent from the BoardContract catalog")
  validate_against plan (some contract) =
      attempt is_contract_error (validate_deployment_plan executor.library contract plan)
        (λ e. raise (execution_error execution_error_type "PLAN_IDENTITY_MISMATCH" (message e)))
        (λ target. require (execution_checks target) >> pure target)

  -- `_validate_plan`, which gives the target.
  unfoldable pub validate_plan : DeploymentPlan → Exec W BuildTarget
  validate_plan plan =
      validate_against plan (by_id executor.normalize executor.catalog plan.board_id)

  -- `_sha256_file`.
  unfoldable pub sha256_file : String → Exec W String
  sha256_file path =
      attempt is_os_error (executor.ports.file_digest path)
        (λ e. raise (
          execution_error artifact_execution_type "ARTIFACT_UNREADABLE"
            ("cannot read firmware artifact " <> path <> ": " <> message e)))
        (λ digest. pure digest)

  -- One round of the loop of `_verify_artifacts`.
  unfoldable pub verify_file : String → String → ℕ → String → Exec W (Unit {0})
  verify_file path expected_hash expected_size expected_name =
      gets (λ w. executor.ports.is_file w path) >>= λ present.
      require (
        artifact_error_of present "ARTIFACT_ABSENT" ("firmware artifact is absent: " <> path)
        ∷ artifact_error_of (str_eq (executor.library.file_name path) expected_name)
            "ARTIFACT_FILENAME_MISMATCH" "firmware artifact filename changed"
        ∷ [])
      >> (executor.ports.file_size path >>= λ size.
          require (
            artifact_error_of (size == expected_size) "ARTIFACT_SIZE_MISMATCH"
              "firmware artifact size changed"
            ∷ [])
          >> (sha256_file path >>= λ digest. require (
              artifact_error_of (str_eq digest expected_hash) "ARTIFACT_HASH_MISMATCH"
                "firmware artifact hash changed"
              ∷ [])))

  -- `_verify_artifacts`; the files are the plan's.
  unfoldable pub verify_artifacts : DeploymentPlan → Exec W (Unit {0})
  verify_artifacts plan =
      verify_file plan.artifact.path plan.artifact.sha256 plan.artifact.size_bytes
        plan.artifact.native_filename
      >> (verify_file plan.transformation.final_path plan.transformation.final_sha256
            plan.transformation.size_bytes plan.transformation.final_filename
          >> (sha256_file plan.artifact.path >>= λ native.
              sha256_file plan.transformation.final_path >>= λ staged. require (
                artifact_error_of (str_eq native staged) "ARTIFACT_CONTENT_MISMATCH"
                  "staged artifact content differs from native artifact"
                ∷ [])))

  unfoldable pub only : List MediaCandidate → String → String → Exec W MediaCandidate
  only (medium ∷ []) code text = pure medium
  only _ code text = raise (execution_error media_selection_type code text)

  -- `_select_media`; an empty id counts as none.
  unfoldable pub select_media : List MediaCandidate → String → Exec W MediaCandidate
  select_media [] selected_id = raise (
      execution_error media_selection_type "NO_MEDIA" "no removable media candidates are available")
  select_media (c ∷ cs) selected_id =
      if str_eq selected_id ""
      then only (c ∷ cs) "MEDIA_AMBIGUOUS"
          "multiple removable media candidates require explicit selection"
      else only (with_id selected_id (c ∷ cs)) "MEDIA_SELECTION_INVALID"
          "explicit media selection does not identify exactly one candidate"

  abbrev pub is_required : MediaCandidate → BuildTarget → Bool
  is_required candidate target =
      any
        (λ item.
          str_eq (executor.library.casefold item) (executor.library.casefold candidate.filesystem))
        target.flash.options.required_filesystems

  abbrev pub is_card_root : Option String → Bool
  is_card_root none = false
  is_card_root (some destination) = str_eq destination "sd-card-root"

  abbrev pub medium_checks : W → MediaCandidate → BuildTarget → ℕ → Bool → List (Bool × Exc)
  medium_checks w candidate target artifact_size require_space =
      medium_error_of (not candidate.system_disk) "SYSTEM_DISK_REJECTED"
        "selected medium belongs to the system disk"
      ∷ medium_error_of (not target.flash.options.require_removable || candidate.removable)
          "MEDIA_NOT_REMOVABLE" "selected medium is not reported removable"
      ∷ medium_error_of (not candidate.read_only) "MEDIA_READ_ONLY" "selected medium is read-only"
      ∷ medium_error_of (is_required candidate target) "FILESYSTEM_MISMATCH"
          ("filesystem '" <> candidate.filesystem <> "' is not allowed")
      ∷ medium_error_of (is_card_root target.flash.options.destination)
          "DESTINATION_POLICY_MISMATCH" "FlashRecipe destination is not the SD-card root"
      ∷ medium_error_of
          (executor.ports.is_dir w candidate.mount_path
            && str_eq (executor.library.resolve w candidate.mount_path) candidate.mount_path)
          "MOUNT_INVALID" "selected mount root is absent or not canonical"
      ∷ medium_error_of (not require_space || leb artifact_size candidate.free_bytes)
          "INSUFFICIENT_SPACE" "selected medium has insufficient free space"
      ∷ []

  -- `_verify_media`; FILESYSTEM_MISMATCH is without the list of what is required.
  unfoldable pub verify_media : MediaCandidate → BuildTarget → ℕ → Bool → Exec W (Unit {0})
  verify_media candidate target artifact_size require_space =
      gets (λ w. w) >>= λ w. require (medium_checks w candidate target artifact_size require_space)
