-- ===== src/Executor/Media.antt =====
-- `prepare_media`: select a medium, verify it, copy the firmware, reread it, and eject.
use kace.Prelude.{
  ℕ, Bool, true, false, ◌&&◌, ◌==◌, String, str_eq, Option, none, some, [], ◌∷◌, ◌<>◌,
}
use kace.Effects.{
  Exc, is_exception, execution_error, ExecutionErrorType, execution_error_type,
  media_verification_type, Exec, pure, raise, gets, attempt, require, ◌>>=◌, ◌>>◌,
}
use kace.Boards.{BuildTarget}
use kace.Contract.{DeploymentPlan}
use kace.Executor.Session.{
  media_selected, media_verified, prepared, copied, copy_verified, ejected,
  waiting_for_manual_power_cycle, SafeEjectStatus, eject_done, eject_unsupported, MediaCandidate,
  SafeEjectResult, ContractDeploymentSession, new_session, same_physical_medium,
}
use kace.Executor.Steps.{
  Executor, Stage, outside, change, the_session, clock_text, emit_state, transition, fail_session,
}
use kace.Executor.Checks.{
  validate_plan, verify_artifacts, sha256_file, select_media, verify_media, artifact_error_of,
  medium_error_of,
}

abbrev pub select : MediaCandidate → ContractDeploymentSession → ContractDeploymentSession
select medium session = record session { selected_media = some medium }

abbrev pub is_eject_done : SafeEjectStatus → Bool
is_eject_done eject_done = true
is_eject_done _ = false

abbrev pub eject_code : SafeEjectStatus → String
eject_code eject_unsupported = "EJECT_UNSUPPORTED"
eject_code _ = "EJECT_FAILED"

abbrev pub eject_error : SafeEjectResult → Exc
eject_error result =
    execution_error media_verification_type (eject_code result.status)
      ("safe eject did not complete: " <> result.detail)

abbrev pub validated_detail : String
validated_detail = "DeploymentPlan and staged artifact validated"

-- The class and the code of the error that a failure in `prepare_media` ends in.
abbrev pub media_class : Exc → ExecutionErrorType × String
media_class (execution_error type code text) = (type, code)
media_class _ = (execution_error_type, "MEDIA_PREPARATION_FAILED")

module _ {W : Type 0} (executor : Executor W) where
  unfoldable pub present : String → Option MediaCandidate → Exec (Stage W) MediaCandidate
  present gone none = raise (execution_error media_verification_type "MEDIA_DISAPPEARED" gone)
  present gone (some medium) = pure medium

  -- The medium again, if it is still there and the same.
  unfoldable pub refresh_same : MediaCandidate → String → String → Exec (Stage W) MediaCandidate
  refresh_same medium gone changed = outside (executor.ports.refresh medium) >>= λ found.
      present gone found >>= λ refreshed. gets (λ (s : Stage W). s.world) >>= λ w.
      require (
        medium_error_of (same_physical_medium executor.library w medium refreshed)
          "MEDIA_IDENTITY_CHANGED" changed
        ∷ [])
      >> pure refreshed

  abbrev pub verify : MediaCandidate → BuildTarget → ℕ → Bool → Exec (Stage W) (Unit {0})
  verify medium target size require_space =
      outside (verify_media executor medium target size require_space)

  -- Up to MEDIA_VERIFIED.
  unfoldable pub choose_medium :
      DeploymentPlan → BuildTarget → String → Exec (Stage W) MediaCandidate
  choose_medium plan target selected_id =
      require (
        (
          executor.ports.has_monitor && executor.ports.has_verifier,
          execution_error execution_error_type "POST_FLASH_VERIFIER_UNAVAILABLE"
              "MCU monitor and Klipper verifier are required before media writes",
        )
        ∷ [])
      >> (outside executor.ports.arm
          >> (outside executor.ports.list_candidates >>= λ candidates.
              outside (select_media executor candidates selected_id) >>= λ selected.
              change (select selected)
              >> (transition executor media_selected
                    ("selected removable medium " <> selected.stable_id)
                  >> (verify selected target plan.artifact.size_bytes true
                      >> (refresh_same selected "selected medium disappeared before copy"
                            "selected medium identity changed before copy"
                          >>= λ refreshed.
                              change (select refreshed)
                              >> (verify refreshed target plan.artifact.size_bytes true
                                  >> (transition executor media_verified
                                        "filesystem, removability, identity and free space verified"
                                      >> pure refreshed)))))))

  abbrev pub destination_on : DeploymentPlan → MediaCandidate → String
  destination_on plan medium =
      executor.library.child medium.mount_path plan.transformation.final_filename

  -- The medium is selected, if the destination stays in its root.
  unfoldable pub check_escape : DeploymentPlan → MediaCandidate → Exec (Stage W) (Unit {0})
  check_escape plan medium =
      change (select medium)
      >> (gets (λ (s : Stage W). s.world) >>= λ w. require (
          medium_error_of
            (str_eq
              (executor.library.resolve w (executor.ports.parent (destination_on plan medium)))
              medium.mount_path)
            "DESTINATION_ESCAPE" "firmware destination escapes the selected media root"
          ∷ []))

  -- The second look at the plan, its files and the medium, immediately before the first write.
  unfoldable pub check_again :
      DeploymentPlan → BuildTarget → MediaCandidate → Exec (Stage W) MediaCandidate
  check_again plan target refreshed = outside (validate_plan executor plan) >>= λ _.
      outside (verify_artifacts executor plan)
      >> (refresh_same refreshed "selected medium disappeared immediately before copy"
            "selected medium identity changed immediately before copy"
          >>= λ medium.
              verify medium target plan.artifact.size_bytes true
              >> (check_escape plan medium >> pure medium))

  unfoldable pub copy_firmware :
      DeploymentPlan → BuildTarget → MediaCandidate → Exec (Stage W) MediaCandidate
  copy_firmware plan target medium =
      outside (
        executor.ports.copy plan.transformation.final_path (destination_on plan medium)
          plan.deployment_id)
      >> (refresh_same medium "selected medium disappeared during copy"
            "selected medium identity changed during copy"
          >>= λ after_copy.
              verify after_copy target plan.artifact.size_bytes false
              >> (change (select after_copy)
                  >> (transition executor copied (
                        "copied "
                        <> executor.library.file_name (destination_on plan medium)
                        <> " to selected media root")
                      >> pure after_copy)))

  -- The file is read again from the medium.
  unfoldable pub read_back : DeploymentPlan → String → Exec (Stage W) (Unit {0})
  read_back plan destination =
      gets (λ (s : Stage W). executor.ports.is_file s.world destination) >>= λ there.
      require (
        artifact_error_of there "MEDIA_FILE_ABSENT"
          "copied firmware is absent from the selected medium"
        ∷ [])
      >> (outside (executor.ports.file_size destination) >>= λ size.
          change (λ session. record session { media_readback_size = size })
          >> (outside (sha256_file executor destination) >>= λ digest.
              change (λ session. record session { media_readback_hash = digest })
              >> (require (
                    artifact_error_of (size == plan.artifact.size_bytes) "MEDIA_SIZE_MISMATCH"
                      "media readback size differs from staged artifact"
                    ∷ artifact_error_of (str_eq digest plan.transformation.final_sha256)
                        "MEDIA_HASH_MISMATCH" "media readback hash differs from staged artifact"
                    ∷ [])
                  >> transition executor copy_verified
                      "media file reread; size and SHA-256 match staged artifact")))

  unfoldable pub eject_medium : MediaCandidate → Exec (Stage W) (Unit {0})
  eject_medium medium = outside (executor.ports.eject medium) >>= λ result.
      change (λ session. record session { safe_eject = some result })
      >> (require ((is_eject_done result.status, eject_error result) ∷ [])
          >> (transition executor ejected "selected medium safely ejected"
              >> transition executor waiting_for_manual_power_cycle
                  "waiting for explicit confirmation of manual power off, SD insertion and power on"))

  -- The body of the `try`.
  unfoldable pub fill_media : DeploymentPlan → BuildTarget → String → Exec (Stage W) (Unit {0})
  fill_media plan target selected_id = choose_medium plan target selected_id >>= λ refreshed.
      check_again plan target refreshed >>= λ medium.
      copy_firmware plan target medium >>= λ after_copy.
      read_back plan (destination_on plan medium) >> eject_medium after_copy

  -- The two `except` clauses.
  unfoldable pub media_failed : {A : Type 0} → Exc → Exec (Stage W) A
  media_failed e = fail_session executor e ((media_class e).0) ((media_class e).1)

  unfoldable pub start_session : DeploymentPlan → Exec (Stage W) (Unit {0})
  start_session plan = clock_text executor >>= λ started. clock_text executor >>= λ at.
      change (λ _.
        new_session plan started
          (record { state = prepared; timestamp = at; detail = validated_detail } ∷ []))
      >> emit_state executor validated_detail

  unfoldable pub prepare_media : DeploymentPlan → String → Exec (Stage W) ContractDeploymentSession
  prepare_media plan selected_id = outside (validate_plan executor plan) >>= λ target.
      outside (verify_artifacts executor plan)
      >> (start_session plan
          >> attempt is_exception (fill_media plan target selected_id) media_failed
              (λ _. the_session))
