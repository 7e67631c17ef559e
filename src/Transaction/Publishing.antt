-- ===== src/Transaction/Publishing.antt =====
-- The last `try` block of `_run_locked`, its handler, and `_preserve_proposal`: the uploads, the
-- checks behind them and the activation.
pub mod Outcomes
pub mod Recorded
use kace.Prelude.{
  Bool, true, false, not, ◌||◌, ◌&&◌, String, str_eq, codes, lower, has_infix, Option, none, some,
  List, [], ◌∷◌, any, map, lookup, if◌then◌else◌, ◌<>◌,
}
use kace.Effects.{
  Exc, runtime_error, firmware_error, message, is_exception, is_interrupt, is_firmware, Exec, pure,
  raise, gets, lift, need, for_each, attempt, ◌>>=◌, ◌>>◌,
}
use kace.ManagedConfig.{
  Content, Files, PlannedConfigArtifact, ManagedConfigPlan, planned_files, moonraker_remote,
}
use kace.Snapshot.{DeploymentSnapshot, create_snapshot}
use kace.Transaction.Interface.{
  Activation, inactive, Environment, Tx, call, emit, ConfigTransactionState,
  ConfigTransactionResult, upload_failed, verify_failed, activation_failed, firmware_failed,
  rollback_failed, deployed_pending_activation, committed,
}
use kace.Transaction.Reading.{revalidate_config_state}
use kace.Transaction.Waiting.{wait_ready, wait_moonraker}
use kace.Transaction.Ordering.{ordered_artifacts}
use kace.Transaction.Recovery.{
  changed_of, mark_written, record_possible_write, verify_plan, rollback, is_inactive, Rolled,
}

-- `part in text`.
abbrev pub contains : String → String → Bool
contains text part = has_infix (codes text) (codes part)

abbrev lower_contains : String → String → Bool
lower_contains text part = has_infix (map lower (codes text)) (codes part)

unfoldable pub classify : Exc → ConfigTransactionState
classify e =
    if is_firmware e
    then firmware_failed
    else if contains (message e) "Ready" || lower_contains (message e) "restart"
    then activation_failed
    else if contains (message e) "checksum"
    then verify_failed
    else upload_failed

abbrev failure_label : ConfigTransactionState → String
failure_label firmware_failed = "firmware verification error"
failure_label activation_failed = "activation error"
failure_label verify_failed = "verification error"
failure_label _ = "upload error"

unfoldable pub failure_result : Exc → Option DeploymentSnapshot → Rolled → ConfigTransactionResult
failure_result e snapshot (none, detail) = record {
  state = classify e;
  detail = failure_label (classify e) <> ": " <> message e <> "; " <> detail;
  snapshot = snapshot;
  rollback_succeeded = none;
}
failure_result e snapshot (some true, detail) = record {
  state = classify e;
  detail = failure_label (classify e) <> ": " <> message e <> "; rollback succeeded: " <> detail;
  snapshot = snapshot;
  rollback_succeeded = some true;
}
failure_result e snapshot (some false, detail) = record {
  state = rollback_failed;
  detail = failure_label (classify e) <> ": " <> message e <> "; rollback error: " <> detail;
  snapshot = snapshot;
  rollback_succeeded = some false;
}

abbrev pub success :
    ConfigTransactionState → String → Option DeploymentSnapshot → ConfigTransactionResult
success state detail snapshot = record {
  state = state;
  detail = detail;
  snapshot = snapshot;
  rollback_succeeded = none;
}

abbrev pub is_empty : List PlannedConfigArtifact → Bool
is_empty [] = true
is_empty (item ∷ items) = false

module _ {W : Type 0} where
  unfoldable pub verify_firmware_by : Option (Exec W (Unit {0})) → Exec (Tx W) (Unit {0})
  verify_firmware_by none = pure tt
  verify_firmware_by (some verify) =
      attempt is_exception (call verify) (λ e. raise (firmware_error (message e))) (λ _. pure tt)

  -- `hasattr(self.transport, "verify_active_configuration")`.
  unfoldable pub verify_active_by :
      Option (ManagedConfigPlan → Exec W (Unit {0})) → ManagedConfigPlan → Exec (Tx W) (Unit {0})
  verify_active_by none plan = pure tt
  verify_active_by (some verify) plan = call (verify plan)

module _ {W : Type 0} (env : Environment W) where
  unfoldable pub preserve_plan : Option ManagedConfigPlan → Exec (Tx W) (Unit {0})
  preserve_plan none = pure tt
  preserve_plan (some plan) =
      call (
        create_snapshot env.store (planned_files plan.artifacts)
          (env.settings.transaction_id <> "-proposed") "" "unknown")
      >>= λ _. pure tt

  unfoldable pub preserve_proposal : Exec (Tx W) (Unit {0})
  preserve_proposal = gets (λ (t : Tx W). t.plan) >>= preserve_plan

  unfoldable pub upload : PlannedConfigArtifact → Content → Exec (Tx W) (Unit {0})
  upload artifact previous =
      attempt (λ e. is_exception e || is_interrupt e)
        (call (env.transport.upload_if_unchanged artifact.remote_name artifact.content previous)
          >> mark_written env artifact.remote_name)
        (λ e. record_possible_write env artifact.remote_name >> raise e) (λ _. pure tt)

  unfoldable pub upload_artifact : Files → PlannedConfigArtifact → Exec (Tx W) (Unit {0})
  upload_artifact current artifact =
      need artifact.remote_name (lookup artifact.remote_name current) >>= λ previous.
      call (revalidate_config_state env.transport ((artifact.remote_name, previous) ∷ [])) >>= λ _.
      upload artifact previous

  unfoldable pub verify_firmware : Exec (Tx W) (Unit {0})
  verify_firmware = verify_firmware_by env.settings.verify_firmware

  unfoldable pub require_ready : Exec (Tx W) (Unit {0})
  require_ready = call (wait_ready env) >>= λ ready.
      if ready.0
      then pure tt
      else raise (runtime_error ("Klipper did not become Ready (state=" <> ready.1 <> ")"))

  unfoldable pub verify_active : ManagedConfigPlan → Exec (Tx W) (Unit {0})
  verify_active = verify_active_by env.transport.verify_active_configuration

  unfoldable pub confirm_existing : ManagedConfigPlan → Exec (Tx W) ConfigTransactionResult
  confirm_existing plan =
      require_ready
      >> (verify_firmware
          >> (verify_active plan
              >> (verify_plan env
                  >> (emit env "DONE" "configuration already installed; Klipper Ready"
                      >> pure (
                          success committed
                            "configuration already installed; Klipper Ready and firmware verified"
                            none)))))

  unfoldable pub restart_moonraker_for : List PlannedConfigArtifact → Exec (Tx W) (Unit {0})
  restart_moonraker_for items =
      if any (λ (item : PlannedConfigArtifact). str_eq item.remote_name moonraker_remote) items
      then (emit env "WAITING_MOONRAKER" "restarting Moonraker before Klipper activation"
          >> (call env.transport.restart_moonraker
              >> (call (wait_moonraker env) >>= λ online.
                  if online
                  then pure tt
                  else raise (runtime_error "Moonraker did not recover after restart"))))
      else pure tt

  unfoldable pub activate : List PlannedConfigArtifact → Exec (Tx W) ConfigTransactionResult
  activate items =
      call env.transport.validate_activation_target
      >> (restart_moonraker_for items
          >> (emit env "FIRMWARE_RESTART" "restarting Klipper to activate configuration"
              >> (gets (λ (t : Tx W). t.activation) >>= λ activation.
                  call (env.transport.restart activation)
                  >> (emit env "VERIFYING_CONFIG" "waiting for Klipper Ready after restart"
                      >> (require_ready
                          >> (verify_firmware
                              >> (verify_plan env
                                  >> (emit env "DONE" "configuration activated and Klipper Ready"
                                      >> (gets (λ (t : Tx W). t.snapshot) >>= λ snapshot. pure (
                                          success committed
                                            "configuration checksums verified and Klipper Ready"
                                            snapshot))))))))))

  -- Behind the uploads: a verified no-op, files that wait for a restart, or the activation.
  unfoldable pub settle :
      ManagedConfigPlan → List PlannedConfigArtifact → Exec (Tx W) ConfigTransactionResult
  settle plan items =
      if is_empty items && env.settings.verify_existing_ready
      then confirm_existing plan
      else (gets (λ (t : Tx W). t) >>= λ t.
          if is_inactive t.activation
          then pure (
              success deployed_pending_activation
                "checksums verified; configuration requires an explicit restart" t.snapshot)
          else activate items)

  unfoldable pub publish : ManagedConfigPlan → Files → Exec (Tx W) ConfigTransactionResult
  publish plan current =
      for_each (ordered_artifacts (changed_of (some plan))) (upload_artifact current)
      >> (emit env "VERIFYING_UPLOAD" "verifying uploaded configuration checksums"
          >> (verify_plan env >> settle plan (changed_of (some plan))))

  -- `except Exception as exc`.
  unfoldable pub fail : Exc → Exec (Tx W) ConfigTransactionResult
  fail e =
      preserve_proposal
      >> (emit env "CONFIG_ERROR" (message e)
          >> (rollback env >>= λ rolled. gets (λ (t : Tx W). t.snapshot) >>= λ snapshot.
              pure (failure_result e snapshot rolled)))

  unfoldable pub publish_or_fail : ManagedConfigPlan → Files → Exec (Tx W) ConfigTransactionResult
  publish_or_fail plan current = attempt is_exception (publish plan current) fail (λ r. pure r)
