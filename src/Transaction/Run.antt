-- ===== src/Transaction/Run.antt =====
-- `_run_locked` and `run`: preflight, review, snapshot, publication, and the handlers around them.
pub mod Phases
pub mod Escapes
pub mod Soundness
pub mod Committed
use kace.Prelude.{
  Bool, true, false, not, ◌||◌, ◌&&◌, String, str_eq, Option, none, some, List, [], ◌∷◌, ◌++◌, map,
  lookup, update, if◌then◌else◌, ◌<>◌, join,
}
use kace.Effects.{
  Exc, value_error, conflict_error, message, is_exception, is_interrupt, is_conflict,
  is_publication_error, Result, ok, err, Exec, pure, raise, gets, lift, modify, need, for_each,
  attempt, finally, ◌>>=◌, ◌>>◌,
}
use kace.ManagedConfig.{
  Content, Files, PlannedConfigArtifact, ManagedConfigPlan, changed_artifacts, planned_files,
}
use kace.Snapshot.{DeploymentSnapshot, create_snapshot}
use kace.Transaction.Interface.{
  Activation, firmware, service, inactive, Environment, Tx, call, emit, SemanticValidation, valid,
  ConfigurationReview, ConfigTransactionState, ConfigTransactionResult, precondition_failed,
  cancelled, snapshot_failed, rollback_failed,
}
use kace.Transaction.Reading.{
  read_config_state, revalidate_config_state, require_conditional_writes, pick,
}
use kace.Transaction.Recovery.{rollback, Rolled}
use kace.Transaction.Publishing.{success, preserve_proposal, is_empty, publish_or_fail}

-- What the preflight leaves in local variables; `accepted` is set where there is a reviewer.
pub record Preflight : Type 0 where
  pub plan : ManagedConfigPlan
  pub remote : Files
  pub configuration_review : ConfigurationReview
  pub accepted : Option Bool

-- An early `return`, or the value to go on with.
pub data Step (A : Type 0) : Type 0 where
  finished : ConfigTransactionResult → Step A
  next : A → Step A

unfoldable pub parse_activation : String → Result Activation
parse_activation selected =
    if str_eq selected "firmware"
    then ok firmware
    else if str_eq selected "service"
    then ok service
    else if str_eq selected "none"
    then ok inactive
    else err (value_error ("Unsupported activation mode: " <> selected))

-- `{item.remote_name: current[item.remote_name] for item in plan.changed_artifacts}`.
unfoldable pub originals_of : Files → ManagedConfigPlan → Result Files
originals_of current plan =
    pick (map (λ (a : PlannedConfigArtifact). a.remote_name) (changed_artifacts plan)) current

abbrev pub diff_or_none : String → String
diff_or_none diff = if str_eq diff "" then "No configuration changes are required." else diff

unfoldable pub interrupted_result : Option DeploymentSnapshot → Rolled → ConfigTransactionResult
interrupted_result snapshot (none, detail) =
    success cancelled ("cancelled by user; " <> detail) snapshot
interrupted_result snapshot (some true, detail) = record {
  state = cancelled;
  detail = "cancelled by user; rollback succeeded: " <> detail;
  snapshot = snapshot;
  rollback_succeeded = some true;
}
interrupted_result snapshot (some false, detail) = record {
  state = rollback_failed;
  detail = "cancelled by user; rollback error: " <> detail;
  snapshot = snapshot;
  rollback_succeeded = some false;
}

-- `config_destination_lock`, up to the look into the table of locks.
unfoldable pub destination_identity : Result (List String) → Result (Unit {0})
destination_identity (err e) = err e
destination_identity (ok []) = err (value_error "configuration destination identity is unavailable")
destination_identity (ok (part ∷ parts)) = ok tt

module _ {W : Type 0} (env : Environment W) where
  -- The lines of the review where nobody reviews, or the reviewer's answer.
  unfoldable pub show_review :
      Option (ConfigurationReview → Exec W Bool)
      → ConfigurationReview
      → String
      → Exec W (Option Bool)
  show_review none configuration_review diff =
      env.settings.output (diff_or_none diff)
      >> (for_each configuration_review.validation.warnings
            (λ m. env.settings.output ("WARNING: " <> m))
          >> (for_each configuration_review.validation.errors
                (λ m. env.settings.output ("ERROR: " <> m))
              >> pure none))
  show_review (some reviewer) configuration_review diff =
      reviewer configuration_review >>= λ accepted. pure (some accepted)

  unfoldable pub set_plan : ManagedConfigPlan → Files → Exec (Tx W) (Unit {0})
  set_plan plan remote = modify (λ t. record t {
    plan = some plan;
    expected_config_state = update remote (planned_files plan.artifacts);
  })

  unfoldable pub review_plan : ManagedConfigPlan → Files → Exec (Tx W) Preflight
  review_plan plan remote =
      set_plan plan remote
      >> (gets (λ (t : Tx W). t.expected_config_state) >>= λ expected.
          lift (
            env.planner.validate_generated_display_artifacts env.settings.generated_hardware
              env.settings.generated_macros (some expected))
          >> (call (env.planner.build_configuration_review plan) >>= λ configuration_review.
              call (require_conditional_writes env.transport env.store plan)
              >> (call (
                    show_review env.settings.review configuration_review
                      (env.planner.dry_run_diff plan))
                  >>= λ accepted. pure (record {
                    plan = plan;
                    remote = remote;
                    configuration_review = configuration_review;
                    accepted = accepted;
                  }))))

  unfoldable pub preflight : Exec (Tx W) Preflight
  preflight =
      lift (
        env.planner.validate_generated_display_artifacts env.settings.generated_hardware
          env.settings.generated_macros none)
      >> (lift (env.planner.validate_board_electrical_artifact env.settings.generated_hardware)
          >> (call env.transport.validate_activation_target
              >> (call (
                    read_config_state env.transport env.planner env.settings.generated_hardware
                      env.settings.generated_macros)
                  >>= λ remote.
                      lift (
                        env.planner.build_managed_config_plan env.settings.generated_hardware
                          env.settings.generated_macros remote)
                      >>= λ plan. review_plan plan remote)))

  -- `accepted if self.review is not None else self.confirm(diff)`.
  unfoldable pub consent : Option Bool → String → Exec (Tx W) Bool
  consent (some accepted) diff = pure accepted
  consent none diff = call (env.settings.confirm diff)

  -- A verified no-op retry alone skips the restart decision.
  unfoldable pub select_activation :
      Option (Exec W String) → ManagedConfigPlan → Exec (Tx W) (Unit {0})
  select_activation none plan = pure tt
  select_activation (some selector) plan =
      if not (is_empty (changed_artifacts plan)) || not env.settings.verify_existing_ready
      then (call selector >>= λ selected. lift (parse_activation selected) >>= λ activation.
          modify (λ t. record t { activation = activation }))
      else pure tt

  unfoldable pub take_snapshot : Files → Exec (Tx W) (Unit {0})
  take_snapshot [] = modify (λ t. record t { snapshot = none })
  take_snapshot (file ∷ files) =
      call (
        create_snapshot env.store (file ∷ files) env.settings.transaction_id env.settings.board
          env.settings.kace_version)
      >>= λ snapshot. modify (λ t. record t { snapshot = some snapshot })

  unfoldable pub secure : Preflight → Exec (Tx W) (Step Files)
  secure p =
      select_activation env.settings.activation_selector p.plan
      >> (call (revalidate_config_state env.transport p.remote) >>= λ current.
          call (require_conditional_writes env.transport env.store p.plan)
          >> (lift (originals_of current p.plan) >>= λ originals.
              take_snapshot originals >> pure (next current)))

  unfoldable pub prepare : Preflight → Exec (Tx W) (Step Files)
  prepare p = consent p.accepted (env.planner.dry_run_diff p.plan) >>= λ accepted.
      if accepted
      then secure p
      else pure (finished (success cancelled "deployment cancelled after dry-run diff" none))

  -- The handlers of the second `try` block.
  unfoldable pub prepare_failed : Exc → Exec (Tx W) ConfigTransactionResult
  prepare_failed e =
      if is_conflict e
      then (preserve_proposal env
          >> pure (
              success precondition_failed (message e <> "; no configuration files were written")
                none))
      else pure (success snapshot_failed ("snapshot could not be completed: " <> message e) none)

  -- What is checked once more before the first write.
  unfoldable pub recheck : ManagedConfigPlan → Files → Exec (Tx W) (Unit {0})
  recheck plan current = call (revalidate_config_state env.transport current) >>= λ _.
      if env.settings.checks_reservations
      then (call (env.planner.validate_configuration_plan plan) >>= λ validation.
          if valid validation
          then pure tt
          else raise (
              conflict_error (
                "configuration validation changed before publication: "
                <> join "; " validation.errors)))
      else pure tt

  unfoldable pub recheck_failed : Exc → Exec (Tx W) ConfigTransactionResult
  recheck_failed e =
      preserve_proposal env
      >> (gets (λ (t : Tx W). t.snapshot) >>= λ snapshot. pure (
          success precondition_failed (message e <> "; no configuration files were written")
            snapshot))

  unfoldable pub deploy : ManagedConfigPlan → Step Files → Exec (Tx W) ConfigTransactionResult
  deploy plan (finished r) = pure r
  deploy plan (next current) =
      emit env "APPLYING_CONFIG" "uploading reconciled configuration"
      >> attempt is_conflict (recheck plan current) recheck_failed
          (λ _. publish_or_fail env plan current)

  unfoldable pub after_preflight : Preflight → Exec (Tx W) ConfigTransactionResult
  after_preflight p =
      if valid p.configuration_review.validation
      then attempt is_exception (prepare p) prepare_failed (deploy p.plan)
      else pure (
          success precondition_failed
            ("semantic configuration validation failed: "
              <> join "; " p.configuration_review.validation.errors)
            none)

  unfoldable pub run_locked : Exec (Tx W) ConfigTransactionResult
  run_locked =
      emit env "BACKUP" "validating configuration and preparing snapshot"
      >> attempt is_exception preflight
          (λ e.
            pure
              (success precondition_failed ("configuration preflight failed: " <> message e) none))
          after_preflight

  -- `with` a lock: it is released however the body ends.
  unfoldable pub with_lock :
      {A : Type 0} → Exec W (Unit {0}) → Exec W (Unit {0}) → Exec (Tx W) A → Exec (Tx W) A
  with_lock enter leave body = call enter >> finally body (call leave)

  -- `with destination_lock():`.
  unfoldable pub with_destination : {A : Type 0} → Exec (Tx W) A → Exec (Tx W) A
  with_destination body = with_lock env.transport.enter env.transport.leave body

  unfoldable pub roll_back_interrupted : List String → Exec (Tx W) Rolled
  roll_back_interrupted [] = pure (none, "no configuration files were written")
  roll_back_interrupted (name ∷ names) =
      attempt (λ e. is_exception e || is_interrupt e) (rollback env)
        (λ e. pure (
          some false,
          (if is_interrupt e
              then "rollback interrupted by user"
              else "rollback failed: " <> message e),
        ))
        (λ rolled. pure rolled)

  unfoldable pub interrupted : Exec (Tx W) ConfigTransactionResult
  interrupted = gets (λ (t : Tx W). t.written_names) >>= λ names.
      roll_back_interrupted names >>= λ rolled.
      gets (λ (t : Tx W). t.snapshot) >>= λ snapshot. pure (interrupted_result snapshot rolled)

  -- The handlers of `run`.
  unfoldable pub escaped : Exc → Exec (Tx W) ConfigTransactionResult
  escaped e =
      if is_interrupt e
      then interrupted
      else (gets (λ (t : Tx W). t.snapshot) >>= λ snapshot. pure (
          success precondition_failed ("local publication could not be secured: " <> message e)
            snapshot))

  -- What runs under the process's lock.
  unfoldable pub run_secured : Exec (Tx W) ConfigTransactionResult
  run_secured =
      attempt (λ e. is_interrupt e || is_publication_error e) (with_destination run_locked) escaped
        (λ r. pure r)

  -- Taking and releasing the process's lock stands outside the inner `try`.
  unfoldable pub run : Exec (Tx W) ConfigTransactionResult
  run =
      attempt is_exception (lift (destination_identity env.transport.destination_key))
        (λ e. pure (
          success precondition_failed
            ("configuration destination could not be identified: " <> message e) none))
        (λ _. with_lock env.acquire env.release run_secured)
