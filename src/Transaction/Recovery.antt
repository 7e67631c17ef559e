-- ===== src/Transaction/Recovery.antt =====
-- `_verify_plan`, `_record_possible_write` and `_rollback`.
pub mod Preserving
pub mod Success
pub mod Matching
use kace.Prelude.{
  Bool, true, false, not, ◌||◌, ◌&&◌, String, str_eq, Option, none, some, List, [], ◌∷◌, ◌++◌, any,
  keep, lookup, has_key, keys, if◌then◌else◌, ◌<>◌, join, map, Bytes,
}
use kace.Effects.{
  Exc, runtime_error, conflict_error, other_error, message, is_exception, is_interrupt, Result, ok,
  err, Exec, pure, raise, gets, lift, modify, need, guard, for_each, attempt, ◌>>=◌, ◌>>◌,
}
use kace.ManagedConfig.{
  Content, Files, content_eq, PlannedConfigArtifact, ManagedConfigPlan, changed_artifacts,
  planned_files, moonraker_remote,
}
use kace.Snapshot.{DeploymentSnapshot, mem_text, rollback_file_owned, verify_snapshot_restored}
use kace.Transaction.Interface.{Activation, inactive, Environment, Tx, call}
use kace.Transaction.Reading.{read_file}
use kace.Transaction.Waiting.{wait_ready, wait_moonraker}

-- `assert self.plan is not None`.
abbrev pub artifacts_of : Option ManagedConfigPlan → List PlannedConfigArtifact
artifacts_of none = []
artifacts_of (some plan) = plan.artifacts

abbrev pub changed_of : Option ManagedConfigPlan → List PlannedConfigArtifact
changed_of none = []
changed_of (some plan) = changed_artifacts plan

-- The first loop of `_verify_plan`: every planned file is there with the planned bytes.
unfoldable pub check_planned : Files → Files → Result (Unit {0})
check_planned current [] = ok tt
check_planned current ((name, expected) ∷ planned) =
    let rest = check_planned current planned in
    elim (lookup name current) [
      | none ↦ err (Exc.key_error name)
      | some none ↦ err (runtime_error ("uploaded file disappeared: " <> name))
      | some (some content) ↦
          if content_eq (some content) expected
          then rest
          else err (runtime_error ("checksum mismatch for " <> name))
    ]

-- The files that are not planned and differ from what is expected.
unfoldable pub foreign_changes : Files → Files → Files → Result (List String)
foreign_changes current planned [] = ok []
foreign_changes current planned ((name, expected) ∷ files) =
    let rest = foreign_changes current planned files in
    elim (has_key name planned) [
      | true ↦ rest
      | false ↦ elim (lookup name current) [
        | none ↦ err (Exc.key_error name)
        | some content ↦
            if content_eq content expected
            then rest
            else elim rest [ ok names ↦ ok (name ∷ names) | err e ↦ err e ]
      ]
    ]

abbrev pub refuse_foreign : List String → Result (Unit {0})
refuse_foreign [] = ok tt
refuse_foreign (name ∷ names) = err (
    conflict_error ("concurrent configuration modification detected: " <> join ", " (name ∷ names)))

unfoldable pub matches_plan : Files → Files → Files → Result (Unit {0})
matches_plan current planned expected = elim (check_planned current planned) [
  | err e ↦ err e
  | ok _ ↦ elim (foreign_changes current planned expected) [
    | err e ↦ err e
    | ok names ↦ refuse_foreign names
  ]
]

-- `self._written_names.add(name)`.
abbrev pub add_name : String → List String → List String
add_name name names = if mem_text name names then names else names ++ name ∷ []

-- Whether the read proves that a failed upload changed nothing.
unfoldable pub is_unchanged : DeploymentSnapshot → String → Content → Bool
is_unchanged snapshot name current =
    (mem_text name snapshot.missing_files && content_eq current none)
    || elim (lookup name snapshot.config_files) [
      | none ↦ false
      | some original ↦ content_eq current (some original)
    ]

-- `.get(name)`: a file that the read leaves out counts as absent.
abbrev pub get_content : String → Files → Content
get_content name remote = elim (lookup name remote) [ none ↦ none | some content ↦ content ]

abbrev pub Rolled : Type 0
Rolled = Option Bool × String

unfoldable pub owns_moonraker : DeploymentSnapshot → Bool
owns_moonraker snapshot =
    has_key moonraker_remote snapshot.config_files
    || mem_text moonraker_remote snapshot.missing_files

abbrev pub is_inactive : Activation → Bool
is_inactive inactive = true
is_inactive _ = false

module _ {W : Type 0} (env : Environment W) where
  unfoldable pub verify_plan : Exec (Tx W) (Unit {0})
  verify_plan =
      call env.transport.validate_activation_target
      >> (gets (λ (t : Tx W). t) >>= λ t.
          call (env.transport.read_files (keys t.expected_config_state)) >>= λ current.
          lift (matches_plan current (planned_files (artifacts_of t.plan)) t.expected_config_state))

  unfoldable pub mark_written : String → Exec (Tx W) (Unit {0})
  mark_written name = modify (λ t. record t { written_names = add_name name t.written_names })

  unfoldable pub record_against : String → Option DeploymentSnapshot → Exec (Tx W) (Unit {0})
  record_against name none = raise (other_error "")
  record_against name (some snapshot) =
      attempt (λ e. is_exception e || is_interrupt e) (call (env.transport.read_files (name ∷ [])))
        (λ _. mark_written name)
        (λ remote.
          if is_unchanged snapshot name (get_content name remote)
          then pure tt
          else mark_written name)

  -- The `assert` on the snapshot is the first line.
  unfoldable pub record_possible_write : String → Exec (Tx W) (Unit {0})
  record_possible_write name = gets (λ (t : Tx W). t.snapshot) >>= record_against name

  -- `owned(name)`; its answer is not used, only whether it raises.
  unfoldable pub owned :
      DeploymentSnapshot → List PlannedConfigArtifact → String → Exec (Tx W) (Unit {0})
  owned snapshot artifacts name = call (read_file env.transport name) >>= λ current.
      need name (lookup name (planned_files artifacts)) >>= λ written.
      lift (
        rollback_file_owned name current
          (elim (lookup name snapshot.config_files) [ none ↦ none | some b ↦ some b ]) written)
      >>= λ _. pure tt

  unfoldable pub verify_restoration : DeploymentSnapshot → List String → Exec (Tx W) (Unit {0})
  verify_restoration snapshot names = call (env.transport.read_files names) >>= λ current.
      lift (verify_snapshot_restored snapshot current names)

  -- After the second check: Klipper must come back on the restored files.
  unfoldable pub restart_restored : DeploymentSnapshot → List String → Exec (Tx W) Rolled
  restart_restored snapshot names = gets (λ (t : Tx W). t.activation) >>= λ activation.
      call (env.transport.restart activation)
      >> (call (wait_ready env) >>= λ ready.
          if ready.0
          then (verify_restoration snapshot names
              >> pure (some true, "rollback restored byte-identical state and Klipper Ready"))
          else pure
              (some false, "Klipper did not become Ready after rollback (state=" <> ready.1 <> ")"))

  unfoldable pub reactivate : DeploymentSnapshot → List String → Exec (Tx W) Rolled
  reactivate snapshot names =
      verify_restoration snapshot names
      >> (gets (λ (t : Tx W). t.activation) >>= λ activation.
          if is_inactive activation
          then pure (some true, "rollback restored byte-identical inactive files")
          else if owns_moonraker snapshot
          then (call env.transport.restart_moonraker
              >> (call (wait_moonraker env) >>= λ online.
                  if online
                  then restart_restored snapshot names
                  else pure (some false, "Moonraker did not recover after rollback")))
          else restart_restored snapshot names)

  unfoldable pub rollback_from :
      DeploymentSnapshot → List PlannedConfigArtifact → List String → Exec (Tx W) Rolled
  rollback_from snapshot artifacts names =
      attempt is_exception (for_each names (owned snapshot artifacts))
        (λ e. pure (
          some false,
          "rollback conflict; current files preserved: "
              <> message e
              <> "; manual recovery from "
              <> snapshot.storage_path,
        ))
        (λ _.
          attempt is_exception (verify_restoration snapshot names)
            (λ e. pure (
              some false,
              "automatic rollback unavailable: transport has no atomic conditional restore; current files preserved; manual recovery from snapshot "
                  <> snapshot.storage_path,
            ))
            (λ _.
              attempt is_exception (reactivate snapshot names)
                (λ e.
                  pure (some false, "rollback verification or activation failed: " <> message e))
                (λ rolled. pure rolled)))

  unfoldable pub rollback_to :
      List String → Option DeploymentSnapshot → List PlannedConfigArtifact → Exec (Tx W) Rolled
  rollback_to [] snapshot artifacts =
      pure (none, "rollback not required: the failed upload created no remote file")
  rollback_to (name ∷ names) none artifacts = pure (some false, "no snapshot is available")
  rollback_to (name ∷ names) (some snapshot) artifacts =
      rollback_from snapshot artifacts (name ∷ names)

  unfoldable pub rollback : Exec (Tx W) Rolled
  rollback =
      gets (λ (t : Tx W). t) >>= λ t. rollback_to t.written_names t.snapshot (changed_of t.plan)
