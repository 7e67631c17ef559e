-- ===== src/Transaction/Recovery/Preserving.antt =====
-- Rollback changes no file: it reads, compares and at most restarts. The same of the two helpers
-- that look at the files behind an upload.
use kace.Prelude.{String, Option, none, some, List, [], ◌∷◌}
use kace.Effects.Keeping.{
  Keeps, keeps_rules, Keeps-bind, Keeps-if, Keeps-gets, Keeps-modify, Keeps-pure,
}
use kace.ManagedConfig.{PlannedConfigArtifact}
use kace.Snapshot.{DeploymentSnapshot}
use kace.Transaction.Interface.{Activation, Environment, call}
use kace.Transaction.Quiet.{
  KeepsQuiet, InWorld, Keeps-call, read_file-Keeps, wait_ready-Keeps, wait_moonraker-Keeps,
}
use kace.Transaction.Recovery.{
  mark_written, verify_plan, record_against, record_possible_write, owned, verify_restoration,
  restart_restored, reactivate, rollback_from, rollback_to, rollback, owns_moonraker, is_inactive,
}

pub record KeepsRestarts {W : Type 0} (env : Environment W) (P : W → Type 0) : Type 0 where
  pub restart : (activation : Activation) → Keeps P (env.transport.restart activation)
  pub restart_moonraker : Keeps P env.transport.restart_moonraker

module _ {W : Type 0} (env : Environment W) {P : W → Type 0} (quiet : KeepsQuiet env P) where
  pub read-Keeps : (names : List String) → Keeps (InWorld P) (call (env.transport.read_files names))
  read-Keeps names = Keeps-call _ (quiet.read names)

  pub validate-Keeps : Keeps (InWorld P) (call env.transport.validate_activation_target)
  validate-Keeps = Keeps-call _ quiet.validate

  pub mark_written-Keeps : (name : String) → Keeps (InWorld P) (mark_written env name)
  unfolding mark_written
  mark_written-Keeps name = Keeps-modify _ (λ t p. p)

  pub verify_plan-Keeps : Keeps (InWorld P) (verify_plan env)
  unfolding verify_plan
  verify_plan-Keeps = search (keeps_rules, validate-Keeps, read-Keeps) depth 8

  record_against-Keeps :
      (name : String) (snapshot : Option DeploymentSnapshot)
      → Keeps (InWorld P) (record_against env name snapshot)
  unfolding record_against
  record_against-Keeps name none = search keeps_rules
  record_against-Keeps name (some snapshot) = search (keeps_rules, read-Keeps, mark_written-Keeps)

  pub record_possible_write-Keeps :
      (name : String) → Keeps (InWorld P) (record_possible_write env name)
  unfolding record_possible_write
  record_possible_write-Keeps name = search (keeps_rules, record_against-Keeps)

  owned-Keeps :
      (snapshot : DeploymentSnapshot) (artifacts : List PlannedConfigArtifact) (name : String)
      → Keeps (InWorld P) (owned env snapshot artifacts name)
  unfolding owned
  owned-Keeps snapshot artifacts name =
      Keeps-bind _ _ (Keeps-call _ (read_file-Keeps env quiet name)) λ current. search keeps_rules

  verify_restoration-Keeps :
      (snapshot : DeploymentSnapshot) (names : List String)
      → Keeps (InWorld P) (verify_restoration env snapshot names)
  unfolding verify_restoration
  verify_restoration-Keeps snapshot names = search (keeps_rules, read-Keeps)

  module _ (restarts : KeepsRestarts env P) where
    restart_restored-Keeps :
        (snapshot : DeploymentSnapshot) (names : List String)
        → Keeps (InWorld P) (restart_restored env snapshot names)
    unfolding restart_restored
    restart_restored-Keeps snapshot names = Keeps-bind _ _ (Keeps-gets _) λ activation.
        Keeps-bind _ _ (Keeps-call _ (restarts.restart activation)) λ _.
          Keeps-bind _ _ (Keeps-call _ (wait_ready-Keeps env quiet))
            λ ready. search (keeps_rules, verify_restoration-Keeps)

    restart_all-Keeps :
        (snapshot : DeploymentSnapshot) (names : List String)
        → Keeps (InWorld P) (reactivate env snapshot names)
    unfolding reactivate
    restart_all-Keeps snapshot names = Keeps-bind _ _ (verify_restoration-Keeps snapshot names) λ _.
        Keeps-bind _ _ (Keeps-gets _) λ activation.
          Keeps-if (is_inactive activation) _ _ (Keeps-pure _) (
            Keeps-if (owns_moonraker snapshot) _ _
              (Keeps-bind _ _ (Keeps-call _ restarts.restart_moonraker) λ _.
                Keeps-bind _ _ (Keeps-call _ (wait_moonraker-Keeps env quiet)) λ online.
                  Keeps-if online _ _ (restart_restored-Keeps snapshot names) (Keeps-pure _))
              (restart_restored-Keeps snapshot names))

    rollback_from-Keeps :
        (snapshot : DeploymentSnapshot) (artifacts : List PlannedConfigArtifact)
        (names : List String)
        → Keeps (InWorld P) (rollback_from env snapshot artifacts names)
    unfolding rollback_from
    rollback_from-Keeps snapshot artifacts names =
        search (keeps_rules, owned-Keeps, verify_restoration-Keeps, restart_all-Keeps) depth 8

    rollback_to-Keeps :
        (names : List String) (snapshot : Option DeploymentSnapshot)
        (artifacts : List PlannedConfigArtifact)
        → Keeps (InWorld P) (rollback_to env names snapshot artifacts)
    unfolding rollback_to
    rollback_to-Keeps [] snapshot artifacts = search keeps_rules
    rollback_to-Keeps (name ∷ names) none artifacts = search keeps_rules
    rollback_to-Keeps (name ∷ names) (some snapshot) artifacts =
        rollback_from-Keeps snapshot artifacts (name ∷ names)

    -- A rollback, whatever its outcome, keeps every predicate on the world that reads, polls and
    -- restarts keep: it uploads nothing.
    pub rollback-Keeps : Keeps (InWorld P) (rollback env)
    unfolding rollback
    rollback-Keeps = search (keeps_rules, rollback_to-Keeps)
