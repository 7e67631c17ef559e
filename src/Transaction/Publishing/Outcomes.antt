-- ===== src/Transaction/Publishing/Outcomes.antt =====
-- Which states the publication ends in, and what they say of restarts.
use kace.Prelude.{ℕ, Bool, true, false, ◌&&◌, ◌≡◌, refl, String, Option, none, some, List, arith}
use kace.Effects.{Exc, is_exception}
use kace.Effects.Keeping.{
  Keeps, Keeps-bind, Keeps-pure, Keeps-raise, Keeps-attempt, Keeps-for_each, Keeps-need, Keeps-gets,
}
use kace.Effects.Ending.{
  Ends, Anywhere, Ends-pure, Ends-if, Ends-map, Ends-bind, Ends-try, Ends-Anywhere, Keeps-Anywhere,
}
use kace.ManagedConfig.{Content, Files, PlannedConfigArtifact, ManagedConfigPlan}
use kace.Snapshot.{DeploymentSnapshot}
use kace.Transaction.Interface.{
  Environment, Tx, ConfigTransactionResult, is_pending, precondition_failed, cancelled,
  snapshot_failed,
}
use kace.Transaction.Publishing.{
  classify, failure_result, upload, upload_artifact, confirm_existing, activate, settle, publish,
  fail, publish_or_fail, is_empty,
}
use kace.Transaction.Recovery.{Rolled}
use kace.Transaction.Quiet.{
  KeepsQuiet, InWorld, Keeps-call, revalidate_config_state-Keeps, emit-Keeps,
}
use kace.Transaction.Recovery.Preserving.{
  verify_plan-Keeps, mark_written-Keeps, record_possible_write-Keeps,
}

-- The states that promise that nothing was written.
abbrev pub is_unwritten : ConfigTransactionResult → Bool
is_unwritten r = elim r.state [
  | precondition_failed ↦ true
  | cancelled ↦ true
  | snapshot_failed ↦ true
  | _ ↦ false
]

-- What a publication's result can be, by the way it ends.
abbrev Settled : ConfigTransactionResult → Type 0
Settled r = is_unwritten r ≡ false

abbrev Restarted : ConfigTransactionResult → Type 0
Restarted r = (is_unwritten r ≡ false) × (is_pending r ≡ false)

failure_result-Restarted :
    (e : Exc) (snapshot : Option DeploymentSnapshot) (rolled : Rolled)
    → Restarted (failure_result e snapshot rolled)
unfolding failure_result classify
failure_result-Restarted e snapshot (none, d) = ground arith
failure_result-Restarted e snapshot (some true, d) = ground arith
failure_result-Restarted e snapshot (some false, d) = ground arith

module _ {W : Type 0} (env : Environment W) where
  confirm_existing-Restarted :
      (plan : ManagedConfigPlan)
      → Ends Anywhere (λ r (_ : Tx W). Restarted r) (confirm_existing env plan)
  unfolding confirm_existing
  confirm_existing-Restarted plan = search (Ends-bind, Ends-pure, Keeps-Anywhere) depth 12

  activate-Restarted :
      (items : List PlannedConfigArtifact)
      → Ends Anywhere (λ r (_ : Tx W). Restarted r) (activate env items)
  unfolding activate
  activate-Restarted items = search (Ends-bind, Ends-pure, Keeps-Anywhere) depth 14

  fail-Restarted : (e : Exc) → Ends Anywhere (λ r (_ : Tx W). Restarted r) (fail env e)
  unfolding fail
  fail-Restarted e = search (Ends-bind, Ends-pure, Keeps-Anywhere, failure_result-Restarted) depth 8

  settle-Settled :
      (plan : ManagedConfigPlan) (items : List PlannedConfigArtifact)
      → Ends Anywhere (λ r (_ : Tx W). Settled r) (settle env plan items)
  unfolding settle
  settle-Settled plan items =
      Ends-if (is_empty items && env.settings.verify_existing_ready) _ _
        (Ends-map _ (confirm_existing-Restarted plan) (λ r s q. q.0))
        (Ends-bind _ _ (Keeps-Anywhere _) λ t.
          Ends-if _ _ _ (Ends-pure _ (λ s _. refl))
            (Ends-map _ (activate-Restarted items) (λ r s q. q.0)))

  publish-Settled :
      (plan : ManagedConfigPlan) (current : Files)
      → Ends Anywhere (λ r (_ : Tx W). Settled r) (publish env plan current)
  unfolding publish
  publish-Settled plan current = search (Ends-bind, Keeps-Anywhere, settle-Settled) depth 8

  pub publish_or_fail-Settled :
      (plan : ManagedConfigPlan) (current : Files)
      → Ends Anywhere (λ r (_ : Tx W). Settled r) (publish_or_fail env plan current)
  unfolding publish_or_fail
  publish_or_fail-Settled plan current =
      Ends-try is_exception _ _ _ (publish-Settled plan current)
        (λ e. Ends-map _ (fail-Restarted e) (λ r s q. q.0)) (λ r. Ends-pure r (λ s q. q))

pub record KeepsUploads {W : Type 0} (env : Environment W) (P : W → Type 0) : Type 0 where
  pub uploaded :
      (name : String) (content : List ℕ) (previous : Content)
      → Keeps P (env.transport.upload_if_unchanged name content previous)

-- `P` holds of the world if the result is pending.
abbrev pub IfPending : {W : Type 0} → (W → Type 0) → ConfigTransactionResult → Tx W → Type 0
IfPending P r t = is_pending r ≡ true → P t.world

module _ {W : Type 0} (env : Environment W) {P : W → Type 0} (quiet : KeepsQuiet env P)
    (uploads : KeepsUploads env P) where
  upload-Keeps :
      (artifact : PlannedConfigArtifact) (previous : Content)
      → Keeps (InWorld P) (upload env artifact previous)
  unfolding upload
  upload-Keeps artifact previous =
      Keeps-attempt _ _ _ _
        (Keeps-bind _ _ (Keeps-call _ (uploads.uploaded _ _ previous))
          (λ _. mark_written-Keeps env quiet _))
        (λ e. Keeps-bind _ _ (record_possible_write-Keeps env quiet _) (λ _. Keeps-raise e))
        (λ _. Keeps-pure tt)

  upload_artifact-Keeps :
      (current : Files) (artifact : PlannedConfigArtifact)
      → Keeps (InWorld P) (upload_artifact env current artifact)
  unfolding upload_artifact
  upload_artifact-Keeps current artifact = Keeps-bind _ _ (Keeps-need _ _) λ previous.
      Keeps-bind _ _ (Keeps-call _ (revalidate_config_state-Keeps env quiet _))
        λ _. upload-Keeps artifact previous

  settle-IfPending :
      (plan : ManagedConfigPlan) (items : List PlannedConfigArtifact)
      → Ends (InWorld P) (IfPending P) (settle env plan items)
  unfolding settle
  settle-IfPending plan items =
      Ends-if (is_empty items && env.settings.verify_existing_ready) _ _
        (Ends-Anywhere _ (Ends-map _ (confirm_existing-Restarted env plan) never))
        (Ends-bind _ _ (Keeps-gets _) λ t.
          Ends-if _ _ _ (Ends-pure _ (λ s p _. p))
            (Ends-Anywhere _ (Ends-map _ (activate-Restarted env items) never)))
    where
      never : (r : ConfigTransactionResult) (t : Tx W) → Restarted r → IfPending P r t
      never r t q h = absurd (cc (q.1, h))

  -- If the files wait for a restart, the world is one that reads and uploads alone have made:
  -- every predicate that those keep still holds, so nothing was restarted.
  pub publish_or_fail-IfPending :
      (plan : ManagedConfigPlan) (current : Files)
      → Ends (InWorld P) (IfPending P) (publish_or_fail env plan current)
  unfolding publish_or_fail publish
  publish_or_fail-IfPending plan current =
      Ends-try is_exception _ _ _
        (Ends-bind _ _ (Keeps-for_each _ _ (upload_artifact-Keeps current)) λ _.
          Ends-bind _ _ (emit-Keeps env quiet _ _)
            λ _. Ends-bind _ _ (verify_plan-Keeps env quiet) λ _. settle-IfPending plan _)
        (λ e. Ends-map _ (fail-Restarted env e) never) (λ r. Ends-pure r (λ s q. q))
    where
      never : (r : ConfigTransactionResult) (t : Tx W) → Restarted r → IfPending P r t
      never r t q h = absurd (cc (q.1, h))
