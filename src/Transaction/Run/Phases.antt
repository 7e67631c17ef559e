-- ===== src/Transaction/Run/Phases.antt =====
-- The phases of `run_locked` before the first write keep the world as quiet code does.
use kace.Prelude.{Bool, true, String, Option, none, some, [], ◌∷◌, ◌≡◌}
use kace.Effects.{Exc, Exec, is_exception, is_conflict}
use kace.Effects.Keeping.{
  Keeps, keeps_rules, Keeps-bind, Keeps-if, Keeps-pure, Keeps-raise, Keeps-gets, Keeps-lift,
  Keeps-modify,
}
use kace.Effects.Ending.{
  Ends, Ends-pure, Ends-if, Ends-Keeps, Ends-map, Ends-bind, Ends-attempt, Ends-Anywhere,
}
use kace.ManagedConfig.{Files, ManagedConfigPlan}
use kace.Transaction.Interface.{
  Environment, Tx, ConfigurationReview, ConfigTransactionResult, valid,
}
use kace.Transaction.Publishing.{preserve_plan, preserve_proposal, publish_or_fail}
use kace.Transaction.Publishing.Outcomes.{
  is_unwritten, publish_or_fail-Settled, KeepsUploads, IfPending, publish_or_fail-IfPending,
}
use kace.Transaction.Quiet.{
  KeepsQuiet, OnSome, InWorld, Keeps-call, create_snapshot-Keeps, read_config_state-Keeps,
  require_conditional_writes-Keeps, revalidate_config_state-Keeps, emit-Keeps,
}
use kace.Transaction.Recovery.Preserving.{validate-Keeps}
use kace.Transaction.Run.{
  Preflight, Step, finished, next, show_review, set_plan, review_plan, preflight, consent,
  select_activation, take_snapshot, secure, prepare, prepare_failed, recheck, recheck_failed,
  deploy, after_preflight, run_locked,
}

module _ {W : Type 0} (env : Environment W) {P : W → Type 0} (quiet : KeepsQuiet env P) where
  show_review-Keeps :
      (review : Option (ConfigurationReview → Exec W Bool))
      → OnSome (λ reviewer. (r : ConfigurationReview) → Keeps P (reviewer r)) review
      → (r : ConfigurationReview) (diff : String) → Keeps P (show_review env review r diff)
  unfolding show_review
  show_review-Keeps none h r diff = search (keeps_rules, quiet.shown) depth 9
  show_review-Keeps (some reviewer) h r diff = search (keeps_rules, h)

  set_plan-Keeps :
      (plan : ManagedConfigPlan) (remote : Files) → Keeps (InWorld P) (set_plan env plan remote)
  unfolding set_plan
  set_plan-Keeps plan remote = Keeps-modify _ (λ t p. p)

  review_plan-Keeps :
      (plan : ManagedConfigPlan) (remote : Files) → Keeps (InWorld P) (review_plan env plan remote)
  unfolding review_plan
  review_plan-Keeps plan remote = Keeps-bind _ _ (set_plan-Keeps plan remote) λ _.
      Keeps-bind _ _ (Keeps-gets _) λ expected. Keeps-bind _ _ (Keeps-lift _) λ _.
        Keeps-bind _ _ (Keeps-call _ (quiet.review_built plan)) λ r.
          Keeps-bind _ _ (Keeps-call _ (require_conditional_writes-Keeps env quiet plan)) λ _.
            Keeps-bind _ _ (Keeps-call _ (show_review-Keeps _ quiet.reviewed r _)) λ _. Keeps-pure _

  preflight-Keeps : Keeps (InWorld P) (preflight env)
  unfolding preflight
  preflight-Keeps = Keeps-bind _ _ (Keeps-lift _) λ _. Keeps-bind _ _ (Keeps-lift _) λ _.
      Keeps-bind _ _ (validate-Keeps env quiet) λ _.
        Keeps-bind _ _ (Keeps-call _ (read_config_state-Keeps env quiet _ _))
          λ remote. Keeps-bind _ _ (Keeps-lift _) λ plan. review_plan-Keeps plan remote

  consent-Keeps :
      (accepted : Option Bool) (diff : String) → Keeps (InWorld P) (consent env accepted diff)
  unfolding consent
  consent-Keeps (some accepted) diff = Keeps-pure accepted
  consent-Keeps none diff = Keeps-call _ (quiet.confirmed diff)

  select_activation-Keeps :
      (selector : Option (Exec W String))
      → OnSome (λ selector. Keeps P selector) selector
      → (plan : ManagedConfigPlan) → Keeps (InWorld P) (select_activation env selector plan)
  unfolding select_activation
  select_activation-Keeps none h plan = Keeps-pure tt
  select_activation-Keeps (some selector) h plan =
      Keeps-if _ _ _
        (Keeps-bind _ _ (Keeps-call _ h)
          λ selected. Keeps-bind _ _ (Keeps-lift _) λ activation. Keeps-modify _ (λ t p. p))
        (Keeps-pure tt)

  take_snapshot-Keeps : (originals : Files) → Keeps (InWorld P) (take_snapshot env originals)
  unfolding take_snapshot
  take_snapshot-Keeps [] = Keeps-modify _ (λ t p. p)
  take_snapshot-Keeps (file ∷ files) =
      Keeps-bind _ _ (Keeps-call _ (create_snapshot-Keeps env quiet _ _ _ _))
        λ snapshot. Keeps-modify _ (λ t p. p)

  secure-Keeps : (p : Preflight) → Keeps (InWorld P) (secure env p)
  unfolding secure
  secure-Keeps p = Keeps-bind _ _ (select_activation-Keeps _ quiet.selected p.plan) λ _.
      Keeps-bind _ _ (Keeps-call _ (revalidate_config_state-Keeps env quiet p.remote)) λ current.
        Keeps-bind _ _ (Keeps-call _ (require_conditional_writes-Keeps env quiet p.plan)) λ _.
          Keeps-bind _ _ (Keeps-lift _)
            λ originals. Keeps-bind _ _ (take_snapshot-Keeps originals) λ _. Keeps-pure _

  prepare-Keeps : (p : Preflight) → Keeps (InWorld P) (prepare env p)
  unfolding prepare
  prepare-Keeps p =
      Keeps-bind _ _ (consent-Keeps p.accepted _)
        λ accepted. Keeps-if accepted _ _ (secure-Keeps p) (Keeps-pure _)

  preserve_plan-Keeps :
      (plan : Option ManagedConfigPlan) → Keeps (InWorld P) (preserve_plan env plan)
  unfolding preserve_plan
  preserve_plan-Keeps none = Keeps-pure tt
  preserve_plan-Keeps (some plan) =
      Keeps-bind _ _ (Keeps-call _ (create_snapshot-Keeps env quiet _ _ _ _)) λ _. Keeps-pure tt

  preserve_proposal-Keeps : Keeps (InWorld P) (preserve_proposal env)
  unfolding preserve_proposal
  preserve_proposal-Keeps = search (keeps_rules, preserve_plan-Keeps)

  prepare_failed-Keeps : (e : Exc) → Keeps (InWorld P) (prepare_failed env e)
  unfolding prepare_failed
  prepare_failed-Keeps e = search (keeps_rules, preserve_proposal-Keeps)

  recheck-Keeps :
      (plan : ManagedConfigPlan) (current : Files) → Keeps (InWorld P) (recheck env plan current)
  unfolding recheck
  recheck-Keeps plan current =
      Keeps-bind _ _ (Keeps-call _ (revalidate_config_state-Keeps env quiet current)) λ _.
        Keeps-if env.settings.checks_reservations _ _
          (Keeps-bind _ _ (Keeps-call _ (quiet.validated plan))
            λ v. Keeps-if (valid v) _ _ (Keeps-pure tt) (Keeps-raise _))
          (Keeps-pure tt)

  recheck_failed-Keeps : (e : Exc) → Keeps (InWorld P) (recheck_failed env e)
  unfolding recheck_failed
  recheck_failed-Keeps e = search (keeps_rules, preserve_proposal-Keeps)

  -- What holds of every end of `run_locked` follows from what holds of its publication.
  module _ {Q : ConfigTransactionResult → Tx W → Type 0}
      (kept : (r : ConfigTransactionResult) (t : Tx W) → InWorld P t → Q r t)
      (publication : (plan : ManagedConfigPlan) (current : Files)
        → Ends (InWorld P) Q (publish_or_fail env plan current)) where
    deploy-Ends :
        (plan : ManagedConfigPlan) (step : Step Files) → Ends (InWorld P) Q (deploy env plan step)
    unfolding deploy
    deploy-Ends plan (finished r) = Ends-pure r (kept r)
    deploy-Ends plan (next current) = Ends-bind _ _ (emit-Keeps env quiet _ _) λ _.
        Ends-attempt is_conflict _ _ _ (recheck-Keeps plan current)
          (λ e. Ends-Keeps _ (recheck_failed-Keeps e) kept) (λ _. publication plan current)

    after_preflight-Ends : (p : Preflight) → Ends (InWorld P) Q (after_preflight env p)
    unfolding after_preflight
    after_preflight-Ends p =
        Ends-if (valid p.configuration_review.validation) _ _
          (Ends-attempt is_exception _ _ _ (prepare-Keeps p)
            (λ e. Ends-Keeps _ (prepare_failed-Keeps e) kept) (deploy-Ends p.plan))
          (Ends-pure _ (kept _))

    pub run_locked-Ends : Ends (InWorld P) Q (run_locked env)
    unfolding run_locked
    run_locked-Ends = Ends-bind _ _ (emit-Keeps env quiet _ _) λ _.
        Ends-attempt is_exception _ _ _ preflight-Keeps (λ e. Ends-pure _ (kept _))
          after_preflight-Ends

-- `P` holds of the world if the result promises that nothing was written.
abbrev pub IfUnwritten : {W : Type 0} → (W → Type 0) → ConfigTransactionResult → Tx W → Type 0
IfUnwritten P r t = is_unwritten r ≡ true → P t.world

-- A result of `_run_locked` that says PRECONDITION_FAILED, SNAPSHOT_FAILED or CANCELLED leaves the
-- printer as it was found: every predicate on the world that reads, polls, the planner, the
-- operator, the sink and the snapshot store keep still holds, so nothing was uploaded and nothing
-- was restarted.
pub run_locked-IfUnwritten :
    {W : Type 0} (env : Environment W) {P : W → Type 0}
    → KeepsQuiet env P
    → Ends (InWorld P) (IfUnwritten P) (run_locked env)
run_locked-IfUnwritten env quiet =
    run_locked-Ends env quiet (λ r t p _. p)
      λ plan current.
        Ends-Anywhere _
          (Ends-map _ (publish_or_fail-Settled env plan current) (λ r t q h. absurd (cc (q, h))))

-- A DEPLOYED_PENDING_ACTIVATION result of `_run_locked` restarted nothing: every predicate on the
-- world that quiet code and uploads keep still holds.
pub run_locked-IfPending :
    {W : Type 0} (env : Environment W) {P : W → Type 0}
    → KeepsQuiet env P
    → KeepsUploads env P
    → Ends (InWorld P) (IfPending P) (run_locked env)
run_locked-IfPending env quiet uploads =
    run_locked-Ends env quiet (λ r t p _. p) (publish_or_fail-IfPending env quiet uploads)
