-- ===== src/Transaction/Recovery/Success.antt =====
-- What a rollback that reports success leaves at the destination.
use kace.Prelude.{true, false, String, some, List, [], ◌∷◌, ◌≡◌, refl, sym, All, All-map, subst}
use kace.Effects.{gets, is_exception, ok, ◌>>=◌}
use kace.Effects.Triples.{Triple-lift, Triple-gets}
use kace.Effects.Ending.{
  Ends, Anywhere, Ends-pure, Ends-if, Ends-then, Ends-bind, Ends-try, Ends-Anywhere, Keeps-Anywhere,
  Triple-ok,
}
use kace.ManagedConfig.{Content, PlannedConfigArtifact}
use kace.Snapshot.{DeploymentSnapshot}
use kace.Snapshot.Restored.{Original, verify_snapshot_restored_iff}
use kace.Transaction.Interface.{Environment, Tx}
use kace.Transaction.Recovery.{
  Rolled, is_inactive, owns_moonraker, verify_restoration, restart_restored, reactivate,
  rollback_from, rollback_to, rollback, changed_of,
}
use kace.Transaction.Recovery.Matching.{IsTruthful, Ends-call}

module _ {W : Type 0} (env : Environment W) (files : W → String → Content)
    (truthful : IsTruthful env files) (snapshot : DeploymentSnapshot) where
  -- Every named file is at the destination as the snapshot has it.
  abbrev pub AllOriginal : List String → Tx W → Type 0
  AllOriginal names t = All (λ name. Original snapshot name (files t.world name)) names

  abbrev IfRolled : List String → Rolled → Tx W → Type 0
  IfRolled names r t = r.0 ≡ some true → AllOriginal names t

  said_false : {X : Type 0} → some false ≡ some true → X
  said_false e = absurd (cc e)

  verify_restoration-AllOriginal :
      (names : List String)
      → Ends Anywhere (λ _. AllOriginal names) (verify_restoration env snapshot names)
  unfolding verify_restoration
  verify_restoration-AllOriginal names =
      Ends-then _ _ (Ends-call (λ _. Unit {0}) _ (truthful names)) λ current. record {
        triple =
            Triple-lift _
              (λ a t e q.
                All-map names
                  (λ name r. subst (Original snapshot name) (sym (q.1 name r.0 r.1)) r.2)
                  ((verify_snapshot_restored_iff snapshot current names).0 e))
              (λ e t _ _. tt);
      }

  restart_restored-IfRolled :
      (names : List String) → Ends Anywhere (IfRolled names) (restart_restored env snapshot names)
  unfolding restart_restored
  restart_restored-IfRolled names = Ends-bind _ _ (Keeps-Anywhere _) λ _.
      Ends-bind _ _ (Keeps-Anywhere _) λ _. Ends-bind _ _ (Keeps-Anywhere _) λ ready.
        Ends-if (ready.0) _ _
          (Ends-then _ _ (verify_restoration-AllOriginal names) (λ _. Ends-pure _ (λ t h _. h)))
          (Ends-pure _ (λ t _ e. said_false e))

  reactivate-IfRolled :
      (names : List String) → Ends Anywhere (IfRolled names) (reactivate env snapshot names)
  unfolding reactivate
  reactivate-IfRolled names = Ends-then _ _ (verify_restoration-AllOriginal names) λ _.
      Ends-then {R = λ _. AllOriginal names} _ _ (record { triple = Triple-gets _ (λ t h. h) })
        λ activation. Ends-if (is_inactive activation) _ _ (Ends-pure _ (λ t h _. h)) (
          Ends-if (owns_moonraker snapshot) _ _
            (Ends-Anywhere _ (
              Ends-bind _ _ (Keeps-Anywhere _) λ _. Ends-bind _ _ (Keeps-Anywhere _) λ online.
                Ends-if online _ _ (restart_restored-IfRolled names)
                  (Ends-pure _ (λ t _ e. said_false e))))
            (Ends-Anywhere _ (restart_restored-IfRolled names)))

  rollback_from-IfRolled :
      (artifacts : List PlannedConfigArtifact) (names : List String)
      → Ends Anywhere (IfRolled names) (rollback_from env snapshot artifacts names)
  unfolding rollback_from
  rollback_from-IfRolled artifacts names =
      Ends-try is_exception _ _ _ (record { triple = (Keeps-Anywhere _).triple })
        (λ e. Ends-pure _ (λ t _ e. said_false e))
        (λ _.
          Ends-try is_exception _ _ _ (record { triple = (Keeps-Anywhere _).triple })
            (λ e. Ends-pure _ (λ t _ e. said_false e))
            (λ _.
              Ends-try is_exception _ _ _ (reactivate-IfRolled names)
                (λ e. Ends-pure _ (λ t _ e. said_false e)) (λ r. Ends-pure r (λ t h. h))))

  rollback_to-IfRolled :
      (artifacts : List PlannedConfigArtifact) (names : List String)
      → Ends Anywhere (IfRolled names) (rollback_to env names (some snapshot) artifacts)
  unfolding rollback_to
  rollback_to-IfRolled artifacts [] = Ends-pure _ (λ t _ _. tt)
  rollback_to-IfRolled artifacts (name ∷ names) = rollback_from-IfRolled artifacts (name ∷ names)

  rollback-is_rollback_to :
      (t : Tx W) → rollback env t ≡ rollback_to env t.written_names t.snapshot (changed_of t.plan) t
  unfolding rollback gets ◌>>=◌
  rollback-is_rollback_to t = refl

  -- If a read that returns tells the files' content, then a rollback that returns and reports
  -- success has every file that was recorded as written at the destination exactly as the
  -- snapshot has it: the original bytes, or absence.
  pub rollback_success :
      (t t' : Tx W) (detail : String)
      → t.snapshot ≡ some snapshot
      → rollback env t ≡ (ok (some true, detail), t')
      → All (λ name. Original snapshot name (files t'.world name)) t.written_names
  rollback_success t t' detail s h =
      let same : rollback_to env t.written_names (some snapshot) (changed_of t.plan) t
          ≡ (ok (some true, detail), t') =
        cc (rollback-is_rollback_to t, s, h) in
      Triple-ok (rollback_to-IfRolled (changed_of t.plan) t.written_names).triple tt same refl
