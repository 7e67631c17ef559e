-- ===== src/Transaction/Run/Committed.antt =====
-- What a COMMITTED result says of the destination.
use kace.Prelude.{true, false, ◌&&◌, String, Option, none, some, List, ◌≡◌, arith}
use kace.Effects.Triples.{Outcome}
use kace.Effects.{Exc, Result, ok, err, Exec, is_exception}
use kace.Effects.Keeping.{Keeps, keeps_rules, Keeps-gets}
use kace.Effects.Ending.{
  Ends, Anywhere, Ends-pure, Ends-if, Ends-then, Ends-bind, Ends-try, Keeps-Anywhere,
}
use kace.ManagedConfig.{Content, Files, PlannedConfigArtifact, ManagedConfigPlan, planned_files}
use kace.Transaction.Interface.{
  Environment, Tx, call, returned, emit, emit_to, ConfigTransactionResult, is_ok,
}
use kace.Transaction.Publishing.{
  confirm_existing, activate, settle, publish, publish_or_fail, fail, failure_result, classify,
  is_empty,
}
use kace.Transaction.Quiet.{OnSome}
use kace.Transaction.Recovery.{artifacts_of, Rolled, is_inactive}
use kace.Transaction.Recovery.Matching.{Holds, HoldsPlan, IsHonest, verify_plan-HoldsPlan}
use kace.Snapshot.{DeploymentSnapshot}

-- The planned files are at the destination if the result is COMMITTED.
abbrev pub IfCommitted :
    {W : Type 0} → (W → String → Content) → ConfigTransactionResult → Tx W → Type 0
IfCommitted files r t = is_ok r ≡ true → HoldsPlan files t

failure_result-ok :
    (e : Exc) (snapshot : Option DeploymentSnapshot) (rolled : Rolled)
    → is_ok (failure_result e snapshot rolled) ≡ false
unfolding failure_result classify
failure_result-ok e snapshot (none, d) = ground arith
failure_result-ok e snapshot (some true, d) = ground arith
failure_result-ok e snapshot (some false, d) = ground arith

module _ {W A : Type 0} (files : W → String → Content) where
  returned-HoldsPlan :
      (t : Tx W) (o : Result A × W)
      → Outcome
          (λ _. Holds files (planned_files (artifacts_of t.plan)))
          (λ _. Holds files (planned_files (artifacts_of t.plan)))
          o
      → Outcome (λ _. HoldsPlan files) (λ _. HoldsPlan files) (returned t o)
  returned-HoldsPlan t (ok a, w) h = h
  returned-HoldsPlan t (err e, w) h = h

  pub call-HoldsPlan :
      (m : Exec W A)
      → ((planned : Files) → Keeps (Holds files planned) m)
      → Keeps (HoldsPlan files) (call m)
  unfolding call
  call-HoldsPlan m h = record {
    triple = record {
      at = λ t p.
          returned-HoldsPlan t (m t.world)
            ((h (planned_files (artifacts_of t.plan))).triple.at t.world p);
    };
  }

emit_to-HoldsPlan :
    {W : Type 0} (files : W → String → Content)
    (sink : Option (String → String → Exec W (Unit {0})))
    → OnSome
        (λ sink.
          (state detail : String) (planned : Files)
          → Keeps (Holds files planned) (sink state detail))
        sink
    → (state detail : String) → Keeps (HoldsPlan files) (emit_to sink state detail)
unfolding emit_to
emit_to-HoldsPlan files none h state detail = search keeps_rules
emit_to-HoldsPlan files (some sink) h state detail =
    search (keeps_rules, call-HoldsPlan files (sink state detail) (h state detail))

module _ {W : Type 0} (env : Environment W) (files : W → String → Content)
    (honest : IsHonest env files) where
  emit-HoldsPlan : (state detail : String) → Keeps (HoldsPlan files) (emit env state detail)
  unfolding emit
  emit-HoldsPlan = emit_to-HoldsPlan files _ honest.told

  confirm_existing-IfCommitted :
      (plan : ManagedConfigPlan) → Ends Anywhere (IfCommitted files) (confirm_existing env plan)
  unfolding confirm_existing
  confirm_existing-IfCommitted plan = Ends-bind _ _ (Keeps-Anywhere _) λ _.
      Ends-bind _ _ (Keeps-Anywhere _) λ _. Ends-bind _ _ (Keeps-Anywhere _) λ _.
        Ends-then _ _ (verify_plan-HoldsPlan env files honest)
          λ _. Ends-bind _ _ (emit-HoldsPlan _ _) λ _. Ends-pure _ (λ t h _. h)

  activate-IfCommitted :
      (items : List PlannedConfigArtifact) → Ends Anywhere (IfCommitted files) (activate env items)
  unfolding activate
  activate-IfCommitted items = Ends-bind _ _ (Keeps-Anywhere _) λ _.
      Ends-bind _ _ (Keeps-Anywhere _) λ _. Ends-bind _ _ (Keeps-Anywhere _) λ _.
        Ends-bind _ _ (Keeps-Anywhere _) λ activation. Ends-bind _ _ (Keeps-Anywhere _) λ _.
          Ends-bind _ _ (Keeps-Anywhere _) λ _. Ends-bind _ _ (Keeps-Anywhere _) λ _.
            Ends-bind _ _ (Keeps-Anywhere _) λ _.
              Ends-then _ _ (verify_plan-HoldsPlan env files honest) λ _.
                Ends-bind _ _ (emit-HoldsPlan _ _)
                  λ _. Ends-bind _ _ (Keeps-gets _) λ snapshot. Ends-pure _ (λ t h _. h)

  settle-IfCommitted :
      (plan : ManagedConfigPlan) (items : List PlannedConfigArtifact)
      → Ends Anywhere (IfCommitted files) (settle env plan items)
  unfolding settle
  settle-IfCommitted plan items =
      Ends-if (is_empty items && env.settings.verify_existing_ready) _ _
        (confirm_existing-IfCommitted plan)
        (Ends-bind _ _ (Keeps-Anywhere _) λ t.
          Ends-if (is_inactive t.activation) _ _ (Ends-pure _ (λ s _ h. absurd (cc h)))
            (activate-IfCommitted items))

  fail-IfCommitted : (e : Exc) → Ends Anywhere (IfCommitted files) (fail env e)
  unfolding fail
  fail-IfCommitted e = Ends-bind _ _ (Keeps-Anywhere _) λ _. Ends-bind _ _ (Keeps-Anywhere _) λ _.
      Ends-bind _ _ (Keeps-Anywhere _) λ rolled.
        Ends-bind _ _ (Keeps-Anywhere _)
          λ snapshot. Ends-pure _ (λ s _ h. absurd (cc (h, failure_result-ok e snapshot rolled)))

  pub publish_or_fail-IfCommitted :
      (plan : ManagedConfigPlan) (current : Files)
      → Ends Anywhere (IfCommitted files) (publish_or_fail env plan current)
  unfolding publish_or_fail publish
  publish_or_fail-IfCommitted plan current =
      Ends-try is_exception _ _ _
        (Ends-bind _ _ (Keeps-Anywhere _) λ _.
          Ends-bind _ _ (Keeps-Anywhere _)
            λ _. Ends-bind _ _ (Keeps-Anywhere _) λ _. settle-IfCommitted plan _)
        fail-IfCommitted (λ r. Ends-pure r (λ t h. h))
