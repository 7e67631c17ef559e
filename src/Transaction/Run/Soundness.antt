-- ===== src/Transaction/Run/Soundness.antt =====
-- The COMMITTED result of the whole transaction.
use kace.Prelude.{true, false, ◌||◌, String, Option, none, some, ◌≡◌, refl, Bool-cases, inl, inr}
use kace.Effects.{Exc, Exec, is_exception, is_conflict, is_interrupt, is_publication_error}
use kace.Effects.Triples.{Triple, Triple-weaken, Triple-finally}
use kace.Effects.Keeping.{Keeps}
use kace.Effects.Ending.{
  Ends, Anywhere, Ends-pure, Ends-if, Ends-map, Ends-bind, Ends-try, Keeps-Anywhere,
}
use kace.ManagedConfig.{Content, Files, ManagedConfigPlan}
use kace.Snapshot.{DeploymentSnapshot}
use kace.Transaction.Interface.{Environment, Tx, call, ConfigTransactionResult, is_ok, valid}
use kace.Transaction.Recovery.{Rolled}
use kace.Transaction.Recovery.Matching.{Holds, IsHonest}
use kace.Transaction.Run.Committed.{IfCommitted, call-HoldsPlan, publish_or_fail-IfCommitted}
use kace.Transaction.Run.{
  Preflight, Step, finished, next, secure, prepare, prepare_failed, recheck_failed, deploy,
  after_preflight, run_locked, with_lock, with_destination, run_secured, interrupted_result,
  interrupted, escaped, run,
}

abbrev NotOk : ConfigTransactionResult → Type 0
NotOk r = is_ok r ≡ false

abbrev NotOkStep : {A : Type 0} → Step A → Type 0
NotOkStep (finished r) = NotOk r
NotOkStep (next a) = Unit {0}

interrupted_result-NotOk :
    (snapshot : Option DeploymentSnapshot) (rolled : Rolled)
    → NotOk (interrupted_result snapshot rolled)
unfolding interrupted_result
interrupted_result-NotOk snapshot (none, d) = refl
interrupted_result-NotOk snapshot (some true, d) = refl
interrupted_result-NotOk snapshot (some false, d) = refl

module _ {W : Type 0} (env : Environment W) where
  secure-NotOk : (p : Preflight) → Ends Anywhere (λ step (_ : Tx W). NotOkStep step) (secure env p)
  unfolding secure
  secure-NotOk p = search (Ends-bind, Ends-pure, Keeps-Anywhere) depth 12

  prepare-NotOk :
      (p : Preflight) → Ends Anywhere (λ step (_ : Tx W). NotOkStep step) (prepare env p)
  unfolding prepare
  prepare-NotOk p =
      Ends-bind _ _ (Keeps-Anywhere _)
        λ accepted. Ends-if accepted _ _ (secure-NotOk p) (Ends-pure _ (λ t _. refl))

  prepare_failed-NotOk : (e : Exc) → Ends Anywhere (λ r (_ : Tx W). NotOk r) (prepare_failed env e)
  unfolding prepare_failed
  prepare_failed-NotOk e =
      Ends-if (is_conflict e) _ _
        (Ends-bind _ _ (Keeps-Anywhere _) (λ _. Ends-pure _ (λ t _. refl)))
        (Ends-pure _ (λ t _. refl))

  recheck_failed-NotOk : (e : Exc) → Ends Anywhere (λ r (_ : Tx W). NotOk r) (recheck_failed env e)
  unfolding recheck_failed
  recheck_failed-NotOk e =
      Ends-bind _ _ (Keeps-Anywhere _)
        λ _. Ends-bind _ _ (Keeps-Anywhere _) λ snapshot. Ends-pure _ (λ t _. refl)

  escaped-NotOk : (e : Exc) → Ends Anywhere (λ r (_ : Tx W). NotOk r) (escaped env e)
  unfolding escaped interrupted
  escaped-NotOk e =
      Ends-if (is_interrupt e) _ _
        (Ends-bind _ _ (Keeps-Anywhere _) λ names. Ends-bind _ _ (Keeps-Anywhere _) λ rolled.
          Ends-bind _ _ (Keeps-Anywhere _)
            λ snapshot. Ends-pure _ (λ t _. interrupted_result-NotOk snapshot rolled))
        (Ends-bind _ _ (Keeps-Anywhere _) λ snapshot. Ends-pure _ (λ t _. refl))

  module _ (files : W → String → Content) (honest : IsHonest env files) where
    not_ok : (r : ConfigTransactionResult) (t : Tx W) → NotOk r → IfCommitted files r t
    not_ok r t q h = absurd (cc (q, h))

    deploy-IfCommitted :
        (plan : ManagedConfigPlan) (step : Step Files)
        → Ends (λ _. NotOkStep step) (IfCommitted files) (deploy env plan step)
    unfolding deploy
    deploy-IfCommitted plan (finished r) = Ends-pure r (not_ok r)
    deploy-IfCommitted plan (next current) = Ends-bind _ _ (Keeps-Anywhere _) λ _.
        Ends-try is_conflict _ _ _ (record { triple = (Keeps-Anywhere _).triple })
          (λ e. Ends-map _ (recheck_failed-NotOk e) not_ok)
          (λ _. publish_or_fail-IfCommitted env files honest plan current)

    after_preflight-IfCommitted :
        (p : Preflight) → Ends Anywhere (IfCommitted files) (after_preflight env p)
    unfolding after_preflight
    after_preflight-IfCommitted p =
        Ends-if (valid p.configuration_review.validation) _ _
          (Ends-try is_exception _ _ _ (prepare-NotOk p)
            (λ e. Ends-map _ (prepare_failed-NotOk e) not_ok) (deploy-IfCommitted p.plan))
          (Ends-map _ (Ends-pure {Q = λ r _. NotOk r} _ (λ t _. refl)) not_ok)

    run_locked-IfCommitted : Ends Anywhere (IfCommitted files) (run_locked env)
    unfolding run_locked
    run_locked-IfCommitted = Ends-bind _ _ (Keeps-Anywhere _) λ _.
        Ends-try is_exception _ _ _ (record { triple = (Keeps-Anywhere _).triple })
          (λ e. Ends-map _ (Ends-pure {Q = λ r _. NotOk r} _ (λ t _. refl)) not_ok)
          after_preflight-IfCommitted

    -- A release that changes no planned file is harmless.
    leave-IfCommitted :
        (leave : Exec W (Unit {0})) (r : ConfigTransactionResult)
        → ((planned : Files) → Keeps (Holds files planned) leave)
        → Triple
            (IfCommitted files r)
            (call leave)
            (λ _. IfCommitted files r)
            (λ _ (_ : Tx W). Unit {0})
    leave-IfCommitted leave r keeps = elim (Bool-cases (is_ok r)) [
      | inl is ↦
          Triple-weaken (call-HoldsPlan files leave keeps).triple (λ t h. h is) (λ _ t h c. h)
            (λ e t h. tt)
      | inr isnt ↦
          Triple-weaken (Keeps-Anywhere (call leave)).triple (λ t h. tt) (λ _ t h. not_ok r t isnt)
            (λ e t h. tt)
    ]

    with_lock-IfCommitted :
        (enter leave : Exec W (Unit {0})) (body : Exec (Tx W) ConfigTransactionResult)
        → ((planned : Files) → Keeps (Holds files planned) leave)
        → Ends Anywhere (IfCommitted files) body
        → Ends Anywhere (IfCommitted files) (with_lock env enter leave body)
    unfolding with_lock
    with_lock-IfCommitted enter leave body keeps h = Ends-bind _ _ (Keeps-Anywhere _) λ _. record {
      triple =
          Triple-finally _ _ h.triple (λ r. leave-IfCommitted leave r keeps)
            (λ e.
              Triple-weaken (Keeps-Anywhere (call leave)).triple (λ t h. tt) (λ _ t h. tt)
                (λ e t h. tt));
    }

    with_destination-IfCommitted :
        Ends Anywhere (IfCommitted files) (with_destination env (run_locked env))
    unfolding with_destination
    with_destination-IfCommitted = with_lock-IfCommitted _ _ _ honest.left run_locked-IfCommitted

    run_secured-IfCommitted : Ends Anywhere (IfCommitted files) (run_secured env)
    unfolding run_secured
    run_secured-IfCommitted =
        Ends-try (λ e. is_interrupt e || is_publication_error e) _ _ _ with_destination-IfCommitted
          (λ e. Ends-map _ (escaped-NotOk e) not_ok) (λ r. Ends-pure r (λ t h. h))

    -- Whenever `run` returns COMMITTED, every file of the plan is at the destination with its
    -- planned bytes. Of the transport this uses only that a read which returns tells the files'
    -- content, and that neither the sink nor a lock's release changes a planned file.
    pub run-IfCommitted : Ends Anywhere (IfCommitted files) (run env)
    unfolding run
    run-IfCommitted =
        Ends-try is_exception _ _ _ (record { triple = (Keeps-Anywhere _).triple })
          (λ e. Ends-map _ (Ends-pure {Q = λ r _. NotOk r} _ (λ t _. refl)) not_ok)
          (λ _. with_lock-IfCommitted _ _ _ honest.released run_secured-IfCommitted)
