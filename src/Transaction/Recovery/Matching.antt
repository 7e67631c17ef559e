-- ===== src/Transaction/Recovery/Matching.antt =====
-- What `_verify_plan` establishes when it returns.
use kace.Prelude.{
  false, String, Option, none, some, List, [], ◌∷◌, ◌≡◌, refl, arith, subst, All, All-map, lookup,
  has_key,
}
use kace.Effects.{Result, ok, err, Exec}
use kace.Effects.Triples.{Outcome, Triple-gets, Triple-lift}
use kace.Effects.Keeping.{Keeps}
use kace.Effects.Ending.{Ends, Anywhere, Ends-then, Ends-bind, Keeps-Anywhere}
use kace.ManagedConfig.{Content, Files, ManagedConfigPlan, content_eq_iff, planned_files}
use kace.Transaction.Interface.{Environment, Tx, call, returned}
use kace.Transaction.Quiet.{OnSome}
use kace.Transaction.Recovery.{
  artifacts_of, check_planned, foreign_changes, matches_plan, verify_plan,
}

-- The read has each file with this content.
abbrev pub ReadAs : Files → Files → Type 0
ReadAs current files = All (λ (f : String × Content). lookup f.0 current ≡ some f.1) files

check_planned-head :
    (current : Files) (name : String) (expected : Content) (planned : Files) (o : Option Content)
    → lookup name current ≡ o
    → check_planned current ((name, expected) ∷ planned) ≡ ok tt
    → (lookup name current ≡ some expected) × (check_planned current planned ≡ ok tt)
unfolding check_planned
check_planned-head current name expected planned none e h = ground arith
check_planned-head current name expected planned (some none) e h = ground arith
check_planned-head current name expected planned (some (some c)) e h =
    ground (arith, content_eq_iff (some c) expected)

check_planned-ReadAs :
    (current planned : Files) → check_planned current planned ≡ ok tt → ReadAs current planned
check_planned-ReadAs current [] h = tt
check_planned-ReadAs current ((name, expected) ∷ planned) h =
    let (found, rest) =
      check_planned-head current name expected planned (lookup name current) refl h in
    (found, check_planned-ReadAs current planned rest)

-- The files that are not planned are read as they were expected.
abbrev pub Unforeign : Files → Files → Files → Type 0
Unforeign current planned files =
    All (λ (f : String × Content). has_key f.0 planned ≡ false → lookup f.0 current ≡ some f.1)
      files

foreign_changes-head :
    (current planned : Files) (name : String) (expected : Content) (files : Files)
    (o : Option Content)
    → lookup name current ≡ o
    → foreign_changes current planned ((name, expected) ∷ files) ≡ ok []
    → (has_key name planned ≡ false → lookup name current ≡ some expected)
      × (foreign_changes current planned files ≡ ok [])
unfolding foreign_changes
foreign_changes-head current planned name expected files none e h = ground arith
foreign_changes-head current planned name expected files (some c) e h =
    ground (arith, content_eq_iff c expected)

foreign_changes-Unforeign :
    (current planned files : Files)
    → foreign_changes current planned files ≡ ok []
    → Unforeign current planned files
foreign_changes-Unforeign current planned [] h = tt
foreign_changes-Unforeign current planned ((name, expected) ∷ files) h =
    let (found, rest) =
      foreign_changes-head current planned name expected files (lookup name current) refl h in
    (found, foreign_changes-Unforeign current planned files rest)

matches_plan-parts :
    (current planned expected : Files)
    → matches_plan current planned expected ≡ ok tt
    → (check_planned current planned ≡ ok tt) × (foreign_changes current planned expected ≡ ok [])
unfolding matches_plan
matches_plan-parts current planned expected h = ground arith

-- The check passes only if every planned file is read with its planned bytes, and every other
-- expected file with its expected content or absence.
pub matches_plan_sound :
    (current planned expected : Files)
    → matches_plan current planned expected ≡ ok tt
    → ReadAs current planned × Unforeign current planned expected
matches_plan_sound current planned expected h =
    let (checked, unchanged) = matches_plan-parts current planned expected h in
    (
      check_planned-ReadAs current planned checked,
      foreign_changes-Unforeign current planned expected unchanged,
    )

-- The destination has each file with this content.
abbrev pub Holds : {W : Type 0} → (W → String → Content) → Files → W → Type 0
Holds files planned w = All (λ (f : String × Content). files w f.0 ≡ f.1) planned

-- A read that returns tells the truth about the files at its end.
abbrev pub IsTruthful : {W : Type 0} → Environment W → (W → String → Content) → Type 0
IsTruthful env files =
    (names : List String)
    → Ends Anywhere
        (λ remote w. (name : String) (c : Content) → lookup name remote ≡ some c → files w name ≡ c)
        (env.transport.read_files names)

-- A read tells the truth about the files at its end; the progress sink and the release of the
-- destination's two locks change none.
pub record IsHonest {W : Type 0} (env : Environment W) (files : W → String → Content) : Type 0 where
  pub read : IsTruthful env files
  pub told :
      OnSome
        (λ sink.
          (state detail : String) (planned : Files)
          → Keeps (Holds files planned) (sink state detail))
        env.settings.state_sink
  pub left : (planned : Files) → Keeps (Holds files planned) env.transport.leave
  pub released : (planned : Files) → Keeps (Holds files planned) env.release

-- The planned files of the object's plan, at the destination.
abbrev pub HoldsPlan : {W : Type 0} → (W → String → Content) → Tx W → Type 0
HoldsPlan files t = Holds files (planned_files (artifacts_of t.plan)) t.world

module _ {W A : Type 0} where
  framed-Outcome :
      (F : Option ManagedConfigPlan → Type 0) (Q : A → W → Type 0) (t : Tx W) (o : Result A × W)
      → F t.plan
      → Outcome Q (λ _ _. Unit {0}) o
      → Outcome (λ a t'. F t'.plan × Q a t'.world) (λ _ _. Unit {0}) (returned t o)
  framed-Outcome F Q t (ok a, w) f h = (f, h)
  framed-Outcome F Q t (err e, w) f h = tt

  -- A call leaves the plan.
  pub Ends-call :
      (F : Option ManagedConfigPlan → Type 0) {Q : A → W → Type 0} (m : Exec W A)
      → Ends Anywhere Q m
      → Ends (λ t. F t.plan) (λ a t. F t.plan × Q a t.world) (call m)
  unfolding call
  Ends-call F {Q} m h = record {
    triple = record { at = λ t f. framed-Outcome F Q t (m t.world) f (h.triple.at t.world tt) };
  }

module _ {W : Type 0} (env : Environment W) (files : W → String → Content)
    (honest : IsHonest env files) where
  -- When `_verify_plan` returns, the destination has every planned file with its planned bytes.
  pub verify_plan-HoldsPlan : Ends Anywhere (λ _. HoldsPlan files) (verify_plan env)
  unfolding verify_plan
  verify_plan-HoldsPlan = Ends-bind _ _ (Keeps-Anywhere _) λ _.
      Ends-then {R = λ a t. a.plan ≡ t.plan} _ _ (record { triple = Triple-gets _ (λ s _. refl) })
        λ t0. Ends-then _ _ (Ends-call (λ p. t0.plan ≡ p) _ (honest.read _)) λ current. record {
          triple =
              Triple-lift _
                (λ a s e q.
                  subst (λ plan. Holds files (planned_files (artifacts_of plan)) s.world) q.0
                    (All-map _ (λ f found. q.1 f.0 f.1 found) (matches_plan_sound _ _ _ e).0))
                (λ e s _ _. tt);
        }
