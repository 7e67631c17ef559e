-- ===== src/Effects/Ending.antt =====
-- How code that returns ends: `Ends P Q m` says nothing of a raise.
use kace.Prelude.{Bool, true, false, if◌then◌else◌, ◌≡◌, subst, List, All, String, Option, some}
use kace.Effects.{Exc, Result, ok, err, Exec, pure, raise, ◌>>=◌, ◌>>◌, attempt, require, need}
use kace.Effects.Triples.{
  Outcome, Triple, Triple-pure, Triple-raise, Triple-bind, Triple-attempt, Triple-weaken,
  Triple-require, Triple-assume, Triple-need,
}
use kace.Effects.Keeping.{Keeps}

-- A record, so that a rule's conclusion shows `P` and `Q`.
pub record Ends {S A : Type 0} (P : S → Type 0) (Q : A → S → Type 0) (m : Exec S A) : Type 0 where
  pub triple : Triple P m Q (λ _ _. Unit {0})

-- No condition on the state.
abbrev pub Anywhere : {S : Type 0} → S → Type 0
Anywhere s = Unit {0}

module _ {S A : Type 0} {P : S → Type 0} {Q : A → S → Type 0} where
  pub Ends-pure : (a : A) → ((s : S) → P s → Q a s) → Ends P Q (pure a)
  Ends-pure a h = record { triple = Triple-pure a h }

  pub Ends-raise : (e : Exc) → Ends P Q (raise e)
  Ends-raise e = record { triple = Triple-raise e (λ s p. tt) }

  pub Ends-if :
      (b : Bool) (m n : Exec S A) → Ends P Q m → Ends P Q n → Ends P Q (if b then m else n)
  Ends-if true m n h k = h
  Ends-if false m n h k = k

  pub Ends-Keeps : (m : Exec S A) → Keeps P m → ((a : A) (s : S) → P s → Q a s) → Ends P Q m
  Ends-Keeps m h k = record { triple = Triple-weaken h.triple (λ s p. p) k (λ e s p. tt) }

  pub Ends-Anywhere : (m : Exec S A) → Ends Anywhere Q m → Ends P Q m
  Ends-Anywhere m h = record {
    triple = Triple-weaken h.triple (λ s p. tt) (λ a s q. q) (λ e s p. tt);
  }

module _ {S A : Type 0} {Q Q' : A → S → Type 0} {P : S → Type 0} where
  pub Ends-map : (m : Exec S A) → Ends P Q m → ((a : A) (s : S) → Q a s → Q' a s) → Ends P Q' m
  Ends-map m h k = record { triple = Triple-weaken h.triple (λ s p. p) k (λ e s p. tt) }

module _ {S A B : Type 0} {P : S → Type 0} {Q : B → S → Type 0} where
  pub Ends-then :
      {R : A → S → Type 0} (m : Exec S A) (k : A → Exec S B)
      → Ends P R m
      → ((a : A) → Ends (R a) Q (k a))
      → Ends P Q (m >>= k)
  Ends-then m k h hk = record { triple = Triple-bind m k h.triple (λ a. (hk a).triple) }

  pub Ends-bind :
      (m : Exec S A) (k : A → Exec S B)
      → Keeps P m
      → ((a : A) → Ends P Q (k a))
      → Ends P Q (m >>= k)
  Ends-bind m k h hk = Ends-then m k (Ends-Keeps m h (λ a s p. p)) hk

  pub Ends-attempt :
      (caught : Exc → Bool) (m : Exec S A) (h : Exc → Exec S B) (k : A → Exec S B)
      → Keeps P m
      → ((e : Exc) → Ends P Q (h e))
      → ((a : A) → Ends P Q (k a))
      → Ends P Q (attempt caught m h k)
  Ends-attempt caught m h k hm hh hk = record {
    triple =
        Triple-attempt caught m h k hm.triple (λ a. (hk a).triple) (λ e c. (hh e).triple)
          (λ e s c p. tt);
  }

  -- Where the value of `m` matters and its raise says nothing of the state.
  pub Ends-try :
      {R : A → S → Type 0} (caught : Exc → Bool) (m : Exec S A) (h : Exc → Exec S B)
      (k : A → Exec S B)
      → Ends P R m
      → ((e : Exc) → Ends Anywhere Q (h e))
      → ((a : A) → Ends (R a) Q (k a))
      → Ends P Q (attempt caught m h k)
  Ends-try caught m h k hm hh hk = record {
    triple =
        Triple-attempt caught m h k hm.triple (λ a. (hk a).triple) (λ e c. (hh e).triple)
          (λ e s c p. tt);
  }

-- Every computation keeps the empty condition.
pub Keeps-Anywhere : {S A : Type 0} (m : Exec S A) → Keeps Anywhere m
Keeps-Anywhere {S} {A} m = record { triple = record { at = λ s _. go (m s) } }
  where
    go : (o : Result A × S) → Outcome (λ (_ : A). Anywhere) (λ _. Anywhere) o
    go (ok a, s) = tt
    go (err e, s) = tt

module _ {S A : Type 0} where
  -- A specification at one run that returned.
  pub Triple-ok :
      {P : S → Type 0} {Q : A → S → Type 0} {E : Exc → S → Type 0} {m : Exec S A}
      → Triple P m Q E
      → {s s' : S} {a : A} → P s
      → m s ≡ (ok a, s')
      → Q a s'
  Triple-ok {Q} {E} h {s} p e = subst (Outcome Q E) e (h.at s p)

  -- A specification at one run that raised.
  pub Triple-err :
      {P : S → Type 0} {Q : A → S → Type 0} {E : Exc → S → Type 0} {m : Exec S A}
      → Triple P m Q E
      → {s s' : S} {x : Exc} → P s
      → m s ≡ (err x, s')
      → E x s'
  Triple-err {Q} {E} h {s} p e = subst (Outcome Q E) e (h.at s p)

-- What passed before a continuation, as hypotheses of it.
module _ {S B : Type 0} {P : S → Type 0} {Q : B → S → Type 0} where
  pub Ends-require :
      (checks : List (Bool × Exc)) (m : Exec S B)
      → (All (λ (c : Bool × Exc). c.0 ≡ true) checks → Ends P Q m)
      → Ends P Q (require checks >> m)
  Ends-require checks m h =
      Ends-then {R = λ _ s. All (λ (c : Bool × Exc). c.0 ≡ true) checks × P s} _ _
        (record { triple = Triple-require checks (λ e s p. tt) })
        λ _. record { triple = Triple-assume (λ all. (h all).triple) }

  pub Ends-need :
      {A : Type 0} (key : String) (o : Option A) (k : A → Exec S B)
      → ((a : A) → o ≡ some a → Ends P Q (k a))
      → Ends P Q (need key o >>= k)
  Ends-need {A} key o k h =
      Ends-then {R = λ a s. (o ≡ some a) × P s} _ _
        (record { triple = Triple-need key o (λ a s e p. (e, p)) (λ s p. tt) })
        λ a. record { triple = Triple-assume (λ e. (h a e).triple) }

  -- A computation that reads or writes as `P` allows, with a fact of its value.
  pub Ends-value :
      {A : Type 0} {F : A → Type 0} (m : Exec S A) (k : A → Exec S B)
      → Ends P (λ a s. F a × P s) m
      → ((a : A) → F a → Ends P Q (k a))
      → Ends P Q (m >>= k)
  Ends-value m k hm h =
      Ends-then m k hm λ a. record { triple = Triple-assume (λ f. (h a f).triple) }
