-- ===== src/Effects/Keeping.antt =====
-- Code that keeps a predicate on the state, whether it returns or raises: the rules for `search`.
use kace.Prelude.{Bool, true, false, String, Option, List, [], ◌∷◌, if◌then◌else◌}
use kace.Effects.{
  Exc, Result, Exec, pure, raise, gets, lift, modify, ◌>>=◌, attempt, for_each, need, guard,
  require, finally,
}
use kace.Effects.Triples.{
  Triple, Triple-pure, Triple-raise, Triple-gets, Triple-lift, Triple-need, Triple-modify,
  Triple-guard, Triple-bind, Triple-attempt, Triple-for_each, Triple-finally,
}

-- A record, so that a rule's conclusion shows `P`.
pub record Keeps {S A : Type 0} (P : S → Type 0) (m : Exec S A) : Type 0 where
  pub triple : Triple P m (λ _. P) (λ _. P)

module _ {S A : Type 0} {P : S → Type 0} where
  pub Keeps-pure : (a : A) → Keeps P (pure a)
  Keeps-pure a = record { triple = Triple-pure a (λ s p. p) }

  pub Keeps-raise : (e : Exc) → Keeps P (raise {A = A} e)
  Keeps-raise e = record { triple = Triple-raise e (λ s p. p) }

  pub Keeps-gets : (f : S → A) → Keeps P (gets f)
  Keeps-gets f = record { triple = Triple-gets f (λ s p. p) }

  pub Keeps-lift : (r : Result A) → Keeps P (lift r)
  Keeps-lift r = record { triple = Triple-lift r (λ a s e p. p) (λ e s f p. p) }

  pub Keeps-need : (k : String) (o : Option A) → Keeps P (need k o)
  Keeps-need k o = record { triple = Triple-need k o (λ a s e p. p) (λ s p. p) }

  pub Keeps-if : (b : Bool) (m n : Exec S A) → Keeps P m → Keeps P n → Keeps P (if b then m else n)
  Keeps-if true m n h k = h
  Keeps-if false m n h k = k

  pub Keeps-finally :
      (m : Exec S A) (f : Exec S (Unit {0})) → Keeps P m → Keeps P f → Keeps P (finally m f)
  Keeps-finally m f hm hf = record {
    triple = Triple-finally m f hm.triple (λ _. hf.triple) (λ _. hf.triple);
  }

  pub Keeps-for_each :
      (xs : List A) (body : A → Exec S (Unit {0}))
      → ((a : A) → Keeps P (body a))
      → Keeps P (for_each xs body)
  Keeps-for_each xs body h = record { triple = Triple-for_each xs body (λ a. (h a).triple) }

module _ {S : Type 0} {P : S → Type 0} where
  pub Keeps-guard : (b : Bool) (e : Exc) → Keeps P (guard b e)
  Keeps-guard b e = record { triple = Triple-guard b e (λ s h p. p) (λ s p. p) }

  pub Keeps-require : (checks : List (Bool × Exc)) → Keeps P (require checks)
  unfolding require
  Keeps-require [] = Keeps-pure tt
  Keeps-require ((b, e) ∷ checks) = Keeps-if b _ _ (Keeps-require checks) (Keeps-raise e)

  pub Keeps-modify : (f : S → S) → ((s : S) → P s → P (f s)) → Keeps P (modify f)
  Keeps-modify f h = record { triple = Triple-modify f h }

module _ {S A B : Type 0} {P : S → Type 0} where
  pub Keeps-bind :
      (m : Exec S A) (k : A → Exec S B) → Keeps P m → ((a : A) → Keeps P (k a)) → Keeps P (m >>= k)
  Keeps-bind m k hm hk = record { triple = Triple-bind m k hm.triple (λ a. (hk a).triple) }

  pub Keeps-attempt :
      (caught : Exc → Bool) (m : Exec S A) (h : Exc → Exec S B) (k : A → Exec S B)
      → Keeps P m
      → ((e : Exc) → Keeps P (h e))
      → ((a : A) → Keeps P (k a))
      → Keeps P (attempt caught m h k)
  Keeps-attempt caught m h k hm hh hk = record {
    triple =
        Triple-attempt caught m h k hm.triple (λ a. (hk a).triple) (λ e c. (hh e).triple)
          (λ e s c p. p);
  }

pub ruleset keeps_rules = (
  Keeps-pure, Keeps-raise, Keeps-gets, Keeps-lift, Keeps-need, Keeps-if, Keeps-guard, Keeps-bind,
  Keeps-attempt, Keeps-for_each, Keeps-require, Keeps-finally,
)
