-- ===== src/Effects/Triples.antt =====
-- Pre- and postconditions of effectful code, with one rule for each way to build it.
use kace.Prelude.{
  Bool, true, false, ◌≡◌, refl, Option, none, some, String, if◌then◌else◌, List, [], ◌∷◌, All,
}
use kace.Effects.{
  Exc, Result, ok, err, Exec, pure, raise, gets, lift, modify, continue, ◌>>=◌, attempt, for_each,
  need, key_error, guard, require, finally, ◌>>◌,
}

-- `Q` of the value and state of a return, `E` of the exception and state of a raise.
abbrev pub Outcome : {S A : Type 0} → (A → S → Type 0) → (Exc → S → Type 0) → Result A × S → Type 0
Outcome Q E (ok a, s) = Q a s
Outcome Q E (err e, s) = E e s

pub record Triple {S A : Type 0} (P : S → Type 0) (m : Exec S A) (Q : A → S → Type 0)
    (E : Exc → S → Type 0) : Type 0 where
  pub at : (s : S) → P s → Outcome Q E (m s)

module _ {S A : Type 0} {P : S → Type 0} {Q : A → S → Type 0} {E : Exc → S → Type 0} where
  pub Triple-pure : (a : A) → ((s : S) → P s → Q a s) → Triple P (pure a) Q E
  unfolding pure
  Triple-pure a h = record { at = h }

  pub Triple-raise : (e : Exc) → ((s : S) → P s → E e s) → Triple P (raise e) Q E
  unfolding raise
  Triple-raise e h = record { at = h }

  pub Triple-gets : (f : S → A) → ((s : S) → P s → Q (f s) s) → Triple P (gets f) Q E
  unfolding gets
  Triple-gets f h = record { at = h }

  pub Triple-lift :
      (r : Result A)
      → ((a : A) (s : S) → r ≡ ok a → P s → Q a s)
      → ((e : Exc) (s : S) → r ≡ err e → P s → E e s)
      → Triple P (lift r) Q E
  unfolding lift
  Triple-lift (ok a) h k = record { at = λ s. h a s refl }
  Triple-lift (err e) h k = record { at = λ s. k e s refl }

  pub Triple-need :
      (k : String) (o : Option A)
      → ((a : A) (s : S) → o ≡ some a → P s → Q a s)
      → ((s : S) → P s → E (key_error k) s)
      → Triple P (need k o) Q E
  unfolding need
  Triple-need k none h g = Triple-raise (key_error k) g
  Triple-need k (some a) h g = Triple-pure a (λ s. h a s refl)

  pub Triple-if :
      (b : Bool) (m n : Exec S A)
      → (b ≡ true → Triple P m Q E)
      → (b ≡ false → Triple P n Q E)
      → Triple P (if b then m else n) Q E
  Triple-if true m n h k = h refl
  Triple-if false m n h k = k refl

module _ {S : Type 0} {P : S → Type 0} {E : Exc → S → Type 0} where
  pub Triple-modify :
      {Q : Unit {0} → S → Type 0} (f : S → S)
      → ((s : S) → P s → Q tt (f s))
      → Triple P (modify f) Q E
  unfolding modify
  Triple-modify f h = record { at = h }

  pub Triple-guard :
      {Q : Unit {0} → S → Type 0} (b : Bool) (e : Exc)
      → ((s : S) → b ≡ true → P s → Q tt s)
      → ((s : S) → P s → E e s)
      → Triple P (guard b e) Q E
  unfolding guard
  Triple-guard true e h k = Triple-pure tt (λ s. h s refl)
  Triple-guard false e h k = Triple-raise e k

module _ {S B : Type 0} (Q : B → S → Type 0) (E : Exc → S → Type 0) where
  continue-Outcome :
      {A : Type 0} (R : A → S → Type 0) (F : Exc → S → Type 0) (k : A → Exec S B)
      (h : Exc → Exec S B)
      → ((a : A) (s : S) → R a s → Outcome Q E (k a s))
      → ((e : Exc) (s : S) → F e s → Outcome Q E (h e s))
      → (o : Result A × S) → Outcome R F o
      → Outcome Q E (continue k h o)
  continue-Outcome R F k h kk hh (ok a, s) r = kk a s r
  continue-Outcome R F k h kk hh (err e, s) r = hh e s r

  handled :
      (F : Exc → S → Type 0) (caught : Exc → Bool) (h : Exc → Exec S B)
      → ((e : Exc) → caught e ≡ true → Triple (F e) (h e) Q E)
      → ((e : Exc) (s : S) → caught e ≡ false → F e s → E e s)
      → (e : Exc) (s : S) (b : Bool) → caught e ≡ b
      → F e s
      → Outcome Q E (if b then h e s else (err e, s))
  handled F caught h th pass e s true c f = (th e c).at s f
  handled F caught h th pass e s false c f = pass e s c f

module _ {S A B : Type 0} {P : S → Type 0} {Q : B → S → Type 0} {E : Exc → S → Type 0} where
  pub Triple-bind :
      {R : A → S → Type 0} (m : Exec S A) (k : A → Exec S B)
      → Triple P m R E
      → ((a : A) → Triple (R a) (k a) Q E)
      → Triple P (m >>= k) Q E
  unfolding ◌>>=◌
  Triple-bind {R = R} m k tm tk = record {
    at = λ s p.
        continue-Outcome Q E R E k (λ e t. (err e, t)) (λ a t r. (tk a).at t r) (λ e t f. f) (m s)
          (tm.at s p);
  }

  pub Triple-attempt :
      {R : A → S → Type 0} {F : Exc → S → Type 0} (caught : Exc → Bool) (m : Exec S A)
      (h : Exc → Exec S B) (k : A → Exec S B)
      → Triple P m R F
      → ((a : A) → Triple (R a) (k a) Q E)
      → ((e : Exc) → caught e ≡ true → Triple (F e) (h e) Q E)
      → ((e : Exc) (s : S) → caught e ≡ false → F e s → E e s)
      → Triple P (attempt caught m h k) Q E
  unfolding attempt
  Triple-attempt {R = R} {F = F} caught m h k tm tk th pass = record {
    at = λ s p.
        continue-Outcome Q E R F k (λ e t. if caught e then h e t else (err e, t))
          (λ a t r. (tk a).at t r) (λ e t f. handled Q E F caught h th pass e t (caught e) refl f)
          (m s) (tm.at s p);
  }

module _ {S A : Type 0} where
  Outcome-map :
      {Q Q' : A → S → Type 0} {E E' : Exc → S → Type 0}
      → ((a : A) (s : S) → Q a s → Q' a s)
      → ((e : Exc) (s : S) → E e s → E' e s)
      → (o : Result A × S) → Outcome Q E o
      → Outcome Q' E' o
  Outcome-map f g (ok a, s) h = f a s h
  Outcome-map f g (err e, s) h = g e s h

  pub Triple-weaken :
      {P P' : S → Type 0} {Q Q' : A → S → Type 0} {E E' : Exc → S → Type 0} {m : Exec S A}
      → Triple P m Q E
      → ((s : S) → P' s → P s)
      → ((a : A) (s : S) → Q a s → Q' a s)
      → ((e : Exc) (s : S) → E e s → E' e s)
      → Triple P' m Q' E'
  Triple-weaken {m} t p q e = record { at = λ s h. Outcome-map q e (m s) (t.at s (p s h)) }

  -- A fact in the precondition that is not about the state.
  pub Triple-assume :
      {P : S → Type 0} {Q : A → S → Type 0} {E : Exc → S → Type 0} {X : Type 0} {m : Exec S A}
      → (X → Triple P m Q E)
      → Triple (λ s. X × P s) m Q E
  Triple-assume f = record { at = λ s p. (f p.0).at s p.1 }

  -- Two conditions on what is returned.
  pub Triple-and :
      {P : S → Type 0} {Q R : A → S → Type 0} {E F : Exc → S → Type 0} {m : Exec S A}
      → Triple P m Q E
      → Triple P m R F
      → Triple P m (λ a s. R a s × Q a s) E
  Triple-and {P} {Q} {R} {E} {F} {m} h k = record { at = λ s p. both (m s) (h.at s p) (k.at s p) }
    where
      both : (o : Result A × S) → Outcome Q E o → Outcome R F o → Outcome (λ a s. R a s × Q a s) E o
      both (ok a, s) q r = (r, q)
      both (err e, s) q r = q

  -- What `m` returned, it returned in some run.
  abbrev pub Ran : Exec S A → A → Type 0
  Ran m a = (s s' : S) × (m s ≡ (ok a, s'))

  pub Triple-Ran : {P : S → Type 0} (m : Exec S A) → Triple P m (λ a _. Ran m a) (λ _ _. Unit {0})
  Triple-Ran {P} m = record { at = λ s p. found s (m s) refl }
    where
      found : (s : S) (o : Result A × S) → m s ≡ o → Outcome (λ a _. Ran m a) (λ _ _. Unit {0}) o
      found s (ok a, s') h = (s, s', h)
      found s (err e, s') h = tt

  -- `m` keeps `P`, whether it returns or raises.
  abbrev pub Keeps : (S → Type 0) → Exec S A → Type 0
  Keeps P m = Triple P m (λ _. P) (λ _. P)

module _ {S A : Type 0} {P : S → Type 0} where
  pub Triple-for_each :
      (xs : List A) (body : A → Exec S (Unit {0}))
      → ((a : A) → Keeps P (body a))
      → Keeps P (for_each xs body)
  unfolding for_each
  Triple-for_each [] body h = Triple-pure tt (λ s p. p)
  Triple-for_each (x ∷ xs) body h =
      Triple-bind (body x) (λ _. for_each xs body) (h x) (λ _. Triple-for_each xs body h)

  -- `finally`: what follows a return and what follows a raise.
  pub Triple-finally :
      {R Q : A → S → Type 0} {F E : Exc → S → Type 0} (m : Exec S A) (f : Exec S (Unit {0}))
      → Triple P m R F
      → ((a : A) → Triple (R a) f (λ _. Q a) E)
      → ((e : Exc) → Triple (F e) f (λ _. E e) E)
      → Triple P (finally m f) Q E
  unfolding finally
  Triple-finally {R} {Q} {F} {E} m f tm ta te = record {
    at = λ s p.
        continue-Outcome Q E R F (λ a. f >> pure a) (λ e. f >> raise e)
          (λ a t r. (Triple-bind f (λ _. pure a) (ta a) (λ _. Triple-pure a (λ s q. q))).at t r)
          (λ e t r. (Triple-bind f (λ _. raise e) (te e) (λ _. Triple-raise e (λ s q. q))).at t r)
          (m s) (tm.at s p);
  }

module _ {S : Type 0} {P : S → Type 0} where
  pub Triple-require :
      {E : Exc → S → Type 0} (checks : List (Bool × Exc))
      → ((e : Exc) (s : S) → P s → E e s)
      → Triple P (require checks) (λ _ s. All (λ (c : Bool × Exc). c.0 ≡ true) checks × P s) E
  unfolding require
  Triple-require [] k = Triple-pure tt (λ s p. (tt, p))
  Triple-require ((b, e) ∷ checks) k =
      Triple-if b _ _
        (λ h.
          Triple-weaken (Triple-require checks k) (λ s p. p) (λ _ s q. ((h, q.0), q.1))
            (λ e s p. p))
        (λ _. Triple-raise e (k e))
