-- ===== src/Effects/Settled.antt =====
-- Code that does nothing to the state and does not depend on it: where it returned once, it returns
-- the same from every state.
use kace.Prelude.{
  Bool, true, false, String, Option, none, some, List, [], ◌∷◌, All, if◌then◌else◌, ◌≡◌, refl, ap,
  ◌∙◌,
}
use kace.Effects.{Exc, ok, err, Exec, pure, raise, need, require, continue, ◌>>=◌}
use kace.Effects.Triples.{Triple-require, Triple-weaken}
use kace.Effects.Ending.{Ends, Anywhere, Ends-pure, Ends-raise, Ends-value, Ends-map}

-- A run that returns and leaves the state.
abbrev pub ReturnsAt : {S A : Type 0} → Exec S A → A → S → Type 0
ReturnsAt m a s = m s ≡ (ok a, s)

-- A record, so that a rule's conclusion shows the code.
pub record IsSettled {S A : Type 0} (m : Exec S A) : Type 0 where
  pub ends : Ends Anywhere (λ a (_ : S). (s : S) → ReturnsAt m a s) m

module _ {S : Type 0} where
  pub ReturnsAt-bind :
      {A B : Type 0} (m : Exec S A) (k : A → Exec S B) (a : A) (b : B) (s : S)
      → ReturnsAt m a s
      → ReturnsAt (k a) b s
      → ReturnsAt (m >>= k) b s
  unfolding ◌>>=◌
  ReturnsAt-bind m k a b s h hk = ap (continue k (λ e t. (err e, t))) h ∙ hk

  pub ReturnsAt-require :
      (checks : List (Bool × Exc)) (s : S)
      → All (λ (c : Bool × Exc). c.0 ≡ true) checks
      → ReturnsAt (require checks) tt s
  unfolding require pure
  ReturnsAt-require [] s h = refl
  ReturnsAt-require ((b, e) ∷ checks) s h =
      ap (λ c. (if c then require checks else raise e) s) h.0 ∙ ReturnsAt-require checks s h.1

  pub IsSettled-pure : {A : Type 0} (a : A) → IsSettled {S = S} (pure a)
  unfolding pure
  IsSettled-pure a = record { ends = Ends-pure a (λ s p t. refl) }

  pub IsSettled-raise : {A : Type 0} (e : Exc) → IsSettled {S = S} {A = A} (raise e)
  IsSettled-raise e = record { ends = Ends-raise e }

  pub IsSettled-if :
      {A : Type 0} (b : Bool) (m n : Exec S A)
      → IsSettled m
      → IsSettled n
      → IsSettled (if b then m else n)
  IsSettled-if true m n h k = h
  IsSettled-if false m n h k = k

  pub IsSettled-need : {A : Type 0} (k : String) (o : Option A) → IsSettled {S = S} (need k o)
  unfolding need
  IsSettled-need k none = IsSettled-raise _
  IsSettled-need k (some a) = IsSettled-pure a

  pub IsSettled-require : (checks : List (Bool × Exc)) → IsSettled {S = S} (require checks)
  IsSettled-require checks = record {
    ends = record {
      triple =
          Triple-weaken (Triple-require checks (λ e s p. tt)) (λ s p. p)
            (λ _ s p t. ReturnsAt-require checks t p.0) (λ e s p. p);
    };
  }

  pub IsSettled-bind :
      {A B : Type 0} (m : Exec S A) (k : A → Exec S B)
      → IsSettled m
      → ((a : A) → IsSettled (k a))
      → IsSettled (m >>= k)
  IsSettled-bind m k hm hk = record {
    ends =
        Ends-value m k (Ends-map m hm.ends (λ a s f. (f, tt)))
          λ a f. Ends-map (k a) (hk a).ends (λ b s g t. ReturnsAt-bind m k a b t (f t) (g t));
  }

pub ruleset settled_rules = (
  IsSettled-pure, IsSettled-raise, IsSettled-if, IsSettled-need, IsSettled-require, IsSettled-bind,
)
