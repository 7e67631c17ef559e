-- ===== src/Prelude/Assoc.antt =====
-- Python's `dict` with text keys, as an association list in insertion order.
use mathlib.Core.Path.{◌≡◌, refl}
use mathlib.Core.Bool.{Bool, false}
use mathlib.Core.Option.{Option, none, some}
use mathlib.Core.List.{List, [], ◌∷◌}
use native.Mathlib.Omega.{arith}
use Prim.Native.String.{String}
use kace.Prelude.Tests.{if◌then◌else◌, is_some}
use kace.Prelude.Text.{str_eq, str_eq_iff}
use kace.Prelude.Lists.{All, All-map}

module _ {ℓ} {V : Type ℓ} where
  -- `d.get(k)`; `d[k]` raises KeyError on `none`.
  unfoldable pub lookup : String → List (String × V) → Option V
  lookup k [] = none
  lookup k ((j, v) ∷ m) = if str_eq j k then some v else lookup k m

  -- `d[k] = v`: a present key keeps its place.
  unfoldable pub insert : String → V → List (String × V) → List (String × V)
  insert k v [] = (k, v) ∷ []
  insert k v ((j, w) ∷ m) = if str_eq j k then (j, v) ∷ m else (j, w) ∷ insert k v m

  abbrev pub keys : List (String × V) → List String
  keys [] = []
  keys ((j, v) ∷ m) = j ∷ keys m

  abbrev pub has_key : String → List (String × V) → Bool
  has_key k m = is_some (lookup k m)

  pub lookup-insert :
      (k j : String) (v : V) (m : List (String × V))
      → lookup j (insert k v m) ≡ (if str_eq k j then some v else lookup j m)
  unfolding lookup insert
  lookup-insert k j v [] = refl
  lookup-insert k j v ((i, w) ∷ m) =
      ground (arith, str_eq_iff k j, str_eq_iff i k, str_eq_iff i j, lookup-insert k j v m)

-- `{**d, **e}`.
unfoldable pub update {ℓ} : {V : Type ℓ} → List (String × V) → List (String × V) → List (String × V)
update d [] = d
update d ((k, v) ∷ e) = update (insert k v d) e

-- Each key once, as in a `dict`.
abbrev pub IsDict {ℓ} : {V : Type ℓ} → List (String × V) → Type 0
IsDict [] = Unit
IsDict ((k, v) ∷ m) = (has_key k m ≡ false) × IsDict m

module _ {ℓ} {V : Type ℓ} where
  lookup-older :
      (k j : String) (v w : V) (m : List (String × V))
      → has_key k m ≡ false
      → lookup j m ≡ some w
      → lookup j ((k, v) ∷ m) ≡ some w
  unfolding lookup
  lookup-older k j v w m h e = ground (arith, str_eq_iff k j)

  pub All-lookup :
      (m : List (String × V)) → IsDict m → All (λ (f : String × V). lookup f.0 m ≡ some f.1) m
  unfolding lookup
  All-lookup [] d = tt
  All-lookup ((k, v) ∷ m) d = (
    ground (arith, str_eq_iff k k),
    All-map m (λ f e. lookup-older k f.0 v f.1 m d.0 e) (All-lookup m d.1),
  )

  pub All-keys {κ} :
      (P : String → Type κ) (m : List (String × V))
      → All P (keys m)
      → All (λ (f : String × V). P f.0) m
  All-keys P [] h = tt
  All-keys P (f ∷ m) h = (h.0, All-keys P m h.1)

  pub keys-All {κ} :
      (P : String → Type κ) (m : List (String × V))
      → All (λ (f : String × V). P f.0) m
      → All P (keys m)
  keys-All P [] h = tt
  keys-All P (f ∷ m) h = (h.0, keys-All P m h.1)
