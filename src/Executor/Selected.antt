-- ===== src/Executor/Selected.antt =====
-- Which medium is selected.
use kace.Prelude.{
  Bool, true, false, Bool-cases, keep, String, str_eq, str_eq_iff, List, [], ◌∷◌, ◌++◌, ◌≡◌, ◌≢◌,
  refl, All, ◌⊎◌, ◌↔◌, inl, inr, arith, ap, ◌∙◌, if◌then◌else◌,
}
use kace.Effects.{ok, pure, raise}
use kace.Executor.Session.{MediaCandidate}
use kace.Executor.Steps.{Executor}
use kace.Executor.Checks.{with_id, only, select_media}

-- One element of the list passes the test.
abbrev pub PassesAlone {ℓ} : {A : Type ℓ} → (A → Bool) → List A → A → Type ℓ
PassesAlone {A} p xs x =
    (before : List A) × (after : List A) × (xs ≡ before ++ (x ∷ after))
    × (p x ≡ true)
    × All (λ y. p y ≡ false) before
    × All (λ y. p y ≡ false) after

module _ {ℓ} {A : Type ℓ} (p : A → Bool) where
  keep-none : (xs : List A) → keep p xs ≡ [] → All (λ x. p x ≡ false) xs
  keep-none [] h = tt
  keep-none (x ∷ xs) h = elim (Bool-cases (p x)) [
    | inl holds ↦ absurd (ground (arith, holds, h))
    | inr fails ↦ (fails, keep-none xs (ground (arith, fails, h)))
  ]

  keep-empty : (xs : List A) → All (λ x. p x ≡ false) xs → keep p xs ≡ []
  keep-empty [] h = refl
  keep-empty (x ∷ xs) h = ground (arith, h.0, keep-empty xs h.1)

  keep-PassesAlone : (xs : List A) (x : A) → keep p xs ≡ x ∷ [] → PassesAlone p xs x
  keep-PassesAlone [] x h = absurd (cc h)
  keep-PassesAlone (y ∷ xs) x h = elim (Bool-cases (p y)) [
    | inl holds ↦
        let same : y ≡ x = ground (arith, holds, h) in
        let rest : keep p xs ≡ [] = ground (arith, holds, h) in
        ([], xs, ap (λ z. z ∷ xs) same, ground (arith, holds, same), tt, keep-none xs rest)
    | inr fails ↦
        let (before, after, same, passes, first, last) =
          keep-PassesAlone xs x (ground (arith, fails, h)) in
        (y ∷ before, after, ap (λ zs. y ∷ zs) same, passes, (fails, first), last)
  ]

  keep-between :
      (before after : List A) (x : A)
      → p x ≡ true
      → All (λ y. p y ≡ false) before
      → All (λ y. p y ≡ false) after
      → keep p (before ++ (x ∷ after)) ≡ x ∷ []
  keep-between [] after x h first last = ground (arith, h, keep-empty after last)
  keep-between (y ∷ before) after x h first last =
      ground (arith, first.0, keep-between before after x h first.1 last)

-- No choice is given and there is one candidate, or one candidate has the given id.
abbrev pub IsSole : List MediaCandidate → String → MediaCandidate → Type 0
IsSole candidates id medium =
    ((id ≡ "") × (candidates ≡ medium ∷ []))
    ⊎ ((id ≢ "") × PassesAlone (λ (c : MediaCandidate). str_eq c.stable_id id) candidates medium)

no_split :
    (x : MediaCandidate) (before after : List MediaCandidate) → ¬ ([] ≡ before ++ (x ∷ after))
no_split x [] after h = cc h
no_split x (y ∷ before) after h = cc h

module _ {W : Type 0} (executor : Executor W) where
  only_iff :
      (cs : List MediaCandidate) (code text : String) (medium : MediaCandidate) (w : W)
      → (only executor cs code text w ≡ (ok medium, w)) ↔ (cs ≡ medium ∷ [])
  unfolding only pure raise
  only_iff [] code text medium w = (λ h. absurd (cc h), λ h. absurd (cc h))
  only_iff (c ∷ []) code text medium w = (λ h. cc h, λ h. cc h)
  only_iff (c ∷ d ∷ cs) code text medium w = (λ h. absurd (cc h), λ h. absurd (cc h))

  -- The two ways to select.
  chosen_iff :
      (cs : List MediaCandidate) (id : String) (medium : MediaCandidate) (w : W)
      (code text code' text' : String) (b : Bool)
      → str_eq id "" ≡ b
      → ((if b then only executor cs code text else only executor (with_id id cs) code' text') w
          ≡ (ok medium, w))
        ↔ IsSole cs id medium
  chosen_iff cs id medium w code text code' text' true e =
      let empty : id ≡ "" = (str_eq_iff id "").0 e in
      let sole = only_iff cs code text medium w in
      (λ h. inl (empty, sole.0 h), λ h. elim h [ inl h ↦ sole.1 h.1 | inr h ↦ absurd (h.0 empty) ])
  chosen_iff cs id medium w code text code' text' false e =
      let given : id ≢ "" = λ h. absurd (ground (arith, e, (str_eq_iff id "").1 h)) in
      let sole = only_iff (with_id id cs) code' text' medium w in
      (
        λ h. inr (given, keep-PassesAlone _ cs medium (sole.0 h)),
        λ h. elim h [
          | inl h ↦ absurd (given h.0)
          | inr h ↦ sole.1 (
              ap (with_id id) h.1.2 ∙ keep-between _ (h.1.0) (h.1.1) medium (h.1.3) (h.1.4) (h.1.5))
        ],
      )

  -- `_select_media` returns a medium exactly if no id is given and it is the only candidate, or it
  -- is the only candidate with the given id; it leaves the world as it was.
  pub select_media_iff :
      (candidates : List MediaCandidate) (id : String) (medium : MediaCandidate) (w : W)
      → (select_media executor candidates id w ≡ (ok medium, w)) ↔ IsSole candidates id medium
  unfolding select_media raise
  select_media_iff [] id medium w = (
    λ h. absurd (cc h),
    λ h. elim h [ inl h ↦ absurd (cc (h.1)) | inr h ↦ absurd (no_split _ (h.1.0) _ (h.1.2)) ],
  )
  select_media_iff (c ∷ cs) id medium w = chosen_iff (c ∷ cs) id medium w _ _ _ _ _ refl
