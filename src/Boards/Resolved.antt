-- ===== src/Boards/Resolved.antt =====
-- What a resolution chose, and when the comparison with the legacy choice agrees.
use kace.Prelude.{
  true, Bool-cases, String, str_eq, str_eq_iff, Option, none, some, List, [], ◌∷◌, ◌≡◌, refl, ap,
  arith, keep, In, here, there, inl, inr,
}
use kace.Effects.{ok}
use kace.Boards.{
  BuildTarget, HardwareVariant, BoardContract, BoardCatalog, ResolutionResult, is_resolved,
  find_variant, find_target, resolve_exact, resolve_target, resolve_variant, resolve, has_mcu,
  agrees, divergence_of, variant_ids, compare_contract, compare_legacy_resolution, is_empty_text,
}

pub find_variant-In :
    (id : String) (variants : List HardwareVariant) (variant : HardwareVariant)
    → find_variant id variants ≡ some variant
    → In variant variants × (variant.id ≡ id)
unfolding find_variant
find_variant-In id [] variant h = absurd (cc h)
find_variant-In id (v ∷ variants) variant h = elim (Bool-cases (str_eq v.id id)) [
  | inl same ↦
      let found : v ≡ variant = ground (arith, same, h) in
      (here found, cc (found, (str_eq_iff v.id id).0 same))
  | inr other ↦
      let (found, named) = find_variant-In id variants variant (ground (arith, other, h)) in
      (there found, named)
]

pub find_target-In :
    (id : String) (targets : List BuildTarget) (target : BuildTarget)
    → find_target id targets ≡ some target
    → In target targets × (target.id ≡ id)
unfolding find_target
find_target-In id [] target h = absurd (cc h)
find_target-In id (t ∷ targets) target h = elim (Bool-cases (str_eq t.id id)) [
  | inl same ↦
      let found : t ≡ target = ground (arith, same, h) in
      (here found, cc (found, (str_eq_iff t.id id).0 same))
  | inr other ↦
      let (found, named) = find_target-In id targets target (ground (arith, other, h)) in
      (there found, named)
]

module _ (normalize fold : String → String) where
  -- The one item where no id is asked for, and else an item with the id.
  abbrev pub Chosen : {A : Type 0} → (A → String) → Option String → List A → A → Type 0
  Chosen id_of none items item = items ≡ item ∷ []
  Chosen id_of (some id) items item = In item items × (id_of item ≡ fold id)

  abbrev pub ResolvedTarget :
      BoardContract → HardwareVariant → Option String → ResolutionResult → Type 0
  ResolvedTarget contract variant target_id r =
      (target : BuildTarget) × Chosen (λ (t : BuildTarget). t.id) target_id variant.build_targets
        target
      × (r.contract ≡ some contract)
      × (r.variant ≡ some variant)
      × (r.target ≡ some target)

  abbrev pub ResolvedVariant :
      BoardContract → Option String → Option String → ResolutionResult → Type 0
  ResolvedVariant contract variant_id target_id r =
      (variant : HardwareVariant) × Chosen (λ (v : HardwareVariant). v.id) variant_id
        contract.hardware_variants variant
      × ResolvedTarget contract variant target_id r

  resolve_target-Chosen :
      (contract : BoardContract) (variant : HardwareVariant) (target_id : Option String)
      (targets : List BuildTarget) (o : Option BuildTarget)
      → (id : String) → find_target (fold id) targets ≡ o
      → variant.build_targets ≡ targets
      → is_resolved (resolve_target normalize fold contract variant (some id) targets) ≡ true
      → ResolvedTarget contract variant
          (some id)
          (resolve_target normalize fold contract variant (some id) targets)
  unfolding resolve_target
  resolve_target-Chosen contract variant target_id targets none id e same h =
      absurd (ground (arith, e, h))
  resolve_target-Chosen contract variant target_id targets (some target) id e same h =
      let (found, named) = find_target-In (fold id) targets target e in
      (target, (rw same found, named), ground (arith, e), ground (arith, e), ground (arith, e))

  resolve_target-Resolved :
      (contract : BoardContract) (variant : HardwareVariant) (target_id : Option String)
      (targets : List BuildTarget)
      → variant.build_targets ≡ targets
      → is_resolved (resolve_target normalize fold contract variant target_id targets) ≡ true
      → ResolvedTarget contract variant target_id
          (resolve_target normalize fold contract variant target_id targets)
  unfolding resolve_target
  resolve_target-Resolved contract variant none (target ∷ []) same h =
      (target, same, refl, refl, refl)
  resolve_target-Resolved contract variant none [] same h = absurd (cc h)
  resolve_target-Resolved contract variant none (t ∷ u ∷ targets) same h = absurd (cc h)
  resolve_target-Resolved contract variant (some id) targets same h =
      resolve_target-Chosen contract variant none targets _ id refl same h

  resolve_variant-Chosen :
      (contract : BoardContract) (target_id : Option String) (variants : List HardwareVariant)
      (o : Option HardwareVariant) (id : String)
      → find_variant (fold id) variants ≡ o
      → contract.hardware_variants ≡ variants
      → is_resolved (resolve_variant normalize fold contract (some id) target_id variants) ≡ true
      → ResolvedVariant contract
          (some id)
          target_id
          (resolve_variant normalize fold contract (some id) target_id variants)
  unfolding resolve_variant
  resolve_variant-Chosen contract target_id variants none id e same h =
      absurd (ground (arith, e, h))
  resolve_variant-Chosen contract target_id variants (some variant) id e same h =
      let (found, named) = find_variant-In (fold id) variants variant e in
      (
        variant,
        (rw same found, named),
        rw (e, resolve_variant)
            (resolve_target-Resolved contract variant target_id variant.build_targets refl
              (rw (e, resolve_variant) at h)),
      )

  resolve_variant-Resolved :
      (contract : BoardContract) (variant_id target_id : Option String)
      (variants : List HardwareVariant)
      → contract.hardware_variants ≡ variants
      → is_resolved (resolve_variant normalize fold contract variant_id target_id variants) ≡ true
      → ResolvedVariant contract variant_id target_id
          (resolve_variant normalize fold contract variant_id target_id variants)
  unfolding resolve_variant
  resolve_variant-Resolved contract none target_id (variant ∷ []) same h = (
    variant,
    same,
    resolve_target-Resolved contract variant target_id variant.build_targets refl h,
  )
  resolve_variant-Resolved contract none target_id [] same h = absurd (cc h)
  resolve_variant-Resolved contract none target_id (v ∷ u ∷ variants) same h = absurd (cc h)
  resolve_variant-Resolved contract (some id) target_id variants same h =
      resolve_variant-Chosen contract target_id variants _ id refl same h

  resolve-found :
      (catalog : BoardCatalog) (alias : String) (variant_id target_id : Option String)
      (o : Option BoardContract)
      → resolve_exact normalize catalog alias ≡ o
      → is_resolved (resolve normalize fold catalog alias variant_id target_id) ≡ true
      → (contract : BoardContract) × (resolve_exact normalize catalog alias ≡ some contract)
        × ResolvedVariant contract variant_id target_id
            (resolve normalize fold catalog alias variant_id target_id)
  unfolding resolve
  resolve-found catalog alias variant_id target_id none e h = absurd (ground (arith, e, h))
  resolve-found catalog alias variant_id target_id (some contract) e h = (
    contract,
    e,
    rw (e, resolve)
        (resolve_variant-Resolved contract variant_id target_id contract.hardware_variants refl
          (rw (e, resolve) at h)),
  )

  -- A result RESOLVED names the contract of the exact alias, a variant of it and a target of that
  -- variant, and no choice was made: where an id was given the item has it, and where none was
  -- given the item was the only one.
  pub resolve_chosen :
      (catalog : BoardCatalog) (alias : String) (variant_id target_id : Option String)
      → is_resolved (resolve normalize fold catalog alias variant_id target_id) ≡ true
      → (contract : BoardContract) × (resolve_exact normalize catalog alias ≡ some contract)
        × ResolvedVariant contract variant_id target_id
            (resolve normalize fold catalog alias variant_id target_id)
  resolve_chosen catalog alias variant_id target_id h =
      resolve-found catalog alias variant_id target_id _ refl h

one_match :
    (variants : List HardwareVariant)
    → divergence_of (variant_ids variants) ≡ agrees
    → (variant : HardwareVariant) × (variants ≡ variant ∷ [])
unfolding divergence_of
one_match [] h = absurd (cc h)
one_match (variant ∷ []) h = (variant, refl)
one_match (v ∷ u ∷ variants) h = absurd (cc h)

module _ (normalize strip : String → String) where
  -- The contract has exactly one variant with the MCU, and the comparison names it.
  abbrev pub OneMatch : BoardContract → String → List String → Type 0
  OneMatch contract mcu ids =
      (variant : HardwareVariant) × (keep (has_mcu normalize (normalize mcu))
          contract.hardware_variants
        ≡ variant ∷ [])
      × (ids ≡ variant.id ∷ [])

  compare_contract-agrees :
      (board mcu : String) (contract : BoardContract)
      → (compare_contract normalize strip board mcu (some contract)).divergence ≡ agrees
      → OneMatch contract mcu
          (compare_contract normalize strip board mcu (some contract)).matching_variant_ids
  unfolding compare_contract
  compare_contract-agrees board mcu contract h = elim (Bool-cases (is_empty_text (strip mcu))) [
    | inl blank ↦ absurd (ground (arith, blank, h))
    | inr other ↦
        let (variant, only) =
          one_match (keep (has_mcu normalize (normalize mcu)) contract.hardware_variants)
            (rw (other, compare_contract) at h) in
        (variant, only, rw (other, compare_contract) (ap variant_ids only))
  ]

  compare-found :
      (catalog : BoardCatalog) (board mcu : String) (o : Option BoardContract)
      → resolve_exact normalize catalog board ≡ o
      → (compare_contract normalize strip board mcu o).divergence ≡ agrees
      → (contract : BoardContract) × (resolve_exact normalize catalog board ≡ some contract)
        × OneMatch contract mcu (compare_contract normalize strip board mcu o).matching_variant_ids
  unfolding compare_contract
  compare-found catalog board mcu none e h = absurd (cc h)
  compare-found catalog board mcu (some contract) e h =
      (contract, e, compare_contract-agrees board mcu contract h)

  -- The shadow comparison says AGREES only if the board is an exact name of a contract and exactly
  -- one variant of that contract has the legacy MCU; the result then lists that variant alone.
  pub compare_agrees :
      (catalog : BoardCatalog) (board mcu : String)
      → (compare_legacy_resolution normalize strip (ok catalog) board mcu).divergence ≡ agrees
      → (contract : BoardContract) × (resolve_exact normalize catalog board ≡ some contract)
        × OneMatch contract mcu
            (compare_legacy_resolution normalize strip (ok catalog) board mcu).matching_variant_ids
  unfolding compare_legacy_resolution
  compare_agrees catalog board mcu h = compare-found catalog board mcu _ refl h
