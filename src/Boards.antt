-- ===== src/Boards.antt =====
-- firmware/boards/catalog.py and firmware/boards/resolver.py: the index of exact board names, and
-- the resolution of a board, a variant and a build target. Of firmware/boards/models.py the model
-- has the fields that these read. The Unicode tables behind `normalize_exact_alias` and the
-- `strip().lower()` of an id are the parameters `normalize` and `fold`.
pub mod Index
pub mod Resolved
pub mod Promotion
use kace.Prelude.{
  ℕ, Bool, true, false, String, str_eq, Option, none, some, List, [], ◌∷◌, ◌++◌, map, keep, lookup,
  insert, any, ◌||◌, if◌then◌else◌, ◌<>◌,
}
use kace.Effects.{Exc, other_error, message, Result, ok, err}

pub data SupportStatus : Type 0 where
  provisional build_verified deployment_verified runtime_supported : SupportStatus
  config_only blocked : SupportStatus

pub data TransportKind : Type 0 where
  usb uart can : TransportKind

pub record TransportSpec : Type 0 where
  pub kind : TransportKind
  pub endpoint : List (String × String)

pub data ArtifactFormat : Type 0 where
  bin uf2 ihex : ArtifactFormat

-- `ArtifactPolicy.final_filename`, with `none` for a missing key.
pub record FilenamePolicy : Type 0 where
  pub strategy : String
  pub value : Option String
  pub template : Option String
  pub required_suffix : Option String
  pub must_differ_from_last_successful_flash : Bool

pub record ArtifactPolicy : Type 0 where
  pub native_filename : String
  pub format : ArtifactFormat
  pub final_filename : FilenamePolicy

pub data FlashStrategy : Type 0 where
  prepare_only sd_card avrdude dfu_util make_flash raw_address rp2040_bootsel : FlashStrategy

-- The keys of `FlashRecipe.options` that the code reads.
pub record FlashOptions : Type 0 where
  pub require_removable : Bool
  pub required_filesystems : List String
  pub destination : Option String

pub record FlashRecipe : Type 0 where
  pub strategy : FlashStrategy
  pub steps : List String
  pub options : FlashOptions

pub record BuildTarget : Type 0 where
  pub id : String
  pub support_status : SupportStatus
  pub transport : TransportSpec
  pub artifact : ArtifactPolicy
  pub flash : FlashRecipe

pub record ProcessorSpec : Type 0 where
  pub model : String
  pub resolved_mcu : String

pub record HardwareVariant : Type 0 where
  pub id : String
  pub processor : ProcessorSpec
  pub build_targets : List BuildTarget

pub record BoardContract : Type 0 where
  pub board_id : String
  pub aliases : List String
  pub contract_digest : String
  pub validated_commit : String
  pub warnings : List String
  pub hardware_variants : List HardwareVariant

pub record CatalogEntry : Type 0 where
  pub contract : BoardContract
  pub source_path : String

abbrev pub Index : Type 0
Index = List (String × CatalogEntry)

pub record BoardCatalog : Type 0 where
  pub entries : List CatalogEntry
  pub by_id : Index
  pub by_alias : Index

-- `(board_id,) + aliases`.
abbrev pub names_of : CatalogEntry → List String
names_of entry = entry.contract.board_id ∷ entry.contract.aliases

abbrev pub is_seen : String → List String → Bool
is_seen name seen = any (λ j. str_eq j name) seen

abbrev pub is_empty_text : String → Bool
is_empty_text name = str_eq name ""

-- The first item with the id.
unfoldable pub find_variant : String → List HardwareVariant → Option HardwareVariant
find_variant id [] = none
find_variant id (variant ∷ variants) =
    let rest = find_variant id variants in if str_eq variant.id id then some variant else rest

unfoldable pub find_target : String → List BuildTarget → Option BuildTarget
find_target id [] = none
find_target id (target ∷ targets) =
    let rest = find_target id targets in if str_eq target.id id then some target else rest

pub data ResolutionStatus : Type 0 where
  resolved not_found ambiguous_variant variant_not_found : ResolutionStatus
  ambiguous_target target_not_found : ResolutionStatus

pub record ResolutionResult : Type 0 where
  pub status : ResolutionStatus
  pub contract : Option BoardContract
  pub variant : Option HardwareVariant
  pub target : Option BuildTarget
  pub candidates : List String

-- `ResolutionResult.ok`.
abbrev pub is_resolved : ResolutionResult → Bool
is_resolved r = elim r.status [ resolved ↦ true | _ ↦ false ]

abbrev pub variant_ids : List HardwareVariant → List String
variant_ids variants = map (λ (v : HardwareVariant). v.id) variants

abbrev pub target_ids : List BuildTarget → List String
target_ids targets = map (λ (t : BuildTarget). t.id) targets

pub data ShadowDivergence : Type 0 where
  agrees board_not_covered legacy_mcu_unavailable : ShadowDivergence
  mcu_divergence variant_ambiguous shadow_error : ShadowDivergence

pub record ShadowComparison : Type 0 where
  pub legacy_board : String
  pub legacy_mcu : String
  pub board_contract_id : String
  pub matching_variant_ids : List String
  pub divergence : ShadowDivergence
  pub detail : String

module _ (normalize : String → String) where
  -- The names of one entry; `seen` is `seen_local`.
  unfoldable pub index_names : CatalogEntry → List String → List String → Index → Result Index
  index_names entry [] seen by_alias = ok by_alias
  index_names entry (alias ∷ names) seen by_alias =
      let name = normalize alias in
      let rest = index_names entry names (name ∷ seen) (insert name entry by_alias) in
      if is_empty_text name
      then err (other_error (entry.contract.board_id <> ": empty alias"))
      else if is_seen name seen
      then err (
          other_error (entry.contract.board_id <> ": duplicate normalized alias '" <> alias <> "'"))
      else elim (lookup name by_alias) [
        | some owner ↦ err (
            other_error (
              "ambiguous exact alias '" <> alias <> "': " <> owner.contract.board_id <> " and "
              <> entry.contract.board_id))
        | none ↦ rest
      ]

  abbrev pub duplicate_id : CatalogEntry → Exc
  duplicate_id entry = other_error ("duplicate board_id: " <> entry.contract.board_id)

  -- `_build_indices`.
  unfoldable pub build_indices : List CatalogEntry → Index → Index → Result (Index × Index)
  build_indices [] by_id by_alias = ok (by_id, by_alias)
  build_indices (entry ∷ entries) by_id by_alias =
      let id = normalize entry.contract.board_id in
      elim (lookup id by_id) [
        | some owner ↦ err (duplicate_id entry)
        | none ↦ elim (index_names entry (names_of entry) [] by_alias) [
          | err e ↦ err e
          | ok more ↦ build_indices entries (insert id entry by_id) more
        ]
      ]

  -- `BoardCatalog(entries)`.
  unfoldable pub catalog_of : List CatalogEntry → Result BoardCatalog
  catalog_of [] = err (other_error "board contract catalog is empty")
  catalog_of (entry ∷ entries) = elim (build_indices (entry ∷ entries) [] []) [
    | err e ↦ err e
    | ok indices ↦
        ok (record { entries = entry ∷ entries; by_id = indices.0; by_alias = indices.1 })
  ]

  abbrev contract_of : Option CatalogEntry → Option BoardContract
  contract_of none = none
  contract_of (some entry) = some entry.contract

  unfoldable pub resolve_exact : BoardCatalog → String → Option BoardContract
  resolve_exact catalog alias = contract_of (lookup (normalize alias) catalog.by_alias)

  unfoldable pub by_id : BoardCatalog → String → Option BoardContract
  by_id catalog id = contract_of (lookup (normalize id) catalog.by_id)

module _ (normalize fold : String → String) where
  -- The target, once the contract and the variant are known.
  unfoldable pub resolve_target :
      BoardContract → HardwareVariant → Option String → List BuildTarget → ResolutionResult
  resolve_target contract variant none (target ∷ []) = record {
    status = resolved;
    contract = some contract;
    variant = some variant;
    target = some target;
    candidates = [];
  }
  resolve_target contract variant none targets = record {
    status = ambiguous_target;
    contract = some contract;
    variant = some variant;
    target = none;
    candidates = target_ids targets;
  }
  resolve_target contract variant (some id) targets = elim (find_target (fold id) targets) [
    | none ↦ record {
      status = target_not_found;
      contract = some contract;
      variant = some variant;
      target = none;
      candidates = target_ids targets;
    }
    | some target ↦ record {
      status = resolved;
      contract = some contract;
      variant = some variant;
      target = some target;
      candidates = [];
    }
  ]

  unfoldable pub resolve_variant :
      BoardContract → Option String → Option String → List HardwareVariant → ResolutionResult
  resolve_variant contract none target_id (variant ∷ []) =
      resolve_target contract variant target_id variant.build_targets
  resolve_variant contract none target_id variants = record {
    status = ambiguous_variant;
    contract = some contract;
    variant = none;
    target = none;
    candidates = variant_ids variants;
  }
  resolve_variant contract (some id) target_id variants = elim (find_variant (fold id) variants) [
    | none ↦ record {
      status = variant_not_found;
      contract = some contract;
      variant = none;
      target = none;
      candidates = variant_ids variants;
    }
    | some variant ↦ resolve_target contract variant target_id variant.build_targets
  ]

  -- `BoardResolver.resolve`.
  unfoldable pub resolve : BoardCatalog → String → Option String → Option String → ResolutionResult
  resolve catalog alias variant_id target_id = elim (resolve_exact normalize catalog alias) [
    | none ↦ record {
      status = not_found;
      contract = none;
      variant = none;
      target = none;
      candidates = [];
    }
    | some contract ↦ resolve_variant contract variant_id target_id contract.hardware_variants
  ]

-- What the variants that have the MCU say.
unfoldable pub divergence_of : List String → ShadowDivergence
divergence_of [] = mcu_divergence
divergence_of (id ∷ []) = agrees
divergence_of (id ∷ j ∷ ids) = variant_ambiguous

abbrev pub divergence_detail : List String → String
divergence_detail [] = "legacy MCU does not exactly equal any declared hardware variant"
divergence_detail _ = ""

module _ (normalize : String → String) where
  abbrev pub has_mcu : String → HardwareVariant → Bool
  has_mcu mcu variant =
      str_eq (normalize variant.processor.model) mcu
      || str_eq (normalize variant.processor.resolved_mcu) mcu

module _ (normalize strip : String → String) where
  unfoldable pub compare_contract : String → String → Option BoardContract → ShadowComparison
  compare_contract board mcu none = record {
    legacy_board = board;
    legacy_mcu = mcu;
    board_contract_id = "";
    matching_variant_ids = [];
    divergence = board_not_covered;
    detail = "legacy selection has no exact BoardContract alias";
  }
  compare_contract board mcu (some contract) =
      let matches =
        variant_ids (keep (has_mcu normalize (normalize mcu)) contract.hardware_variants) in
      if is_empty_text (strip mcu)
      then record {
        legacy_board = board;
        legacy_mcu = "";
        board_contract_id = contract.board_id;
        matching_variant_ids = [];
        divergence = legacy_mcu_unavailable;
        detail = "legacy runtime did not provide an MCU identity";
      }
      else record {
        legacy_board = board;
        legacy_mcu = mcu;
        board_contract_id = contract.board_id;
        matching_variant_ids = matches;
        divergence = divergence_of matches;
        detail = divergence_detail matches;
      }

  -- `compare_legacy_resolution`; the first argument is the catalog, or how its loading failed.
  unfoldable pub compare_legacy_resolution :
      Result BoardCatalog → String → String → ShadowComparison
  compare_legacy_resolution (err e) board mcu = record {
    legacy_board = board;
    legacy_mcu = mcu;
    board_contract_id = "";
    matching_variant_ids = [];
    divergence = shadow_error;
    detail = message e;
  }
  compare_legacy_resolution (ok catalog) board mcu =
      compare_contract board mcu (resolve_exact normalize catalog board)
