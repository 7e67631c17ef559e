-- ===== src/Contract.antt =====
-- firmware/boards/deployment.py: the plan of one deployment, derived from a board contract and one
-- firmware build. The digest (canonical JSON, SHA-256), the Unicode tables and `pathlib` are
-- parameters; every error of the module's classes is a `contract_error` with its message.
pub mod Validation
pub mod Validated
pub mod Preparation
pub mod Accepted
use kace.Prelude.{
  ℕ, ◌+◌, Bool, true, false, not, ◌&&◌, ◌||◌, String, str_eq, texts_eq, codes, leb, ◌==◌, any, all,
  length, prefix, ends_with, text_or_empty, Option, none, some, List, [], ◌∷◌, map, if◌then◌else◌,
  ◌<>◌, lookup,
}
use kace.Effects.{Exc, contract_error, Exec, pure, raise, gets, need, require, ◌>>=◌, ◌>>◌}
use kace.Boards.{
  ArtifactFormat, bin, uf2, ihex, ArtifactPolicy, FilenamePolicy, FlashStrategy, prepare_only,
  sd_card, avrdude, dfu_util, make_flash, raw_address, rp2040_bootsel, BuildTarget, HardwareVariant,
  BoardContract, find_variant, find_target,
}

pub data FirmwareFormat : Type 0 where
  bin_format uf2_format ihex_format : FirmwareFormat

pub record FirmwareBuildIdentity : Type 0 where
  pub reported_version : String
  pub klipper_commit : String
  pub artifact_sha256 : String
  pub artifact_size : ℕ

-- The fields of firmware/artifacts.py's artifact that a contract deployment reads.
pub record BuildArtifact : Type 0 where
  pub build_id : String
  pub path : String
  pub native_filename : String
  pub format : FirmwareFormat
  pub sha256 : String
  pub size_bytes : ℕ
  pub firmware_identity : Option FirmwareBuildIdentity
  pub board_id : String
  pub hardware_variant_id : String
  pub build_target_id : String
  pub board_contract_digest : String
  pub klipper_commit : String
  pub build_proof_digest : String

pub data DeploymentStepId : Type 0 where
  validate_artifact assign_final_filename verify_filename_policy prepare_media : DeploymentStepId
  enter_bootsel copy_to_media verify_media_checksum safe_eject : DeploymentStepId
  require_power_off require_media_inserted require_power_on : DeploymentStepId
  wait_for_mcu_reenumeration verify_klipper_build_id : DeploymentStepId

pub data ArtifactTransformationKind : Type 0 where
  rename_only : ArtifactTransformationKind

pub record ArtifactTransformation : Type 0 where
  pub kind : ArtifactTransformationKind
  pub native_path : String
  pub native_filename : String
  pub native_sha256 : String
  pub final_path : String
  pub final_filename : String
  pub final_sha256 : String
  pub size_bytes : ℕ
  pub content_changed : Bool

pub record DeploymentStep : Type 0 where
  pub id : DeploymentStepId
  pub ordinal : ℕ

pub record DeploymentPlan : Type 0 where
  pub schema : String
  pub deployment_id : String
  pub board_id : String
  pub hardware_variant_id : String
  pub build_target_id : String
  pub board_contract_digest : String
  pub klipper_commit : String
  pub build_proof_digest : String
  pub strategy : FlashStrategy
  pub artifact : BuildArtifact
  pub transformation : ArtifactTransformation
  pub steps : List DeploymentStep
  pub warnings : List String
  pub plan_digest : String

-- What `plan_digest` signs.
pub record PlanPayload : Type 0 where
  pub schema : String
  pub board_id : String
  pub hardware_variant_id : String
  pub build_target_id : String
  pub board_contract_digest : String
  pub klipper_commit : String
  pub build_proof_digest : String
  pub strategy : FlashStrategy
  pub artifact_sha256 : String
  pub transformation : ArtifactTransformation
  pub steps : List DeploymentStepId
  pub warnings : List String

-- The digest of a payload, `strip().lower()` of an id, `str.lower` and `str.casefold`, a template
-- with its build id, `Path.name` and `directory / name`, and `Path.resolve` in a world.
pub record Library (W : Type 0) : Type 0 where
  pub digest : PlanPayload → String
  pub fold : String → String
  pub lower_text : String → String
  pub casefold : String → String
  pub fill : String → String → String
  pub file_name : String → String
  pub child : String → String → String
  pub resolve : W → String → String

abbrev pub step_name : DeploymentStepId → String
step_name validate_artifact = "VALIDATE_ARTIFACT"
step_name assign_final_filename = "ASSIGN_FINAL_FILENAME"
step_name verify_filename_policy = "VERIFY_FILENAME_POLICY"
step_name prepare_media = "PREPARE_MEDIA"
step_name enter_bootsel = "ENTER_BOOTSEL"
step_name copy_to_media = "COPY_TO_MEDIA"
step_name verify_media_checksum = "VERIFY_MEDIA_CHECKSUM"
step_name safe_eject = "SAFE_EJECT"
step_name require_power_off = "REQUIRE_POWER_OFF"
step_name require_media_inserted = "REQUIRE_MEDIA_INSERTED"
step_name require_power_on = "REQUIRE_POWER_ON"
step_name wait_for_mcu_reenumeration = "WAIT_FOR_MCU_REENUMERATION"
step_name verify_klipper_build_id = "VERIFY_KLIPPER_BUILD_ID"

abbrev pub sd_steps : List DeploymentStepId
sd_steps =
    validate_artifact ∷ assign_final_filename ∷ verify_filename_policy ∷ prepare_media
    ∷ copy_to_media ∷ verify_media_checksum ∷ safe_eject ∷ require_power_off
    ∷ require_media_inserted ∷ require_power_on ∷ wait_for_mcu_reenumeration
    ∷ verify_klipper_build_id ∷ []

abbrev pub bootsel_steps : List DeploymentStepId
bootsel_steps =
    validate_artifact ∷ assign_final_filename ∷ verify_filename_policy ∷ prepare_media
    ∷ enter_bootsel ∷ copy_to_media ∷ verify_media_checksum ∷ safe_eject
    ∷ wait_for_mcu_reenumeration ∷ verify_klipper_build_id ∷ []

abbrev pub all_steps : List DeploymentStepId
all_steps =
    validate_artifact ∷ assign_final_filename ∷ verify_filename_policy ∷ prepare_media
    ∷ enter_bootsel ∷ copy_to_media ∷ verify_media_checksum ∷ safe_eject ∷ require_power_off
    ∷ require_media_inserted ∷ require_power_on ∷ wait_for_mcu_reenumeration
    ∷ verify_klipper_build_id ∷ []

-- `DeploymentStepId(item)`.
abbrev pub step_id : String → List DeploymentStepId → Option DeploymentStepId
step_id item [] = none
step_id item (id ∷ ids) =
    let rest = step_id item ids in if str_eq (step_name id) item then some id else rest

abbrev pub cons_id :
    Option DeploymentStepId → Option (List DeploymentStepId) → Option (List DeploymentStepId)
cons_id (some id) (some ids) = some (id ∷ ids)
cons_id _ _ = none

abbrev pub step_ids : List String → Option (List DeploymentStepId)
step_ids [] = some []
step_ids (item ∷ items) = cons_id (step_id item all_steps) (step_ids items)

-- The ids are equal where their names are.
abbrev pub ids_eq : List DeploymentStepId → List DeploymentStepId → Bool
ids_eq xs ys = texts_eq (map step_name xs) (map step_name ys)

abbrev pub steps_eq : List DeploymentStep → List DeploymentStep → Bool
steps_eq [] [] = true
steps_eq (x ∷ xs) (y ∷ ys) =
    str_eq (step_name x.id) (step_name y.id) && x.ordinal == y.ordinal && steps_eq xs ys
steps_eq [] (y ∷ ys) = false
steps_eq (x ∷ xs) [] = false

-- `enumerate(ids, 1)`.
abbrev pub number_from : ℕ → List DeploymentStepId → List DeploymentStep
number_from n [] = []
number_from n (id ∷ ids) = record { id = id; ordinal = n } ∷ number_from (n + 1) ids

abbrev pub strategy_name : FlashStrategy → String
strategy_name prepare_only = "PREPARE_ONLY"
strategy_name sd_card = "SD_CARD"
strategy_name avrdude = "AVRDUDE"
strategy_name dfu_util = "DFU_UTIL"
strategy_name make_flash = "MAKE_FLASH"
strategy_name raw_address = "RAW_ADDRESS"
strategy_name rp2040_bootsel = "RP2040_BOOTSEL"

abbrev pub strategy_eq : FlashStrategy → FlashStrategy → Bool
strategy_eq s t = str_eq (strategy_name s) (strategy_name t)

abbrev pub expected_steps : FlashStrategy → Option (List DeploymentStepId)
expected_steps sd_card = some sd_steps
expected_steps rp2040_bootsel = some bootsel_steps
expected_steps _ = none

-- `[0-9a-f]{64}`.
abbrev pub is_lower_hex : ℕ → Bool
is_lower_hex c = (leb b'0' c && leb c b'9') || (leb b'a' c && leb c b'f')

abbrev pub is_sha256 : String → Bool
is_sha256 text = length (codes text) == 64 && all is_lower_hex (codes text)

abbrev pub is_brace : ℕ → Bool
is_brace c = c == b'{' || c == b'}'

abbrev pub is_rename_only : ArtifactTransformationKind → Bool
is_rename_only rename_only = true
