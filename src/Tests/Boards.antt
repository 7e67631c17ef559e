-- ===== src/Tests/Boards.antt =====
-- The theorems on the board catalog, applied to a catalog of two boards.
use kace.Contract.{step_name, sd_steps}
use kace.Prelude.{
  map, true, false, String, none, some, List, [], ◌∷◌, ◌≡◌, refl, All, lookup, insert,
}
use kace.Effects.{ok}
use kace.Boards.{
  SupportStatus, BuildTarget, usb, bin, sd_card, runtime_supported, provisional,
  deployment_verified, by_id, BoardContract, CatalogEntry, BoardCatalog, names_of, index_names,
  build_indices, catalog_of, resolve_exact, find_variant, find_target, resolve_target,
  resolve_variant, resolve, is_resolved, agrees, divergence_of, compare_contract,
  compare_legacy_resolution,
}
use kace.Executor.Session.{verified, DeploymentProof}
use kace.Boards.Promotion.{
  DeploymentPromotionRequest, promote_target, target_in, promote_contract,
  create_deployment_promotion_request,
}
use kace.Boards.Promotion.Evidence.{IsBacked, promotion_justified}
use kace.Boards.Index.{catalog_of-resolve_exact}
use kace.Boards.Resolved.{ResolvedVariant, OneMatch, resolve_chosen, compare_agrees}

abbrev pub same : String → String
same s = s

abbrev pub sd_target : String → SupportStatus → BuildTarget
sd_target name status = record {
  id = name;
  support_status = status;
  transport = record { kind = usb; endpoint = ("application_vid_pid", "1d50:614e") ∷ [] };
  artifact = record {
    native_filename = "klipper.bin";
    format = bin;
    final_filename = record {
      strategy = "fixed";
      value = some "firmware.bin";
      template = none;
      required_suffix = some ".bin";
      must_differ_from_last_successful_flash = false;
    };
  };
  flash = record {
    strategy = sd_card;
    steps = map step_name sd_steps;
    options = record {
      require_removable = true;
      required_filesystems = "vfat" ∷ [];
      destination = some "sd-card-root";
    };
  };
}

abbrev pub skr : BoardContract
skr = record {
  board_id = "skr";
  aliases = "btt-skr.cfg" ∷ [];
  contract_digest = "d1";
  validated_commit = "c1";
  warnings = [];
  hardware_variants =
      record {
        id = "f103";
        processor = record { model = "STM32F103"; resolved_mcu = "stm32f103xe" };
        build_targets = sd_target "usb" runtime_supported ∷ sd_target "uart" provisional ∷ [];
      }
      ∷ [];
}

abbrev robin : BoardContract
robin = record {
  board_id = "robin";
  aliases = [];
  contract_digest = "d2";
  validated_commit = "c1";
  warnings = [];
  hardware_variants = [];
}

abbrev two_boards : List CatalogEntry
two_boards =
    record { contract = skr; source_path = "skr.yaml" }
    ∷ record { contract = robin; source_path = "robin.yaml" }
    ∷ []

abbrev pub by_name : BoardCatalog
by_name = record {
  entries = two_boards;
  by_id =
      ("skr", record { contract = skr; source_path = "skr.yaml" })
      ∷ ("robin", record { contract = robin; source_path = "robin.yaml" })
      ∷ [];
  by_alias =
      ("skr", record { contract = skr; source_path = "skr.yaml" })
      ∷ ("btt-skr.cfg", record { contract = skr; source_path = "skr.yaml" })
      ∷ ("robin", record { contract = robin; source_path = "robin.yaml" })
      ∷ [];
}

catalog_runs :
    (catalog_of same two_boards ≡ ok by_name)
    × (is_resolved (resolve same same by_name "btt-skr.cfg" none (some "uart")) ≡ true)
    × ((compare_legacy_resolution same same (ok by_name) "skr" "stm32f103xe").divergence ≡ agrees)
unfolding lookup insert index_names build_indices catalog_of resolve_exact find_variant find_target
    resolve_target resolve_variant resolve divergence_of compare_contract compare_legacy_resolution
catalog_runs = (refl, refl, refl)

catalog_of-resolve_exact_example :
    All
      (λ (entry : CatalogEntry).
        All (λ alias. resolve_exact same by_name alias ≡ some entry.contract) (names_of entry))
      two_boards
catalog_of-resolve_exact_example = catalog_of-resolve_exact same two_boards by_name catalog_runs.0

resolve_chosen_example :
    (contract : BoardContract) × (resolve_exact same by_name "btt-skr.cfg" ≡ some contract)
    × ResolvedVariant same same contract none
        (some "uart")
        (resolve same same by_name "btt-skr.cfg" none (some "uart"))
resolve_chosen_example =
    resolve_chosen same same by_name "btt-skr.cfg" none (some "uart") catalog_runs.1

compare_agrees_example :
    (contract : BoardContract) × (resolve_exact same by_name "skr" ≡ some contract)
    × OneMatch same same contract "stm32f103xe"
        (compare_legacy_resolution same same (ok by_name) "skr" "stm32f103xe").matching_variant_ids
compare_agrees_example = compare_agrees same same by_name "skr" "stm32f103xe" catalog_runs.2

abbrev pub proven : DeploymentProof
proven = record {
  schema = "kace-board-deployment-proof/v1";
  deployment_id = "dep";
  plan_digest = "p";
  board_id = "skr";
  hardware_variant_id = "f103";
  build_target_id = "usb";
  board_contract_digest = "d1";
  klipper_commit = "c1";
  build_proof_digest = "b";
  artifact_native_hash = "a";
  artifact_staged_hash = "a";
  artifact_filename = "firmware.bin";
  artifact_size = 4;
  selected_media = none;
  filesystem = "";
  destination = "";
  media_readback_hash = "a";
  media_readback_size = 4;
  safe_eject = none;
  executed_steps = [];
  started_at = "t";
  finished_at = "t";
  manual_confirmation = true;
  manual_confirmation_at = "t";
  power_observations = [];
  reenumeration_result = "";
  observed_mcu_identity = none;
  klipper_connection_result = "";
  expected_fingerprint = "f";
  observed_fingerprint = "f";
  final_state = verified;
  errors = [];
}

abbrev digest_of : DeploymentProof → String
digest_of proof = "0123456789abcdef"

abbrev requested : DeploymentPromotionRequest
requested = record {
  schema = "kace-board-deployment-promotion/v1";
  request_id = "promote-dep-0123456789ab";
  created_at = "2026";
  review_required = true;
  source_status = runtime_supported;
  requested_status = deployment_verified;
  deployment_proof_digest = "0123456789abcdef";
  deployment_id = "dep";
  plan_digest = "p";
  board_id = "skr";
  hardware_variant_id = "f103";
  build_target_id = "usb";
  board_contract_digest = "d1";
  klipper_commit = "c1";
  build_proof_digest = "b";
  artifact_staged_hash = "a";
  observed_fingerprint = "f";
}

promotion_made :
    create_deployment_promotion_request digest_of "2026" same same proven by_name ≡ ok requested
unfolding lookup by_id find_variant find_target promote_target target_in promote_contract
    create_deployment_promotion_request
promotion_made = refl

promotion_justified_example :
    (proven.final_state ≡ verified) × IsBacked digest_of "2026" same same proven by_name requested
promotion_justified_example =
    promotion_justified digest_of "2026" same same proven by_name requested promotion_made
