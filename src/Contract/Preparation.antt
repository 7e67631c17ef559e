-- ===== src/Contract/Preparation.antt =====
-- `apply_artifact_policy` and `create_deployment_plan`: the artifact is copied under its final name,
-- and a plan is made of it. Nothing is flashed.
use kace.Prelude.{
  Bool, true, false, not, ◌&&◌, ◌==◌, String, str_eq, codes, ends_with, prefix, Option, List, [],
  ◌∷◌, if◌then◌else◌, ◌<>◌, text_or_empty, ℕ,
}
use kace.Effects.{
  Exc, contract_error, os_error, message, Exec, pure, raise, gets, attempt, finally, require, ◌>>=◌,
  ◌>>◌,
}
use kace.Boards.{ArtifactFormat, bin, uf2, ihex, BuildTarget, BoardContract}
use kace.Contract.{
  FirmwareFormat, bin_format, uf2_format, ihex_format, BuildArtifact, rename_only,
  ArtifactTransformation, DeploymentStep, DeploymentPlan, Library,
}
use kace.Contract.Validation.{
  demand, refuse, typed_steps, final_filename, require_contract_identity,
  compute_deployment_plan_digest,
}

-- The file operations, `Path.expanduser` among them.
pub record Disk (W : Type 0) : Type 0 where
  pub is_file : W → String → Bool
  pub exists : W → String → Bool
  pub file_size : String → Exec W ℕ
  pub file_digest : String → Exec W String
  pub expand_user : W → String → String
  pub make_directories : String → Exec W (Unit {0})
  pub make_directory : String → Exec W (Unit {0})
  pub copy_file : String → String → Exec W (Unit {0})
  pub replace : String → String → Exec W (Unit {0})
  pub unlink : String → Exec W (Unit {0})

-- `_FORMAT_MAP` and `_FORMAT_SUFFIX`.
abbrev pub format_map : ArtifactFormat → FirmwareFormat
format_map bin = bin_format
format_map uf2 = uf2_format
format_map ihex = ihex_format

abbrev pub format_suffix : ArtifactFormat → String
format_suffix bin = ".bin"
format_suffix uf2 = ".uf2"
format_suffix ihex = ".hex"

abbrev pub format_eq : FirmwareFormat → FirmwareFormat → Bool
format_eq bin_format bin_format = true
format_eq uf2_format uf2_format = true
format_eq ihex_format ihex_format = true
format_eq _ _ = false

abbrev is_os_failure : Exc → Bool
is_os_failure (os_error m) = true
is_os_failure _ = false

-- The draft, without its id and its digest.
abbrev pub draft :
    BoardContract
    → BuildArtifact
    → BuildTarget
    → ArtifactTransformation
    → List DeploymentStep
    → DeploymentPlan
draft contract artifact target transformation steps = record {
  schema = "kace-board-deployment-plan/v1";
  deployment_id = "";
  board_id = contract.board_id;
  hardware_variant_id = artifact.hardware_variant_id;
  build_target_id = artifact.build_target_id;
  board_contract_digest = contract.contract_digest;
  klipper_commit = contract.validated_commit;
  build_proof_digest = artifact.build_proof_digest;
  strategy = target.flash.strategy;
  artifact = artifact;
  transformation = transformation;
  steps = steps;
  warnings = contract.warnings;
  plan_digest = "";
}

module _ {W : Type 0} (library : Library W) where
  abbrev pub signed : DeploymentPlan → DeploymentPlan
  signed plan = record plan {
    deployment_id = "board-contract-" <> prefix 24 (compute_deployment_plan_digest library plan);
    plan_digest = compute_deployment_plan_digest library plan;
  }

module _ {W : Type 0} (library : Library W) (disk : Disk W) where
  -- `_sha256_file`.
  unfoldable pub digest_of_file : String → Exec W String
  digest_of_file path =
      attempt is_os_failure (disk.file_digest path)
        (λ e. raise (contract_error ("cannot read artifact " <> path <> ": " <> message e)))
        (λ digest. pure digest)

  abbrev pub source_checks : W → BuildTarget → BuildArtifact → List (Bool × Exc)
  source_checks w target artifact =
      demand (disk.is_file w artifact.path) ("native artifact is absent: " <> artifact.path)
      ∷ demand (str_eq (library.file_name artifact.path) artifact.native_filename)
          "artifact path and native filename disagree"
      ∷ demand (str_eq artifact.native_filename target.artifact.native_filename)
          "native filename does not match ArtifactPolicy"
      ∷ demand (format_eq artifact.format (format_map target.artifact.format))
          "artifact format does not match ArtifactPolicy"
      ∷ demand
          (ends_with (codes (library.lower_text artifact.native_filename))
            (codes (format_suffix target.artifact.format)))
          "native artifact extension is incompatible"
      ∷ []

  -- `previous and previous.casefold() == filename.casefold()`, where the policy asks for it.
  abbrev pub repeats : BuildTarget → Option String → String → Bool
  repeats target last filename =
      target.artifact.final_filename.must_differ_from_last_successful_flash
      && not (str_eq (text_or_empty last) "")
      && str_eq (library.casefold (text_or_empty last)) (library.casefold filename)

  unfoldable pub discard : String → Exec W (Unit {0})
  discard temporary = gets (λ w. disk.exists w temporary) >>= λ left.
      if left then disk.unlink temporary else pure tt

  -- The copy beside its final name, compared before it is renamed.
  unfoldable pub stage_copy : String → String → String → String → Exec W (Unit {0})
  stage_copy source temporary final_path native_hash =
      finally
        (disk.copy_file source temporary
          >> (digest_of_file temporary >>= λ staged.
              require (
                demand (str_eq staged native_hash)
                  "ArtifactPolicy transformation changed content during rename-only preparation"
                ∷ [])
              >> disk.replace temporary final_path))
        (discard temporary)

  -- The directory of the prepared file, made where it is missing.
  unfoldable pub prepare_directory : BoardContract → BuildArtifact → String → Exec W String
  prepare_directory contract artifact output_directory =
      gets (λ w. library.resolve w (disk.expand_user w output_directory)) >>= λ root.
      disk.make_directories root
      >> (let directory =
            library.child root
              (contract.board_id <> "-" <> prefix 12 artifact.build_proof_digest) in
          disk.make_directory directory >> pure directory)

  unfoldable pub transform :
      BoardContract
      → BuildTarget
      → BuildArtifact
      → String
      → String
      → String
      → Exec W ArtifactTransformation
  transform contract target artifact output_directory native_hash filename =
      prepare_directory contract artifact output_directory >>= λ directory.
      stage_copy artifact.path (library.child directory ("." <> filename <> ".part"))
        (library.child directory filename) native_hash
      >> (digest_of_file (library.child directory filename) >>= λ final_hash.
          require (
            demand (str_eq final_hash native_hash)
              "prepared artifact hash differs from native artifact"
            ∷ [])
          >> (gets (λ w. library.resolve w artifact.path) >>= λ native_path. pure (record {
            kind = rename_only;
            native_path = native_path;
            native_filename = artifact.native_filename;
            native_sha256 = native_hash;
            final_path = library.child directory filename;
            final_filename = filename;
            final_sha256 = final_hash;
            size_bytes = artifact.size_bytes;
            content_changed = false;
          })))

  unfoldable pub apply_artifact_policy :
      BoardContract
      → BuildArtifact
      → String
      → Option String
      → Exec W (BuildTarget × ArtifactTransformation)
  apply_artifact_policy contract artifact output_directory last =
      require_contract_identity library contract artifact >>= λ found. gets (λ w. w) >>= λ w.
      require (source_checks w (found.1) artifact)
      >> (digest_of_file artifact.path >>= λ native_hash.
          require (
            demand (str_eq native_hash artifact.sha256)
              "native artifact hash no longer matches BuildArtifact"
            ∷ [])
          >> (disk.file_size artifact.path >>= λ size.
              require (
                demand (size == artifact.size_bytes)
                  "native artifact size no longer matches BuildArtifact"
                ∷ [])
              >> (final_filename library (found.1) artifact >>= λ filename.
                  require (
                    refuse (repeats (found.1) last filename)
                      "final filename must differ from the last successful flash"
                    ∷ [])
                  >> (transform contract (found.1) artifact output_directory native_hash filename
                      >>= λ transformation. pure (found.1, transformation)))))

  unfoldable pub create_deployment_plan :
      BoardContract → BuildArtifact → String → Option String → Exec W DeploymentPlan
  create_deployment_plan contract artifact output_directory last =
      apply_artifact_policy contract artifact output_directory last >>= λ applied.
      typed_steps (applied.0) >>= λ steps.
      pure (signed library (draft contract artifact (applied.0) (applied.1) steps))
