-- ===== src/Deployment.antt =====
-- firmware/deployment/models.py and the execution of firmware/deployment/service.py: which
-- artifacts may be deployed at all, and the order of check, event, flash and manifest.
pub mod Guarded
use kace.Prelude.{
  ℕ, ◌+◌, Bool, true, false, not, ◌&&◌, ◌||◌, String, str_eq, codes, leb, ◌==◌, all, length, Option,
  none, some, List, [], ◌∷◌, ◌++◌, if◌then◌else◌, ◌<>◌, join,
}
use kace.Effects.{
  Exc, artifact_error, identity_error, os_error, value_error, type_error, message, Result, ok, err,
  Exec, pure, raise, lift, attempt, ◌>>=◌, ◌>>◌,
}

pub data BuildProvenance : Type 0 where
  real mock : BuildProvenance

-- `firmware_identity` is the identity's `artifact_sha256`.
pub record BuildArtifact : Type 0 where
  pub path : String
  pub provenance : BuildProvenance
  pub flashable : Bool
  pub sha256 : String
  pub firmware_identity : Option String

abbrev pub is_real : BuildProvenance → Bool
is_real real = true
is_real mock = false

abbrev is_hex : ℕ → Bool
is_hex c = (leb b'0' c && leb c b'9') || (leb b'a' c && leb c b'f') || (leb b'A' c && leb c b'F')

abbrev pub is_digest : String → Bool
is_digest digest = length (codes digest) == 64 && all is_hex (codes digest)

abbrev pub block : Bool → String → List String
block b reason = if b then [] else reason ∷ []

abbrev pub identity_blockers : Option String → String → List String
identity_blockers none digest = "firmware build identity is unavailable" ∷ []
identity_blockers (some d) digest =
    block (str_eq d digest) "firmware build identity does not match the artifact"

unfoldable pub deployment_artifact_blockers : BuildArtifact → List String
deployment_artifact_blockers artifact =
    block (is_real artifact.provenance) "mock firmware artifacts cannot be deployed"
    ++ (block artifact.flashable "build artifact is not marked flashable"
        ++ (block (is_digest artifact.sha256) "build artifact has no valid SHA-256"
            ++ identity_blockers artifact.firmware_identity artifact.sha256))

abbrev pub refuse_blockers : List String → Result (Unit {0})
refuse_blockers [] = ok tt
refuse_blockers (b ∷ bs) = err (artifact_error (join "; " (b ∷ bs)))

unfoldable pub require_deployable_artifact : BuildArtifact → Result (Unit {0})
require_deployable_artifact artifact = refuse_blockers (deployment_artifact_blockers artifact)

-- `is_prepare_only`: the method is MANUAL and the profile's strategy PREPARE_ONLY.
pub record DeploymentPlan : Type 0 where
  pub deployment_id : String
  pub artifact : BuildArtifact
  pub board : String
  pub final_filename : String
  pub is_prepare_only : Bool
  pub automation_eligible : Bool

-- The keys of a transformation's evidence that the check compares.
pub record Transformation : Type 0 where
  pub native_path : String
  pub native_sha256 : String
  pub final_path : String
  pub final_filename : String
  pub final_sha256 : String

pub record PreparedDeployment : Type 0 where
  pub plan : DeploymentPlan
  pub staged_path : String
  pub sha256 : String
  pub transformation : Option Transformation

pub data DeploymentStatus : Type 0 where
  media_prepared action_required flashed cancelled failed : DeploymentStatus

pub record DeploymentResult : Type 0 where
  pub status : DeploymentStatus
  pub detail : String
  pub executed_automatically : Bool
  pub error_code : String

-- The files' digests, the checks of firmware/startup_gpio.py and firmware/robin.py, the deployment
-- method, the event sink and the manifest. `resolve` is `Path.resolve`,
-- and an event has its deployment, its state and its detail.
pub record Service (W : Type 0) : Type 0 where
  pub file_digest : String → Exec W String
  pub resolve : String → String
  pub translate : String → String
  pub verify_startup_artifact : String → String → BuildArtifact → Exec W (Unit {0})
  pub verify_robin : Transformation → PreparedDeployment → Exec W String
  pub execute_method : PreparedDeployment → Exec W DeploymentResult
  pub emit : String → String → String → Exec W (Unit {0})
  pub write_manifest : PreparedDeployment → String → Option DeploymentResult → Exec W (Unit {0})

abbrev pub terminal_state : DeploymentStatus → String
terminal_state media_prepared = "MEDIA_PREPARED"
terminal_state action_required = "ACTION_REQUIRED"
terminal_state flashed = "FLASHED"
terminal_state cancelled = "CANCELLED"
terminal_state failed = "FAILED_FLASH"

-- `except (FirmwareIdentityError, TypeError, ValueError)`.
abbrev pub is_identity_failure : Exc → Bool
is_identity_failure (identity_error m) = true
is_identity_failure (artifact_error m) = true
is_identity_failure (value_error m) = true
is_identity_failure (type_error m) = true
is_identity_failure _ = false

abbrev pub is_identity_error : Exc → Bool
is_identity_error (identity_error m) = true
is_identity_error _ = false

-- `except (DeploymentArtifactError, OSError)`.
abbrev pub is_unsafe : Exc → Bool
is_unsafe (artifact_error m) = true
is_unsafe (os_error m) = true
is_unsafe _ = false

module _ {W : Type 0} (service : Service W) where
  abbrev pub relates : Transformation → PreparedDeployment → Bool
  relates proof prepared =
      prepared.plan.is_prepare_only
      && str_eq (service.resolve proof.native_path) (service.resolve prepared.plan.artifact.path)
      && str_eq proof.native_sha256 prepared.plan.artifact.sha256
      && str_eq proof.final_path prepared.staged_path
      && str_eq proof.final_filename prepared.plan.final_filename
      && str_eq proof.final_sha256 prepared.sha256

  unfoldable pub verify_transformation : PreparedDeployment → Option Transformation → Exec W String
  verify_transformation prepared (some proof) =
      attempt is_identity_failure
        (if relates proof prepared
          then service.verify_robin proof prepared
          else raise (identity_error "Prepared Robin image differs from its plan or build"))
        (λ e. raise (artifact_error (message e))) (λ path. pure path)
  verify_transformation prepared none = service.file_digest prepared.staged_path >>= λ digest.
      if str_eq digest prepared.sha256 && str_eq digest prepared.plan.artifact.sha256
      then pure prepared.staged_path
      else raise
          (artifact_error "prepared firmware checksum no longer matches the immutable artifact")

  unfoldable pub verify_prepared_artifact : PreparedDeployment → Exec W String
  verify_prepared_artifact prepared =
      lift (require_deployable_artifact prepared.plan.artifact)
      >> verify_transformation prepared prepared.transformation

  -- `_require_startup`.
  unfoldable pub require_startup : BuildArtifact → String → String → Exec W (Unit {0})
  require_startup artifact board path =
      attempt is_identity_error (service.verify_startup_artifact board path artifact)
        (λ e. raise (artifact_error (message e))) (λ _. pure tt)

  unfoldable pub check_prepared : PreparedDeployment → Exec W (Unit {0})
  check_prepared prepared = verify_prepared_artifact prepared >>= λ path.
      require_startup prepared.plan.artifact prepared.plan.board path

  unfoldable pub finish : PreparedDeployment → DeploymentResult → String → Exec W DeploymentResult
  finish prepared result state =
      service.emit prepared.plan.deployment_id state result.detail
      >> (service.write_manifest prepared state (some result) >> pure result)

  abbrev pub unsafe : Exc → DeploymentResult
  unsafe e = record {
    status = failed;
    detail = "firmware deployment rejected unsafe artifact: " <> message e;
    executed_automatically = false;
    error_code = "ARTIFACT_UNSAFE";
  }

  abbrev starting : PreparedDeployment → String
  starting prepared =
      if prepared.plan.automation_eligible then "FLASHING" else "AWAITING_USER_ACTION"

  unfoldable pub run_method : PreparedDeployment → Exec W DeploymentResult
  run_method prepared =
      service.emit prepared.plan.deployment_id (starting prepared)
        (service.translate "deployment.event.executing")
      >> (service.execute_method prepared >>= λ result.
          finish prepared result (terminal_state result.status))

  unfoldable pub execute : PreparedDeployment → Exec W DeploymentResult
  execute prepared =
      attempt is_unsafe (check_prepared prepared) (λ e. finish prepared (unsafe e) "FAILED_FLASH")
        (λ _. run_method prepared)
