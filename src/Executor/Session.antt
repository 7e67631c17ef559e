-- ===== src/Executor/Session.antt =====
-- The states of a deployment, its evidence, the session that a deployment fills, and its proof.
use kace.Prelude.{ℕ, Bool, false, String, Option, none, some, List, [], str_eq, ◌&&◌, ◌==◌}
use kace.Contract.{DeploymentPlan, FirmwareBuildIdentity, Library}

pub data ContractDeploymentState : Type 0 where
  prepared media_selected media_verified copied copy_verified ejected : ContractDeploymentState
  waiting_for_manual_power_cycle waiting_for_mcu_reenumeration : ContractDeploymentState
  mcu_reenumerated waiting_for_klipper verifying_firmware verified failed : ContractDeploymentState

pub data SafeEjectStatus : Type 0 where
  eject_done eject_unsupported eject_failed : SafeEjectStatus

pub record MediaCandidate : Type 0 where
  pub stable_id : String
  pub device_path : String
  pub parent_device : String
  pub mount_path : String
  pub filesystem : String
  pub size_bytes : ℕ
  pub free_bytes : ℕ
  pub removable : Bool
  pub system_disk : Bool
  pub read_only : Bool
  pub label : String
  pub model : String
  pub serial : String

pub record SafeEjectResult : Type 0 where
  pub status : SafeEjectStatus
  pub device_path : String
  pub detail : String
  pub timestamp : String

pub record DeploymentStepRecord : Type 0 where
  pub state : ContractDeploymentState
  pub timestamp : String
  pub detail : String

pub record PowerObservation : Type 0 where
  pub state : String
  pub timestamp : String
  pub detail : String
  pub requested_action : String
  pub confirmed : Bool

pub record FirmwareVerificationResult : Type 0 where
  pub klipper_connected : Bool
  pub observed_fingerprint : String
  pub observed_versions : List (String × String)
  pub detail : String

pub record McuIdentityEvidence : Type 0 where
  pub configured_path : String
  pub device_node : String
  pub devpath : String
  pub serial : String
  pub physical_path : String
  pub vendor_id : String
  pub model_id : String
  pub physical_port : String
  pub by_path : List String
  pub vid_pid : String

pub record DeploymentProof : Type 0 where
  pub schema : String
  pub deployment_id : String
  pub plan_digest : String
  pub board_id : String
  pub hardware_variant_id : String
  pub build_target_id : String
  pub board_contract_digest : String
  pub klipper_commit : String
  pub build_proof_digest : String
  pub artifact_native_hash : String
  pub artifact_staged_hash : String
  pub artifact_filename : String
  pub artifact_size : ℕ
  pub selected_media : Option MediaCandidate
  pub filesystem : String
  pub destination : String
  pub media_readback_hash : String
  pub media_readback_size : ℕ
  pub safe_eject : Option SafeEjectResult
  pub executed_steps : List DeploymentStepRecord
  pub started_at : String
  pub finished_at : String
  pub manual_confirmation : Bool
  pub manual_confirmation_at : String
  pub power_observations : List PowerObservation
  pub reenumeration_result : String
  pub observed_mcu_identity : Option McuIdentityEvidence
  pub klipper_connection_result : String
  pub expected_fingerprint : String
  pub observed_fingerprint : String
  pub final_state : ContractDeploymentState
  pub errors : List String

pub record ContractDeploymentSession : Type 0 where
  pub plan : DeploymentPlan
  pub state : ContractDeploymentState
  pub started_at : String
  pub steps : List DeploymentStepRecord
  pub selected_media : Option MediaCandidate
  pub media_readback_hash : String
  pub media_readback_size : ℕ
  pub safe_eject : Option SafeEjectResult
  pub manual_confirmation : Bool
  pub manual_confirmation_at : String
  pub power_observations : List PowerObservation
  pub reenumeration_result : String
  pub observed_mcu_identity : Option McuIdentityEvidence
  pub klipper_connection_result : String
  pub observed_fingerprint : String
  pub errors : List String
  pub finished_at : String

abbrev pub media_filesystem : Option MediaCandidate → String
media_filesystem none = ""
media_filesystem (some medium) = medium.filesystem

abbrev pub media_mount : Option MediaCandidate → String
media_mount none = ""
media_mount (some medium) = medium.mount_path

abbrev pub reported_version : Option FirmwareBuildIdentity → String
reported_version none = ""
reported_version (some identity) = identity.reported_version

-- `ContractDeploymentSession.proof`.
abbrev pub proof : ContractDeploymentSession → DeploymentProof
proof session = record {
  schema = "kace-board-deployment-proof/v1";
  deployment_id = session.plan.deployment_id;
  plan_digest = session.plan.plan_digest;
  board_id = session.plan.board_id;
  hardware_variant_id = session.plan.hardware_variant_id;
  build_target_id = session.plan.build_target_id;
  board_contract_digest = session.plan.board_contract_digest;
  klipper_commit = session.plan.klipper_commit;
  build_proof_digest = session.plan.build_proof_digest;
  artifact_native_hash = session.plan.artifact.sha256;
  artifact_staged_hash = session.plan.transformation.final_sha256;
  artifact_filename = session.plan.transformation.final_filename;
  artifact_size = session.plan.artifact.size_bytes;
  selected_media = session.selected_media;
  filesystem = media_filesystem session.selected_media;
  destination = media_mount session.selected_media;
  media_readback_hash = session.media_readback_hash;
  media_readback_size = session.media_readback_size;
  safe_eject = session.safe_eject;
  executed_steps = session.steps;
  started_at = session.started_at;
  finished_at = session.finished_at;
  manual_confirmation = session.manual_confirmation;
  manual_confirmation_at = session.manual_confirmation_at;
  power_observations = session.power_observations;
  reenumeration_result = session.reenumeration_result;
  observed_mcu_identity = session.observed_mcu_identity;
  klipper_connection_result = session.klipper_connection_result;
  expected_fingerprint = reported_version session.plan.artifact.firmware_identity;
  observed_fingerprint = session.observed_fingerprint;
  final_state = session.state;
  errors = session.errors;
}

-- A new session: the dataclass's defaults.
abbrev pub new_session :
    DeploymentPlan → String → List DeploymentStepRecord → ContractDeploymentSession
new_session plan started_at steps = record {
  plan = plan;
  state = prepared;
  started_at = started_at;
  steps = steps;
  selected_media = none;
  media_readback_hash = "";
  media_readback_size = 0;
  safe_eject = none;
  manual_confirmation = false;
  manual_confirmation_at = "";
  power_observations = [];
  reenumeration_result = "";
  observed_mcu_identity = none;
  klipper_connection_result = "";
  observed_fingerprint = "";
  errors = [];
  finished_at = "";
}

abbrev pub state_name : ContractDeploymentState → String
state_name prepared = "PREPARED"
state_name media_selected = "MEDIA_SELECTED"
state_name media_verified = "MEDIA_VERIFIED"
state_name copied = "COPIED"
state_name copy_verified = "COPY_VERIFIED"
state_name ejected = "EJECTED"
state_name waiting_for_manual_power_cycle = "WAITING_FOR_MANUAL_POWER_CYCLE"
state_name waiting_for_mcu_reenumeration = "WAITING_FOR_MCU_REENUMERATION"
state_name mcu_reenumerated = "MCU_REENUMERATED"
state_name waiting_for_klipper = "WAITING_FOR_KLIPPER"
state_name verifying_firmware = "VERIFYING_FIRMWARE"
state_name verified = "VERIFIED"
state_name failed = "FAILED"

-- `a.same_physical_medium(b)`, in the world of a library.
abbrev pub same_physical_medium :
    {W : Type 0} → Library W → W → MediaCandidate → MediaCandidate → Bool
same_physical_medium library w a b =
    str_eq a.stable_id b.stable_id
    && str_eq a.device_path b.device_path
    && str_eq a.parent_device b.parent_device
    && str_eq (library.resolve w a.mount_path) (library.resolve w b.mount_path)
    && str_eq (library.casefold a.filesystem) (library.casefold b.filesystem)
    && a.size_bytes == b.size_bytes
    && str_eq a.serial b.serial
