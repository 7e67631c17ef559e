-- ===== src/Tests/Executor.antt =====
-- The theorems on the executor, applied to the deployment of one board to a card that keeps what is
-- copied to it.
use kace.Prelude.{
  Bool, true, false, String, str_eq, Option, none, some, [], ◌∷◌, ◌≡◌, refl, if◌then◌else◌, ◌<>◌,
  lookup, insert, arith, inl, inr, ◌⊎◌, ◌↔◌,
}
use kace.Effects.{
  is_exception, Exc, Result, ok, err, Exec, pure, raise, gets, lift, modify, attempt, finally,
  require, need, ◌>>=◌,
}
use kace.Effects.Triples.{Triple-pure}
use kace.Effects.Keeping.{Keeps-pure}
use kace.Boards.{sd_card, by_id, find_variant, find_target, runtime_supported}
use kace.Contract.{
  FirmwareBuildIdentity, BuildArtifact, bin_format, rename_only, DeploymentPlan, Library, sd_steps,
  number_from,
}
use kace.Contract.Validation.{
  choose, steps_for, typed_steps, named_file, final_filename, require_contract_identity,
  validate_transformation, validate_deployment_plan,
}
use kace.Contract.Validated.{IsTarget, IsExact, validated_bound}
use kace.Executor.Session.{
  ContractDeploymentState, prepared, waiting_for_manual_power_cycle, verified, failed, eject_done,
  McuIdentityEvidence, MediaCandidate, PowerObservation, ContractDeploymentSession, DeploymentProof,
  new_session, proof,
}
use kace.Executor.Steps.{
  Event, Ports, Executor, Stage, outside, change, set_sequences, attach, raise_proved, clock_text,
  emit_state, record_state, transition, close_quietly, fail_session,
}
use kace.Executor.Checks.{
  validate_against, validate_plan, sha256_file, verify_file, verify_artifacts, only, select_media,
  verify_media,
}
use kace.Executor.Media.{
  present, refresh_same, choose_medium, check_escape, check_again, copy_firmware, read_back,
  eject_medium, fill_media, media_failed, start_session, prepare_media,
}
use kace.Executor.Gate.{
  need_identity, record_power_observation, verify_fingerprint, follow_mcu, follow_failed,
  is_at_gate, close_at_end, confirm_manual_power_cycle,
}
use kace.Boards.Promotion.{is_verified}
use kace.Boards.Promotion.Evidence.{is_verified-verified}
use kace.Effects.Keeping.{Keeps-gets, Keeps-modify}
use kace.Executor.History.{HasHistory, start}
use kace.Executor.Calls.{none_yet, and_then, preparing, history_recorded}
use kace.Executor.Selected.{IsSole, select_media_iff}
use kace.Executor.Quiet.{IsQuiet}
use kace.Executor.Guarded.{prepare_media_guarded}
use kace.Executor.Verified.{IsEvident, verified-IsEvident}
use kace.Executor.Ended.{SameProgress, confirm_failure_final, observation_advances_nothing}
use kace.Tests.World.{raised_of}
use kace.Tests.Boards.{same, skr, by_name, sd_target}

-- The digest of the file on the card.
abbrev pub Card : Type 0
Card = Option String

abbrev pub files : Library Card
files = record {
  digest = λ payload. "d";
  fold = same;
  lower_text = same;
  casefold = same;
  fill = λ template id. template;
  file_name = λ path. if str_eq path "/out/klipper.bin" then "klipper.bin" else "firmware.bin";
  child = λ directory name. directory <> "/" <> name;
  resolve = λ card path. path;
}

abbrev card : MediaCandidate
card = record {
  stable_id = "uuid:1";
  device_path = "/dev/sdb1";
  parent_device = "/dev/sdb";
  mount_path = "/media/sd";
  filesystem = "vfat";
  size_bytes = 100;
  free_bytes = 50;
  removable = true;
  system_disk = false;
  read_only = false;
  label = "";
  model = "";
  serial = "";
}

abbrev is_copy : String → Bool
is_copy path = str_eq path "/media/sd/firmware.bin"

abbrev digest_on : Card → String
digest_on none = ""
digest_on (some digest) = digest

abbrev file_hash : Bool → Card → String
file_hash true at = digest_on at
file_hash false at = "a"

-- `seen` is the fingerprint that Klipper tells; `sink` is the event sink.
abbrev ports : String → (Event → Exec Card (Unit {0})) → Ports Card
ports seen sink = record {
  list_candidates = pure (card ∷ []);
  refresh = λ medium. pure (some card);
  eject = λ medium. pure (record {
    status = eject_done;
    device_path = "/dev/sdb1";
    detail = "unmounted";
    timestamp = "t";
  });
  has_monitor = true;
  arm = pure tt;
  wait_for_present = pure (record {
    configured_path = "/dev/ttyACM0";
    device_node = "/dev/ttyACM0";
    devpath = "";
    serial = "";
    physical_path = "";
    vendor_id = "1d50";
    model_id = "614e";
    physical_port = "1-1";
    by_path = [];
    vid_pid = "1d50:614e";
  });
  close = pure tt;
  has_verifier = true;
  wait_for_firmware = λ name expected. pure (record {
    klipper_connected = true;
    observed_fingerprint = seen;
    observed_versions = [];
    detail = "ready";
  });
  copy = λ from to id. modify (λ at. some "a");
  event_sink = sink;
  clock = λ at. ("t", at);
  is_file = λ at path. true;
  is_dir = λ at path. true;
  file_size = λ path. pure 4;
  file_digest = λ path. gets (file_hash (is_copy path));
  parent = λ path. "/media/sd";
}

abbrev executor_with : String → (Event → Exec Card (Unit {0})) → Executor Card
executor_with seen sink = record {
  ports = ports seen sink;
  library = files;
  normalize = same;
  catalog = by_name;
  mcu_name = "mcu";
}

abbrev quiet_sink : Event → Exec Card (Unit {0})
quiet_sink e = pure tt

abbrev executor : Executor Card
executor = executor_with "v1" quiet_sink

abbrev pub identity : FirmwareBuildIdentity
identity = record {
  reported_version = "v1";
  klipper_commit = "c1";
  artifact_sha256 = "a";
  artifact_size = 4;
}

abbrev pub built : BuildArtifact
built = record {
  build_id = "0123456789abcdef";
  path = "/out/klipper.bin";
  native_filename = "klipper.bin";
  format = bin_format;
  sha256 = "a";
  size_bytes = 4;
  firmware_identity = some identity;
  board_id = "skr";
  hardware_variant_id = "f103";
  build_target_id = "usb";
  board_contract_digest = "d1";
  klipper_commit = "c1";
  build_proof_digest = "0123456789abcdef0123456789abcdef0123456789abcdef0123456789abcdef";
}

abbrev pub plan : DeploymentPlan
plan = record {
  schema = "kace-board-deployment-plan/v1";
  deployment_id = "board-contract-d";
  board_id = "skr";
  hardware_variant_id = "f103";
  build_target_id = "usb";
  board_contract_digest = "d1";
  klipper_commit = "c1";
  build_proof_digest = "0123456789abcdef0123456789abcdef0123456789abcdef0123456789abcdef";
  strategy = sd_card;
  artifact = built;
  transformation = record {
    kind = rename_only;
    native_path = "/out/klipper.bin";
    native_filename = "klipper.bin";
    native_sha256 = "a";
    final_path = "/ready/firmware.bin";
    final_filename = "firmware.bin";
    final_sha256 = "a";
    size_bytes = 4;
    content_changed = false;
  };
  steps = number_from 1 sd_steps;
  warnings = [];
  plan_digest = "d";
}

abbrev pub blank : Stage Card
blank = record {
  session = new_session plan "" (record { state = prepared; timestamp = "t"; detail = "" } ∷ []);
  sequences = [];
  attached = none;
  world = none;
}

accepted-run :
    validate_deployment_plan files skr plan none ≡ (ok (sd_target "usb" runtime_supported), none)
unfolding choose steps_for typed_steps named_file final_filename require_contract_identity
    validate_transformation validate_deployment_plan find_variant find_target pure raise gets
    require need ◌>>=◌
accepted-run = refl

validated_bound_example :
    IsTarget files skr plan (sd_target "usb" runtime_supported) × IsExact files plan
validated_bound_example =
    validated_bound files skr plan (sd_target "usb" runtime_supported) none none accepted-run

abbrev matches : String → String → Bool
matches actual expected = str_eq actual expected

abbrev pub value_of : {A : Type 0} → A → Result A → A
value_of other (ok a) = a
value_of other (err e) = other

-- Whether a run returned a value with the property, or raised an exception with it.
abbrev pub returns : {A S : Type 0} → (A → Bool) → Result A × S → Bool
returns p (ok a, s) = p a
returns p (err e, s) = false

abbrev raises : {A S : Type 0} → (Exc → Bool) → Result A × S → Bool
raises p (ok a, s) = false
raises p (err e, s) = p e

pub returns-ok :
    {A S : Type 0} (other : A) (p : A → Bool) (o : Result A × S)
    → returns p o ≡ true
    → o ≡ (ok (value_of other o.0), o.1)
returns-ok other p (ok a, s) h = refl
returns-ok other p (err e, s) h = absurd (cc h)

pub returns-holds :
    {A S : Type 0} (other : A) (p : A → Bool) (o : Result A × S)
    → returns p o ≡ true
    → p (value_of other o.0) ≡ true
returns-holds other p (ok a, s) h = h
returns-holds other p (err e, s) h = absurd (cc h)

raises-err :
    {A S : Type 0} (p : Exc → Bool) (o : Result A × S)
    → raises p o ≡ true
    → o ≡ (err (raised_of o.0), o.1)
raises-err p (ok a, s) h = absurd (cc h)
raises-err p (err e, s) h = refl

raises-holds :
    {A S : Type 0} (p : Exc → Bool) (o : Result A × S)
    → raises p o ≡ true
    → p (raised_of o.0) ≡ true
raises-holds p (ok a, s) h = absurd (cc h)
raises-holds p (err e, s) h = h

-- The session that `prepare_media` gives, and the stage with it at the gate.
abbrev ready_session : ContractDeploymentSession
ready_session = value_of blank.session (prepare_media executor plan "" blank).0

abbrev gate : Stage Card
gate = record blank { session = ready_session }

abbrev confirming_run : Executor Card → Result DeploymentProof × Stage Card
confirming_run e = confirm_manual_power_cycle e matches true false gate

-- A deployment that succeeds, one with a wrong fingerprint, and the first half of both.
executor_runs :
    (returns
        (λ (x : ContractDeploymentSession). is_at_gate x.state)
        (prepare_media executor plan "" blank)
      ≡ true)
    × (returns (λ (p : DeploymentProof). is_verified p.final_state) (confirming_run executor)
        ≡ true)
    × (raises is_exception (confirming_run (executor_with "v2" quiet_sink)) ≡ true)
unfolding lookup insert find_variant find_target by_id choose steps_for typed_steps named_file
    final_filename require_contract_identity validate_transformation validate_deployment_plan
    validate_against validate_plan sha256_file verify_file verify_artifacts only select_media
    verify_media outside change set_sequences attach raise_proved clock_text emit_state record_state
    transition close_quietly fail_session present refresh_same choose_medium check_escape
    check_again copy_firmware read_back eject_medium fill_media media_failed start_session
    prepare_media need_identity verify_fingerprint follow_mcu follow_failed close_at_end
    confirm_manual_power_cycle pure raise gets lift modify attempt finally require need ◌>>=◌
executor_runs = (refl, refl, refl)

is_at_gate-gate :
    (b : ContractDeploymentState) → is_at_gate b ≡ true → b ≡ waiting_for_manual_power_cycle
is_at_gate-gate b h = ground arith

prepared-run :
    prepare_media executor plan "" blank
    ≡ (ok ready_session, (prepare_media executor plan "" blank).1)
prepared-run = returns-ok _ _ _ executor_runs.0

select_media_iff_example :
    (select_media executor (card ∷ []) "uuid:1" none ≡ (ok card, none))
    ↔ IsSole (card ∷ []) "uuid:1" card
select_media_iff_example = select_media_iff executor (card ∷ []) "uuid:1" card none

history_recorded_example : HasHistory (prepare_media executor plan "" blank).1.session
history_recorded_example =
    history_recorded executor matches (and_then none_yet (preparing plan "" _ prepared-run))
      (start "t" "")

-- The card is empty, or holds the firmware.
abbrev IsClean : Card → Type 0
IsClean at = (at ≡ none) ⊎ (at ≡ some "a")

quiet : IsQuiet executor IsClean
quiet = record {
  listed = Keeps-pure _;
  refreshed = λ m. Keeps-pure _;
  unmounted = λ m. Keeps-pure _;
  armed = Keeps-pure _;
  closed = Keeps-pure _;
  sunk = λ e. Keeps-pure _;
  ticked = λ w p. p;
  sized = λ path. Keeps-pure _;
  digested = λ path. Keeps-gets _;
}

prepare_media_guarded_example : IsClean (prepare_media executor plan "" blank).1.world
prepare_media_guarded_example =
    prepare_media_guarded executor IsClean quiet plan (λ x. card ≡ x)
      (λ m. record { triple = Triple-pure _ (λ at p x e. cc e) })
      (λ target medium ran told good. Keeps-modify _ (λ at p. inr refl)) "" blank _ _ prepared-run
      (inl refl)

-- The board's own ids.
abbrev IsBoard : McuIdentityEvidence → Type 0
IsBoard evidence = evidence.vid_pid ≡ "1d50:614e"

verified-IsEvident_example :
    IsEvident executor matches plan IsBoard
      (value_of (proof blank.session) (confirming_run executor).0)
verified-IsEvident_example =
    verified-IsEvident executor matches plan IsBoard
      (record { triple = Triple-pure _ (λ at p. refl) }) "" true false blank _ gate _ ready_session
      _ prepared-run refl (returns-ok _ _ _ executor_runs.1)
      (is_verified-verified _ (
        returns-holds (proof blank.session) (λ (p : DeploymentProof). is_verified p.final_state)
          (confirming_run executor) executor_runs.1))

abbrev mismatched : Executor Card
mismatched = executor_with "v2" quiet_sink

confirm_failure_final_example :
    ((confirming_run mismatched).1.session.state ≡ verified)
    ⊎ ((confirming_run mismatched).1.session.state ≡ failed)
confirm_failure_final_example =
    confirm_failure_final mismatched matches true false gate _
      (raised_of (confirming_run mismatched).0)
      (is_at_gate-gate _ (
        returns-holds blank.session (λ (x : ContractDeploymentSession). is_at_gate x.state)
          (prepare_media executor plan "" blank) executor_runs.0))
      (raises-err is_exception _ executor_runs.2) (raises-holds is_exception _ executor_runs.2)

abbrev relay_on : PowerObservation
relay_on = record {
  state = "ON";
  timestamp = "t";
  detail = "";
  requested_action = "";
  confirmed = true;
}

observation_advances_nothing_example :
    SameProgress gate.session (record_power_observation executor matches relay_on gate).1.session
observation_advances_nothing_example =
    observation_advances_nothing executor matches relay_on gate _ _ refl
