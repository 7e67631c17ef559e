-- ===== src/Tests/World.antt =====
-- A printer in memory: its files, its clock and the number of its restarts.
use kace.Prelude.{
  ℕ, ◌+◌, Bool, true, false, String, Bytes, none, some, List, [], ◌∷◌, insert, ◌≡◌, refl,
  if◌then◌else◌, str_eq,
}
use kace.Effects.{
  Exc, runtime_error, conflict_error, os_error, keyboard_interrupt, Result, ok, err, Exec, pure,
  raise, gets, modify, ◌>>=◌,
}
use kace.ManagedConfig.{
  Content, Files, content_eq, PlannedConfigArtifact, ManagedConfigPlan, planned_files,
  hardware_remote, root_remote,
}
use kace.Snapshot.{DeploymentSnapshot, SnapshotStore}
use kace.Transaction.Interface.{
  firmware, inactive, Transport, Planner, Environment, Tx, ConfigTransactionResult,
  precondition_failed,
}
use kace.Transaction.Recovery.{get_content}

pub record World : Type 0 where
  pub disk : Files
  pub clock : ℕ
  pub restarts : ℕ

abbrev pub content_at : World → String → Content
content_at w name = get_content name w.disk

abbrev pub read_at : World → List String → Files
read_at w [] = []
read_at w (name ∷ names) = (name, content_at w name) ∷ read_at w names

-- A conditional write.
abbrev pub put : String → Bytes → Content → Exec World (Unit {0})
put name content previous = gets (λ (w : World). w) >>= λ w.
    if content_eq (content_at w name) previous
    then modify (λ w. record w { disk = insert name (some content) w.disk })
    else raise (conflict_error name)

abbrev pub memory : Transport World
memory = record {
  destination_key = ok ("memory" ∷ []);
  validate_activation_target = pure tt;
  read_files = λ names. gets (λ w. read_at w names);
  supports_conditional_write = λ c. true;
  upload_if_unchanged = put;
  restart = λ activation. modify (λ w. record w { restarts = w.restarts + 1 });
  restart_moonraker = modify (λ w. record w { restarts = w.restarts + 1 });
  moonraker_online = pure true;
  klipper_state = pure "ready";
  verify_active_configuration = none;
  enter = pure tt;
  leave = pure tt;
  monotonic = λ w. w.clock;
  sleep = λ d w. record w { clock = w.clock + d };
}

-- Two files: the generated one, and a root file that has an include line more.
abbrev pub two_files : Bytes → Files → ManagedConfigPlan
two_files hardware remote = record {
  artifacts =
      record {
        remote_name = root_remote;
        content = 91 ∷ 93 ∷ [];
        previous = get_content root_remote remote;
      }
      ∷ record {
        remote_name = hardware_remote;
        content = hardware;
        previous = get_content hardware_remote remote;
      }
      ∷ [];
  legacy_migration = false;
  warnings = [];
  source_files = remote;
}

abbrev pub plain : Planner World
plain = record {
  validate_generated_display_artifacts = λ hardware macros files. ok tt;
  validate_board_electrical_artifact = λ hardware. ok tt;
  config_includes = λ content source. ([], ok tt);
  build_managed_config_plan = λ hardware macros remote. ok (two_files hardware remote);
  dry_run_diff = λ plan. "two files change";
  build_configuration_review = λ plan. pure (record {
    validation = record { errors = []; warnings = [] };
    changed_files = root_remote ∷ hardware_remote ∷ [];
    diff = "two files change";
  });
  validate_configuration_plan = λ plan. pure (record { errors = []; warnings = [] });
}

abbrev pub shelf : SnapshotStore World
shelf = record {
  now = λ w. "2026";
  fresh_id = λ w. "fresh";
  path = λ id. id;
  publish = λ id files missing. pure tt;
}

-- The operator's answer, and the restart that the operator selects.
abbrev pub demo : Bool → String → Environment World
demo answer mode = record {
  transport = memory;
  planner = plain;
  store = shelf;
  acquire = pure tt;
  release = pure tt;
  settings = record {
    generated_hardware = 1 ∷ 2 ∷ [];
    generated_macros = none;
    transaction_id = "t1";
    board = "demo board";
    kace_version = "1";
    review = none;
    confirm = λ diff. pure answer;
    output = λ line. pure tt;
    activation_selector = some (pure mode);
    state_sink = none;
    verify_existing_ready = false;
    verify_firmware = none;
    checks_reservations = true;
    timeout = 5;
    poll_interval = 1;
  };
}

abbrev pub blank : World
blank = record { disk = ("printer.cfg", some (91 ∷ [])) ∷ []; clock = 0; restarts = 0 }

abbrev pub start : Tx World
start = record {
  world = blank;
  activation = firmware;
  snapshot = none;
  plan = none;
  expected_config_state = [];
  written_names = [];
}

abbrev nothing : ConfigTransactionResult
nothing = record {
  state = precondition_failed;
  detail = "";
  snapshot = none;
  rollback_succeeded = none;
}

-- The result of a run that returned one.
abbrev pub result_of : Result ConfigTransactionResult → ConfigTransactionResult
result_of (ok r) = r
result_of (err e) = nothing

-- Whether a run returned a result with the property.
abbrev pub returned_with :
    (ConfigTransactionResult → Bool) → Result ConfigTransactionResult × Tx World → Bool
returned_with p (ok r, t) = p r
returned_with p (err e, t) = false

pub returned_with-ok :
    (p : ConfigTransactionResult → Bool) (o : Result ConfigTransactionResult × Tx World)
    → returned_with p o ≡ true
    → o ≡ (ok (result_of o.0), o.1)
returned_with-ok p (ok r, t) h = refl
returned_with-ok p (err e, t) h = absurd (cc h)

pub returned_with-holds :
    (p : ConfigTransactionResult → Bool) (o : Result ConfigTransactionResult × Tx World)
    → returned_with p o ≡ true
    → p (result_of o.0) ≡ true
returned_with-holds p (ok r, t) h = h
returned_with-holds p (err e, t) h = absurd (cc h)

-- The disk fails with the second file, and the snapshots' disk after the first snapshot.
abbrev pub failing : Environment World
failing = record (demo true "firmware") {
  transport = record memory {
    upload_if_unchanged = λ name content previous.
        if str_eq name root_remote
        then raise (os_error "connection lost")
        else put name content previous;
  };
  store = record shelf {
    publish = λ id files missing. if str_eq id "t1" then pure tt else raise (os_error "disk full");
  };
}

abbrev pub raised_with : {A : Type 0} → (Exc → Bool) → Result A × Tx World → Bool
raised_with p (ok a, t) = false
raised_with p (err e, t) = p e

-- The exception of a run that raised one.
abbrev pub raised_of : {A : Type 0} → Result A → Exc
raised_of (ok a) = keyboard_interrupt
raised_of (err e) = e

pub raised_with-err :
    {A : Type 0} (p : Exc → Bool) (o : Result A × Tx World)
    → raised_with p o ≡ true
    → o ≡ (err (raised_of o.0), o.1)
raised_with-err p (ok a, t) h = absurd (cc h)
raised_with-err p (err e, t) h = refl

pub raised_with-holds :
    {A : Type 0} (p : Exc → Bool) (o : Result A × Tx World)
    → raised_with p o ≡ true
    → p (raised_of o.0) ≡ true
raised_with-holds p (ok a, t) h = absurd (cc h)
raised_with-holds p (err e, t) h = h

abbrev pub two_planned : ManagedConfigPlan
two_planned = two_files (1 ∷ 2 ∷ []) blank.disk

abbrev pub original : DeploymentSnapshot
original = record {
  deployment_id = "t1";
  timestamp = "2026";
  board = "demo board";
  kace_version = "1";
  config_files = ("printer.cfg", 91 ∷ []) ∷ [];
  missing_files = "kace/generated-hardware.cfg" ∷ [];
  storage_path = "t1";
}

abbrev pub current_files : Files
current_files = ("kace/generated-hardware.cfg", none) ∷ ("printer.cfg", some (91 ∷ [])) ∷ []

-- The object before the first write.
abbrev pub secured : Tx World
secured = record {
  world = blank;
  activation = inactive;
  snapshot = some original;
  plan = some two_planned;
  expected_config_state = planned_files two_planned.artifacts;
  written_names = [];
}

-- The object after a write whose files are found as they were.
abbrev pub written : Tx World
written = record secured { written_names = "printer.cfg" ∷ "kace/generated-hardware.cfg" ∷ [] }

abbrev pub restored_inactive : String
restored_inactive = "rollback restored byte-identical inactive files"

abbrev pub first_artifact : PlannedConfigArtifact
first_artifact = record { remote_name = hardware_remote; content = 1 ∷ 2 ∷ []; previous = none }

abbrev pub locked_out : Environment World
locked_out = record (demo true "firmware") {
  transport = record memory { enter = raise (runtime_error "the destination lock is broken") };
}

abbrev pub ours : Content
ours = some (1 ∷ [])

abbrev pub absent : Content
absent = none
