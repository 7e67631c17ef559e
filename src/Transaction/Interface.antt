-- ===== src/Transaction/Interface.antt =====
-- The transaction's collaborators, its results, and the object's mutable state.
-- `W` is the world: the printer's files, Klipper, Moonraker, the clock and the operator.
use kace.Prelude.{ℕ, Bool, true, false, String, Bytes, Option, none, some, List, []}
use kace.Effects.{Result, Exec, pure, attempt, is_exception}
use kace.ManagedConfig.{Content, Files, ManagedConfigPlan}
use kace.Snapshot.{DeploymentSnapshot, SnapshotStore}

-- "firmware", "service" and "none".
pub data Activation : Type 0 where
  firmware service inactive : Activation

-- What a transport offers. Reads raise on failure; `none` is a confirmed absence.
-- `enter` and `leave` are its destination lock.
pub record Transport (W : Type 0) : Type 0 where
  pub destination_key : Result (List String)
  pub validate_activation_target : Exec W (Unit {0})
  pub read_files : List String → Exec W Files
  pub supports_conditional_write : Content → Bool
  pub upload_if_unchanged : String → Bytes → Content → Exec W (Unit {0})
  pub restart : Activation → Exec W (Unit {0})
  pub restart_moonraker : Exec W (Unit {0})
  pub moonraker_online : Exec W Bool
  pub klipper_state : Exec W String
  pub verify_active_configuration : Option (ManagedConfigPlan → Exec W (Unit {0}))
  pub enter : Exec W (Unit {0})
  pub leave : Exec W (Unit {0})
  pub monotonic : W → ℕ
  pub sleep : ℕ → W → W

pub record SemanticValidation : Type 0 where
  pub errors : List String
  pub warnings : List String

-- `SemanticValidation.valid`.
abbrev pub valid : SemanticValidation → Bool
valid v = elim v.errors [ [] ↦ true | _ ↦ false ]

pub record ConfigurationReview : Type 0 where
  pub validation : SemanticValidation
  pub changed_files : List String
  pub diff : String

-- The modules that the transaction calls: core/display_configuration.py, core/board_auxiliary.py,
-- core/managed_config.py and core/configuration_review.py. They read no live file.
-- `config_includes` is a generator: the names that it yields, and how it ends.
pub record Planner (W : Type 0) : Type 0 where
  pub validate_generated_display_artifacts : Bytes → Option Bytes → Option Files → Result (Unit {0})
  pub validate_board_electrical_artifact : Bytes → Result (Unit {0})
  pub config_includes : Bytes → String → List String × Result (Unit {0})
  pub build_managed_config_plan : Bytes → Option Bytes → Files → Result ManagedConfigPlan
  pub dry_run_diff : ManagedConfigPlan → String
  pub build_configuration_review : ManagedConfigPlan → Exec W ConfigurationReview
  pub validate_configuration_plan : ManagedConfigPlan → Exec W SemanticValidation

-- The constructor's arguments. `checks_reservations` says that a firmware reservation reader or a
-- selected board was given. Times are in milliseconds.
pub record Settings (W : Type 0) : Type 0 where
  pub generated_hardware : Bytes
  pub generated_macros : Option Bytes
  pub transaction_id : String
  pub board : String
  pub kace_version : String
  pub review : Option (ConfigurationReview → Exec W Bool)
  pub confirm : String → Exec W Bool
  pub output : String → Exec W (Unit {0})
  pub activation_selector : Option (Exec W String)
  pub state_sink : Option (String → String → Exec W (Unit {0}))
  pub verify_existing_ready : Bool
  pub verify_firmware : Option (Exec W (Unit {0}))
  pub checks_reservations : Bool
  pub timeout : ℕ
  pub poll_interval : ℕ

-- `acquire` and `release` are the process's lock of the destination, `with lock`.
pub record Environment (W : Type 0) : Type 0 where
  pub transport : Transport W
  pub planner : Planner W
  pub store : SnapshotStore W
  pub settings : Settings W
  pub acquire : Exec W (Unit {0})
  pub release : Exec W (Unit {0})

-- The fields that the methods assign, beside the world.
pub record Tx (W : Type 0) : Type 0 where
  pub world : W
  pub activation : Activation
  pub snapshot : Option DeploymentSnapshot
  pub plan : Option ManagedConfigPlan
  pub expected_config_state : Files
  pub written_names : List String

pub data ConfigTransactionState : Type 0 where
  precondition_failed cancelled snapshot_failed upload_failed : ConfigTransactionState
  verify_failed activation_failed firmware_failed rollback_failed : ConfigTransactionState
  deployed_pending_activation committed : ConfigTransactionState

pub record ConfigTransactionResult : Type 0 where
  pub state : ConfigTransactionState
  pub detail : String
  pub snapshot : Option DeploymentSnapshot
  pub rollback_succeeded : Option Bool

abbrev pub is_committed : ConfigTransactionState → Bool
is_committed committed = true
is_committed _ = false

-- `ConfigTransactionResult.ok` and `.pending`.
abbrev pub is_ok : ConfigTransactionResult → Bool
is_ok r = is_committed r.state

abbrev pub is_pending : ConfigTransactionResult → Bool
is_pending r = elim r.state [ deployed_pending_activation ↦ true | _ ↦ false ]

module _ {W A : Type 0} where
  abbrev pub returned : Tx W → Result A × W → Result A × Tx W
  returned t (r, w) = (r, record t { world = w })

  -- A call that acts on the world alone.
  unfoldable pub call : Exec W A → Exec (Tx W) A
  call m t = returned t (m t.world)

unfoldable pub emit_to :
    {W : Type 0}
    → Option (String → String → Exec W (Unit {0}))
    → String
    → String
    → Exec (Tx W) (Unit {0})
emit_to none state detail = pure tt
emit_to (some sink) state detail =
    attempt is_exception (call (sink state detail)) (λ _. pure tt) (λ _. pure tt)

module _ {W : Type 0} (env : Environment W) where
  -- `_emit`: a sink's exception is dropped.
  unfoldable pub emit : String → String → Exec (Tx W) (Unit {0})
  emit = emit_to env.settings.state_sink
