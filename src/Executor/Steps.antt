-- ===== src/Executor/Steps.antt =====
-- The executor's parts, its transitions, and the failure that every handler ends in.
use kace.Prelude.{
  ℕ, ◌+◌, Bool, true, false, String, Option, none, some, List, [], ◌∷◌, ◌++◌, if◌then◌else◌, ◌<>◌,
  lookup, insert,
}
use kace.Effects.{
  Exc, runtime_error, is_exception, ExecutionErrorType, execution_error, message, ok, Exec, pure,
  raise, gets, modify, attempt, ◌>>=◌, ◌>>◌,
}
use kace.Boards.{BoardCatalog}
use kace.Contract.{Library}
use kace.Executor.Session.{
  ContractDeploymentState, prepared, media_selected, media_verified, copied, copy_verified, ejected,
  waiting_for_manual_power_cycle, waiting_for_mcu_reenumeration, mcu_reenumerated,
  waiting_for_klipper, verifying_firmware, verified, failed, MediaCandidate, SafeEjectResult,
  FirmwareVerificationResult, McuIdentityEvidence, DeploymentProof, ContractDeploymentSession,
  proof, state_name,
}

-- What `_emit` hands to the event sink, without the constant fields.
pub record Event : Type 0 where
  pub workflow_id : String
  pub sequence : ℕ
  pub state : ContractDeploymentState
  pub detail : String
  pub plan_digest : String

-- The constructor's arguments. The Linux ones stand at the end of the source file, the monitor in
-- core/mcu_monitor.py; `wait_for_present` gives what `McuIdentityEvidence.capture` reads of the
-- identity. `has_monitor` and `has_verifier`: the argument is not None. The clock does not raise.
-- The rest is the file system.
pub record Ports (W : Type 0) : Type 0 where
  pub list_candidates : Exec W (List MediaCandidate)
  pub refresh : MediaCandidate → Exec W (Option MediaCandidate)
  pub eject : MediaCandidate → Exec W SafeEjectResult
  pub has_monitor : Bool
  pub arm : Exec W (Unit {0})
  pub wait_for_present : Exec W McuIdentityEvidence
  pub close : Exec W (Unit {0})
  pub has_verifier : Bool
  pub wait_for_firmware : String → String → Exec W FirmwareVerificationResult
  pub copy : String → String → String → Exec W (Unit {0})
  pub event_sink : Event → Exec W (Unit {0})
  pub clock : W → String × W
  pub is_file : W → String → Bool
  pub is_dir : W → String → Bool
  pub file_size : String → Exec W ℕ
  pub file_digest : String → Exec W String
  pub parent : String → String

pub record Executor (W : Type 0) : Type 0 where
  pub ports : Ports W
  pub library : Library W
  pub normalize : String → String
  pub catalog : BoardCatalog
  pub mcu_name : String

-- The session that a call works on, the sequence numbers of the events, and the `proof` of the last
-- error that was raised with one.
pub record Stage (W : Type 0) : Type 0 where
  pub session : ContractDeploymentSession
  pub sequences : List (String × ℕ)
  pub attached : Option DeploymentProof
  pub world : W

-- `_ALLOWED_TRANSITIONS`.
abbrev pub is_allowed : ContractDeploymentState → ContractDeploymentState → Bool
is_allowed prepared media_selected = true
is_allowed media_selected media_verified = true
is_allowed media_verified copied = true
is_allowed copied copy_verified = true
is_allowed copy_verified ejected = true
is_allowed ejected waiting_for_manual_power_cycle = true
is_allowed waiting_for_manual_power_cycle waiting_for_mcu_reenumeration = true
is_allowed waiting_for_mcu_reenumeration mcu_reenumerated = true
is_allowed mcu_reenumerated waiting_for_klipper = true
is_allowed waiting_for_klipper verifying_firmware = true
is_allowed verifying_firmware verified = true
is_allowed _ _ = false

abbrev pub is_failed : ContractDeploymentState → Bool
is_failed failed = true
is_failed _ = false

-- `state in {VERIFIED, FAILED}`.
abbrev pub is_final : ContractDeploymentState → Bool
is_final verified = true
is_final failed = true
is_final _ = false

abbrev pub sequence_of : Option ℕ → ℕ
sequence_of none = 0
sequence_of (some n) = n

module _ {W : Type 0} where
  -- A call that leaves the executor and its session alone.
  unfoldable pub outside : {A : Type 0} → Exec W A → Exec (Stage W) A
  outside m s =
      let r = m s.world in
      (
        r.0,
        record { session = s.session; sequences = s.sequences; attached = s.attached; world = r.1 },
      )

  unfoldable pub change :
      (ContractDeploymentSession → ContractDeploymentSession) → Exec (Stage W) (Unit {0})
  change f = modify (λ (s : Stage W). record {
    session = f s.session;
    sequences = s.sequences;
    attached = s.attached;
    world = s.world;
  })

  abbrev pub the_session : Exec (Stage W) ContractDeploymentSession
  the_session = gets (λ (s : Stage W). s.session)

  unfoldable pub set_sequences : List (String × ℕ) → Exec (Stage W) (Unit {0})
  set_sequences sequences = modify (λ (s : Stage W). record {
    session = s.session;
    sequences = sequences;
    attached = s.attached;
    world = s.world;
  })

  unfoldable pub attach : Exec (Stage W) (Unit {0})
  attach = modify (λ (s : Stage W). record {
    session = s.session;
    sequences = s.sequences;
    attached = some (proof s.session);
    world = s.world;
  })

  -- `raise error_type(message, code=code, proof=session.proof())`.
  unfoldable pub raise_proved :
      {A : Type 0} → ExecutionErrorType → String → String → Exec (Stage W) A
  raise_proved type code text = attach >> raise (execution_error type code text)

abbrev pub enter :
    ContractDeploymentState
    → String
    → String
    → ContractDeploymentSession
    → ContractDeploymentSession
enter state at detail session = record session {
  state = state;
  steps = session.steps ++ (record { state = state; timestamp = at; detail = detail } ∷ []);
}

abbrev pub add_error : String → ContractDeploymentSession → ContractDeploymentSession
add_error text session = record session { errors = session.errors ++ (text ∷ []) }

module _ {W : Type 0} (executor : Executor W) where
  unfoldable pub clock_text : Exec (Stage W) String
  clock_text = outside (λ w. let r = executor.ports.clock w in (ok (r.0), r.1))

  unfoldable pub emit_state : String → Exec (Stage W) (Unit {0})
  emit_state detail = gets (λ (s : Stage W). s) >>= λ s.
      let id = s.session.plan.deployment_id in
      let sequence = sequence_of (lookup id s.sequences) + 1 in
      set_sequences (insert id sequence s.sequences)
      >> outside (
          executor.ports.event_sink (record {
            workflow_id = id;
            sequence = sequence;
            state = s.session.state;
            detail = detail;
            plan_digest = s.session.plan.plan_digest;
          }))

  abbrev pub invalid_transition : ContractDeploymentState → ContractDeploymentState → Exc
  invalid_transition from to =
      runtime_error
        ("invalid contractual deployment transition " <> state_name from <> " -> " <> state_name to)

  -- `_transition` behind its guard.
  unfoldable pub record_state : ContractDeploymentState → String → Exec (Stage W) (Unit {0})
  record_state state detail = clock_text >>= λ at.
      change (enter state at detail)
      >> ((if is_final state
            then (clock_text >>= λ end. change (λ session. record session { finished_at = end }))
            else pure tt)
          >> emit_state detail)

  unfoldable pub transition : ContractDeploymentState → String → Exec (Stage W) (Unit {0})
  transition state detail = the_session >>= λ session.
      if is_failed state
      then record_state state detail
      else if is_allowed session.state state
      then record_state state detail
      else raise (invalid_transition session.state state)

  -- `try: self.mcu_monitor.close(); except Exception: pass`.
  unfoldable pub close_quietly : Exec (Stage W) (Unit {0})
  close_quietly = attempt is_exception (outside executor.ports.close) (λ _. pure tt) (λ _. pure tt)

  -- `_fail`.
  unfoldable pub fail_session : {A : Type 0} → Exc → ExecutionErrorType → String → Exec (Stage W) A
  fail_session e type code =
      change (add_error (message e))
      >> (the_session >>= λ session.
          (if is_final session.state then pure tt else transition failed (message e))
          >> (close_quietly >> raise_proved type code (message e)))
