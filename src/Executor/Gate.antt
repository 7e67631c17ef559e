-- ===== src/Executor/Gate.antt =====
-- The manual gate: observing the relay, cancelling, and confirming the power cycle.
use kace.Prelude.{
  Bool, true, false, String, str_eq, Option, none, some, [], ◌∷◌, ◌++◌, if◌then◌else◌, ◌<>◌,
}
use kace.Effects.{
  Exc, is_exception, execution_error, ExecutionErrorType, execution_error_type, post_flash_type,
  timeout_error, monitor_error, other_error, Exec, pure, raise, gets, attempt, finally, require,
  ◌>>=◌, ◌>>◌,
}
use kace.Contract.{FirmwareBuildIdentity}
use kace.Executor.Session.{
  ContractDeploymentState, waiting_for_manual_power_cycle, waiting_for_mcu_reenumeration,
  mcu_reenumerated, waiting_for_klipper, verifying_firmware, verified, failed, PowerObservation,
  DeploymentProof, ContractDeploymentSession, proof,
}
use kace.Executor.Steps.{
  Executor, Stage, outside, change, the_session, raise_proved, clock_text, transition,
  close_quietly, fail_session, add_error,
}

abbrev pub is_at_gate : ContractDeploymentState → Bool
is_at_gate waiting_for_manual_power_cycle = true
is_at_gate _ = false

-- `state in {VERIFIED, FAILED, MCU_REENUMERATED}`.
abbrev pub is_closing : ContractDeploymentState → Bool
is_closing verified = true
is_closing failed = true
is_closing mcu_reenumerated = true
is_closing _ = false

-- `str(reason or "cancelled by user")`.
abbrev pub reason_text : String → String
reason_text reason = if str_eq reason "" then "cancelled by user" else reason

abbrev pub accepted : String
accepted = "expected physical MCU identity accepted"

-- The class and the code of the error that a failure behind the gate ends in.
abbrev pub follow_class : Exc → ExecutionErrorType × String
follow_class (execution_error type code text) = (type, code)
follow_class (timeout_error text) = (post_flash_type, "MCU_REENUMERATION_TIMEOUT")
follow_class (monitor_error text) = (post_flash_type, "MCU_IDENTITY_REJECTED")
follow_class _ = (post_flash_type, "POST_FLASH_VERIFICATION_FAILED")

module _ {W : Type 0} where
  abbrev pub the_proof : Exec (Stage W) DeploymentProof
  the_proof = gets (λ (s : Stage W). proof s.session)

  unfoldable pub need_identity : Option FirmwareBuildIdentity → Exec (Stage W) String
  need_identity none = raise (other_error "'NoneType' object has no attribute 'reported_version'")
  need_identity (some identity) = pure identity.reported_version

-- `matches` is firmware/identity.py's `firmware_version_matches`.
module _ {W : Type 0} (executor : Executor W) (matches : String → String → Bool) where
  unfoldable pub record_power_observation :
      PowerObservation → Exec (Stage W) ContractDeploymentSession
  record_power_observation observation = the_session >>= λ session.
      if is_at_gate session.state
      then (change (λ session. record session {
        power_observations = session.power_observations ++ (observation ∷ []);
      })
          >> the_session)
      else raise_proved execution_error_type "INVALID_POWER_OBSERVATION_STATE"
          "power observations are only recorded at the manual gate"

  unfoldable pub cancel_at_manual_gate : String → Exec (Stage W) DeploymentProof
  cancel_at_manual_gate reason = the_session >>= λ session.
      if is_at_gate session.state
      then (change (add_error (reason_text reason))
          >> (transition executor failed (reason_text reason)
              >> (close_quietly executor >> the_proof)))
      else raise_proved execution_error_type "MANUAL_GATE_NOT_ACTIVE"
          "deployment is not waiting at the manual gate"

  -- The wait for Klipper, and the test of the fingerprint that it reports.
  unfoldable pub verify_fingerprint : Exec (Stage W) DeploymentProof
  verify_fingerprint =
      transition executor waiting_for_klipper "waiting for Klipper and expected MCU registration"
      >> (the_session >>= λ session.
          need_identity session.plan.artifact.firmware_identity >>= λ expected.
          outside (executor.ports.wait_for_firmware executor.mcu_name expected) >>= λ result.
          change (λ session. record session {
            klipper_connection_result = result.detail;
            observed_fingerprint = result.observed_fingerprint;
          })
          >> (require (
                (
                  result.klipper_connected,
                  execution_error post_flash_type "KLIPPER_NOT_READY" result.detail,
                )
                ∷ [])
              >> (transition executor verifying_firmware
                    "verifying exact firmware build-id/fingerprint"
                  >> (require (
                        (
                          matches result.observed_fingerprint expected,
                          execution_error post_flash_type "FIRMWARE_FINGERPRINT_MISMATCH" (
                              "firmware fingerprint mismatch: expected '" <> expected
                              <> "', observed '" <> result.observed_fingerprint <> "'"),
                        )
                        ∷ [])
                      >> (transition executor verified
                            "physical SD deployment and firmware identity verified"
                          >> the_proof)))))

  -- The body of the `try`.
  unfoldable pub follow_mcu : Bool → Exec (Stage W) DeploymentProof
  follow_mcu defer =
      transition executor waiting_for_mcu_reenumeration
        "user explicitly confirmed the manual power-cycle procedure"
      >> (outside executor.ports.wait_for_present >>= λ identity.
          change (λ session. record session {
            observed_mcu_identity = some identity;
            reenumeration_result = accepted;
          })
          >> (transition executor mcu_reenumerated accepted
              >> (if defer
                  then (change (λ session. record session {
                    klipper_connection_result =
                        "pending configuration activation and firmware verification";
                  })
                      >> the_proof)
                  else verify_fingerprint)))

  -- The two `except` clauses.
  unfoldable pub follow_failed : {A : Type 0} → Exc → Exec (Stage W) A
  follow_failed e = fail_session executor e ((follow_class e).0) ((follow_class e).1)

  -- The `finally` clause.
  unfoldable pub close_at_end : Exec (Stage W) (Unit {0})
  close_at_end = the_session >>= λ session.
      if is_closing session.state then close_quietly executor else pure tt

  unfoldable pub confirm_manual_power_cycle : Bool → Bool → Exec (Stage W) DeploymentProof
  confirm_manual_power_cycle confirmed defer = the_session >>= λ session.
      if is_at_gate session.state
      then (if confirmed
          then (clock_text executor >>= λ at.
              change (λ session. record session {
                manual_confirmation = true;
                manual_confirmation_at = at;
              })
              >> finally (attempt is_exception (follow_mcu defer) follow_failed (λ p. pure p))
                  close_at_end)
          else the_proof)
      else raise_proved execution_error_type "MANUAL_GATE_NOT_ACTIVE"
          "deployment is not waiting for manual power-cycle confirmation"
