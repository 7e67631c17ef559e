-- ===== src/Executor/Verifier.antt =====
-- `MoonrakerFirmwareVerifier.wait_for_firmware` of firmware/boards/executor.py. Times are in
-- milliseconds. The loop runs on fuel: a round that goes on sleeps, so a round for each
-- millisecond of the timeout and one more are enough (`Verifier/Deadline.antt`).
pub mod Deadline
use kace.Prelude.{
  ℕ, zero, suc, ◌+◌, Bool, true, false, ltb, String, str_eq, List, [], lookup, text_or_empty,
  if◌then◌else◌, ◌<>◌,
}
use kace.Effects.{unfinished, Exec, pure, raise, gets, modify, ◌>>=◌, ◌>>◌}
use kace.Executor.Session.{FirmwareVerificationResult}

-- core/moonraker.py's two calls at one host, and the clock.
pub record FirmwareApi (W : Type 0) : Type 0 where
  pub get_klipper_state : Exec W String
  pub get_mcu_versions : Exec W (List (String × String))
  pub monotonic : W → ℕ
  pub sleep : ℕ → W → W

abbrev pub Versions : Type 0
Versions = List (String × String)

module _ {W : Type 0} (api : FirmwareApi W) (name : String) where
  -- The rest of a round that found nothing; `again` is the rest of the loop.
  unfoldable pub go_on :
      (String → Versions → Exec W FirmwareVerificationResult)
      → String
      → Versions
      → Exec W FirmwareVerificationResult
  go_on again state versions = modify (api.sleep 500) >> again state versions

  unfoldable pub observe_versions :
      (String → Versions → Exec W FirmwareVerificationResult)
      → String
      → Versions
      → Exec W FirmwareVerificationResult
  observe_versions again state versions =
      if str_eq (text_or_empty (lookup name versions)) ""
      then go_on again state versions
      else pure (record {
        klipper_connected = true;
        observed_fingerprint = text_or_empty (lookup name versions);
        observed_versions = versions;
        detail = "Klipper Ready and expected MCU object registered";
      })

  unfoldable pub poll :
      (String → Versions → Exec W FirmwareVerificationResult)
      → Versions
      → Exec W FirmwareVerificationResult
  poll again versions = api.get_klipper_state >>= λ state.
      if str_eq state "ready"
      then (api.get_mcu_versions >>= λ found. observe_versions again state found)
      else go_on again state versions

  unfoldable pub timed_out : String → Versions → FirmwareVerificationResult
  timed_out state versions = record {
    klipper_connected = false;
    observed_fingerprint = text_or_empty (lookup name versions);
    observed_versions = versions;
    detail = "Klipper/MCU verification timed out (state=" <> state <> ")";
  }

  unfoldable pub firmware_loop : ℕ → ℕ → String → Versions → Exec W FirmwareVerificationResult
  firmware_loop zero deadline state versions = raise unfinished
  firmware_loop (suc fuel) deadline state versions = gets api.monotonic >>= λ time.
      if ltb time deadline
      then poll (firmware_loop fuel deadline) versions
      else pure (timed_out state versions)

  unfoldable pub wait_for_firmware : ℕ → Exec W FirmwareVerificationResult
  wait_for_firmware timeout =
      if str_eq name ""
      then pure (record {
        klipper_connected = false;
        observed_fingerprint = "";
        observed_versions = [];
        detail = "MCU object name is empty";
      })
      else (gets api.monotonic >>= λ time.
          firmware_loop (timeout + 1) (time + timeout) "disconnected" [])
