-- ===== src/Tests/Verifier.antt =====
-- Runs of the wait for the firmware: the world is its clock, and Klipper is ready from a time on.
use kace.Prelude.{
  ◌≢◌, some, arith, ℕ, ◌+◌, String, [], ◌∷◌, true, false, leb, if◌then◌else◌, lookup, ◌≡◌, refl,
}
use kace.Effects.{unfinished, err, Result, ok, gets, modify, pure, ◌>>=◌}
use kace.Executor.Session.{FirmwareVerificationResult}
use kace.Effects.Triples.{Triple-pure, Triple-gets}
use kace.Executor.Verifier.Deadline.{IsTimely, wait_for_firmware_ends, wait_for_firmware_registered}
use kace.Executor.Verifier.{
  FirmwareApi, Versions, go_on, observe_versions, poll, timed_out, firmware_loop, wait_for_firmware,
}

abbrev booting : ℕ → Versions → FirmwareApi ℕ
booting ready versions = record {
  get_klipper_state = gets (λ now. if leb ready now then "ready" else "startup");
  get_mcu_versions = pure versions;
  monotonic = λ now. now;
  sleep = λ d now. now + d;
}

abbrev waited : String → ℕ → Versions → Result FirmwareVerificationResult × ℕ
waited name ready versions = wait_for_firmware (booting ready versions) name 1200 0

-- Ready in the second round, in none, registered under another name, and no name to ask for.
waited_runs :
    (waited "mcu" 400 (("mcu", "v0.12") ∷ []) ≡ (
      ok (record {
        klipper_connected = true;
        observed_fingerprint = "v0.12";
        observed_versions = ("mcu", "v0.12") ∷ [];
        detail = "Klipper Ready and expected MCU object registered";
      }),
      500,
    ))
    × (waited "mcu" 9000 (("mcu", "v0.12") ∷ []) ≡ (
      ok (record {
        klipper_connected = false;
        observed_fingerprint = "";
        observed_versions = [];
        detail = "Klipper/MCU verification timed out (state=startup)";
      }),
      1500,
    ))
    × (waited "mcu" 400 (("toolhead", "v0.12") ∷ []) ≡ (
      ok (record {
        klipper_connected = false;
        observed_fingerprint = "";
        observed_versions = ("toolhead", "v0.12") ∷ [];
        detail = "Klipper/MCU verification timed out (state=ready)";
      }),
      1500,
    ))
    × (waited "" 0 [] ≡ (
      ok (record {
        klipper_connected = false;
        observed_fingerprint = "";
        observed_versions = [];
        detail = "MCU object name is empty";
      }),
      0,
    ))
unfolding go_on observe_versions poll timed_out firmware_loop wait_for_firmware ◌>>=◌ gets modify
    pure lookup
waited_runs = (refl, refl, refl, refl)

booting-IsTimely : (ready : ℕ) (versions : Versions) → IsTimely (booting ready versions)
booting-IsTimely ready versions = record {
  slept = λ d w. omega arith;
  state = λ n. Triple-gets _ (λ w p. p);
  versions = λ n. Triple-pure _ (λ w p. p);
}

abbrev here : Versions
here = ("mcu", "v0.12") ∷ []

abbrev seen : FirmwareVerificationResult
seen = record {
  klipper_connected = true;
  observed_fingerprint = "v0.12";
  observed_versions = here;
  detail = "Klipper Ready and expected MCU object registered";
}

wait_for_firmware_ends_example : ok seen ≢ err unfinished
wait_for_firmware_ends_example =
    wait_for_firmware_ends (booting 400 here) "mcu" (booting-IsTimely 400 here) 1200 0 500 (ok seen)
      waited_runs.0

wait_for_firmware_registered_example :
    (lookup "mcu" here ≡ some "v0.12") × (seen.observed_fingerprint ≢ "")
wait_for_firmware_registered_example =
    wait_for_firmware_registered (booting 400 here) "mcu" (booting-IsTimely 400 here) 1200 0 500
      seen waited_runs.0 refl
