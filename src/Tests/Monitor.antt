-- ===== src/Tests/Monitor.antt =====
-- The theorem on the assessment of a device, applied to a board that came back on its port.
use kace.Prelude.{List, In, [], ◌∷◌, ◌≡◌, ◌≢◌, refl, String}
use kace.Monitor.{
  McuIdentity, McuIdentityVerdict, match_verdict, transient_verdict, mismatch_verdict,
  unrelated_verdict, vid_pid, normalized_vid_pids, assess_topology, assess_elsewhere,
  assess_mcu_identity,
}
use kace.Monitor.Matched.{SameConnection, match_justified}
use kace.Tests.Boards.{same}

abbrev board : String → String → McuIdentity
board vendor port = record {
  configured_path = "/dev/ttyACM0";
  device_node = "/dev/ttyACM0";
  devpath = "";
  serial = "";
  physical_path = "";
  vendor_id = vendor;
  model_id = "614e";
  physical_port = port;
  by_path = [];
}

abbrev verdict_of : String → String → List String → McuIdentityVerdict
verdict_of vendor port bootloaders =
    (assess_mcu_identity same same (board "1d50" "1-1") (board vendor port) ("1d50:614e" ∷ [])
      bootloaders).verdict

-- The same port, the bootloader on it, another device on it, and the board elsewhere.
assessed_runs :
    (verdict_of "1d50" "1-1" [] ≡ match_verdict)
    × (verdict_of "0483" "1-1" ("0483:614e" ∷ []) ≡ transient_verdict)
    × (verdict_of "2341" "1-1" ("0483:614e" ∷ []) ≡ mismatch_verdict)
    × (verdict_of "2341" "1-2" [] ≡ unrelated_verdict)
unfolding assess_topology assess_elsewhere assess_mcu_identity
assessed_runs = (refl, refl, refl, refl)

match_justified_example :
    In (vid_pid same same (board "1d50" "1-1")) (normalized_vid_pids same same ("1d50:614e" ∷ []))
    × (vid_pid same same (board "1d50" "1-1") ≢ "")
    × ((board "1d50" "1-1").serial ≢ ""
        → (board "1d50" "1-1").serial ≢ ""
        → (board "1d50" "1-1").serial ≡ (board "1d50" "1-1").serial)
    × SameConnection (board "1d50" "1-1") (board "1d50" "1-1")
match_justified_example =
    match_justified same same (board "1d50" "1-1") (board "1d50" "1-1") ("1d50:614e" ∷ []) []
      assessed_runs.0
