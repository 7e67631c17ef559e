-- ===== src/Tests/Deployment.antt =====
-- The theorems on the firmware deployment, applied to a mock build.
use kace.Prelude.{ℕ, ◌+◌, true, false, none, some, [], ◌≡◌, ◌≢◌, ◌↔◌, refl}
use kace.Effects.{ok, pure, raise, lift, modify, attempt, ◌>>=◌, ◌>>◌}
use kace.Effects.Keeping.{Keeps-pure}
use kace.Deployment.{
  mock, BuildArtifact, is_real, is_digest, deployment_artifact_blockers,
  require_deployable_artifact, PreparedDeployment, failed, flashed, DeploymentResult, Service,
  verify_transformation, verify_prepared_artifact, require_startup, check_prepared, finish,
  run_method, execute,
}
use kace.Deployment.Guarded.{IsFailed, deployment_artifact_blockers_iff, execute_refuses}

abbrev mock_build : BuildArtifact
mock_build = record {
  path = "klipper.bin";
  provenance = mock;
  flashable = true;
  sha256 = "";
  firmware_identity = none;
}

abbrev staged : PreparedDeployment
staged = record {
  plan = record {
    deployment_id = "d";
    artifact = mock_build;
    board = "skr";
    final_filename = "firmware.bin";
    is_prepare_only = false;
    automation_eligible = true;
  };
  staged_path = "firmware.bin";
  sha256 = "";
  transformation = none;
}

-- The world counts the flashes.
abbrev counting : Service ℕ
counting = record {
  file_digest = λ path. pure "";
  resolve = λ path. path;
  translate = λ key. key;
  verify_startup_artifact = λ board path artifact. pure tt;
  verify_robin = λ proof prepared. pure "";
  execute_method = λ prepared.
      modify (λ n. n + 1)
      >> pure (record {
        status = flashed;
        detail = "";
        executed_automatically = true;
        error_code = "";
      });
  emit = λ id state detail. pure tt;
  write_manifest = λ prepared state result. pure tt;
}

abbrev refused_result : DeploymentResult
refused_result = record {
  status = failed;
  detail =
      "firmware deployment rejected unsafe artifact: mock firmware artifacts cannot be deployed; build artifact has no valid SHA-256; firmware build identity is unavailable";
  executed_automatically = false;
  error_code = "ARTIFACT_UNSAFE";
}

refused_run : execute counting staged 0 ≡ (ok refused_result, 0)
unfolding pure raise lift modify attempt ◌>>=◌ deployment_artifact_blockers
    require_deployable_artifact verify_transformation verify_prepared_artifact require_startup
    check_prepared finish run_method execute
refused_run = refl

mock_blocked : deployment_artifact_blockers mock_build ≢ []
unfolding deployment_artifact_blockers
mock_blocked h = cc h

abbrev NoFlash : ℕ → Type 0
NoFlash n = n ≡ 0

execute_refuses_example : NoFlash 0 × IsFailed (ok refused_result)
execute_refuses_example =
    execute_refuses counting NoFlash (λ id state detail. Keeps-pure tt)
      (λ prepared state result. Keeps-pure tt) staged 0 0 (ok refused_result) mock_blocked refl
      refused_run

deployment_artifact_blockers_iff_example : (deployment_artifact_blockers mock_build ≡ []) ↔ (
    (is_real mock_build.provenance ≡ true)
    × (mock_build.flashable ≡ true)
    × (is_digest mock_build.sha256 ≡ true)
    × (mock_build.firmware_identity ≡ some mock_build.sha256))
deployment_artifact_blockers_iff_example = deployment_artifact_blockers_iff mock_build
