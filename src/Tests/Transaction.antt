-- ===== src/Tests/Transaction.antt =====
-- The theorems on the transaction, applied to runs on the printer in memory.
use kace.Prelude.{true, false, String, none, some, [], ◌∷◌, ◌≡◌, ◌≢◌, ◌↔◌, refl, All, lookup, keys}
use mathlib.Core.List.{Perm}
use kace.Effects.{ok, err, unfinished, is_interrupt, is_exception, is_publication_error}
use kace.Effects.Triples.{Triple-pure}
use kace.ManagedConfig.{Content, planned_files}
use kace.Snapshot.{verify_snapshot_restored}
use kace.Snapshot.Restored.{Original, RestoredIn, verify_snapshot_restored_iff}
use kace.Snapshot.RoundTrip.{create_snapshot-verify}
use kace.Transaction.Interface.{is_ok, is_pending}
use kace.Transaction.Ordering.{ordered_artifacts}
use kace.Transaction.Ordering.RootLast.{RootLast, ordered_artifacts_lem}
use kace.Transaction.Reading.{read_config_state}
use kace.Transaction.Waiting.{wait_ready, wait_moonraker}
use kace.Transaction.Recovery.{artifacts_of, rollback}
use kace.Transaction.Recovery.Matching.{ReadAs, Unforeign, matches_plan_sound}
use kace.Transaction.Recovery.Success.{rollback_success}
use kace.Transaction.Publishing.{upload}
use kace.Transaction.Publishing.Outcomes.{is_unwritten}
use kace.Transaction.Publishing.Recorded.{IsTracked, upload_traced}
use kace.Transaction.Run.{run, run_locked}
use kace.Transaction.Run.Escapes.{run_raises}
use kace.Transaction.Guarantees.{
  run_committed, run_locked_unwritten, run_locked_pending, rollback_uploads_nothing,
  wait_ready_ends, wait_moonraker_ends, read_config_state_ends,
}
use kace.Tests.World.{
  content_at, memory, plain, shelf, demo, locked_out, blank, start, secured, written, original,
  current_files, two_planned, first_artifact, restored_inactive, result_of, returned_with-ok,
  returned_with-holds, raised_of, raised_with-err,
}
use kace.Tests.Assumptions.{
  memory-IsTruthful, memory-IsHonest, memory-TellsFile, memory-KeepsQuiet, memory-KeepsUploads,
  memory-KeepsRestarts, memory-IsTimely, memory-IsScannable, SameDisk, NoRestart,
}
use kace.Tests.Runs.{
  demo_runs, locked_out-run, rollback_run, upload_run, snapshot_run, matches_run,
  current_files-IsDict,
}

run_committed_example :
    All
      (λ (f : String × Content). content_at (run (demo true "firmware") start).1.world f.0 ≡ f.1)
      (planned_files (artifacts_of (run (demo true "firmware") start).1.plan))
run_committed_example =
    run_committed (demo true "firmware") content_at (memory-IsHonest true "firmware") start
      (run (demo true "firmware") start).1 (result_of (run (demo true "firmware") start).0)
      (returned_with-ok is_ok _ demo_runs.0) (returned_with-holds is_ok _ demo_runs.0)

run_locked_unwritten_example : SameDisk (run_locked (demo false "firmware") start).1.world
run_locked_unwritten_example =
    run_locked_unwritten (demo false "firmware") SameDisk
      (memory-KeepsQuiet false "firmware" SameDisk (λ d w h. h)) start
      (run_locked (demo false "firmware") start).1
      (result_of (run_locked (demo false "firmware") start).0) refl
      (returned_with-ok is_unwritten _ demo_runs.1) (returned_with-holds is_unwritten _ demo_runs.1)

run_locked_pending_example : NoRestart (run_locked (demo true "none") start).1.world
run_locked_pending_example =
    run_locked_pending (demo true "none") NoRestart
      (memory-KeepsQuiet true "none" NoRestart (λ d w h. h)) (memory-KeepsUploads true "none") start
      (run_locked (demo true "none") start).1 (result_of (run_locked (demo true "none") start).0)
      refl (returned_with-ok is_pending _ demo_runs.2)
      (returned_with-holds is_pending _ demo_runs.2)

rollback_uploads_nothing_example : SameDisk (rollback (demo true "none") written).1.world
rollback_uploads_nothing_example =
    rollback_uploads_nothing (demo true "none") SameDisk
      (memory-KeepsQuiet true "none" SameDisk (λ d w h. h)) (memory-KeepsRestarts true "none")
      written (rollback (demo true "none") written).1 (ok (some true, restored_inactive)) refl
      rollback_run

rollback_success_example :
    All
      (λ name.
        Original original name (content_at (rollback (demo true "none") written).1.world name))
      written.written_names
rollback_success_example =
    rollback_success (demo true "none") content_at (memory-IsTruthful true "none") original written
      (rollback (demo true "none") written).1 restored_inactive refl rollback_run

upload_traced_example :
    IsTracked
      (demo true "none")
      content_at
      (memory-TellsFile true "none")
      original
      first_artifact.remote_name
      (upload (demo true "none") first_artifact none secured).1
upload_traced_example =
    upload_traced (demo true "none") content_at (memory-TellsFile true "none") original
      first_artifact none secured (upload (demo true "none") first_artifact none secured).1 refl
      (ok tt) upload_run (λ h. cc h)

wait_ready_ends_example : (wait_ready (demo true "firmware") blank).0 ≢ err unfinished
wait_ready_ends_example =
    wait_ready_ends (demo true "firmware") (memory-IsTimely true "firmware") blank
      (wait_ready (demo true "firmware") blank).1 (wait_ready (demo true "firmware") blank).0 refl

wait_moonraker_ends_example : (wait_moonraker (demo true "firmware") blank).0 ≢ err unfinished
wait_moonraker_ends_example =
    wait_moonraker_ends (demo true "firmware") (memory-IsTimely true "firmware") blank
      (wait_moonraker (demo true "firmware") blank).1
      (wait_moonraker (demo true "firmware") blank).0 refl

read_config_state_ends_example :
    (read_config_state memory plain (1 ∷ []) none blank).0 ≢ err unfinished
read_config_state_ends_example =
    read_config_state_ends memory plain memory-IsScannable (1 ∷ []) none blank
      (read_config_state memory plain (1 ∷ []) none blank).1
      (read_config_state memory plain (1 ∷ []) none blank).0 refl

run_raises_example :
    (is_interrupt (raised_of (run locked_out start).0) ≡ false)
    × (is_publication_error (raised_of (run locked_out start).0) ≡ false)
run_raises_example =
    run_raises locked_out ("memory" ∷ []) refl
      (record { acquired = Triple-pure tt (λ w p. tt); released = Triple-pure tt (λ w p. tt) })
      start (run locked_out start).1 (raised_of (run locked_out start).0)
      (raised_with-err is_exception _ locked_out-run)

verify_snapshot_restored_iff_example :
    (verify_snapshot_restored original current_files ("printer.cfg" ∷ []) ≡ ok tt)
    ↔ All (RestoredIn original current_files) ("printer.cfg" ∷ [])
verify_snapshot_restored_iff_example =
    verify_snapshot_restored_iff original current_files ("printer.cfg" ∷ [])

create_snapshot-verify_example :
    (verify_snapshot_restored original current_files (keys current_files) ≡ ok tt)
    ↔ All (λ (f : String × Content). lookup f.0 current_files ≡ some f.1) current_files
create_snapshot-verify_example =
    create_snapshot-verify shelf current_files "t1" "demo board" "1" blank blank original
      current_files current_files-IsDict snapshot_run

ordered_artifacts_lem_example :
    Perm (ordered_artifacts two_planned.artifacts) two_planned.artifacts
    × RootLast (ordered_artifacts two_planned.artifacts)
ordered_artifacts_lem_example = ordered_artifacts_lem two_planned.artifacts

matches_plan_sound_example :
    ReadAs current_files (("printer.cfg", some (91 ∷ [])) ∷ [])
    × Unforeign current_files (("printer.cfg", some (91 ∷ [])) ∷ []) current_files
matches_plan_sound_example =
    matches_plan_sound current_files (("printer.cfg", some (91 ∷ [])) ∷ []) current_files
      matches_run
