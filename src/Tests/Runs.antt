-- ===== src/Tests/Runs.antt =====
-- Whole transactions on the printer in memory.
use kace.Prelude.{true, false, none, some, [], ◌∷◌, ◌≡◌, refl, lookup, IsDict, insert, update}
use kace.Effects.{ok, is_publication_error, is_exception, os_error}
use kace.Effects.{for_each, pure, raise, gets, lift, modify, ◌>>=◌, attempt, finally, need, guard}
use kace.Snapshot.{
  safe_id, existing_files, absent_files, snapshot_under, create_snapshot, rollback_file_owned,
  restored_at, restored_in, verify_snapshot_restored,
}
use kace.Transaction.Interface.{call, emit_to, emit}
use kace.Transaction.Reading.{
  pick, read_file, resolve_include, add_includes, scan_step, scan, read_config_state, unsupported,
  refuse_plan, require_conditional_writes, changed_names, refuse_changes, revalidate_config_state,
}
use kace.Transaction.Waiting.{
  judge, poll_ready, ready_loop, wait_ready, poll_moonraker, moonraker_loop, wait_moonraker,
}
use kace.Transaction.Ordering.{key_le, insert_ordered, ordered_artifacts}
use kace.Transaction.Recovery.{
  check_planned, foreign_changes, matches_plan, is_unchanged, owns_moonraker, verify_plan,
  mark_written, record_against, record_possible_write, owned, verify_restoration, restart_restored,
  reactivate, rollback_from, rollback_to, rollback,
}
use kace.Transaction.Publishing.{
  classify, failure_result, verify_firmware_by, verify_active_by, preserve_plan, preserve_proposal,
  upload, upload_artifact, verify_firmware, require_ready, verify_active, confirm_existing,
  restart_moonraker_for, activate, settle, publish, fail, publish_or_fail,
}
use kace.Transaction.Run.{
  parse_activation, originals_of, interrupted_result, destination_identity, show_review, set_plan,
  review_plan, preflight, consent, select_activation, take_snapshot, secure, prepare,
  prepare_failed, recheck, recheck_failed, deploy, after_preflight, run_locked, with_lock,
  with_destination, run_secured, roll_back_interrupted, interrupted, escaped, run,
}
use kace.Transaction.Interface.{is_ok, is_pending}
use kace.Transaction.Publishing.Outcomes.{is_unwritten}
use kace.Tests.World.{
  demo, start, returned_with, failing, locked_out, raised_with, raised_of, two_planned,
  current_files, secured, written, original, shelf, blank, restored_inactive, first_artifact,
}

-- A committed run, one that the operator declines, and one that leaves the restart to the operator.
pub demo_runs :
    (returned_with is_ok (run (demo true "firmware") start) ≡ true)
    × (returned_with is_unwritten (run_locked (demo false "firmware") start) ≡ true)
    × (returned_with is_pending (run_locked (demo true "none") start) ≡ true)
unfolding for_each pure raise gets lift modify ◌>>=◌ attempt need guard safe_id existing_files
    absent_files snapshot_under create_snapshot rollback_file_owned restored_at restored_in
    verify_snapshot_restored call emit_to emit pick read_file resolve_include add_includes scan_step
    scan read_config_state unsupported refuse_plan require_conditional_writes changed_names
    refuse_changes revalidate_config_state judge poll_ready ready_loop wait_ready poll_moonraker
    moonraker_loop wait_moonraker key_le insert_ordered ordered_artifacts check_planned
    foreign_changes matches_plan is_unchanged owns_moonraker verify_plan mark_written record_against
    record_possible_write owned verify_restoration restart_restored reactivate rollback_from
    rollback_to rollback classify failure_result verify_firmware_by verify_active_by preserve_plan
    preserve_proposal upload upload_artifact verify_firmware require_ready verify_active
    confirm_existing restart_moonraker_for activate settle publish fail publish_or_fail
    parse_activation originals_of interrupted_result destination_identity show_review set_plan
    review_plan preflight consent select_activation take_snapshot secure prepare prepare_failed
    recheck recheck_failed deploy after_preflight run_locked with_lock finally with_destination
    run_secured roll_back_interrupted interrupted escaped run lookup insert update
demo_runs = (refl, refl, refl)

-- A publication that fails behind the first write, a proposal that cannot be written then, and
-- the whole run.
pub failing_runs :
    (raised_with is_exception (publish failing two_planned current_files secured) ≡ true)
    × (raised_with is_exception
          (preserve_proposal failing (publish failing two_planned current_files secured).1)
        ≡ true)
    × (raised_with is_publication_error (with_destination failing (run_locked failing) start)
        ≡ true)
    × (raised_of (with_destination failing (run_locked failing) start).0 ≡ os_error "disk full")
unfolding for_each pure raise gets lift modify ◌>>=◌ attempt need guard safe_id existing_files
    absent_files snapshot_under create_snapshot rollback_file_owned restored_at restored_in
    verify_snapshot_restored call emit_to emit pick read_file resolve_include add_includes scan_step
    scan read_config_state unsupported refuse_plan require_conditional_writes changed_names
    refuse_changes revalidate_config_state judge poll_ready ready_loop wait_ready poll_moonraker
    moonraker_loop wait_moonraker key_le insert_ordered ordered_artifacts check_planned
    foreign_changes matches_plan is_unchanged owns_moonraker verify_plan mark_written record_against
    record_possible_write owned verify_restoration restart_restored reactivate rollback_from
    rollback_to rollback classify failure_result verify_firmware_by verify_active_by preserve_plan
    preserve_proposal upload upload_artifact verify_firmware require_ready verify_active
    confirm_existing restart_moonraker_for activate settle publish fail publish_or_fail
    parse_activation originals_of interrupted_result destination_identity show_review set_plan
    review_plan preflight consent select_activation take_snapshot secure prepare prepare_failed
    recheck recheck_failed deploy after_preflight run_locked with_lock finally with_destination
    run_secured roll_back_interrupted interrupted escaped run lookup insert update
failing_runs = (refl, refl, refl, refl)

-- A lock that cannot be taken: the exception leaves `run`.
pub locked_out-run : raised_with is_exception (run locked_out start) ≡ true
unfolding for_each pure raise gets lift modify ◌>>=◌ attempt need guard safe_id existing_files
    absent_files snapshot_under create_snapshot rollback_file_owned restored_at restored_in
    verify_snapshot_restored call emit_to emit pick read_file resolve_include add_includes scan_step
    scan read_config_state unsupported refuse_plan require_conditional_writes changed_names
    refuse_changes revalidate_config_state judge poll_ready ready_loop wait_ready poll_moonraker
    moonraker_loop wait_moonraker key_le insert_ordered ordered_artifacts check_planned
    foreign_changes matches_plan is_unchanged owns_moonraker verify_plan mark_written record_against
    record_possible_write owned verify_restoration restart_restored reactivate rollback_from
    rollback_to rollback classify failure_result verify_firmware_by verify_active_by preserve_plan
    preserve_proposal upload upload_artifact verify_firmware require_ready verify_active
    confirm_existing restart_moonraker_for activate settle publish fail publish_or_fail
    parse_activation originals_of interrupted_result destination_identity show_review set_plan
    review_plan preflight consent select_activation take_snapshot secure prepare prepare_failed
    recheck recheck_failed deploy after_preflight run_locked with_lock finally with_destination
    run_secured roll_back_interrupted interrupted escaped run lookup insert update
locked_out-run = refl

pub rollback_run :
    rollback (demo true "none") written
    ≡ (ok (some true, restored_inactive), (rollback (demo true "none") written).1)
unfolding for_each pure raise gets lift modify ◌>>=◌ attempt need guard safe_id existing_files
    absent_files snapshot_under create_snapshot rollback_file_owned restored_at restored_in
    verify_snapshot_restored call emit_to emit pick read_file resolve_include add_includes scan_step
    scan read_config_state unsupported refuse_plan require_conditional_writes changed_names
    refuse_changes revalidate_config_state judge poll_ready ready_loop wait_ready poll_moonraker
    moonraker_loop wait_moonraker key_le insert_ordered ordered_artifacts check_planned
    foreign_changes matches_plan is_unchanged owns_moonraker verify_plan mark_written record_against
    record_possible_write owned verify_restoration restart_restored reactivate rollback_from
    rollback_to rollback classify failure_result verify_firmware_by verify_active_by preserve_plan
    preserve_proposal upload upload_artifact verify_firmware require_ready verify_active
    confirm_existing restart_moonraker_for activate settle publish fail publish_or_fail
    parse_activation originals_of interrupted_result destination_identity show_review set_plan
    review_plan preflight consent select_activation take_snapshot secure prepare prepare_failed
    recheck recheck_failed deploy after_preflight run_locked with_lock finally with_destination
    run_secured roll_back_interrupted interrupted escaped run lookup insert update
rollback_run = refl

pub upload_run :
    upload (demo true "none") first_artifact none secured
    ≡ (ok tt, (upload (demo true "none") first_artifact none secured).1)
unfolding for_each pure raise gets lift modify ◌>>=◌ attempt need guard safe_id existing_files
    absent_files snapshot_under create_snapshot rollback_file_owned restored_at restored_in
    verify_snapshot_restored call emit_to emit pick read_file resolve_include add_includes scan_step
    scan read_config_state unsupported refuse_plan require_conditional_writes changed_names
    refuse_changes revalidate_config_state judge poll_ready ready_loop wait_ready poll_moonraker
    moonraker_loop wait_moonraker key_le insert_ordered ordered_artifacts check_planned
    foreign_changes matches_plan is_unchanged owns_moonraker verify_plan mark_written record_against
    record_possible_write owned verify_restoration restart_restored reactivate rollback_from
    rollback_to rollback classify failure_result verify_firmware_by verify_active_by preserve_plan
    preserve_proposal upload upload_artifact verify_firmware require_ready verify_active
    confirm_existing restart_moonraker_for activate settle publish fail publish_or_fail
    parse_activation originals_of interrupted_result destination_identity show_review set_plan
    review_plan preflight consent select_activation take_snapshot secure prepare prepare_failed
    recheck recheck_failed deploy after_preflight run_locked with_lock finally with_destination
    run_secured roll_back_interrupted interrupted escaped run lookup insert update
upload_run = refl

pub snapshot_run :
    create_snapshot shelf current_files "t1" "demo board" "1" blank ≡ (ok original, blank)
unfolding for_each pure raise gets lift modify ◌>>=◌ attempt need guard safe_id existing_files
    absent_files snapshot_under create_snapshot rollback_file_owned restored_at restored_in
    verify_snapshot_restored call emit_to emit pick read_file resolve_include add_includes scan_step
    scan read_config_state unsupported refuse_plan require_conditional_writes changed_names
    refuse_changes revalidate_config_state judge poll_ready ready_loop wait_ready poll_moonraker
    moonraker_loop wait_moonraker key_le insert_ordered ordered_artifacts check_planned
    foreign_changes matches_plan is_unchanged owns_moonraker verify_plan mark_written record_against
    record_possible_write owned verify_restoration restart_restored reactivate rollback_from
    rollback_to rollback classify failure_result verify_firmware_by verify_active_by preserve_plan
    preserve_proposal upload upload_artifact verify_firmware require_ready verify_active
    confirm_existing restart_moonraker_for activate settle publish fail publish_or_fail
    parse_activation originals_of interrupted_result destination_identity show_review set_plan
    review_plan preflight consent select_activation take_snapshot secure prepare prepare_failed
    recheck recheck_failed deploy after_preflight run_locked with_lock finally with_destination
    run_secured roll_back_interrupted interrupted escaped run lookup insert update
snapshot_run = refl

pub matches_run :
    matches_plan current_files (("printer.cfg", some (91 ∷ [])) ∷ []) current_files ≡ ok tt
unfolding matches_plan check_planned foreign_changes lookup
matches_run = refl

pub current_files-IsDict : IsDict current_files
unfolding lookup
current_files-IsDict = (refl, (refl, tt))
