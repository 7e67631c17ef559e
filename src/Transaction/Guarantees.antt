-- ===== src/Transaction/Guarantees.antt =====
-- What the transaction promises to its caller, at one run of it.
use kace.Prelude.{Bool, true, String, Bytes, Option, ◌≡◌, ◌≢◌, All}
use kace.Effects.{Result, ok, err, unfinished, Exec}
use kace.Effects.Triples.{Triple}
use kace.Effects.Keeping.{Keeps}
use kace.Effects.Ending.{Anywhere, Triple-ok, Triple-err}
use kace.ManagedConfig.{Content, Files, planned_files}
use kace.Transaction.Interface.{
  Transport, Planner, Environment, Tx, ConfigTransactionResult, is_ok, is_pending,
}
use kace.Transaction.Reading.{read_config_state}
use kace.Transaction.Reading.Bounds.{IsScannable, read_config_state-Finishes}
use kace.Transaction.Waiting.{wait_ready, wait_moonraker}
use kace.Transaction.Waiting.Deadline.{IsTimely, wait_ready-Finishes, wait_moonraker-Finishes}
use kace.Transaction.Quiet.{KeepsQuiet}
use kace.Transaction.Recovery.{artifacts_of, rollback}
use kace.Transaction.Recovery.Matching.{IsHonest}
use kace.Transaction.Recovery.Preserving.{KeepsRestarts, rollback-Keeps}
use kace.Transaction.Publishing.Outcomes.{is_unwritten, KeepsUploads}
use kace.Transaction.Run.{run_locked, run}
use kace.Transaction.Run.Soundness.{run-IfCommitted}
use kace.Transaction.Run.Phases.{run_locked-IfUnwritten, run_locked-IfPending}

module _ {W A : Type 0} where
  -- A predicate that a computation keeps holds after it, however it ends.
  Keeps-after :
      {P : W → Type 0} {m : Exec W A}
      → Keeps P m
      → (r : Result A) {w w' : W} → P w
      → m w ≡ (r, w')
      → P w'
  Keeps-after h (ok a) p e = Triple-ok h.triple p e
  Keeps-after h (err x) p e = Triple-err h.triple p e

  finished_not :
      {m : Exec W A}
      → Triple Anywhere m (λ _. Anywhere) (λ e _. e ≢ unfinished)
      → (r : Result A) {w w' : W} → m w ≡ (r, w')
      → r ≢ err unfinished
  finished_not h (ok a) e = λ f. cc f
  finished_not h (err x) e = λ f. Triple-err h tt e (cc f)

module _ {W : Type 0} (env : Environment W) where
  -- If `run` returns a result that is `ok` (COMMITTED), then every file of the plan is at the
  -- destination with its planned bytes. It is assumed that a read which returns tells the files'
  -- content, and that neither the progress sink nor the release of the lock changes a planned file.
  pub run_committed :
      (files : W → String → Content)
      → IsHonest env files
      → (t t' : Tx W) (r : ConfigTransactionResult) → run env t ≡ (ok r, t')
      → is_ok r ≡ true
      → All
          (λ (f : String × Content). files t'.world f.0 ≡ f.1)
          (planned_files (artifacts_of t'.plan))
  run_committed files honest t t' r e = Triple-ok (run-IfCommitted env files honest).triple tt e

  -- If `_run_locked` returns PRECONDITION_FAILED, SNAPSHOT_FAILED or CANCELLED, then every
  -- predicate on the world that held before still holds, if it is one that reads, polls, the
  -- planner, the operator's answers, the sink and the snapshot store keep: nothing was uploaded
  -- and nothing was restarted.
  pub run_locked_unwritten :
      (P : W → Type 0)
      → KeepsQuiet env P
      → (t t' : Tx W) (r : ConfigTransactionResult) → P t.world
      → run_locked env t ≡ (ok r, t')
      → is_unwritten r ≡ true
      → P t'.world
  run_locked_unwritten P quiet t t' r p e = Triple-ok (run_locked-IfUnwritten env quiet).triple p e

  -- If `_run_locked` returns DEPLOYED_PENDING_ACTIVATION, then every predicate on the world that
  -- held before and that the calls other than restarts keep, uploads included, still holds:
  -- nothing was restarted.
  pub run_locked_pending :
      (P : W → Type 0)
      → KeepsQuiet env P
      → KeepsUploads env P
      → (t t' : Tx W) (r : ConfigTransactionResult) → P t.world
      → run_locked env t ≡ (ok r, t')
      → is_pending r ≡ true
      → P t'.world
  run_locked_pending P quiet uploads t t' r p e =
      Triple-ok (run_locked-IfPending env quiet uploads).triple p e

  -- A rollback, whether it returns or raises, keeps every predicate on the world that reads,
  -- polls, the sink and the two restarts keep: it uploads nothing.
  pub rollback_uploads_nothing :
      (P : W → Type 0)
      → KeepsQuiet env P
      → KeepsRestarts env P
      → (t t' : Tx W) (r : Result (Option Bool × String)) → P t.world
      → rollback env t ≡ (r, t')
      → P t'.world
  rollback_uploads_nothing P quiet restarts t t' r p e =
      Keeps-after (rollback-Keeps env quiet restarts) r p e

  -- `_wait_ready` ends from every world, whatever Klipper answers: its loop goes on for no more than
  -- `timeout + 1` rounds. It is assumed that the clock does not go
  -- back, that a sleep takes its time, and that the poll interval is positive.
  pub wait_ready_ends :
      IsTimely env
      → (w w' : W) (r : Result (Bool × String)) → wait_ready env w ≡ (r, w')
      → r ≢ err unfinished
  wait_ready_ends timely w w' r e = finished_not (wait_ready-Finishes env timely) r e

  -- `_wait_moonraker` ends from every world: its loop goes on for no more than `timeout + 1` rounds. The conditions on the clock and the poll interval are the same.
  pub wait_moonraker_ends :
      IsTimely env
      → (w w' : W) (r : Result Bool) → wait_moonraker env w ≡ (r, w')
      → r ≢ err unfinished
  wait_moonraker_ends timely w w' r e = finished_not (wait_moonraker-Finishes env timely) r e

-- `read_config_state` ends within its fuel whatever the files include, cycles among them: the
-- limit of 8 MiB on the scanned bytes ends the loop. It is assumed that reads end, and that a file
-- has at most one include for each of its bytes.
pub read_config_state_ends :
    {W : Type 0} (transport : Transport W) (planner : Planner W)
    → IsScannable transport planner
    → (hardware : Bytes) (macros : Option Bytes) (w w' : W) (r : Result Files)
    → read_config_state transport planner hardware macros w ≡ (r, w')
    → r ≢ err unfinished
read_config_state_ends transport planner scannable hardware macros w w' r e =
    finished_not (read_config_state-Finishes transport planner scannable hardware macros) r e
