-- ===== src/Executor/Recorded.antt =====
-- `prepare_media` keeps the recorded history a path.
use kace.Prelude.{String, Option, none, some, ◌≡◌}
use kace.Effects.{Exc, Result, ok, err, Exec}
use kace.Effects.Keeping.{
  Keeps, Keeps-pure, Keeps-bind, Keeps-if, Keeps-gets, Keeps-attempt, Keeps-raise, Keeps-require,
  Keeps-finally, keeps_rules,
}
use kace.Effects.Ending.{Keeps-Anywhere, Triple-ok, Triple-err}
use kace.Boards.{BuildTarget}
use kace.Contract.{DeploymentPlan}
use kace.Executor.Session.{MediaCandidate, ContractDeploymentSession}
use kace.Executor.Steps.{change, Executor, Stage}
use kace.Executor.Media.{
  check_escape, present, refresh_same, choose_medium, check_again, copy_firmware, read_back,
  eject_medium, fill_media, media_failed, start_session, prepare_media,
}
use kace.Executor.Gate.{}
use kace.Executor.Rules.{
  On, Any, Triple-outside, Keeps-outside, Triple-change, Keeps-change, Keeps-raise_proved,
  Keeps-clock_text, Keeps-emit_state, Keeps-close_quietly, stage_rules,
}
use kace.Executor.History.{
  HasHistory, OnPath, outside-OnPath, transition-OnPath, fail_session-OnPath, start, session-known,
  fail_transition-OnPath,
}

module _ {W : Type 0} (executor : Executor W) where
  pub change-OnPath :
      (f : ContractDeploymentSession → ContractDeploymentSession)
      → ((x : ContractDeploymentSession) → HasHistory x → HasHistory (f x))
      → Keeps (OnPath {W = W}) (change f)
  change-OnPath f h = Keeps-change f h

  present-OnPath :
      (gone : String) (o : Option MediaCandidate) → Keeps OnPath (present executor gone o)
  unfolding present
  present-OnPath gone none = Keeps-raise _
  present-OnPath gone (some medium) = Keeps-pure medium

  pub refresh_same-OnPath :
      (medium : MediaCandidate) (gone changed : String)
      → Keeps OnPath (refresh_same executor medium gone changed)
  unfolding refresh_same
  refresh_same-OnPath medium gone changed = search (outside-OnPath, present-OnPath, keeps_rules)

pub kept :
    {W A : Type 0} {m : Exec (Stage W) A}
    → Keeps OnPath m
    → {s s' : Stage W} → HasHistory s.session
    → (r : Result A) → m s ≡ (r, s')
    → HasHistory s'.session
kept k h (ok a) e = (Triple-ok k.triple (record { session = h; world = tt }) e).session
kept k h (err x) e = (Triple-err k.triple (record { session = h; world = tt }) e).session

pub ruleset path_rules = (
  change-OnPath, outside-OnPath, refresh_same-OnPath, transition-OnPath, fail_session-OnPath,
  Keeps-raise_proved, keeps_rules,
)

module _ {W : Type 0} (executor : Executor W) where
  choose_medium-OnPath :
      (plan : DeploymentPlan) (target : BuildTarget) (id : String)
      → Keeps OnPath (choose_medium executor plan target id)
  unfolding choose_medium
  choose_medium-OnPath plan target id = search path_rules depth 30

  check_again-OnPath :
      (plan : DeploymentPlan) (target : BuildTarget) (medium : MediaCandidate)
      → Keeps OnPath (check_again executor plan target medium)
  unfolding check_again check_escape
  check_again-OnPath plan target medium = search path_rules depth 30

  copy_firmware-OnPath :
      (plan : DeploymentPlan) (target : BuildTarget) (medium : MediaCandidate)
      → Keeps OnPath (copy_firmware executor plan target medium)
  unfolding copy_firmware
  copy_firmware-OnPath plan target medium = search path_rules depth 30

  read_back-OnPath :
      (plan : DeploymentPlan) (destination : String)
      → Keeps OnPath (read_back executor plan destination)
  unfolding read_back
  read_back-OnPath plan destination = search path_rules depth 30

  eject_medium-OnPath : (medium : MediaCandidate) → Keeps OnPath (eject_medium executor medium)
  unfolding eject_medium
  eject_medium-OnPath medium = search path_rules depth 30

  fill_media-OnPath :
      (plan : DeploymentPlan) (target : BuildTarget) (id : String)
      → Keeps OnPath (fill_media executor plan target id)
  unfolding fill_media
  fill_media-OnPath plan target id =
      search
        (
          choose_medium-OnPath, check_again-OnPath, copy_firmware-OnPath, read_back-OnPath,
          eject_medium-OnPath, keeps_rules,
        )
        depth 30

  media_failed-OnPath : {A : Type 0} (e : Exc) → Keeps OnPath (media_failed executor {A = A} e)
  unfolding media_failed
  media_failed-OnPath e = fail_session-OnPath executor e _ _

  start_session-OnPath : (plan : DeploymentPlan) → Keeps OnPath (start_session executor plan)
  unfolding start_session
  start_session-OnPath plan = Keeps-bind _ _ (Keeps-clock_text executor (λ w p. tt)) λ started.
      Keeps-bind _ _ (Keeps-clock_text executor (λ w p. tt)) λ at.
        Keeps-bind _ _ (Keeps-change _ (λ x h. start at _))
          λ _. Keeps-emit_state executor (λ e. Keeps-Anywhere _) _

  pub prepare_media-OnPath :
      (plan : DeploymentPlan) (id : String) → Keeps OnPath (prepare_media executor plan id)
  unfolding prepare_media
  prepare_media-OnPath plan id =
      search
        (outside-OnPath, start_session-OnPath, fill_media-OnPath, media_failed-OnPath, keeps_rules)
        depth 12
