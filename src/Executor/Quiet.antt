-- ===== src/Executor/Quiet.antt =====
-- What every part of `prepare_media` but the copy keeps.
use kace.Prelude.{ℕ, Bool, String, Option, none, some, List, [], ◌∷◌}
use kace.Effects.{Exc}
use kace.Effects.Triples.{}
use kace.Effects.Keeping.{Keeps, Keeps-pure, Keeps-bind, Keeps-raise, Keeps-require, keeps_rules}
use kace.Boards.{BuildTarget, BoardContract}
use kace.Contract.{DeploymentPlan}
use kace.Executor.Session.{MediaCandidate, ContractDeploymentSession}
use kace.Executor.Steps.{
  Executor, Event, Stage, change, clock_text, emit_state, transition, record_state, close_quietly,
  fail_session,
}
use kace.Contract.Validated.{validate-Keeps}
use kace.Executor.Checks.{
  validate_against, validate_plan, sha256_file, verify_file, verify_artifacts, select_media, only,
  verify_media,
}
use kace.Executor.Media.{
  present, refresh_same, choose_medium, read_back, eject_medium, start_session,
}
use kace.Executor.Rules.{
  On, Any, Keeps-outside, Keeps-change, Keeps-raise_proved, Keeps-clock_text, Keeps-emit_state,
  Keeps-close_quietly,
}

-- Every port but `copy` keeps the condition.
pub record IsQuiet {W : Type 0} (executor : Executor W) (P : W → Type 0) : Type 0 where
  pub listed : Keeps P executor.ports.list_candidates
  pub refreshed : (m : MediaCandidate) → Keeps P (executor.ports.refresh m)
  pub unmounted : (m : MediaCandidate) → Keeps P (executor.ports.eject m)
  pub armed : Keeps P executor.ports.arm
  pub closed : Keeps P executor.ports.close
  pub sunk : (e : Event) → Keeps P (executor.ports.event_sink e)
  pub ticked : (w : W) → P w → P (executor.ports.clock w).1
  pub sized : (path : String) → Keeps P (executor.ports.file_size path)
  pub digested : (path : String) → Keeps P (executor.ports.file_digest path)

module _ {W : Type 0} (executor : Executor W) where
  module _ (P : W → Type 0) (quiet : IsQuiet executor P) where
    -- The condition on a stage.
    abbrev OnWorld : Stage W → Type 0
    OnWorld = On Any P

    pub inside-OnWorld :
        (f : ContractDeploymentSession → ContractDeploymentSession) → Keeps OnWorld (change f)
    inside-OnWorld f = Keeps-change f (λ x h. tt)

    emit_state-OnWorld : (detail : String) → Keeps OnWorld (emit_state executor detail)
    emit_state-OnWorld detail = Keeps-emit_state executor quiet.sunk detail

    clock_text-OnWorld : Keeps OnWorld (clock_text executor)
    clock_text-OnWorld = Keeps-clock_text executor quiet.ticked

    close-OnWorld : Keeps OnWorld (close_quietly executor)
    close-OnWorld = Keeps-close_quietly executor quiet.closed

    pub transition-OnWorld :
        (b : _) (detail : String) → Keeps OnWorld (transition executor b detail)
    unfolding transition record_state
    transition-OnWorld b detail =
        search (clock_text-OnWorld, inside-OnWorld, emit_state-OnWorld, keeps_rules) depth 14

    pub fail_session-OnWorld :
        {A : Type 0} (e : Exc) (type : _) (code : String)
        → Keeps OnWorld (fail_session executor {A = A} e type code)
    unfolding fail_session
    fail_session-OnWorld e type code =
        search (inside-OnWorld, transition-OnWorld, close-OnWorld, Keeps-raise_proved, keeps_rules)
          depth 12

    validate_against-Keeps :
        (plan : DeploymentPlan) (o : Option BoardContract)
        → Keeps P (validate_against executor plan o)
    unfolding validate_against
    validate_against-Keeps plan none = Keeps-raise _
    validate_against-Keeps plan (some contract) =
        search (validate-Keeps executor.library, keeps_rules) depth 8

    pub validate_plan-Keeps : (plan : DeploymentPlan) → Keeps P (validate_plan executor plan)
    unfolding validate_plan
    validate_plan-Keeps plan = validate_against-Keeps plan _

    sha256_file-Keeps : (path : String) → Keeps P (sha256_file executor path)
    unfolding sha256_file
    sha256_file-Keeps path = search (quiet.digested, keeps_rules) depth 8

    pub verify_artifacts-Keeps : (plan : DeploymentPlan) → Keeps P (verify_artifacts executor plan)
    unfolding verify_artifacts verify_file
    verify_artifacts-Keeps plan = search (sha256_file-Keeps, quiet.sized, keeps_rules) depth 30

    only-Keeps :
        (cs : List MediaCandidate) (code text : String) → Keeps P (only executor cs code text)
    unfolding only
    only-Keeps [] code text = Keeps-raise _
    only-Keeps (c ∷ []) code text = Keeps-pure c
    only-Keeps (c ∷ d ∷ cs) code text = Keeps-raise _

    select_media-Keeps :
        (cs : List MediaCandidate) (id : String) → Keeps P (select_media executor cs id)
    unfolding select_media
    select_media-Keeps [] id = Keeps-raise _
    select_media-Keeps (c ∷ cs) id = search (only-Keeps, keeps_rules)

    pub verify_media-Keeps :
        (medium : MediaCandidate) (target : BuildTarget) (size : ℕ) (space : Bool)
        → Keeps P (verify_media executor medium target size space)
    unfolding verify_media
    verify_media-Keeps medium target size space = search keeps_rules

    present-OnWorld :
        (gone : String) (o : Option MediaCandidate) → Keeps OnWorld (present executor gone o)
    unfolding present
    present-OnWorld gone none = Keeps-raise _
    present-OnWorld gone (some medium) = Keeps-pure medium

    pub refresh_same-OnWorld :
        (medium : MediaCandidate) (gone changed : String)
        → Keeps OnWorld (refresh_same executor medium gone changed)
    unfolding refresh_same
    refresh_same-OnWorld medium gone changed =
        search (Keeps-outside, quiet.refreshed, present-OnWorld, keeps_rules) depth 10

    pub choose_medium-OnWorld :
        (plan : DeploymentPlan) (target : BuildTarget) (id : String)
        → Keeps OnWorld (choose_medium executor plan target id)
    unfolding choose_medium
    choose_medium-OnWorld plan target id = Keeps-bind _ _ (Keeps-require _) λ _.
        Keeps-bind _ _ (Keeps-outside _ quiet.armed) λ _.
          Keeps-bind _ _ (Keeps-outside _ quiet.listed) λ candidates.
            Keeps-bind _ _ (Keeps-outside _ (select_media-Keeps candidates id)) λ selected.
              search
                (
                  Keeps-outside, inside-OnWorld, transition-OnWorld, verify_media-Keeps,
                  refresh_same-OnWorld, keeps_rules,
                )
                depth 20

    pub read_back-OnWorld :
        (plan : DeploymentPlan) (destination : String)
        → Keeps OnWorld (read_back executor plan destination)
    unfolding read_back
    read_back-OnWorld plan destination =
        search
          (
            Keeps-outside, quiet.sized, sha256_file-Keeps, inside-OnWorld, transition-OnWorld,
            keeps_rules,
          )
          depth 30

    pub eject_medium-OnWorld :
        (medium : MediaCandidate) → Keeps OnWorld (eject_medium executor medium)
    unfolding eject_medium
    eject_medium-OnWorld medium =
        search (Keeps-outside, quiet.unmounted, inside-OnWorld, transition-OnWorld, keeps_rules)
          depth 20

    pub start_session-OnWorld :
        (plan : DeploymentPlan) → Keeps OnWorld (start_session executor plan)
    unfolding start_session
    start_session-OnWorld plan =
        search (clock_text-OnWorld, inside-OnWorld, emit_state-OnWorld, keeps_rules) depth 10
