-- ===== src/Executor/Ready.antt =====
-- What a returned session has that is ready for the power cycle.
use kace.Prelude.{true, String, str_eq_iff, Option, none, some, ◌≡◌, refl, ◌∙◌, arith}
use kace.Effects.{is_exception, ExecutionErrorType, Exc}
use kace.Effects.Triples.{Triple-gets, Triple-weaken}
use kace.Effects.Keeping.{Keeps, Keeps-pure, Keeps-gets, Keeps-raise, keeps_rules}
use kace.Effects.Ending.{
  Ends, Anywhere, Ends-raise, Ends-then, Ends-bind, Ends-require, Ends-try, Ends-Keeps,
  Keeps-Anywhere,
}
use kace.Boards.{BuildTarget}
use kace.Contract.{DeploymentPlan}
use kace.Executor.Session.{
  ContractDeploymentState, waiting_for_manual_power_cycle, eject_done, MediaCandidate,
  SafeEjectStatus, SafeEjectResult, ContractDeploymentSession,
}
use kace.Executor.Steps.{Executor, Stage, change, transition, fail_session, raise_proved}
use kace.Executor.Media.{
  present, refresh_same, choose_medium, check_again, check_escape, copy_firmware, read_back,
  eject_medium, media_failed, fill_media, select, start_session, prepare_media, is_eject_done,
}
use kace.Executor.Gate.{}
use kace.Executor.Rules.{On, Any, Triple-change, Keeps-change, Keeps-emit_state}
use kace.Executor.Steady.{
  IsSteady, At, outside-Keeps, change-Ends, transition-Keeps, transition-Ends,
}

-- The session of a plan before the manual gate.
abbrev Fresh : DeploymentPlan → ContractDeploymentSession → Type 0
Fresh plan x = x.plan ≡ plan

-- The copy on the medium was read back and has the size and the hash of the plan.
abbrev pub IsReadBack : DeploymentPlan → ContractDeploymentSession → Type 0
IsReadBack plan x =
    (x.plan ≡ plan)
    × (x.media_readback_size ≡ plan.artifact.size_bytes)
    × (x.media_readback_hash ≡ plan.transformation.final_sha256)

-- The medium was unmounted, too.
abbrev pub IsReady : DeploymentPlan → ContractDeploymentSession → Type 0
IsReady plan x =
    IsReadBack plan x
    × ((result : SafeEjectResult) × (x.safe_eject ≡ some result) × (result.status ≡ eject_done))

Fresh-IsSteady : (plan : DeploymentPlan) → IsSteady (Fresh plan)
Fresh-IsSteady plan = record { entered = λ b at detail x h. h; finished = λ end x h. h }

IsReadBack-IsSteady : (plan : DeploymentPlan) → IsSteady (IsReadBack plan)
IsReadBack-IsSteady plan = record { entered = λ b at detail x h. h; finished = λ end x h. h }

IsReady-IsSteady : (plan : DeploymentPlan) → IsSteady (IsReady plan)
IsReady-IsSteady plan = record { entered = λ b at detail x h. h; finished = λ end x h. h }

module _ {W : Type 0} (executor : Executor W) (plan : DeploymentPlan) where
  present-Fresh :
      (gone : String) (o : Option MediaCandidate)
      → Keeps (On (Fresh plan) Any) (present executor gone o)
  unfolding present
  present-Fresh gone none = Keeps-raise _
  present-Fresh gone (some medium) = Keeps-pure medium

  refresh_same-Fresh :
      (medium : MediaCandidate) (gone changed : String)
      → Keeps (On (Fresh plan) Any) (refresh_same executor medium gone changed)
  unfolding refresh_same
  refresh_same-Fresh medium gone changed =
      search (outside-Keeps, present-Fresh, keeps_rules) depth 10

  transition-Fresh :
      (b : ContractDeploymentState) (detail : String)
      → Keeps (On (Fresh plan) Any) (transition executor b detail)
  transition-Fresh = transition-Keeps executor (Fresh-IsSteady plan)

  select-Fresh :
      (medium : MediaCandidate) → Keeps (On {W = W} (Fresh plan) Any) (change (select medium))
  select-Fresh medium = Keeps-change _ (λ x h. h)

  choose_medium-Fresh :
      (target : BuildTarget) (id : String)
      → Keeps (On (Fresh plan) Any) (choose_medium executor plan target id)
  unfolding choose_medium
  choose_medium-Fresh target id =
      search (outside-Keeps, refresh_same-Fresh, transition-Fresh, select-Fresh, keeps_rules) depth
        30

  check_again-Fresh :
      (target : BuildTarget) (medium : MediaCandidate)
      → Keeps (On (Fresh plan) Any) (check_again executor plan target medium)
  unfolding check_again check_escape
  check_again-Fresh target medium =
      search (outside-Keeps, refresh_same-Fresh, select-Fresh, keeps_rules) depth 30

  copy_firmware-Fresh :
      (target : BuildTarget) (medium : MediaCandidate)
      → Keeps (On (Fresh plan) Any) (copy_firmware executor plan target medium)
  unfolding copy_firmware
  copy_firmware-Fresh target medium =
      search (outside-Keeps, refresh_same-Fresh, transition-Fresh, select-Fresh, keeps_rules) depth
        30

  read_back-Ends :
      (destination : String)
      → Ends
          (On (Fresh plan) Any)
          (λ _. On (IsReadBack plan) Any)
          (read_back executor plan destination)
  unfolding read_back
  read_back-Ends destination = Ends-bind _ _ (Keeps-gets _) λ there. Ends-require _ _ λ _.
      Ends-bind _ _ (outside-Keeps _) λ size.
        Ends-then _ _
          (change-Ends {R' = λ x. (x.plan ≡ plan) × (x.media_readback_size ≡ size)} _
            (λ x h. (h, refl)))
          λ _. Ends-bind _ _ (outside-Keeps _) λ digest.
            Ends-then _ _
              (change-Ends
                {R' = λ x.
                  (x.plan ≡ plan)
                  × (x.media_readback_size ≡ size)
                  × (x.media_readback_hash ≡ digest)}
                _ (λ x h. (h.0, h.1, refl)))
              λ _. Ends-require _ _ λ all. record {
                triple =
                    Triple-weaken (transition-Keeps executor (IsReadBack-IsSteady plan) _ _).triple
                      (λ s p. record {
                        session = (
                          p.session.0,
                          ground (arith, p.session.1, all.0),
                          p.session.2 ∙ (str_eq_iff _ _).0 (all.1.0),
                        );
                        world = tt;
                      })
                      (λ _ s p. p) (λ e s p. tt);
              }

  is_eject_done-done :
      (status : SafeEjectStatus) → is_eject_done status ≡ true → status ≡ eject_done
  is_eject_done-done status h = ground arith

  eject_medium-Ends :
      (medium : MediaCandidate)
      → Ends
          (On (IsReadBack plan) Any)
          (λ _. On (At waiting_for_manual_power_cycle (IsReady plan)) Any)
          (eject_medium executor medium)
  unfolding eject_medium
  eject_medium-Ends medium = Ends-bind _ _ (outside-Keeps _) λ result.
      Ends-then _ _
        (change-Ends {R' = λ x. IsReadBack plan x × (x.safe_eject ≡ some result)} _
          (λ x h. (h, refl)))
        λ _. Ends-require _ _ λ all.
          Ends-then {R = λ _. On (IsReady plan) Any} _ _
            (record {
              triple =
                  Triple-weaken (transition-Keeps executor (IsReady-IsSteady plan) _ _).triple
                    (λ s p. record {
                      session = (
                        p.session.0,
                        (result, p.session.1, is_eject_done-done result.status all.0),
                      );
                      world = tt;
                    })
                    (λ _ s p. p) (λ e s p. tt);
            })
            λ _. transition-Ends executor (IsReady-IsSteady plan) _ _

  fill_media-Ends :
      (target : BuildTarget) (id : String)
      → Ends
          (On (Fresh plan) Any)
          (λ _. On (At waiting_for_manual_power_cycle (IsReady plan)) Any)
          (fill_media executor plan target id)
  unfolding fill_media
  fill_media-Ends target id = Ends-bind _ _ (choose_medium-Fresh target id) λ first.
      Ends-bind _ _ (check_again-Fresh target first) λ medium.
        Ends-bind _ _ (copy_firmware-Fresh target medium)
          λ after. Ends-then _ _ (read_back-Ends _) (λ _. eject_medium-Ends after)

module _ {W : Type 0} (executor : Executor W) where
  -- `_fail` does not return.
  pub fail_session-Ends :
      {A : Type 0} {Q : A → Stage W → Type 0} (e : Exc) (type : ExecutionErrorType) (code : String)
      → Ends Anywhere Q (fail_session executor {A = A} e type code)
  unfolding fail_session raise_proved
  fail_session-Ends e type code = Ends-bind _ _ (Keeps-Anywhere _) λ _.
      Ends-bind _ _ (Keeps-Anywhere _) λ x. Ends-bind _ _ (Keeps-Anywhere _) λ _.
        Ends-bind _ _ (Keeps-Anywhere _) λ _. Ends-bind _ _ (Keeps-Anywhere _) λ _. Ends-raise _

  start_session-Ends :
      (plan : DeploymentPlan)
      → Ends Anywhere (λ _. On (Fresh plan) Any) (start_session executor plan)
  unfolding start_session
  start_session-Ends plan = Ends-bind _ _ (Keeps-Anywhere _) λ started.
      Ends-bind _ _ (Keeps-Anywhere _) λ at.
        Ends-then {R = λ _. On (Fresh plan) Any} _ _
          (record {
            triple =
                Triple-weaken {P = On Any Any} (Triple-change _ (λ x h. refl))
                  (λ s p. record { session = tt; world = tt }) (λ _ s p. p) (λ e s p. p);
          })
          λ _. Ends-Keeps _ (Keeps-emit_state executor (λ e. Keeps-Anywhere _) _) (λ _ s p. p)

  pub prepare_media-Ends :
      (plan : DeploymentPlan) (id : String)
      → Ends Anywhere
          (λ x s. (s.session ≡ x) × At waiting_for_manual_power_cycle (IsReady plan) x)
          (prepare_media executor plan id)
  unfolding prepare_media media_failed
  prepare_media-Ends plan id = Ends-bind _ _ (Keeps-Anywhere _) λ target.
      Ends-bind _ _ (Keeps-Anywhere _) λ _. Ends-then _ _ (start_session-Ends plan) λ _.
        Ends-try is_exception _ _ _ (fill_media-Ends executor plan target id)
          (λ e. fail_session-Ends e _ _)
          λ _. record { triple = Triple-gets _ (λ s p. (refl, p.session)) }
