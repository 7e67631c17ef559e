-- ===== src/Power/Confirmed.antt =====
-- A confirmed command is one that the relay has carried out; reading never switches it.
use kace.Prelude.{
  ◌<◌, Bool, arith, true, false, ℕ, Option, none, some, ◌≡◌, refl, ap, ◌∙◌, zero, suc, ◌⊎◌,
}
use kace.Effects.{Exec, Result, ok, err, ◌>>=◌}
use kace.Effects.Triples.{
  Triple, Triple-pure, Triple-raise, Triple-gets, Triple-bind, Triple-if, Triple-attempt,
}
use kace.Effects.Keeping.{
  Keeps, Keeps-bind, Keeps-if, Keeps-gets, Keeps-pure, Keeps-raise, Keeps-attempt,
}
use kace.Effects.Ending.{
  Ends, Anywhere, Ends-pure, Ends-raise, Ends-Anywhere, Ends-if, Ends-then, Ends-bind, Ends-try,
  Keeps-Anywhere, Triple-ok, Triple-err,
}
use kace.Power.{
  MoonrakerPowerController, DeviceStatus, on, off, init, error, Action, turn_on, turn_off, unknown,
  ManualPowerResult, find_status, status_in, get_status, reaches, set_and_confirm, request,
  request_failed, refresh, refresh_failed, is_power_failure, power_state, confirm_loop, is_error,
  ready_loop, wait_until_ready,
}

-- The status that an action asks for.
abbrev pub wanted : Action → DeviceStatus
wanted turn_on = on
wanted turn_off = off

module _ {W : Type 0} (controller : MoonrakerPowerController W) where
  -- A read that tells the device's status tells the relay's at its end.
  abbrev pub TellsStatus : (W → DeviceStatus) → Type 0
  TellsStatus relay =
      Ends Anywhere
        (λ answer w.
          (status : DeviceStatus)
          → find_status controller.device answer.2 ≡ some status
          → relay w ≡ status)
        controller.api.get_power_devices

  module _ (relay : W → DeviceStatus) (tells : TellsStatus relay) where
    status_in-Ends :
        (o : Option DeviceStatus)
        → Ends
            (λ w. (status : DeviceStatus) → o ≡ some status → relay w ≡ status)
            (λ status w. relay w ≡ status)
            (status_in controller o)
    unfolding status_in
    status_in-Ends none = Ends-raise _
    status_in-Ends (some status) = Ends-pure status (λ w h. h status refl)

    get_status-Ends : Ends Anywhere (λ status w. relay w ≡ status) (get_status controller)
    unfolding get_status
    get_status-Ends = Ends-then _ _ tells λ answer.
        Ends-if (answer.0) _ _ (status_in-Ends (find_status controller.device answer.2))
          (Ends-raise _)

    -- What a confirmed result says, as a condition on the end.
    abbrev IfConfirmed : Action → ManualPowerResult → W → Type 0
    IfConfirmed action r w =
        r.confirmed ≡ true → (relay w ≡ wanted action) × (r.state ≡ power_state (wanted action))

    reaches-wanted :
        (status : DeviceStatus) (action : Action)
        → reaches status action ≡ true
        → status ≡ wanted action
    reaches-wanted on turn_on h = refl
    reaches-wanted off turn_off h = refl
    reaches-wanted on turn_off h = absurd (cc h)
    reaches-wanted off turn_on h = absurd (cc h)
    reaches-wanted init turn_on h = absurd (cc h)
    reaches-wanted init turn_off h = absurd (cc h)
    reaches-wanted error turn_on h = absurd (cc h)
    reaches-wanted error turn_off h = absurd (cc h)

    request-IfConfirmed :
        (action : Action) (timeout : ℕ)
        → Ends Anywhere (IfConfirmed action) (request controller action timeout)
    unfolding request request_failed
    request-IfConfirmed action timeout =
        Ends-try is_power_failure _ _ _ (Ends-bind _ _ (Keeps-Anywhere _) (λ _. get_status-Ends))
          (λ e. Ends-bind _ _ (Keeps-Anywhere _) λ at. Ends-pure _ (λ w _ h. absurd (cc h)))
          λ observed.
            Ends-then {R = λ _ w. relay w ≡ observed} _ _
              (record { triple = Triple-gets _ (λ w h. h) })
              λ at. Ends-pure _ λ w seen h.
                let same : observed ≡ wanted action = reaches-wanted observed action h in
                (seen ∙ same, ap power_state same)

    confirm_loop-Ends :
        (action : Action) (fuel deadline : ℕ)
        → Ends Anywhere
            (λ status w. relay w ≡ wanted action)
            (confirm_loop controller action fuel deadline)
    unfolding confirm_loop
    confirm_loop-Ends action zero deadline = Ends-raise _
    confirm_loop-Ends action (suc fuel) deadline = Ends-then _ _ get_status-Ends λ status. record {
      triple =
          Triple-if (reaches status action) _ _
            (λ reached. Triple-pure status (λ w seen. seen ∙ reaches-wanted status action reached))
            (λ _.
              (Ends-if (is_error status) _ _ (Ends-raise _) (
                Ends-Anywhere _ (
                  Ends-bind _ _ (Keeps-Anywhere _)
                    (λ _. confirm_loop-Ends action fuel deadline)))).triple);
    }

    set_and_confirm-Ends :
        (action : Action) (timeout : ℕ)
        → Ends Anywhere
            (λ status w. relay w ≡ wanted action)
            (set_and_confirm controller action timeout)
    unfolding set_and_confirm
    set_and_confirm-Ends action timeout = Ends-bind _ _ (Keeps-Anywhere _) λ _.
        Ends-bind _ _ (Keeps-Anywhere _) λ answer.
          Ends-if (answer.0) _ _
            (Ends-bind _ _ (Keeps-Anywhere _) (λ time. confirm_loop-Ends action _ _)) (Ends-raise _)

    -- A result of `request_on` or `request_off` that is confirmed is true: at the end the relay has
    -- the requested status, and the result's state says so. It is assumed that a status told by
    -- Moonraker is the relay's.
    pub request_confirmed :
        (action : Action) (timeout : ℕ) (w w' : W) (r : ManualPowerResult)
        → request controller action timeout w ≡ (ok r, w')
        → r.confirmed ≡ true
        → (relay w' ≡ wanted action) × (r.state ≡ power_state (wanted action))
    request_confirmed action timeout w w' r e =
        Triple-ok (request-IfConfirmed action timeout).triple tt e

    -- `power_on` and `power_off` return only with the relay in the requested status, under the
    -- same condition on what Moonraker tells.
    pub set_and_confirm_reached :
        (action : Action) (timeout : ℕ) (w w' : W) (status : DeviceStatus)
        → set_and_confirm controller action timeout w ≡ (ok status, w')
        → relay w' ≡ wanted action
    set_and_confirm_reached action timeout w w' status e =
        Triple-ok (set_and_confirm-Ends action timeout).triple tt e

  module _ (P : W → Type 0) (reads : Keeps P controller.api.get_power_devices) where
    status_in-Keeps : (o : Option DeviceStatus) → Keeps P (status_in controller o)
    unfolding status_in
    status_in-Keeps none = Keeps-raise _
    status_in-Keeps (some status) = Keeps-pure status

    get_status-Keeps : Keeps P (get_status controller)
    unfolding get_status
    get_status-Keeps =
        Keeps-bind _ _ reads λ answer. Keeps-if (answer.0) _ _ (status_in-Keeps _) (Keeps-raise _)

    refresh-Keeps : Keeps P (refresh controller)
    unfolding refresh refresh_failed
    refresh-Keeps =
        Keeps-attempt _ _ _ _ get_status-Keeps
          (λ e. Keeps-bind _ _ (Keeps-gets _) (λ at. Keeps-pure _))
          (λ raw. Keeps-bind _ _ (Keeps-gets _) (λ at. Keeps-pure _))

    -- A refresh, however it ends, keeps every predicate on the world that reading the devices
    -- keeps: it switches nothing.
    pub refresh_switches_nothing :
        (w w' : W) (r : Result ManualPowerResult) → P w → refresh controller w ≡ (r, w') → P w'
    refresh_switches_nothing w w' (ok r) p e = Triple-ok refresh-Keeps.triple p e
    refresh_switches_nothing w w' (err x) p e = Triple-err refresh-Keeps.triple p e

  module _ (P : W → Type 0) where
    -- With a Power API that tells nothing of the device, every attempt to read its status fails.
    abbrev pub TellsNothing : Type 0
    TellsNothing =
        Triple P controller.api.get_power_devices
          (λ answer w. P w × ((answer.0 ≡ false) ⊎ (find_status controller.device answer.2 ≡ none)))
          (λ e w. P w × (is_power_failure e ≡ true))

    module _ (silent : TellsNothing) where
      -- Ends in a failure that the facade reports, with the world's condition kept.
      abbrev Fails : {A : Type 0} → Exec W A → Type 0
      Fails {A} m = Triple P m (λ (_ : A) _. ⊥) (λ e w. P w × (is_power_failure e ≡ true))

      status_in-Fails :
          (o : Option DeviceStatus) (b : Bool)
          → b ≡ true
          → Triple
              (λ w. P w × ((b ≡ false) ⊎ (o ≡ none)))
              (status_in controller o)
              (λ (_ : DeviceStatus) _. ⊥)
              (λ e w. P w × (is_power_failure e ≡ true))
      unfolding status_in
      status_in-Fails none b h = Triple-raise _ (λ w p. (p.0, refl))
      status_in-Fails (some status) b h = Triple-pure status (λ w p. ground (arith, p.1, h))

      get_status-Fails : Fails (get_status controller)
      unfolding get_status
      get_status-Fails = Triple-bind _ _ silent λ answer.
          Triple-if (answer.0) _ _ (λ told. status_in-Fails _ (answer.0) told)
            (λ _. Triple-raise _ (λ w p. (p.0, refl)))

      -- What follows a failure does not run.
      Fails-then : {A B : Type 0} (m : Exec W A) (k : A → Exec W B) → Fails m → Fails (m >>= k)
      Fails-then m k h = Triple-bind m k h (λ a. record { at = λ w p. absurd p })

      ready_loop-Fails :
          (fuel deadline : ℕ) → 0 < fuel → Fails (ready_loop controller fuel deadline)
      unfolding ready_loop
      ready_loop-Fails zero deadline h = absurd (omega arith)
      ready_loop-Fails (suc fuel) deadline h = Fails-then _ _ get_status-Fails

      set_and_confirm-Fails :
          (action : Action) (timeout : ℕ) → Fails (set_and_confirm controller action timeout)
      unfolding set_and_confirm wait_until_ready
      set_and_confirm-Fails action timeout = Fails-then _ _ (
          Triple-bind {R = λ _. P} _ _ (Triple-gets _ (λ w p. p))
            λ time. ready_loop-Fails _ _ (omega arith))

      -- The answer to a request that could not be carried out.
      abbrev pub IsUnknown : Action → ManualPowerResult → Type 0
      IsUnknown action r =
          (r.state ≡ unknown) × (r.confirmed ≡ false) × (r.requested_action ≡ some action)

      request-IsUnknown :
          (action : Action) (timeout : ℕ)
          → Triple P
              (request controller action timeout)
              (λ r w. P w × IsUnknown action r)
              (λ _ _. ⊥)
      unfolding request request_failed
      request-IsUnknown action timeout =
          Triple-attempt is_power_failure _ _ _
            (Fails-then _ _ (set_and_confirm-Fails action timeout))
            (λ r. record { at = λ w p. absurd p })
            (λ e caught.
              Triple-bind {R = λ _. P} _ _ (Triple-gets _ (λ w p. p.0))
                λ at. Triple-pure _ (λ w p. (p, (refl, refl, refl))))
            (λ e w uncaught p. ground (arith, uncaught, p.1))

      -- While the Power API tells nothing of the device, as where it is down or does not list the
      -- device, every request ends with an unconfirmed result in the state UNKNOWN that names the
      -- action, and without a command to the relay: every predicate on the world that such reading
      -- keeps still holds. The condition on the API is that its answer has no status of the device,
      -- or that its call raises PowerControllerError, OSError or TimeoutError.
      pub request_silent :
          (action : Action) (timeout : ℕ) (w w' : W) (r : Result ManualPowerResult)
          → P w
          → request controller action timeout w ≡ (r, w')
          → P w' × ((result : ManualPowerResult) × (r ≡ ok result) × IsUnknown action result)
      request_silent action timeout w w' (ok result) p e =
          let h = Triple-ok (request-IsUnknown action timeout) p e in (h.0, (result, refl, h.1))
      request_silent action timeout w w' (err x) p e =
          absurd (Triple-err (request-IsUnknown action timeout) p e)
