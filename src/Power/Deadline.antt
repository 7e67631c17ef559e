-- ===== src/Power/Deadline.antt =====
-- The rounds of waiting for the relay: the fuel is enough where sleeping takes its time.
use kace.Prelude.{ℕ, zero, suc, ◌+◌, ◌≤◌, ◌<◌, leb, ◌≡◌, ◌≢◌, Option, none, some, arith}
use kace.Effects.{Exc, unfinished, Result, ok, err, Exec, gets, ◌>>=◌, ◌>>◌}
use kace.Effects.Triples.{
  Triple, Triple-pure, Triple-raise, Triple-gets, Triple-modify, Triple-if, Triple-bind,
}
use kace.Effects.Ending.{Triple-err}
use kace.Power.{
  MoonrakerPowerController, DeviceStatus, Action, status_in, get_status, now, expire, ready_loop,
  wait_until_ready, confirm_loop, set_and_confirm, reaches, is_error, is_init,
}

-- The clock does not go back, `time.sleep` takes at least its time, and the API's calls end.
pub record IsTimely {W : Type 0} (controller : MoonrakerPowerController W) : Type 0 where
  pub slept : (d : ℕ) (w : W) → now controller w + d ≤ now controller (controller.api.sleep d w)
  pub read :
      (n : ℕ)
      → Triple
          (λ w. n ≤ now controller w)
          controller.api.get_power_devices
          (λ _ w. n ≤ now controller w)
          (λ e _. e ≢ unfinished)
  pub switched :
      (action : Action)
      → Triple
          (λ _. Unit {0})
          (controller.api.set_power_device controller.device action)
          (λ _ _. Unit {0})
          (λ e _. e ≢ unfinished)
  pub polls : 0 < controller.poll_interval

module _ {W : Type 0} (controller : MoonrakerPowerController W) (timely : IsTimely controller) where
  -- Ends, from any world at or after `n`.
  abbrev From : {A : Type 0} → ℕ → Exec W A → Type 0
  From n m = Triple (λ w. n ≤ now controller w) m (λ _ _. Unit {0}) (λ e _. e ≢ unfinished)

  status_in-Triple :
      (n : ℕ) (o : Option DeviceStatus)
      → Triple
          (λ w. n ≤ now controller w)
          (status_in controller o)
          (λ _ w. n ≤ now controller w)
          (λ e _. e ≢ unfinished)
  unfolding status_in
  status_in-Triple n none = Triple-raise _ (λ w p h. cc h)
  status_in-Triple n (some status) = Triple-pure status (λ w p. p)

  get_status-Triple :
      (n : ℕ)
      → Triple
          (λ w. n ≤ now controller w)
          (get_status controller)
          (λ _ w. n ≤ now controller w)
          (λ e _. e ≢ unfinished)
  unfolding get_status
  get_status-Triple n = Triple-bind _ _ (timely.read n) λ answer.
      Triple-if (answer.0) _ _ (λ _. status_in-Triple n _) (λ _. Triple-raise _ (λ w p h. cc h))

  -- A round that goes on was before the deadline and ends after its beginning.
  expire_then :
      {A : Type 0} (e : Exc) (n deadline : ℕ) (m : Exec W A)
      → e ≢ unfinished
      → ((time : ℕ) → n ≤ time → time < deadline → From (time + 1) m)
      → From n (expire controller e deadline >> m)
  unfolding expire
  expire_then e n deadline m ne h =
      Triple-bind
        {R = λ _ w. (time : ℕ) × (n ≤ time) × (time < deadline) × (time + 1 ≤ now controller w)} _ _
        (Triple-bind _ _
          (Triple-gets {Q = λ time w. (n ≤ time) × (time ≤ now controller w)} _
            (λ w p. (p, omega arith)))
          λ time.
            Triple-if (leb deadline time) _ _ (λ _. Triple-raise e (λ w p. ne))
              (λ early. Triple-modify _ (λ w p. (
                time,
                p.0,
                ground arith,
                omega (arith, p.1, timely.slept controller.poll_interval w, timely.polls),
              ))))
        λ _. record { at = λ w p. (h p.0 p.1 p.2).at w p.3 }

  ready_loop-From :
      (fuel deadline n : ℕ)
      → deadline < n + fuel
      → 0 < fuel
      → From n (ready_loop controller fuel deadline)
  unfolding ready_loop
  ready_loop-From zero deadline n h b = absurd (omega arith)
  ready_loop-From (suc fuel) deadline n h b = Triple-bind _ _ (get_status-Triple n) λ status.
      Triple-if (is_error status) _ _ (λ _. Triple-raise _ (λ w p f. cc f))
        λ _.
          Triple-if (is_init status) _ _
            (λ _.
              expire_then _ n deadline _ (λ f. cc f)
                λ time later early.
                  ready_loop-From fuel deadline (time + 1) (omega arith) (omega arith))
            (λ _. Triple-pure status (λ w p. tt))

  confirm_loop-From :
      (action : Action) (fuel deadline n : ℕ)
      → deadline < n + fuel
      → 0 < fuel
      → From n (confirm_loop controller action fuel deadline)
  unfolding confirm_loop
  confirm_loop-From action zero deadline n h b = absurd (omega arith)
  confirm_loop-From action (suc fuel) deadline n h b =
      Triple-bind _ _ (get_status-Triple n) λ status.
        Triple-if (reaches status action) _ _ (λ _. Triple-pure status (λ w p. tt))
          λ _.
            Triple-if (is_error status) _ _ (λ _. Triple-raise _ (λ w p f. cc f))
              (λ _.
                expire_then _ n deadline _ (λ f. cc f)
                  λ time later early.
                    confirm_loop-From action fuel deadline (time + 1) (omega arith) (omega arith))

  timed :
      {A : Type 0} (k : ℕ → Exec W A)
      → ((time : ℕ) → From time (k time))
      → Triple
          (λ _. Unit {0})
          (gets (now controller) >>= k)
          (λ _ _. Unit {0})
          (λ e _. e ≢ unfinished)
  timed k h =
      Triple-bind _ _ (Triple-gets {Q = λ time w. time ≤ now controller w} _ (λ w p. omega arith)) h

  set_and_confirm-Triple :
      (action : Action) (timeout : ℕ)
      → Triple
          (λ _. Unit {0})
          (set_and_confirm controller action timeout)
          (λ _ _. Unit {0})
          (λ e _. e ≢ unfinished)
  unfolding set_and_confirm wait_until_ready
  set_and_confirm-Triple action timeout =
      Triple-bind _ _ (timed _ (λ time. ready_loop-From _ _ time (omega arith) (omega arith))) λ _.
        Triple-bind _ _ (timely.switched action) λ answer.
          Triple-if (answer.0) _ _
            (λ _. timed _ (λ time. confirm_loop-From action _ _ time (omega arith) (omega arith)))
            (λ _. Triple-raise _ (λ w p f. cc f))

  -- Neither of the two loops behind `power_on` and `power_off` goes on for more rounds than one for
  -- each millisecond of its timeout and one, whatever Moonraker answers. It is assumed that the clock
  -- does not go back, that a sleep takes its time, that the poll interval is positive, and that the
  -- calls end.
  pub set_and_confirm_ends :
      (action : Action) (timeout : ℕ) (w w' : W) (r : Result DeviceStatus)
      → set_and_confirm controller action timeout w ≡ (r, w')
      → r ≢ err unfinished
  set_and_confirm_ends action timeout w w' (ok status) e = λ f. cc f
  set_and_confirm_ends action timeout w w' (err x) e =
      λ f. Triple-err (set_and_confirm-Triple action timeout) tt e (cc f)
