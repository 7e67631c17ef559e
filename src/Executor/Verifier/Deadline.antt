-- ===== src/Executor/Verifier/Deadline.antt =====
-- The rounds of the wait for the firmware, and what it reports.
use kace.Prelude.{
  Option, none, some, ℕ, zero, suc, ◌+◌, ◌≤◌, ◌<◌, true, ltb, String, str_eq, str_eq_iff, lookup,
  text_or_empty, ◌≡◌, ◌≢◌, refl, arith,
}
use kace.Effects.{unfinished, Result, ok, err, Exec}
use kace.Effects.Triples.{Triple, Triple-pure, Triple-gets, Triple-modify, Triple-if, Triple-bind}
use kace.Effects.Ending.{Triple-ok, Triple-err}
use kace.Executor.Session.{FirmwareVerificationResult}
use kace.Executor.Verifier.{
  FirmwareApi, Versions, go_on, observe_versions, poll, timed_out, firmware_loop, wait_for_firmware,
}

-- The clock does not go back, `time.sleep` takes at least its time, and the API's calls end.
pub record IsTimely {W : Type 0} (api : FirmwareApi W) : Type 0 where
  pub slept : (d : ℕ) (w : W) → api.monotonic w + d ≤ api.monotonic (api.sleep d w)
  pub state :
      (n : ℕ)
      → Triple
          (λ w. n ≤ api.monotonic w)
          api.get_klipper_state
          (λ _ w. n ≤ api.monotonic w)
          (λ e _. e ≢ unfinished)
  pub versions :
      (n : ℕ)
      → Triple
          (λ w. n ≤ api.monotonic w)
          api.get_mcu_versions
          (λ _ w. n ≤ api.monotonic w)
          (λ e _. e ≢ unfinished)

-- A connected answer has the object's own entry of the versions, which is not empty.
pub record IsRegistered (name : String) (r : FirmwareVerificationResult) : Type 0 where
  pub entry : r.observed_fingerprint ≡ text_or_empty (lookup name r.observed_versions)
  pub version : r.klipper_connected ≡ true → r.observed_fingerprint ≢ ""

-- A text that is not empty is there.
text_or_empty-some :
    (o : Option String) (text : String) → text ≡ text_or_empty o → text ≢ "" → o ≡ some text
text_or_empty-some none text e ne = absurd (ne e)
text_or_empty-some (some found) text e ne = cc e

module _ {W : Type 0} (api : FirmwareApi W) (name : String) (timely : IsTimely api) where
  -- Ends registered, from any world at or after `n`.
  abbrev From : ℕ → Exec W FirmwareVerificationResult → Type 0
  From n m =
      Triple (λ w. n ≤ api.monotonic w) m (λ r _. IsRegistered name r) (λ e _. e ≢ unfinished)

  abbrev Again : ℕ → (String → Versions → Exec W FirmwareVerificationResult) → Type 0
  Again n again = (state : String) (versions : Versions) → From n (again state versions)

  go_on-From :
      (n : ℕ) (again : String → Versions → Exec W FirmwareVerificationResult) (state : String)
      (versions : Versions)
      → Again (n + 1) again
      → From n (go_on api name again state versions)
  unfolding go_on
  go_on-From n again state versions h =
      Triple-bind {R = λ _ w. n + 1 ≤ api.monotonic w} _ _
        (Triple-modify _ (λ w p. omega (arith, p, timely.slept 500 w))) (λ _. h state versions)

  observe_versions-From :
      (n : ℕ) (again : String → Versions → Exec W FirmwareVerificationResult) (state : String)
      (versions : Versions)
      → Again (n + 1) again
      → From n (observe_versions api name again state versions)
  unfolding observe_versions
  observe_versions-From n again state versions h =
      Triple-if (str_eq (text_or_empty (lookup name versions)) "") _ _
        (λ _. go_on-From n again state versions h)
        (λ present. Triple-pure _ λ w p. record {
          entry = refl;
          version = λ _ empty. grind (arith, str_eq_iff, present, empty);
        })

  poll-From :
      (n : ℕ) (again : String → Versions → Exec W FirmwareVerificationResult) (versions : Versions)
      → Again (n + 1) again
      → From n (poll api name again versions)
  unfolding poll
  poll-From n again versions h = Triple-bind _ _ (timely.state n) λ state.
      Triple-if (str_eq state "ready") _ _
        (λ _.
          Triple-bind _ _ (timely.versions n)
            (λ found. observe_versions-From n again state found h))
        (λ _. go_on-From n again state versions h)

  firmware_loop-From :
      (fuel deadline n : ℕ) (state : String) (versions : Versions)
      → deadline < n + fuel
      → 0 < fuel
      → From n (firmware_loop api name fuel deadline state versions)
  unfolding firmware_loop timed_out
  firmware_loop-From zero deadline n state versions h b = absurd (omega arith)
  firmware_loop-From (suc fuel) deadline n state versions h b =
      Triple-bind _ _
        (Triple-gets {Q = λ time w. (n ≤ time) × (time ≤ api.monotonic w)} _
          (λ w p. (p, omega arith)))
        λ time.
          Triple-if (ltb time deadline) _ _
            (λ early. record {
              at = λ w p.
                  (poll-From time _ versions (λ state' versions'.
                      firmware_loop-From fuel deadline (time + 1) state' versions'
                        (ground (arith, p.0)) (ground (arith, p.0)))).at
                    w (p.1);
            })
            (λ _. Triple-pure _ (λ w p. record {
              entry = refl;
              version = λ connected. absurd (ground (arith, connected));
            }))

  wait_for_firmware-From :
      (timeout : ℕ)
      → Triple
          (λ _. Unit {0})
          (wait_for_firmware api name timeout)
          (λ r _. IsRegistered name r)
          (λ e _. e ≢ unfinished)
  unfolding wait_for_firmware lookup
  wait_for_firmware-From timeout =
      Triple-if (str_eq name "") _ _
        (λ _. Triple-pure _ (λ w p. record {
          entry = refl;
          version = λ connected. absurd (ground (arith, connected));
        }))
        (λ _.
          Triple-bind _ _
            (Triple-gets {Q = λ time w. time ≤ api.monotonic w} _ (λ w p. omega arith))
            λ time. firmware_loop-From _ _ time _ _ (omega arith) (omega arith))

  -- The wait ends, whatever Moonraker answers: its loop goes on for no more than a round for each
  -- millisecond of the timeout and one. It is assumed that the clock does not go back, that a sleep
  -- takes its time and that the calls end.
  pub wait_for_firmware_ends :
      (timeout : ℕ) (w w' : W) (r : Result FirmwareVerificationResult)
      → wait_for_firmware api name timeout w ≡ (r, w')
      → r ≢ err unfinished
  wait_for_firmware_ends timeout w w' (ok result) e = λ f. cc f
  wait_for_firmware_ends timeout w w' (err x) e =
      λ f. Triple-err (wait_for_firmware-From timeout) tt e (cc f)

  -- Where the wait says that Klipper is connected, the fingerprint that it reports is the MCU
  -- object's own entry in the versions that it reports, and is not empty. The conditions on the
  -- clock and the calls are the same.
  pub wait_for_firmware_registered :
      (timeout : ℕ) (w w' : W) (result : FirmwareVerificationResult)
      → wait_for_firmware api name timeout w ≡ (ok result, w')
      → result.klipper_connected ≡ true
      → (lookup name result.observed_versions ≡ some result.observed_fingerprint)
        × (result.observed_fingerprint ≢ "")
  wait_for_firmware_registered timeout w w' result e connected =
      let registered = Triple-ok (wait_for_firmware-From timeout) tt e in
      let present = registered.version connected in
      (text_or_empty-some _ _ registered.entry present, present)
