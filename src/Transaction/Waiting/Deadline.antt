-- ===== src/Transaction/Waiting/Deadline.antt =====
-- The polling loops end by the deadline: the fuel is enough where sleeping takes its time.
use kace.Prelude.{
  ℕ, zero, suc, ◌+◌, ◌≤◌, ◌<◌, Bool, true, false, ◌||◌, String, str_eq, ltb, leb, ◌≢◌, arith,
}
use kace.Effects.{Exc, unfinished, Exec, ◌>>◌}
use kace.Effects.Triples.{
  Triple, Triple-pure, Triple-gets, Triple-modify, Triple-if, Triple-bind, Triple-assume,
}
use kace.Transaction.Interface.{Environment}
use kace.Transaction.Waiting.{
  now, pause, judge, poll_ready, ready_loop, wait_ready, poll_moonraker, moonraker_loop,
  wait_moonraker,
}

-- No loop of the model's has run out of fuel.
abbrev pub Finishes : {W : Type 0} → Exc → W → Type 0
Finishes e w = e ≢ unfinished

-- `time.monotonic` does not go back, `time.sleep` takes at least its time, and the transport's
-- own calls end.
pub record IsTimely {W : Type 0} (env : Environment W) : Type 0 where
  pub slept : (d : ℕ) (w : W) → now env w + d ≤ now env (env.transport.sleep d w)
  pub online :
      (n : ℕ)
      → Triple (λ w. n ≤ now env w) env.transport.moonraker_online (λ _ w. n ≤ now env w) Finishes
  pub klipper :
      (n : ℕ)
      → Triple (λ w. n ≤ now env w) env.transport.klipper_state (λ _ w. n ≤ now env w) Finishes
  pub polls : 0 < env.settings.poll_interval

-- Ends, from any world at or after `n`.
abbrev From : {W A : Type 0} (env : Environment W) → ℕ → Exec W A → Type 0
From env n m = Triple (λ w. n ≤ now env w) m (λ _ _. Unit {0}) Finishes

module _ {W : Type 0} (env : Environment W) (timely : IsTimely env) where
  pause_then :
      {A : Type 0} (n : ℕ) (m : Exec W A) → From env (n + 1) m → From env n (pause env >> m)
  pause_then n m h =
      Triple-bind _ _
        (Triple-modify {Q = λ _ w. n + 1 ≤ now env w} _
          (λ w p. omega (arith, timely.slept env.settings.poll_interval w, timely.polls)))
        (λ _. h)

  judge-From :
      (n : ℕ) (again : String → ℕ → Exec W (Bool × String))
      → ((last : String) (k : ℕ) → From env (n + 1) (again last k))
      → (k : ℕ) (state : String) → From env n (judge env again k state)
  unfolding judge
  judge-From n again h k state =
      Triple-if (str_eq state "ready") _ _
        (λ _.
          Triple-if (leb 2 (k + 1)) _ _ (λ _. Triple-pure (true, state) (λ w p. tt))
            (λ _. pause_then n (again state (k + 1)) (h state (k + 1))))
        (λ _.
          Triple-if (str_eq state "shutdown" || str_eq state "error") _ _
            (λ _. Triple-pure (false, state) (λ w p. tt))
            (λ _. pause_then n (again state 0) (h state 0)))

  poll_ready-From :
      (n : ℕ) (again : String → ℕ → Exec W (Bool × String))
      → ((last : String) (k : ℕ) → From env (n + 1) (again last k))
      → (last : String) (k : ℕ) → From env n (poll_ready env again last k)
  unfolding poll_ready
  poll_ready-From n again h last k = Triple-bind _ _ (timely.online n) λ online.
      Triple-if online _ _
        (λ _. Triple-bind _ _ (timely.klipper n) (λ state. judge-From n again h k state))
        (λ _. pause_then n (again last 0) (h last 0))

  ready_loop-From :
      (fuel deadline n : ℕ) (last : String) (k : ℕ)
      → n ≤ deadline
      → deadline < n + fuel
      → From env n (ready_loop env fuel deadline last k)
  unfolding ready_loop
  ready_loop-From zero deadline n last k b h = absurd (omega arith)
  ready_loop-From (suc fuel) deadline n last k b h =
      Triple-bind _ _
        (Triple-gets {Q = λ time w. (n ≤ time) × (time ≤ now env w)} _ (λ w p. (p, omega arith)))
        λ time. Triple-assume λ later.
          Triple-if (ltb time deadline) _ _
            (λ early.
              poll_ready-From time _
                (λ last' k'.
                  ready_loop-From fuel deadline (time + 1) last' k' (ground arith) (ground arith))
                last k)
            (λ late. Triple-pure _ (λ w p. tt))

  -- `_wait_ready` ends within its fuel, from every world, whatever Klipper answers.
  pub wait_ready-Finishes : Triple (λ _. Unit {0}) (wait_ready env) (λ _ _. Unit {0}) Finishes
  unfolding wait_ready
  wait_ready-Finishes =
      Triple-bind _ _ (Triple-gets {Q = λ time w. time ≤ now env w} _ (λ w p. omega arith))
        λ time. ready_loop-From _ _ time _ _ (omega arith) (omega arith)

  poll_moonraker-From :
      (n : ℕ) (again : ℕ → Exec W Bool)
      → ((k : ℕ) → From env (n + 1) (again k))
      → (k : ℕ) → From env n (poll_moonraker env again k)
  unfolding poll_moonraker
  poll_moonraker-From n again h k = Triple-bind _ _ (timely.online n) λ online.
      Triple-if online _ _
        (λ _.
          Triple-if (leb 2 (k + 1)) _ _ (λ _. Triple-pure true (λ w p. tt))
            (λ _. pause_then n (again (k + 1)) (h (k + 1))))
        (λ _. pause_then n (again 0) (h 0))

  moonraker_loop-From :
      (fuel deadline n k : ℕ)
      → n ≤ deadline
      → deadline < n + fuel
      → From env n (moonraker_loop env fuel deadline k)
  unfolding moonraker_loop
  moonraker_loop-From zero deadline n k b h = absurd (omega arith)
  moonraker_loop-From (suc fuel) deadline n k b h =
      Triple-bind _ _
        (Triple-gets {Q = λ time w. (n ≤ time) × (time ≤ now env w)} _ (λ w p. (p, omega arith)))
        λ time. Triple-assume λ later.
          Triple-if (ltb time deadline) _ _
            (λ early.
              poll_moonraker-From time _
                (λ k'.
                  moonraker_loop-From fuel deadline (time + 1) k' (ground arith) (ground arith))
                k)
            (λ late. Triple-pure _ (λ w p. tt))

  pub wait_moonraker-Finishes :
      Triple (λ _. Unit {0}) (wait_moonraker env) (λ _ _. Unit {0}) Finishes
  unfolding wait_moonraker
  wait_moonraker-Finishes =
      Triple-bind _ _ (Triple-gets {Q = λ time w. time ≤ now env w} _ (λ w p. omega arith))
        λ time. moonraker_loop-From _ _ time _ (omega arith) (omega arith)
