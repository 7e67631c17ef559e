-- ===== src/Transaction/Waiting.antt =====
-- `_wait_ready` and `_wait_moonraker`: polling until a deadline, on fuel. A round that goes on
-- sleeps for the poll interval, so `timeout + 1` rounds are enough (`Waiting/Deadline.antt`).
pub mod Deadline
use kace.Prelude.{
  ℕ, zero, suc, ◌+◌, Bool, true, false, not, ◌||◌, String, str_eq, ltb, leb, if◌then◌else◌,
}
use kace.Effects.{unfinished, Exec, pure, raise, gets, modify, ◌>>=◌, ◌>>◌}
use kace.Transaction.Interface.{Transport, Settings, Environment}

module _ {W : Type 0} (env : Environment W) where
  abbrev pub now : W → ℕ
  now = env.transport.monotonic

  abbrev pub pause : Exec W (Unit {0})
  pause = modify (env.transport.sleep env.settings.poll_interval)

  -- One round of `_wait_ready` once Moonraker has answered; `again` is the rest of the loop.
  unfoldable pub judge : (String → ℕ → Exec W (Bool × String)) → ℕ → String → Exec W (Bool × String)
  judge again ready_samples state =
      if str_eq state "ready"
      then (if leb 2 (ready_samples + 1)
          then pure (true, state)
          else (pause >> again state (ready_samples + 1)))
      else if str_eq state "shutdown" || str_eq state "error"
      then pure (false, state)
      else (pause >> again state 0)

  unfoldable pub poll_ready :
      (String → ℕ → Exec W (Bool × String)) → String → ℕ → Exec W (Bool × String)
  poll_ready again last ready_samples = env.transport.moonraker_online >>= λ online.
      if online
      then (env.transport.klipper_state >>= λ state. judge again ready_samples state)
      else (pause >> again last 0)

  unfoldable pub ready_loop : ℕ → ℕ → String → ℕ → Exec W (Bool × String)
  ready_loop zero deadline last ready_samples = raise unfinished
  ready_loop (suc fuel) deadline last ready_samples = gets now >>= λ time.
      if ltb time deadline
      then poll_ready (ready_loop fuel deadline) last ready_samples
      else pure (false, last)

  unfoldable pub wait_ready : Exec W (Bool × String)
  wait_ready = gets now >>= λ time.
      ready_loop (env.settings.timeout + 1) (time + env.settings.timeout) "disconnected" 0

  unfoldable pub poll_moonraker : (ℕ → Exec W Bool) → ℕ → Exec W Bool
  poll_moonraker again online_samples = env.transport.moonraker_online >>= λ online.
      if online
      then (if leb 2 (online_samples + 1) then pure true else (pause >> again (online_samples + 1)))
      else (pause >> again 0)

  unfoldable pub moonraker_loop : ℕ → ℕ → ℕ → Exec W Bool
  moonraker_loop zero deadline online_samples = raise unfinished
  moonraker_loop (suc fuel) deadline online_samples = gets now >>= λ time.
      if ltb time deadline
      then poll_moonraker (moonraker_loop fuel deadline) online_samples
      else pure false

  unfoldable pub wait_moonraker : Exec W Bool
  wait_moonraker =
      gets now >>= λ time. moonraker_loop (env.settings.timeout + 1) (time + env.settings.timeout) 0
