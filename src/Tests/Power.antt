-- ===== src/Tests/Power.antt =====
-- The theorems on the relay, applied to a relay in memory.
use kace.Prelude.{ℕ, ◌+◌, true, false, Option, none, some, [], ◌∷◌, ◌≡◌, ◌≢◌, refl, arith, inl}
use kace.Effects.{unfinished, ok, err, pure, raise, gets, modify, attempt, ◌>>=◌, ◌>>◌}
use kace.Effects.Triples.{Triple-pure, Triple-gets, Triple-bind, Triple-modify}
use kace.Effects.Keeping.{Keeps-gets}
use kace.Power.{
  MoonrakerPowerController, Device, DeviceStatus, on, off, init, error, Action, turn_on, turn_off,
  ManualPowerResult, find_status, status_in, get_status, expire, ready_loop, wait_until_ready,
  confirm_loop, set_and_confirm, request, request_failed, refresh, power_state, unknown,
}
use kace.Power.Confirmed.{
  TellsStatus, wanted, request_confirmed, set_and_confirm_reached, IsUnknown, TellsNothing,
  request_silent, refresh_switches_nothing,
}
use kace.Power.Deadline.{IsTimely, set_and_confirm_ends}

record Relay : Type 0 where
  status : DeviceStatus
  clock : ℕ

abbrev told : DeviceStatus → Option Device
told on = some (record { device = some "printer"; status = some "On" })
told off = some (record { device = some "printer"; status = some "off" })
told init = some (record { device = some "printer"; status = some "init" })
told error = some (record { device = some "printer"; status = none })

abbrev switched : Action → DeviceStatus
switched turn_on = on
switched turn_off = off

abbrev memory_relay : MoonrakerPowerController Relay
memory_relay = record {
  api = record {
    get_power_devices = gets (λ w. (true, "", none ∷ told w.status ∷ []));
    set_power_device =
        λ name action. modify (λ w. record w { status = switched action }) >> pure (true, "");
    monotonic = λ w. w.clock;
    sleep = λ d w. record w { clock = w.clock + d };
    timestamp = λ w. "2026";
  };
  device = "printer";
  poll_interval = 500;
}

abbrev unplugged : Relay
unplugged = record { status = off; clock = 0 }

-- Moonraker does not answer.
abbrev silent_relay : MoonrakerPowerController Relay
silent_relay = record memory_relay {
  api = record (memory_relay.api) { get_power_devices = pure (false, "offline", []) };
}

silent_relay-TellsNothing : TellsNothing silent_relay (λ w. w.status ≡ off)
silent_relay-TellsNothing = Triple-pure _ (λ w p. (p, inl refl))

abbrev unanswered : ManualPowerResult
unanswered = record {
  state = unknown;
  timestamp = "2026";
  detail = "Moonraker Power API unavailable: offline";
  requested_action = some turn_on;
  confirmed = false;
}

told_status :
    (s status : DeviceStatus)
    → find_status "printer" (none ∷ told s ∷ []) ≡ some status
    → s ≡ status
unfolding find_status
told_status on status h = cc h
told_status off status h = cc h
told_status init status h = cc h
told_status error status h = cc h

memory_relay-TellsStatus : TellsStatus memory_relay (λ w. w.status)
memory_relay-TellsStatus = record { triple = Triple-gets _ (λ w p. told_status w.status) }

memory_relay-IsTimely : IsTimely memory_relay
memory_relay-IsTimely = record {
  slept = λ d w. omega arith;
  read = λ n. Triple-gets _ (λ w p. p);
  switched = λ action.
      Triple-bind {R = λ _ _. Unit {0}} _ _ (Triple-modify _ (λ w p. tt))
        (λ _. Triple-pure _ (λ w p. tt));
  polls = omega arith;
}

abbrev switched_result : ManualPowerResult
switched_result = record {
  state = power_state on;
  timestamp = "2026";
  detail = "Moonraker confirmed relay ON";
  requested_action = some turn_on;
  confirmed = true;
}

power_runs :
    (request memory_relay turn_on 30000 unplugged
      ≡ (ok switched_result, record { status = on; clock = 0 }))
    × (set_and_confirm memory_relay turn_on 30000 unplugged
        ≡ (ok on, record { status = on; clock = 0 }))
    × (request silent_relay turn_on 30000 unplugged ≡ (ok unanswered, unplugged))
unfolding pure raise gets modify attempt ◌>>=◌ find_status status_in get_status expire ready_loop
    wait_until_ready confirm_loop set_and_confirm request request_failed
power_runs = (refl, refl, refl)

request_confirmed_example :
    (on ≡ wanted turn_on) × (switched_result.state ≡ power_state (wanted turn_on))
request_confirmed_example =
    request_confirmed memory_relay (λ w. w.status) memory_relay-TellsStatus turn_on 30000 unplugged
      (record { status = on; clock = 0 }) switched_result power_runs.0 refl

set_and_confirm_reached_example : on ≡ wanted turn_on
set_and_confirm_reached_example =
    set_and_confirm_reached memory_relay (λ w. w.status) memory_relay-TellsStatus turn_on 30000
      unplugged (record { status = on; clock = 0 }) on power_runs.1

request_silent_example :
    (unplugged.status ≡ off)
    × ((result : ManualPowerResult) × (ok unanswered ≡ ok result)
        × IsUnknown silent_relay (λ w. w.status ≡ off) silent_relay-TellsNothing turn_on result)
request_silent_example =
    request_silent silent_relay (λ w. w.status ≡ off) silent_relay-TellsNothing turn_on 30000
      unplugged unplugged (ok unanswered) refl power_runs.2

refresh_switches_nothing_example : (refresh memory_relay unplugged).1.status ≡ off
refresh_switches_nothing_example =
    refresh_switches_nothing memory_relay (λ w. w.status ≡ off) (Keeps-gets _) unplugged
      (refresh memory_relay unplugged).1 (refresh memory_relay unplugged).0 refl refl

set_and_confirm_ends_example : ok on ≢ err unfinished
set_and_confirm_ends_example =
    set_and_confirm_ends memory_relay memory_relay-IsTimely turn_on 30000 unplugged
      (record { status = on; clock = 0 }) (ok on) power_runs.1
