-- ===== src/Power.antt =====
-- core/power_controller.py: the relay behind Moonraker's Power API. A command is trusted only if
-- a fresh read confirms it. Times are in milliseconds; the loops run on fuel (Power/Deadline.antt).
pub mod Confirmed
pub mod Deadline
use kace.Prelude.{
  ℕ, zero, suc, ◌+◌, Bool, true, false, not, String, str_eq, codes, lower, bytes_eq, leb, Option,
  none, some, List, [], ◌∷◌, map, if◌then◌else◌, ◌<>◌,
}
use kace.Effects.{
  Exc, power_error, os_error, timeout_error, unfinished, message, Exec, pure, raise, gets, modify,
  attempt, ◌>>=◌, ◌>>◌,
}

-- VALID_STATES.
pub data DeviceStatus : Type 0 where
  on off init error : DeviceStatus

pub data PrinterPowerState : Type 0 where
  powered unpowered unknown : PrinterPowerState

pub data Action : Type 0 where
  turn_on turn_off : Action

pub record ManualPowerResult : Type 0 where
  pub state : PrinterPowerState
  pub timestamp : String
  pub detail : String
  pub requested_action : Option Action
  pub confirmed : Bool

-- An item of the API's answer that is a dict; the values are texts by `str`.
pub record Device : Type 0 where
  pub device : Option String
  pub status : Option String

-- core/moonraker.py's `get_power_devices` and `set_power_device`, at one host, and the clock.
-- `none` in the answer is an item that is no dict.
pub record PowerApi (W : Type 0) : Type 0 where
  pub get_power_devices : Exec W (Bool × String × List (Option Device))
  pub set_power_device : String → Action → Exec W (Bool × String)
  pub monotonic : W → ℕ
  pub sleep : ℕ → W → W
  pub timestamp : W → String

pub record MoonrakerPowerController (W : Type 0) : Type 0 where
  pub api : PowerApi W
  pub device : String
  pub poll_interval : ℕ

abbrev pub is_text : List ℕ → String → Bool
is_text text word = bytes_eq text (codes word)

-- `status if status in VALID_STATES else "error"`, of the text in lower case.
abbrev pub valid_status : List ℕ → DeviceStatus
valid_status text =
    if is_text text "on"
    then on
    else if is_text text "off"
    then off
    else if is_text text "init"
    then init
    else error

abbrev pub item_status : Option String → DeviceStatus
item_status none = error
item_status (some text) = valid_status (map lower (codes text))

abbrev pub is_device : String → Option String → Bool
is_device name none = false
is_device name (some j) = str_eq j name

-- The first item of the device.
unfoldable pub find_status : String → List (Option Device) → Option DeviceStatus
find_status name [] = none
find_status name (none ∷ items) = find_status name items
find_status name (some item ∷ items) =
    let rest = find_status name items in
    if is_device name item.device then some (item_status item.status) else rest

abbrev pub is_error : DeviceStatus → Bool
is_error error = true
is_error _ = false

abbrev pub is_init : DeviceStatus → Bool
is_init init = true
is_init _ = false

-- `status == action`.
abbrev pub reaches : DeviceStatus → Action → Bool
reaches on turn_on = true
reaches off turn_off = true
reaches _ _ = false

abbrev pub action_text : Action → String
action_text turn_on = "on"
action_text turn_off = "off"

abbrev pub upper_text : Action → String
upper_text turn_on = "ON"
upper_text turn_off = "OFF"

abbrev pub status_text : DeviceStatus → String
status_text on = "on"
status_text off = "off"
status_text init = "init"
status_text error = "error"

-- `ManualRelayControl._state`.
abbrev pub power_state : DeviceStatus → PrinterPowerState
power_state on = powered
power_state off = unpowered
power_state _ = unknown

-- `except (PowerControllerError, OSError, TimeoutError)`.
abbrev pub is_power_failure : Exc → Bool
is_power_failure (power_error m) = true
is_power_failure (os_error m) = true
is_power_failure (timeout_error m) = true
is_power_failure _ = false

module _ {W : Type 0} (controller : MoonrakerPowerController W) where
  unfoldable pub status_in : Option DeviceStatus → Exec W DeviceStatus
  status_in none =
      raise
        (power_error ("POWER_DEVICE '" <> controller.device <> "' is not configured in Moonraker"))
  status_in (some status) = pure status

  unfoldable pub get_status : Exec W DeviceStatus
  get_status = controller.api.get_power_devices >>= λ answer.
      if answer.0
      then status_in (find_status controller.device answer.2)
      else raise (power_error ("Moonraker Power API unavailable: " <> answer.1))

  abbrev pub error_state : Exc
  error_state =
      power_error ("Moonraker power device '" <> controller.device <> "' entered error state")

  abbrev pub now : W → ℕ
  now = controller.api.monotonic

  -- The end of a round: give up at the deadline, or sleep.
  unfoldable pub expire : Exc → ℕ → Exec W (Unit {0})
  expire e deadline = gets now >>= λ time.
      if leb deadline time then raise e else modify (controller.api.sleep controller.poll_interval)

  abbrev pub left_init : Exc
  left_init =
      power_error ("timed out waiting for power device '" <> controller.device <> "' to leave init")

  unfoldable pub ready_loop : ℕ → ℕ → Exec W DeviceStatus
  ready_loop zero deadline = raise unfinished
  ready_loop (suc fuel) deadline = get_status >>= λ status.
      if is_error status
      then raise error_state
      else if is_init status
      then (expire left_init deadline >> ready_loop fuel deadline)
      else pure status

  unfoldable pub wait_until_ready : ℕ → Exec W DeviceStatus
  wait_until_ready timeout = gets now >>= λ time. ready_loop (timeout + 1) (time + timeout)

  abbrev pub not_reached : Action → Exc
  not_reached action =
      power_error
        ("power device '" <> controller.device <> "' did not reach " <> action_text action)

  unfoldable pub confirm_loop : Action → ℕ → ℕ → Exec W DeviceStatus
  confirm_loop action zero deadline = raise unfinished
  confirm_loop action (suc fuel) deadline = get_status >>= λ status.
      if reaches status action
      then pure status
      else if is_error status
      then raise error_state
      else (expire (not_reached action) deadline >> confirm_loop action fuel deadline)

  abbrev pub could_not_switch : Action → String → Exc
  could_not_switch action detail = power_error (
      "could not switch power device '"
      <> controller.device
      <> "' "
      <> action_text action
      <> ": "
      <> detail)

  unfoldable pub set_and_confirm : Action → ℕ → Exec W DeviceStatus
  set_and_confirm action timeout = wait_until_ready timeout >>= λ _.
      controller.api.set_power_device controller.device action >>= λ answer.
      if answer.0
      then (gets now >>= λ time. confirm_loop action (timeout + 1) (time + timeout))
      else raise (could_not_switch action answer.1)

  unfoldable pub refresh_failed : Exc → Exec W ManualPowerResult
  refresh_failed e = gets controller.api.timestamp >>= λ at. pure (record {
    state = unknown;
    timestamp = at;
    detail = message e;
    requested_action = none;
    confirmed = false;
  })

  abbrev pub observed_detail : DeviceStatus → String
  observed_detail on = "Moonraker confirmed on"
  observed_detail off = "Moonraker confirmed off"
  observed_detail status = "Moonraker reported non-terminal state '" <> status_text status <> "'"

  unfoldable pub refresh : Exec W ManualPowerResult
  refresh = attempt is_power_failure get_status refresh_failed (λ raw.
      gets controller.api.timestamp >>= λ at. pure (record {
        state = power_state raw;
        timestamp = at;
        detail = observed_detail raw;
        requested_action = none;
        confirmed = false;
      }))

  unfoldable pub request_failed : Action → Exc → Exec W ManualPowerResult
  request_failed action e = gets controller.api.timestamp >>= λ at. pure (record {
    state = unknown;
    timestamp = at;
    detail = message e;
    requested_action = some action;
    confirmed = false;
  })

  abbrev pub request_detail : Action → DeviceStatus → String
  request_detail action observed =
      if reaches observed action
      then "Moonraker confirmed relay " <> upper_text action
      else "relay command returned but Moonraker reports '" <> status_text observed <> "'"

  -- `_request`: a fresh read behind the command decides.
  unfoldable pub request : Action → ℕ → Exec W ManualPowerResult
  request action timeout =
      attempt is_power_failure (set_and_confirm action timeout >>= λ _. get_status)
        (request_failed action)
        (λ observed. gets controller.api.timestamp >>= λ at. pure (record {
          state = power_state observed;
          timestamp = at;
          detail = request_detail action observed;
          requested_action = some action;
          confirmed = reaches observed action;
        }))
