-- ===== src/Effects.antt =====
-- Python code that mutates an object, talks to the world, and may raise. What was done before a
-- raise stays done, so the state comes back beside the exception too.
pub mod Triples
pub mod Keeping
pub mod Ending
pub mod Settled
use kace.Prelude.{
  Bool, true, false, String, Option, none, some, List, [], ◌∷◌, if◌then◌else◌, ◌≡◌, refl, ◌⊎◌, inl,
  inr,
}

-- The classes of firmware/boards/executor.py's errors; the first is the base of the others.
pub data ExecutionErrorType : Type 0 where
  execution_error_type unsupported_strategy_type media_selection_type : ExecutionErrorType
  media_verification_type artifact_execution_type post_flash_type : ExecutionErrorType

-- The exceptions that the modelled code raises or tells apart, with `str(exc)`.
-- An `execution_error` has its class, its code and its message.
-- `unfinished` is the model's own: the fuel of a loop ran out. No handler catches it.
pub data Exc : Type 0 where
  runtime_error value_error type_error key_error os_error timeout_error : String → Exc
  conflict_error firmware_error power_error artifact_error identity_error : String → Exc
  contract_error monitor_error other_error : String → Exc
  execution_error : ExecutionErrorType → String → String → Exc
  keyboard_interrupt unfinished : Exc

-- `except Exception`.
abbrev pub is_exception : Exc → Bool
is_exception keyboard_interrupt = false
is_exception unfinished = false
is_exception _ = true

-- `str(exc)`.
abbrev pub message : Exc → String
message (runtime_error m) = m
message (value_error m) = m
message (type_error m) = m
message (key_error m) = m
message (os_error m) = m
message (timeout_error m) = m
message (conflict_error m) = m
message (firmware_error m) = m
message (power_error m) = m
message (artifact_error m) = m
message (identity_error m) = m
message (contract_error m) = m
message (monitor_error m) = m
message (other_error m) = m
message (execution_error t code m) = m
message keyboard_interrupt = ""
message unfinished = ""

abbrev pub is_conflict : Exc → Bool
is_conflict (conflict_error m) = true
is_conflict _ = false

abbrev pub is_firmware : Exc → Bool
is_firmware (firmware_error m) = true
is_firmware _ = false

abbrev pub is_interrupt : Exc → Bool
is_interrupt keyboard_interrupt = true
is_interrupt _ = false

-- `except (OSError, TimeoutError, ConfigConflictError)`.
abbrev pub is_publication_error : Exc → Bool
is_publication_error (os_error m) = true
is_publication_error (timeout_error m) = true
is_publication_error (conflict_error m) = true
is_publication_error _ = false

pub data Result (A : Type 0) : Type 0 where
  ok : A → Result A
  err : Exc → Result A

pub Result-cases : {A : Type 0} (r : Result A) → ((a : A) × (r ≡ ok a)) ⊎ ((e : Exc) × (r ≡ err e))
Result-cases (ok a) = inl (a, refl)
Result-cases (err e) = inr (e, refl)

abbrev pub Exec : Type 0 → Type 0 → Type 0
Exec S A = S → Result A × S

module _ {S A : Type 0} where
  unfoldable pub pure : A → Exec S A
  pure a s = (ok a, s)

  unfoldable pub raise : Exc → Exec S A
  raise e s = (err e, s)

  unfoldable pub gets : (S → A) → Exec S A
  gets f s = (ok (f s), s)

  -- A pure computation that may raise.
  unfoldable pub lift : Result A → Exec S A
  lift r s = (r, s)

unfoldable pub modify : {S : Type 0} → (S → S) → Exec S (Unit {0})
modify f s = (ok tt, f s)

module _ {S A B : Type 0} where
  -- What follows a computation: `k` after a return, `h` on a raise.
  abbrev pub continue : (A → Exec S B) → (Exc → Exec S B) → Result A × S → Result B × S
  continue k h (ok a, s) = k a s
  continue k h (err e, s) = h e s

  infixl 5 ◌>>=◌
  unfoldable pub ◌>>=◌ : Exec S A → (A → Exec S B) → Exec S B
  ◌>>=◌ m k s = continue k (λ e t. (err e, t)) (m s)

  -- `try: x = m; except <caught> as e: return h e`, and then `k x`, whose raises are not caught.
  unfoldable pub attempt : (Exc → Bool) → Exec S A → (Exc → Exec S B) → (A → Exec S B) → Exec S B
  attempt caught m h k s = continue k (λ e t. if caught e then h e t else (err e, t)) (m s)

infixl 5 ◌>>◌
abbrev pub ◌>>◌ : {S B : Type 0} → Exec S (Unit {0}) → Exec S B → Exec S B
m >> n = m >>= λ _. n

module _ {S A : Type 0} where
  -- `try: return m; finally: f`: a raise of `f` replaces what `m` came to.
  unfoldable pub finally : Exec S A → Exec S (Unit {0}) → Exec S A
  finally m f s = continue (λ a. f >> pure a) (λ e. f >> raise e) (m s)

-- The first failing test of a chain `if not b: raise e`.
unfoldable pub require : {S : Type 0} → List (Bool × Exc) → Exec S (Unit {0})
require [] = pure tt
require ((b, e) ∷ checks) = if b then require checks else raise e

-- `for x in xs: body x`.
unfoldable pub for_each : {S A : Type 0} → List A → (A → Exec S (Unit {0})) → Exec S (Unit {0})
for_each [] body = pure tt
for_each (x ∷ xs) body = body x >> for_each xs body

-- `d[k]`, with KeyError on a missing key.
unfoldable pub need : {S A : Type 0} → String → Option A → Exec S A
need k none = raise (key_error k)
need k (some a) = pure a

unfoldable pub guard : {S : Type 0} → Bool → Exc → Exec S (Unit {0})
guard b e = if b then pure tt else raise e
