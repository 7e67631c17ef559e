-- ===== src/Transaction/Quiet.antt =====
-- What the code that neither uploads nor restarts does to the world: it keeps every predicate
-- that reads, polls, the planner, the operator, the sink and the snapshot store keep.
use kace.Prelude.{ℕ, zero, suc, Bool, false, String, Bytes, Option, none, some, List, [], ◌∷◌, ltb}
use kace.Effects.{Exc, is_exception, Result, ok, err, Exec}
use kace.Effects.Triples.{Triple, Outcome}
use kace.Effects.Keeping.{
  Keeps, keeps_rules, Keeps-modify, Keeps-bind, Keeps-if, Keeps-gets, Keeps-pure, Keeps-raise,
  Keeps-attempt,
}
use kace.ManagedConfig.{Content, Files, PlannedConfigArtifact, ManagedConfigPlan}
use kace.Snapshot.{snapshot_under, create_snapshot}
use kace.Transaction.Interface.{Environment, Tx, call, returned, emit, emit_to, ConfigurationReview}
use kace.Transaction.Reading.{
  refuse_changes, read_file, resolve_include, add_includes, scan_step, scan, read_config_state,
  refuse_plan, require_conditional_writes, revalidate_config_state, Pending, Visited,
}
use kace.Transaction.Waiting.{
  pause, judge, poll_ready, ready_loop, wait_ready, poll_moonraker, moonraker_loop, wait_moonraker,
}

abbrev pub OnSome : {A : Type 0} → (A → Type 0) → Option A → Type 0
OnSome P none = Unit
OnSome P (some a) = P a

pub record KeepsQuiet {W : Type 0} (env : Environment W) (P : W → Type 0) : Type 0 where
  pub validate : Keeps P env.transport.validate_activation_target
  pub read : (names : List String) → Keeps P (env.transport.read_files names)
  pub online : Keeps P env.transport.moonraker_online
  pub klipper : Keeps P env.transport.klipper_state
  pub asleep : (d : ℕ) (w : W) → P w → P (env.transport.sleep d w)
  pub active :
      OnSome
        (λ verify. (plan : ManagedConfigPlan) → Keeps P (verify plan))
        env.transport.verify_active_configuration
  pub review_built :
      (plan : ManagedConfigPlan) → Keeps P (env.planner.build_configuration_review plan)
  pub validated :
      (plan : ManagedConfigPlan) → Keeps P (env.planner.validate_configuration_plan plan)
  pub published :
      (id : String) (files : List (String × Bytes)) (missing : List String)
      → Keeps P (env.store.publish id files missing)
  pub reviewed :
      OnSome (λ reviewer. (r : ConfigurationReview) → Keeps P (reviewer r)) env.settings.review
  pub confirmed : (diff : String) → Keeps P (env.settings.confirm diff)
  pub shown : (line : String) → Keeps P (env.settings.output line)
  pub selected : OnSome (λ selector. Keeps P selector) env.settings.activation_selector
  pub told :
      OnSome (λ sink. (state detail : String) → Keeps P (sink state detail)) env.settings.state_sink
  pub firmware : OnSome (λ verify. Keeps P verify) env.settings.verify_firmware

-- The predicate on the world, of the object that holds it.
abbrev pub InWorld : {W : Type 0} → (W → Type 0) → Tx W → Type 0
InWorld P t = P t.world

module _ {W A : Type 0} where
  returned-Outcome :
      (Q : A → W → Type 0) (E : Exc → W → Type 0) (t : Tx W) (o : Result A × W)
      → Outcome Q E o
      → Outcome (λ a. InWorld (Q a)) (λ e. InWorld (E e)) (returned t o)
  returned-Outcome Q E t (ok a, w) h = h
  returned-Outcome Q E t (err e, w) h = h

  -- A call has the specification of what it calls.
  pub Triple-call :
      {P : W → Type 0} {Q : A → W → Type 0} {E : Exc → W → Type 0} (m : Exec W A)
      → Triple P m Q E
      → Triple (InWorld P) (call m) (λ a. InWorld (Q a)) (λ e. InWorld (E e))
  unfolding call
  Triple-call {Q = Q} {E = E} m h = record {
    at = λ t p. returned-Outcome Q E t (m t.world) (h.at t.world p);
  }

  pub Keeps-call : {P : W → Type 0} (m : Exec W A) → Keeps P m → Keeps (InWorld P) (call m)
  Keeps-call m h = record { triple = Triple-call m h.triple }

module _ {W : Type 0} (env : Environment W) {P : W → Type 0} (quiet : KeepsQuiet env P) where
  pub create_snapshot-Keeps :
      (files : Files) (id board version : String)
      → Keeps P (create_snapshot env.store files id board version)
  unfolding create_snapshot snapshot_under
  create_snapshot-Keeps files id board version = search (keeps_rules, quiet.published)

  pub read_file-Keeps : (name : String) → Keeps P (read_file env.transport name)
  unfolding read_file
  read_file-Keeps name = search (keeps_rules, quiet.read)

  resolve_include-Keeps :
      (name : String) (state : Files) (o : Option Content)
      → Keeps P (resolve_include env.transport name state o)
  unfolding resolve_include
  resolve_include-Keeps name state none = search (keeps_rules, read_file-Keeps)
  resolve_include-Keeps name state (some c) = search (keeps_rules)

  add_includes-Keeps :
      (names : List String) (state : Files) (pending : Pending)
      → Keeps P (add_includes env.transport names state pending)
  unfolding add_includes
  add_includes-Keeps [] state pending = search keeps_rules
  add_includes-Keeps (name ∷ names) state pending =
      Keeps-bind _ _ (resolve_include-Keeps name state _) (λ r. add_includes-Keeps names r.0 _)

  scan_step-Keeps :
      (again : Pending → Visited → Files → ℕ → Exec W Files)
      → ((p : Pending) (v : Visited) (s : Files) (n : ℕ) → Keeps P (again p v s n))
      → (p : Pending) (v : Visited) (s : Files) (n : ℕ)
      → Keeps P (scan_step env.transport env.planner again p v s n)
  unfolding scan_step
  scan_step-Keeps again h [] v s n = search keeps_rules
  scan_step-Keeps again h ((source, none) ∷ p) v s n = h p v s n
  scan_step-Keeps again h ((source, some c) ∷ p) v s n = search (keeps_rules, add_includes-Keeps, h)

  scan-Keeps :
      (fuel : ℕ) (p : Pending) (v : Visited) (s : Files) (n : ℕ)
      → Keeps P (scan env.transport env.planner fuel p v s n)
  unfolding scan
  scan-Keeps zero p v s n = search keeps_rules
  scan-Keeps (suc fuel) p v s n = scan_step-Keeps _ (scan-Keeps fuel) p v s n

  pub read_config_state-Keeps :
      (hardware : Bytes) (macros : Option Bytes)
      → Keeps P (read_config_state env.transport env.planner hardware macros)
  unfolding read_config_state
  read_config_state-Keeps hardware macros = search (keeps_rules, quiet.read, scan-Keeps)

  refuse_plan-Keeps :
      (plan : ManagedConfigPlan) (items : List PlannedConfigArtifact)
      → Keeps P (refuse_plan env.transport env.store plan items)
  unfolding refuse_plan
  refuse_plan-Keeps plan [] = search keeps_rules
  refuse_plan-Keeps plan (item ∷ items) = search (keeps_rules, create_snapshot-Keeps)

  pub require_conditional_writes-Keeps :
      (plan : ManagedConfigPlan) → Keeps P (require_conditional_writes env.transport env.store plan)
  unfolding require_conditional_writes
  require_conditional_writes-Keeps plan = refuse_plan-Keeps plan _

  refuse_changes-Keeps :
      (names : List String) (current : Files) → Keeps P (refuse_changes env.transport names current)
  unfolding refuse_changes
  refuse_changes-Keeps [] current = search keeps_rules
  refuse_changes-Keeps (name ∷ names) current = search keeps_rules

  pub revalidate_config_state-Keeps :
      (reviewed : Files) → Keeps P (revalidate_config_state env.transport reviewed)
  unfolding revalidate_config_state
  revalidate_config_state-Keeps reviewed =
      Keeps-attempt is_exception _ _ _
        (Keeps-bind _ _ quiet.validate (λ _. search (keeps_rules, quiet.read))) (λ e. Keeps-raise _)
        (λ current. refuse_changes-Keeps _ current)

  pause-Keeps : Keeps P (pause env)
  pause-Keeps = Keeps-modify _ (quiet.asleep env.settings.poll_interval)

  judge-Keeps :
      (again : String → ℕ → Exec W (Bool × String))
      → ((last : String) (n : ℕ) → Keeps P (again last n))
      → (n : ℕ) (state : String) → Keeps P (judge env again n state)
  unfolding judge
  judge-Keeps again h n state = search (keeps_rules, pause-Keeps, h)

  poll_ready-Keeps :
      (again : String → ℕ → Exec W (Bool × String))
      → ((last : String) (n : ℕ) → Keeps P (again last n))
      → (last : String) (n : ℕ) → Keeps P (poll_ready env again last n)
  unfolding poll_ready
  poll_ready-Keeps again h last n = Keeps-bind _ _ quiet.online λ online.
      Keeps-if online _ _ (search (keeps_rules, quiet.klipper, judge-Keeps, h))
        (search (keeps_rules, pause-Keeps, h))

  ready_loop-Keeps :
      (fuel deadline : ℕ) (last : String) (n : ℕ) → Keeps P (ready_loop env fuel deadline last n)
  unfolding ready_loop
  ready_loop-Keeps zero deadline last n = search keeps_rules
  ready_loop-Keeps (suc fuel) deadline last n =
      Keeps-bind _ _ (Keeps-gets env.transport.monotonic) λ time.
        Keeps-if (ltb time deadline) _ _
          (poll_ready-Keeps _ (ready_loop-Keeps fuel deadline) last n) (Keeps-pure (false, last))

  pub wait_ready-Keeps : Keeps P (wait_ready env)
  unfolding wait_ready
  wait_ready-Keeps = search (keeps_rules, ready_loop-Keeps)

  poll_moonraker-Keeps :
      (again : ℕ → Exec W Bool)
      → ((n : ℕ) → Keeps P (again n))
      → (n : ℕ) → Keeps P (poll_moonraker env again n)
  unfolding poll_moonraker
  poll_moonraker-Keeps again h n = Keeps-bind _ _ quiet.online λ online.
      Keeps-if online _ _ (search (keeps_rules, pause-Keeps, h))
        (search (keeps_rules, pause-Keeps, h))

  moonraker_loop-Keeps : (fuel deadline n : ℕ) → Keeps P (moonraker_loop env fuel deadline n)
  unfolding moonraker_loop
  moonraker_loop-Keeps zero deadline n = search keeps_rules
  moonraker_loop-Keeps (suc fuel) deadline n =
      Keeps-bind _ _ (Keeps-gets env.transport.monotonic) λ time.
        Keeps-if (ltb time deadline) _ _
          (poll_moonraker-Keeps _ (moonraker_loop-Keeps fuel deadline) n) (Keeps-pure false)

  pub wait_moonraker-Keeps : Keeps P (wait_moonraker env)
  unfolding wait_moonraker
  wait_moonraker-Keeps = search (keeps_rules, moonraker_loop-Keeps)

emit_to-Keeps :
    {W : Type 0} (P : W → Type 0) (sink : Option (String → String → Exec W (Unit {0})))
    → OnSome (λ sink. (state detail : String) → Keeps P (sink state detail)) sink
    → (state detail : String) → Keeps (InWorld P) (emit_to sink state detail)
unfolding emit_to
emit_to-Keeps P none h state detail = search keeps_rules
emit_to-Keeps P (some sink) h state detail = search (keeps_rules, Keeps-call, h)

pub emit-Keeps :
    {W : Type 0} (env : Environment W) {P : W → Type 0}
    → KeepsQuiet env P
    → (state detail : String) → Keeps (InWorld P) (emit env state detail)
unfolding emit
emit-Keeps env {P} quiet = emit_to-Keeps P _ quiet.told
