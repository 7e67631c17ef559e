-- ===== src/Transaction/Reading.antt =====
-- `read_config_state`, `revalidate_config_state` and `require_conditional_writes`: what the
-- transaction reads of the destination, and the checks on it before a write.
pub mod Bounds
use kace.Prelude.{
  ℕ, zero, suc, ◌+◌, Bool, true, false, not, ◌&&◌, ◌||◌, String, str_eq, Bytes, bytes_eq, Option,
  none, some, List, [], ◌∷◌, map, any, keep, length, ltb, lookup, insert, keys, if◌then◌else◌, ◌<>◌,
  join,
}
use kace.Effects.{
  Exc, value_error, conflict_error, key_error, unfinished, message, is_exception, Result, ok, err,
  Exec, pure, raise, gets, lift, need, attempt, ◌>>=◌, ◌>>◌,
}
use kace.ManagedConfig.{
  Content, Files, content_eq, PlannedConfigArtifact, ManagedConfigPlan, changed_artifacts,
  planned_files, root_remote, moonraker_remote, hardware_remote, macros_remote,
  legacy_macros_remote,
}
use kace.Snapshot.{SnapshotStore, DeploymentSnapshot, create_snapshot}
use kace.Transaction.Interface.{Transport, Planner}

abbrev pub candidates : List String
candidates =
    root_remote ∷ moonraker_remote ∷ hardware_remote ∷ macros_remote ∷ legacy_macros_remote ∷ []

-- 8 MiB.
abbrev pub include_limit : ℕ
include_limit = 8388608

-- `{name: remote[name] for name in names}`.
unfoldable pub pick : List String → Files → Result Files
pick [] remote = ok []
pick (name ∷ names) remote =
    let rest = pick names remote in
    elim (lookup name remote) [
      | none ↦ err (key_error name)
      | some content ↦ elim rest [ ok state ↦ ok ((name, content) ∷ state) | err e ↦ err e ]
    ]

-- A file that is still to be scanned for includes: its name and its content.
abbrev pub Pending : Type 0
Pending = List (String × Content)

abbrev pub Visited : Type 0
Visited = List (String × Bytes)

abbrev pub is_visited : String → Bytes → Visited → Bool
is_visited source content visited =
    any (λ (v : String × Bytes). str_eq v.0 source && bytes_eq v.1 content) visited

module _ {W : Type 0} (transport : Transport W) where
  -- `transport.read_files((name,))[name]`.
  unfoldable pub read_file : String → Exec W Content
  read_file name = transport.read_files (name ∷ []) >>= λ remote. need name (lookup name remote)

  -- One include: a file that was read before is not read again.
  unfoldable pub resolve_include : String → Files → Option Content → Exec W (Files × Content)
  resolve_include name state (some content) = pure (state, content)
  resolve_include name state none =
      read_file name >>= λ content. pure (insert name content state, content)

  -- The inner loop over the includes of one file; the last name is scanned first.
  unfoldable pub add_includes : List String → Files → Pending → Exec W (Files × Pending)
  add_includes [] state pending = pure (state, pending)
  add_includes (name ∷ names) state pending =
      resolve_include name state (lookup name state) >>= λ r.
      add_includes names r.0 ((name, r.1) ∷ pending)

  module _ (planner : Planner W) where
    -- One round of `while pending`; `again` is the rest of the loop.
    unfoldable pub scan_step :
        (Pending → Visited → Files → ℕ → Exec W Files)
        → Pending
        → Visited
        → Files
        → ℕ
        → Exec W Files
    scan_step again [] visited state total = pure state
    scan_step again ((source, none) ∷ pending) visited state total =
        again pending visited state total
    scan_step again ((source, some content) ∷ pending) visited state total =
        if is_visited source content visited
        then again pending visited state total
        else if ltb 256 (length state) || ltb include_limit (total + length content)
        then raise (value_error "configuration include graph exceeds review limits")
        else (add_includes (planner.config_includes content source).0 state pending >>= λ r.
            lift (planner.config_includes content source).1
            >> again r.1 ((source, content) ∷ visited) r.0 (total + length content))

    unfoldable pub scan : ℕ → Pending → Visited → Files → ℕ → Exec W Files
    scan zero pending visited state total = raise unfinished
    scan (suc fuel) pending visited state total = scan_step (scan fuel) pending visited state total

    unfoldable pub read_config_state : Bytes → Option Bytes → Exec W Files
    read_config_state generated_hardware generated_macros =
        transport.read_files candidates >>= λ remote. lift (pick candidates remote) >>= λ state.
        need root_remote (lookup root_remote state) >>= λ root.
        scan (include_limit + 4)
          ((root_remote, root)
            ∷ (macros_remote, generated_macros)
            ∷ (root_remote, some generated_hardware)
            ∷ [])
          [] state 0

  unfoldable pub unsupported : ManagedConfigPlan → List PlannedConfigArtifact
  unsupported plan =
      keep (λ item. not (transport.supports_conditional_write item.previous))
        (changed_artifacts plan)

  module _ (store : SnapshotStore W) where
    -- The whole plan is kept as a proposal before the refusal.
    unfoldable pub refuse_plan : ManagedConfigPlan → List PlannedConfigArtifact → Exec W (Unit {0})
    refuse_plan plan [] = pure tt
    refuse_plan plan (item ∷ items) = gets store.fresh_id >>= λ fresh.
        create_snapshot store (planned_files plan.artifacts) (fresh <> "-proposed") "" "unknown"
        >>= λ proposal. raise (
            conflict_error (
              "transport cannot atomically condition these writes on reviewed content: "
              <> join ", " (map (λ (a : PlannedConfigArtifact). a.remote_name) (item ∷ items))
              <> "; live files preserved; manually apply reviewed proposal from "
              <> proposal.storage_path))

    unfoldable pub require_conditional_writes : ManagedConfigPlan → Exec W (Unit {0})
    require_conditional_writes plan = refuse_plan plan (unsupported plan)

  -- `[name for name in current if current[name] != reviewed[name]]`.
  unfoldable pub changed_names : Files → Files → List String
  changed_names reviewed current = keys (
      keep
        (λ (f : String × Content). elim (lookup f.0 reviewed) [
          | none ↦ true
          | some c ↦ not (content_eq f.1 c)
        ])
        current)

  unfoldable pub refuse_changes : List String → Files → Exec W Files
  refuse_changes [] current = pure current
  refuse_changes (name ∷ names) current = raise (
      conflict_error
        ("concurrent configuration modification detected: " <> join ", " (name ∷ names)))

  unfoldable pub revalidate_config_state : Files → Exec W Files
  revalidate_config_state reviewed =
      attempt is_exception
        (transport.validate_activation_target
          >> (transport.read_files (keys reviewed) >>= λ remote.
              lift (pick (keys reviewed) remote)))
        (λ e. raise (conflict_error ("configuration revalidation failed: " <> message e)))
        (λ current. refuse_changes (changed_names reviewed current) current)
