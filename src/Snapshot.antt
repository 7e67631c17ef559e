-- ===== src/Snapshot.antt =====
-- core/snapshot.py: the record of the original files, and the two checks that recovery rests on.
-- The directory writes behind `create_snapshot` are the parameter `publish`.
pub mod Restored
pub mod RoundTrip
use kace.Prelude.{
  ℕ, Bool, true, false, not, ◌&&◌, ◌||◌, String, str_eq, codes, Bytes, Option, none, some, List, [],
  ◌∷◌, map, any, all, leb, ◌==◌, lookup, has_key, insert, if◌then◌else◌, ◌<>◌, length, or_text,
}
use kace.Effects.{
  Exc, runtime_error, value_error, Result, ok, err, Exec, pure, gets, guard, ◌>>=◌, ◌>>◌,
}
use kace.ManagedConfig.{Content, Files, content_eq}

pub record DeploymentSnapshot : Type 0 where
  pub deployment_id : String
  pub timestamp : String
  pub board : String
  pub kace_version : String
  pub config_files : List (String × Bytes)
  pub missing_files : List String
  pub storage_path : String

abbrev pub letter_or_digit : ℕ → Bool
letter_or_digit c =
    (leb b'A' c && leb c b'Z') || (leb b'a' c && leb c b'z') || (leb b'0' c && leb c b'9')

-- `[A-Za-z0-9][A-Za-z0-9._-]*`; the names "", "." and ".." do not match it either.
unfoldable pub safe_id : List ℕ → Bool
safe_id [] = false
safe_id (c ∷ cs) =
    letter_or_digit c && all (λ d. letter_or_digit d || d == b'.' || d == b'_' || d == b'-') cs

-- `{name: data for ... if data is not None}`.
unfoldable pub existing_files : Files → List (String × Bytes)
existing_files [] = []
existing_files ((name, none) ∷ m) = existing_files m
existing_files ((name, some d) ∷ m) = (name, d) ∷ existing_files m

unfoldable pub absent_files : Files → List String
absent_files [] = []
absent_files ((name, none) ∷ m) = name ∷ absent_files m
absent_files ((name, some d) ∷ m) = absent_files m

-- What the operating system does for a snapshot: the clock, a fresh UUID, the path of a
-- transaction's directory, and the staged, atomically published directory.
pub record SnapshotStore (W : Type 0) : Type 0 where
  pub now : W → String
  pub fresh_id : W → String
  pub path : String → String
  pub publish : String → List (String × Bytes) → List String → Exec W (Unit {0})

module _ {W : Type 0} (store : SnapshotStore W) where
  -- The snapshot under an id that is given or fresh.
  unfoldable pub snapshot_under : Files → String → String → String → Exec W DeploymentSnapshot
  snapshot_under originals transaction_id board kace_version =
      guard (safe_id (codes transaction_id))
        (value_error "deployment_id is not a safe snapshot directory name")
      >> (gets store.now >>= λ captured_at.
          store.publish transaction_id (existing_files originals) (absent_files originals)
          >> pure (record {
            deployment_id = transaction_id;
            timestamp = captured_at;
            board = board;
            kace_version = kace_version;
            config_files = existing_files originals;
            missing_files = absent_files originals;
            storage_path = store.path transaction_id;
          }))

  unfoldable pub create_snapshot : Files → String → String → String → Exec W DeploymentSnapshot
  create_snapshot originals deployment_id board kace_version = gets store.fresh_id >>= λ fresh.
      snapshot_under originals (or_text deployment_id fresh) board kace_version

-- Whether a file has our exact bytes: an original one is already restored, any other is refused.
unfoldable pub rollback_file_owned : String → Content → Content → Content → Result Bool
rollback_file_owned name current original written =
    if content_eq current original
    then ok false
    else if content_eq current written
    then ok true
    else err
        (runtime_error ("concurrent modification of " <> name <> "; current content preserved"))

-- `name in snapshot.missing_files`.
abbrev pub mem_text : String → List String → Bool
mem_text name names = any (λ j. str_eq j name) names

-- The body of the loop of `verify_snapshot_restored`, at a file that the read has.
unfoldable pub restored_at : DeploymentSnapshot → String → Content → Result (Unit {0})
restored_at snapshot name current = elim (lookup name snapshot.config_files) [
  | some original ↦
      if content_eq current (some original)
      then ok tt
      else err (runtime_error ("rollback checksum mismatch for " <> name))
  | none ↦
      if mem_text name snapshot.missing_files
      then (if content_eq current none
          then ok tt
          else err (runtime_error ("rollback did not remove newly created " <> name)))
      else err (runtime_error ("rollback has no original state for " <> name))
]

unfoldable pub restored_in : DeploymentSnapshot → Files → String → Result (Unit {0})
restored_in snapshot current name = elim (lookup name current) [
  | none ↦ err (runtime_error ("rollback has no current-state evidence for " <> name))
  | some content ↦ restored_at snapshot name content
]

unfoldable pub verify_snapshot_restored :
    DeploymentSnapshot → Files → List String → Result (Unit {0})
verify_snapshot_restored snapshot current [] = ok tt
verify_snapshot_restored snapshot current (name ∷ names) =
    let rest = verify_snapshot_restored snapshot current names in
    elim (restored_in snapshot current name) [ ok _ ↦ rest | err e ↦ err e ]
