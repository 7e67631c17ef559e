-- ===== src/Transaction/Ordering.antt =====
-- `_ordered_artifacts`: included files are written before the root file that names them.
pub mod RootLast
use Prim.Native.Nat.{Ordering}
use Prim.Native.String.{compare}
use kace.Prelude.{Bool, true, false, ◌&&◌, ◌||◌, not, String, str_eq, List, [], ◌∷◌}
use kace.ManagedConfig.{PlannedConfigArtifact, root_remote}

abbrev pub is_root : PlannedConfigArtifact → Bool
is_root item = str_eq item.remote_name root_remote

-- `key(a) <= key(b)` for `key = (remote_name == ROOT_REMOTE, remote_name)`.
abbrev name_le : PlannedConfigArtifact → PlannedConfigArtifact → Bool
name_le a b = elim (compare a.remote_name b.remote_name) [ Ordering.gt ↦ false | _ ↦ true ]

unfoldable pub key_le : PlannedConfigArtifact → PlannedConfigArtifact → Bool
key_le a b = elim (is_root a) [
  | true ↦ elim (is_root b) [ true ↦ name_le a b | false ↦ false ]
  | false ↦ elim (is_root b) [ true ↦ true | false ↦ name_le a b ]
]

-- `sorted` is stable: a new item goes before the first that is not below it.
unfoldable pub insert_ordered :
    PlannedConfigArtifact → List PlannedConfigArtifact → List PlannedConfigArtifact
insert_ordered item [] = item ∷ []
insert_ordered item (x ∷ xs) =
    let rest = insert_ordered item xs in
    elim (key_le item x) [ true ↦ item ∷ x ∷ xs | false ↦ x ∷ rest ]

unfoldable pub ordered_artifacts : List PlannedConfigArtifact → List PlannedConfigArtifact
ordered_artifacts [] = []
ordered_artifacts (item ∷ items) = insert_ordered item (ordered_artifacts items)
