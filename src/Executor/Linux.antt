-- ===== src/Executor/Linux.antt =====
-- The Linux adapters: the removable media that lsblk lists, safe ejection, and the atomic copy.
-- Starting a process, its JSON and the file system are parameters.
use kace.Prelude.{
  or_text, ℕ, Bool, true, false, not, ◌&&◌, ◌||◌, ◌==◌, String, str_eq, any, Option, none, some,
  List, [], ◌∷◌, ◌++◌, if◌then◌else◌, ◌<>◌,
}
use kace.Effects.{
  os_error, value_error, execution_error, media_selection_type, Exec, pure, raise, gets, attempt,
  finally, require, ◌>>=◌, ◌>>◌,
}
use kace.Contract.{Library}
use kace.Executor.Session.{
  SafeEjectStatus, eject_done, eject_unsupported, eject_failed, MediaCandidate, SafeEjectResult,
}
use kace.Executor.Checks.{is_os_error}
use Prim.Native.String.{compare}
use Prim.Native.Nat.{Ordering}

-- The value at `mountpoints`: a text, a list with null items, or neither.
pub data Mountpoints : Type 0 where
  one_mount : String → Mountpoints
  mount_list : List (Option String) → Mountpoints
  no_list : Mountpoints

-- A node of the listing, without its children; a missing text is empty.
pub record BlockNode : Type 0 where
  pub path : String
  pub type : String
  pub mountpoints : Mountpoints
  pub fstype : String
  pub rm : String
  pub ro : String
  pub serial : String
  pub partuuid : String
  pub uuid : String
  pub size : ℕ
  pub label : String
  pub model : String

mutual
  pub data BlockTree : Type 0 where
    no_dict : BlockTree
    dict : BlockNode → BlockForest → BlockTree

  pub data BlockForest : Type 0 where
    no_more : BlockForest
    grow : BlockTree → BlockForest → BlockForest

-- lsblk's answer: its return code, and its JSON if it is valid, with the errors' text.
pub record Listing : Type 0 where
  pub returncode : ℕ
  pub stderr : String
  pub blockdevices : Option BlockForest

-- `udisksctl`'s.
pub record Completed : Type 0 where
  pub returncode : ℕ
  pub stdout : String
  pub stderr : String

-- `os`, `shutil`, and the processes. `copy_new` writes a new file and syncs it.
pub record Host (W : Type 0) : Type 0 where
  pub is_posix : Bool
  pub lsblk : Exec W Listing
  pub which_udisksctl : W → Option String
  pub unmount : String → String → Exec W Completed
  pub is_dir : W → String → Bool
  pub is_mount : W → String → Bool
  pub free_bytes : String → Exec W ℕ
  pub strip : String → String
  pub utc_now : W → String
  pub exists : W → String → Bool
  pub is_symlink : W → String → Bool
  pub parent : String → String
  pub copy_new : String → String → Exec W (Unit {0})
  pub replace : String → String → Exec W (Unit {0})
  pub sync_directory : String → Exec W (Unit {0})
  pub unlink : String → Exec W (Unit {0})

abbrev cons_some : Option String → List String → List String
cons_some none texts = texts
cons_some (some text) texts = if str_eq text "" then texts else text ∷ texts

abbrev filled : List (Option String) → List String
filled [] = []
filled (o ∷ os) = cons_some o (filled os)

-- `_mountpoints`.
abbrev pub mounts_of : Mountpoints → List String
mounts_of (one_mount text) = filled (some text ∷ [])
mounts_of (mount_list items) = filled items
mounts_of no_list = []

-- A node with the root of its tree.
abbrev pub Flattened : Type 0
Flattened = List (BlockNode × BlockNode)

unfoldable mutual
  -- `visit`: a node before its children.
  pub visit : BlockNode → BlockTree → Flattened
  visit root no_dict = []
  visit root (dict node children) = (node, root) ∷ visit_all root children

  pub visit_all : BlockNode → BlockForest → Flattened
  visit_all root no_more = []
  visit_all root (grow tree forest) = visit root tree ++ visit_all root forest

abbrev visit_root : BlockTree → Flattened
visit_root no_dict = []
visit_root (dict node children) = visit node (dict node children)

abbrev pub flatten : BlockForest → Flattened
flatten no_more = []
flatten (grow tree forest) = visit_root tree ++ flatten forest

abbrev pub is_slash : BlockNode → Bool
is_slash node = any (λ m. str_eq m "/") (mounts_of node.mountpoints)

-- `system_roots`: the paths of the roots with a node that is mounted at `/`.
abbrev pub system_roots : Flattened → List String
system_roots [] = []
system_roots ((node, root) ∷ rest) =
    let others = system_roots rest in if is_slash node then root.path ∷ others else others

abbrev pub parent_of : BlockNode → BlockNode → String
parent_of node root = or_text root.path node.path

-- `sorted(…, key=stable_id)`, which is stable.
abbrev pub id_le : MediaCandidate → MediaCandidate → Bool
id_le a b = elim (compare a.stable_id b.stable_id) [ Ordering.gt ↦ false | _ ↦ true ]

abbrev pub insert_candidate : MediaCandidate → List MediaCandidate → List MediaCandidate
insert_candidate c [] = c ∷ []
insert_candidate c (d ∷ ds) =
    let rest = insert_candidate c ds in if id_le c d then c ∷ d ∷ ds else d ∷ rest

abbrev pub sorted_candidates : List MediaCandidate → List MediaCandidate
sorted_candidates [] = []
sorted_candidates (c ∷ cs) = insert_candidate c (sorted_candidates cs)

abbrev pub is_block : BlockNode → Bool
is_block node = str_eq node.type "part" || str_eq node.type "disk"

abbrev pub add_candidate : Option MediaCandidate → List MediaCandidate → List MediaCandidate
add_candidate none cs = cs
add_candidate (some c) cs = c ∷ cs

module _ {W : Type 0} (library : Library W) (host : Host W) where
  -- `_truth`.
  abbrev pub truth : String → Bool
  truth value =
      let text = library.fold value in str_eq text "1" || str_eq text "true" || str_eq text "yes"

  abbrev pub serial_of : BlockNode → BlockNode → String
  serial_of node root = or_text root.serial node.serial

  abbrev pub stable_id_of : BlockNode → BlockNode → Option String
  stable_id_of node root =
      if not (str_eq node.partuuid "")
      then some ("partuuid:" <> library.casefold node.partuuid)
      else if not (str_eq node.uuid "")
      then some ("uuid:" <> library.casefold node.uuid)
      else if not (str_eq (serial_of node root) "") && not (str_eq node.path "")
      then some ("serial-path:" <> library.casefold (serial_of node root) <> ":" <> node.path)
      else none

  abbrev pub candidate : List String → BlockNode → BlockNode → String → String → ℕ → MediaCandidate
  candidate roots node root id mount free = record {
    stable_id = id;
    device_path = node.path;
    parent_device = parent_of node root;
    mount_path = mount;
    filesystem = library.casefold node.fstype;
    size_bytes = node.size;
    free_bytes = free;
    removable = truth node.rm || truth root.rm;
    system_disk = any (λ p. str_eq p (parent_of node root)) roots;
    read_only = truth node.ro || truth root.ro;
    label = node.label;
    model = host.strip (or_text root.model node.model);
    serial = serial_of node root;
  }

  unfoldable pub identified :
      List String → BlockNode → BlockNode → String → Option String → Exec W (Option MediaCandidate)
  identified roots node root mount none = pure none
  identified roots node root mount (some id) = gets (λ w. library.resolve w mount) >>= λ path.
      gets (λ w. host.is_dir w path) >>= λ directory.
      if directory
      then attempt is_os_error (host.free_bytes path) (λ e. pure none)
          (λ free.
            require (
              (
                not (str_eq node.path "") && not (str_eq path ""),
                value_error "media candidate requires stable identity, device and mount path",
              )
              ∷ [])
            >> pure (some (candidate roots node root id path free)))
      else pure none

  unfoldable pub mounted :
      List String → BlockNode → BlockNode → List String → Exec W (Option MediaCandidate)
  mounted roots node root (mount ∷ []) =
      if str_eq mount "/"
      then pure none
      else identified roots node root mount (stable_id_of node root)
  mounted roots node root _ = pure none

  -- One round of the loop over `flattened`.
  unfoldable pub candidate_of : List String → BlockNode → BlockNode → Exec W (Option MediaCandidate)
  candidate_of roots node root =
      if is_block node then mounted roots node root (mounts_of node.mountpoints) else pure none

  unfoldable pub candidates_of : List String → Flattened → Exec W (List MediaCandidate)
  candidates_of roots [] = pure []
  candidates_of roots ((node, root) ∷ rest) = candidate_of roots node root >>= λ o.
      candidates_of roots rest >>= λ cs. pure (add_candidate o cs)

  unfoldable pub candidates_in : Option BlockForest → Exec W (List MediaCandidate)
  candidates_in none =
      raise (
        execution_error media_selection_type "MEDIA_DISCOVERY_FAILED" "lsblk returned invalid JSON")
  candidates_in (some forest) =
      candidates_of (system_roots (flatten forest)) (flatten forest) >>= λ cs.
      pure (sorted_candidates cs)

  unfoldable pub list_candidates : Exec W (List MediaCandidate)
  list_candidates =
      require (
        (
          host.is_posix,
          execution_error media_selection_type "MEDIA_DISCOVERY_UNSUPPORTED"
              "real removable-media discovery is supported only on the KACE Linux host",
        )
        ∷ [])
      >> (host.lsblk >>= λ listing.
          require (
            (
              listing.returncode == 0,
              execution_error media_selection_type "MEDIA_DISCOVERY_FAILED"
                  ("lsblk failed: " <> listing.stderr),
            )
            ∷ [])
          >> candidates_in listing.blockdevices)

  abbrev pub find_candidate : String → List MediaCandidate → Option MediaCandidate
  find_candidate id [] = none
  find_candidate id (c ∷ cs) =
      let rest = find_candidate id cs in if str_eq c.stable_id id then some c else rest

  unfoldable pub refresh_candidate : MediaCandidate → Exec W (Option MediaCandidate)
  refresh_candidate selected = list_candidates >>= λ cs. pure (find_candidate selected.stable_id cs)

  abbrev ejection : SafeEjectStatus → MediaCandidate → String → String → SafeEjectResult
  ejection status selected detail at = record {
    status = status;
    device_path = selected.device_path;
    detail = detail;
    timestamp = at;
  }

  unfoldable pub unmount_with : MediaCandidate → String → Option String → Exec W SafeEjectResult
  unmount_with selected at none =
      pure (ejection eject_unsupported selected "udisksctl is unavailable on this platform" at)
  unmount_with selected at (some executable) =
      host.unmount executable selected.device_path >>= λ completed.
      gets (λ w. host.is_mount w selected.mount_path) >>= λ still. pure (
        if not (completed.returncode == 0)
        then ejection eject_failed selected
            (host.strip (or_text completed.stderr "udisksctl failed")) at
        else if still
        then ejection eject_failed selected
            "selected filesystem still appears mounted after udisksctl" at
        else ejection eject_done selected (host.strip (or_text completed.stdout "unmounted")) at)

  -- `LinuxSafeEjector.eject`.
  unfoldable pub eject : MediaCandidate → Exec W SafeEjectResult
  eject selected = gets host.utc_now >>= λ at. gets host.which_udisksctl >>= λ executable.
      unmount_with selected at (if host.is_posix then executable else none)

  unfoldable pub remove_temporary : String → Exec W (Unit {0})
  remove_temporary temporary = gets (λ w. host.exists w temporary) >>= λ left.
      if left then host.unlink temporary else pure tt

  -- `VerifiedMediaWriter.copy`.
  unfoldable pub copy : String → String → String → Exec W (Unit {0})
  copy source destination id =
      let temporary = library.child (host.parent destination) (".kace-" <> id <> ".part") in
      gets (λ w. host.exists w destination && host.is_symlink w destination) >>= λ link.
      gets (λ w. host.exists w temporary) >>= λ stale.
      require (
        (not link, os_error "destination firmware path is a symbolic link")
        ∷ (
          not stale,
          os_error ("stale KACE temporary file exists: " <> library.file_name temporary),
        )
        ∷ [])
      >> finally
          (host.copy_new source temporary
            >> (host.replace temporary destination
                >> host.sync_directory (host.parent destination)))
          (remove_temporary temporary)
