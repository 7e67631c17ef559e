-- ===== src/ManagedConfig.antt =====
-- core/managed_config.py: the names of the managed files, one planned file, and the plan.
use kace.Prelude.{
  [], update, Bool, true, false, not, String, Bytes, bytes_eq, bytes_eq_iff, Option, none, some,
  List, map, keep, ◌≡◌, ◌↔◌, arith,
}

abbrev pub hardware_remote : String
hardware_remote = "kace/generated-hardware.cfg"

abbrev pub macros_remote : String
macros_remote = "kace/generated-macros.cfg"

abbrev pub legacy_macros_remote : String
legacy_macros_remote = "macros.cfg"

abbrev pub root_remote : String
root_remote = "printer.cfg"

abbrev pub moonraker_remote : String
moonraker_remote = "moonraker.conf"

-- What a read says of one file: its bytes, or its confirmed absence.
abbrev pub Content : Type 0
Content = Option Bytes

abbrev pub Files : Type 0
Files = List (String × Content)

-- `==` on two contents.
abbrev pub content_eq : Content → Content → Bool
content_eq none none = true
content_eq (some a) (some b) = bytes_eq a b
content_eq none (some b) = false
content_eq (some a) none = false

pub content_eq_iff : (a b : Content) → (content_eq a b ≡ true) ↔ (a ≡ b)
content_eq_iff (some a) (some b) = ground (arith, bytes_eq_iff a b)
content_eq_iff none b = ground arith
content_eq_iff (some a) none = ground arith

pub record PlannedConfigArtifact : Type 0 where
  pub remote_name : String
  pub content : Bytes
  pub previous : Content

abbrev pub existed : PlannedConfigArtifact → Bool
existed item = not (content_eq item.previous none)

abbrev pub changed : PlannedConfigArtifact → Bool
changed item = not (content_eq item.previous (some item.content))

pub record ManagedConfigPlan : Type 0 where
  pub artifacts : List PlannedConfigArtifact
  pub legacy_migration : Bool
  pub warnings : List String
  pub source_files : Files

abbrev pub changed_artifacts : ManagedConfigPlan → List PlannedConfigArtifact
changed_artifacts plan = keep changed plan.artifacts

abbrev pub remote_names : ManagedConfigPlan → List String
remote_names plan = map (λ item. item.remote_name) plan.artifacts

-- `{item.remote_name: item.content for item in plan.artifacts}`, as file contents: of two items with
-- one name the later one counts.
abbrev pub planned_files : List PlannedConfigArtifact → Files
planned_files items = update [] (map (λ item. (item.remote_name, some item.content)) items)
