-- ===== src/Tests/Contract.antt =====
-- The theorem on created plans, applied to the plan of one build.
use Prim.Native.Char.{char, code}
use Prim.Native.String.append.{nil, cons}
use kace.Prelude.{
  Bool, true, false, ◌||◌, ◌==◌, String, str_eq, str_eq_iff, none, ◌≡◌, ◌∙◌, refl, arith, ◌<>◌,
  if◌then◌else◌,
}
use kace.Effects.{Result, ok, pure, raise, gets, attempt, finally, need, require, ◌>>=◌}
use kace.Boards.{BuildTarget, find_variant, find_target}
use kace.Contract.{BuildArtifact, DeploymentPlan, Library}
use kace.Contract.Validation.{
  choose, steps_for, typed_steps, named_file, final_filename, is_basename,
  require_contract_identity, validate_deployment_plan,
}
use kace.Contract.Preparation.{
  Disk, digest_of_file, discard, stage_copy, prepare_directory, transform, apply_artifact_policy,
  create_deployment_plan,
}
use kace.Contract.Accepted.{create-validate}
use kace.Tests.Boards.{skr}
use kace.Tests.Executor.{
  Card, files, value_of, returns, returns-ok, returns-holds, built, identity, plan,
}

-- Paths as texts with slashes, as `pathlib` prints them.
abbrev has_slash : String → Bool
has_slash String.[] = false
has_slash (String.◌∷◌ c s) = code c == b'/' || has_slash s

abbrev last_component : String → String
last_component String.[] = ""
last_component (String.◌∷◌ c s) =
    if has_slash (String.◌∷◌ c s) then last_component s else String.◌∷◌ c s

abbrev below : String → String
below name = String.◌∷◌ (char b'/' tt) name

abbrev paths : Library Card
paths = record files {
  file_name = last_component;
  child = λ directory name. directory <> below name;
}

has_slash-child : (d n : String) → has_slash (d <> (below n)) ≡ true
has_slash-child String.[] n = rw (nil (below n)) refl
has_slash-child (String.◌∷◌ c d) n = rw (cons c d (below n)) (ground (arith, has_slash-child d n))

last_component-child : (d n : String) → last_component (d <> (below n)) ≡ last_component n
last_component-child String.[] n = rw (nil (below n)) refl
last_component-child (String.◌∷◌ c d) n =
    rw (cons c d (below n)) (ground (arith, has_slash-child d n, last_component-child d n))

named : (d n : String) → is_basename paths n ≡ true → paths.file_name (paths.child d n) ≡ n
named d n base = last_component-child d n ∙ (str_eq_iff _ _).0 (ground (arith, base))

abbrev shelf : Disk Card
shelf = record {
  is_file = λ w path. true;
  exists = λ w path. false;
  file_size = λ path. pure 4;
  file_digest = λ path. pure "a";
  expand_user = λ w path. path;
  make_directories = λ path. pure tt;
  make_directory = λ path. pure tt;
  copy_file = λ source target. pure tt;
  replace = λ source target. pure tt;
  unlink = λ path. pure tt;
}

abbrev artifact : BuildArtifact
artifact = record built { path = "/out/klipper.bin" }

abbrev creating_run : Result DeploymentPlan × Card
creating_run = create_deployment_plan paths shelf skr artifact "out" none none

abbrev has_path : DeploymentPlan → Bool
has_path p = str_eq p.transformation.native_path "/out/klipper.bin"

created-run : returns has_path creating_run ≡ true
unfolding find_variant find_target choose steps_for typed_steps named_file final_filename
    require_contract_identity digest_of_file discard stage_copy prepare_directory transform
    apply_artifact_policy create_deployment_plan pure raise gets attempt finally need require ◌>>=◌
created-run = refl

create-validate_example :
    (target : BuildTarget) × (validate_deployment_plan paths skr (value_of plan creating_run.0) none
      ≡ (ok target, none))
create-validate_example =
    create-validate paths shelf named skr artifact "out" none identity
      (value_of plan creating_run.0) none creating_run.1 none (returns-ok _ _ _ created-run) refl
      refl refl refl ((str_eq_iff _ _).0 (returns-holds plan has_path creating_run created-run))
