-- ===== src/Tests/Linux.antt =====
-- The theorem on the listed media, applied to a host with a system disk and a card.
use kace.Prelude.{
  Bool, true, false, String, Option, none, some, List, [], ◌∷◌, ◌≡◌, refl, ◌&&◌, not,
}
use kace.Effects.{ok, pure, raise, gets, attempt, require, ◌>>=◌}
use kace.Executor.Session.{MediaCandidate}
use kace.Executor.Linux.{
  BlockNode, BlockForest, no_more, grow, dict, mount_list, Listing, Host, visit, visit_all,
  identified, mounted, candidate_of, candidates_of, candidates_in, list_candidates,
}
use kace.Executor.Listed.{AllListed, list_candidates_listed}
use kace.Tests.Executor.{Card, files, value_of, returns, returns-ok}

abbrev block : String → String → List (Option String) → BlockNode
block path type mounts = record {
  path = path;
  type = type;
  mountpoints = mount_list mounts;
  fstype = "vfat";
  rm = "1";
  ro = "0";
  serial = "";
  partuuid = path;
  uuid = "";
  size = 100;
  label = "";
  model = "";
}

-- `/dev/sda` carries the system and a mounted data partition, `/dev/sdb` is the card.
abbrev trees : BlockForest
trees =
    grow
      (dict (block "/dev/sda" "disk" []) (
        grow (dict (block "/dev/sda1" "part" (some "/" ∷ [])) no_more)
          (grow (dict (block "/dev/sda2" "part" (some "/home" ∷ none ∷ [])) no_more) no_more)))
      (grow
        (dict (block "/dev/sdb" "disk" (none ∷ []))
          (grow (dict (block "/dev/sdb1" "part" (some "/media/sd" ∷ [])) no_more) no_more))
        no_more)

abbrev listing : Listing
listing = record { returncode = 0; stderr = ""; blockdevices = some trees }

abbrev host : Host Card
host = record {
  is_posix = true;
  lsblk = pure listing;
  which_udisksctl = λ w. some "udisksctl";
  unmount = λ program device. pure (record { returncode = 0; stdout = ""; stderr = "" });
  is_dir = λ w path. true;
  is_mount = λ w path. false;
  free_bytes = λ path. pure 50;
  strip = λ text. text;
  utc_now = λ w. "t";
  exists = λ w path. false;
  is_symlink = λ w path. false;
  parent = λ path. "/media/sd";
  copy_new = λ source target. pure tt;
  replace = λ source target. pure tt;
  sync_directory = λ path. pure tt;
  unlink = λ path. pure tt;
}

-- The first candidate is of the system disk, the second is not.
abbrev marked : List MediaCandidate → Bool
marked (a ∷ b ∷ []) = a.system_disk && not b.system_disk
marked _ = false

listed-run :
    (returns marked (list_candidates files host none) ≡ true)
    × (host.lsblk none ≡ (ok listing, none))
unfolding visit visit_all identified mounted candidate_of candidates_of candidates_in
    list_candidates pure raise gets attempt require ◌>>=◌
listed-run = (refl, refl)

list_candidates_listed_example :
    AllListed files host (some trees) (value_of [] (list_candidates files host none).0)
list_candidates_listed_example =
    list_candidates_listed files host listing _ none _ none listed-run.1
      (returns-ok [] marked (list_candidates files host none) listed-run.0)
