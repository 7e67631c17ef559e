-- ===== src/Snapshot/RoundTrip.antt =====
-- A snapshot gives back what it was taken of, and which file recovery may write.
use kace.Prelude.{
  true, String, str_eq_iff, none, some, [], ◌∷◌, ◌≡◌, ◌↔◌, refl, arith, lookup, keys, All, All-zip,
  All-lookup, All-keys, keys-All, IsDict, inl, inr,
}
use kace.Effects.{ok}
use kace.Effects.Ending.{Ends, Anywhere, Ends-pure, Ends-bind, Keeps-Anywhere, Triple-ok}
use kace.ManagedConfig.{Content, Files}
use kace.Snapshot.{
  DeploymentSnapshot, SnapshotStore, snapshot_under, create_snapshot, existing_files, absent_files,
  mem_text, verify_snapshot_restored,
}
use kace.Snapshot.Restored.{Original, RestoredIn, verify_snapshot_restored_iff}

existing_files-absent :
    (name : String) (files : Files)
    → lookup name files ≡ none
    → lookup name (existing_files files) ≡ none
unfolding existing_files lookup
existing_files-absent name [] h = refl
existing_files-absent name ((j, none) ∷ m) h =
    let ih : lookup name m ≡ none → lookup name (existing_files m) ≡ none =
      existing_files-absent name m in
    ground arith
existing_files-absent name ((j, some d) ∷ m) h =
    let ih : lookup name m ≡ none → lookup name (existing_files m) ≡ none =
      existing_files-absent name m in
    ground arith

lookup-existing_files :
    (name : String) (files : Files) (c : Content)
    → IsDict files
    → lookup name files ≡ some c
    → lookup name (existing_files files) ≡ c
unfolding existing_files lookup
lookup-existing_files name [] c d h = absurd (cc h)
lookup-existing_files name ((j, none) ∷ m) c d h =
    let ih : lookup name m ≡ some c → lookup name (existing_files m) ≡ c =
      lookup-existing_files name m c d.1 in
    let fresh : lookup name m ≡ none → lookup name (existing_files m) ≡ none =
      existing_files-absent name m in
    ground (arith, str_eq_iff j name, d.0)
lookup-existing_files name ((j, some b) ∷ m) c d h =
    let ih : lookup name m ≡ some c → lookup name (existing_files m) ≡ c =
      lookup-existing_files name m c d.1 in
    ground arith

mem_text-absent_files :
    (name : String) (files : Files)
    → lookup name files ≡ some none
    → mem_text name (absent_files files) ≡ true
unfolding absent_files lookup
mem_text-absent_files name [] h = absurd (cc h)
mem_text-absent_files name ((j, none) ∷ m) h =
    let ih : lookup name m ≡ some none → mem_text name (absent_files m) ≡ true =
      mem_text-absent_files name m in
    ground arith
mem_text-absent_files name ((j, some b) ∷ m) h =
    let ih : lookup name m ≡ some none → mem_text name (absent_files m) ≡ true =
      mem_text-absent_files name m in
    ground arith

-- What `create_snapshot` puts into the record.
abbrev Captures : Files → DeploymentSnapshot → Type 0
Captures originals snapshot =
    (snapshot.config_files ≡ existing_files originals)
    × (snapshot.missing_files ≡ absent_files originals)

create_snapshot-Captures :
    {W : Type 0} (store : SnapshotStore W) (originals : Files) (id board version : String)
    → Ends Anywhere
        (λ snapshot _. Captures originals snapshot)
        (create_snapshot store originals id board version)
unfolding create_snapshot snapshot_under
create_snapshot-Captures store originals id board version = Ends-bind _ _ (Keeps-Anywhere _) λ _.
    Ends-bind _ _ (Keeps-Anywhere _) λ _.
      Ends-bind _ _ (Keeps-Anywhere _)
        λ _. Ends-bind _ _ (Keeps-Anywhere _) λ _. Ends-pure _ (λ w _. (refl, refl))

module _ (originals : Files) (dict : IsDict originals) (snapshot : DeploymentSnapshot)
    (captured : Captures originals snapshot) where
  captured-Original :
      (name : String) (c : Content) → lookup name originals ≡ some c → Original snapshot name c
  captured-Original name none h = inr (
    cc (captured.0, lookup-existing_files name originals none dict h),
    cc (captured.1, mem_text-absent_files name originals h),
    refl,
  )
  captured-Original name (some b) h =
      inl (b, cc (captured.0, lookup-existing_files name originals (some b) dict h), refl)

  Original-captured :
      (name : String) (c d : Content)
      → lookup name originals ≡ some c
      → Original snapshot name d
      → d ≡ c
  Original-captured name c d h (inl (b, e, p)) =
      cc (captured.0, lookup-existing_files name originals c dict h, e, p)
  Original-captured name c d h (inr (e, m, p)) =
      cc (captured.0, lookup-existing_files name originals c dict h, e, p)

-- A snapshot of `originals`, once taken, is found restored exactly when the read has every one
-- of these files with its original bytes, and confirms the absence of every one that was absent.
-- `originals` has each name once, as a Python `dict` does.
pub create_snapshot-verify :
    {W : Type 0} (store : SnapshotStore W) (originals : Files) (id board version : String)
    (w w' : W) (snapshot : DeploymentSnapshot) (current : Files)
    → IsDict originals
    → create_snapshot store originals id board version w ≡ (ok snapshot, w')
    → (verify_snapshot_restored snapshot current (keys originals) ≡ ok tt)
      ↔ All (λ (f : String × Content). lookup f.0 current ≡ some f.1) originals
create_snapshot-verify store originals id board version w w' snapshot current dict e =
    let captured : Captures originals snapshot =
      Triple-ok (create_snapshot-Captures store originals id board version).triple tt e in
    let iff = verify_snapshot_restored_iff snapshot current (keys originals) in
    (
      (λ h.
          All-zip originals
            (λ f found r.
              cc (r.1, Original-captured originals dict snapshot captured f.0 f.1 r.0 found r.2))
            (All-lookup originals dict)
            (All-keys (RestoredIn snapshot current) originals (iff.0 h))),
      (λ h. iff.1 (
          keys-All (RestoredIn snapshot current) originals (
            All-zip originals
              (λ f found read.
                (f.1, read, captured-Original originals dict snapshot captured f.0 f.1 found))
              (All-lookup originals dict) h))),
    )
