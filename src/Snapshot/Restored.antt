-- ===== src/Snapshot/Restored.antt =====
-- What the checks of core/snapshot.py establish.
use kace.Prelude.{
  true, String, Option, none, some, List, [], ◌∷◌, ◌≡◌, ◌↔◌, ◌⊎◌, inl, inr, refl, arith, lookup,
  All, Bytes,
}
use kace.Effects.{Exc, Result, ok, err, Result-cases}
use kace.ManagedConfig.{Content, Files, content_eq_iff}
use kace.Snapshot.{DeploymentSnapshot, mem_text, restored_at, restored_in, verify_snapshot_restored}

-- The bytes that the snapshot has for the file, or its absence.
abbrev pub Original : DeploymentSnapshot → String → Content → Type 0
Original snapshot name content =
    ((b : Bytes) × (lookup name snapshot.config_files ≡ some b) × (content ≡ some b))
    ⊎ ((lookup name snapshot.config_files ≡ none)
        × (mem_text name snapshot.missing_files ≡ true)
        × (content ≡ none))

abbrev pub RestoredIn : DeploymentSnapshot → Files → String → Type 0
RestoredIn snapshot current name =
    (content : Content) × (lookup name current ≡ some content) × Original snapshot name content

restored_at-Original :
    (snapshot : DeploymentSnapshot) (name : String) (content : Content)
    → restored_at snapshot name content ≡ ok tt
    → Original snapshot name content
unfolding restored_at
restored_at-Original snapshot name content h = go (lookup name snapshot.config_files) refl
  where
    go : (o : Option Bytes) → lookup name snapshot.config_files ≡ o → Original snapshot name content
    go none e = inr (e, ground arith, ground (arith, content_eq_iff content none))
    go (some b) e = inl (b, e, ground (arith, content_eq_iff content (some b)))

restored_at_complete :
    (snapshot : DeploymentSnapshot) (name : String) (content : Content)
    → Original snapshot name content
    → restored_at snapshot name content ≡ ok tt
unfolding restored_at
restored_at_complete snapshot name content (inl (b, e, p)) =
    ground (arith, content_eq_iff content (some b))
restored_at_complete snapshot name content (inr (e, m, p)) =
    ground (arith, content_eq_iff content none)

restored_in-RestoredIn :
    (snapshot : DeploymentSnapshot) (current : Files) (name : String)
    → restored_in snapshot current name ≡ ok tt
    → RestoredIn snapshot current name
unfolding restored_in
restored_in-RestoredIn snapshot current name = go (lookup name current) refl
  where
    go :
        (o : Option Content)
        → lookup name current ≡ o
        → restored_in snapshot current name ≡ ok tt
        → RestoredIn snapshot current name
    go none e h = absurd (cc)
    go (some content) e h =
        (content, e, restored_at-Original snapshot name content (rw (e, restored_in) at h))

restored_in_complete :
    (snapshot : DeploymentSnapshot) (current : Files) (name : String)
    → RestoredIn snapshot current name
    → restored_in snapshot current name ≡ ok tt
unfolding restored_in
restored_in_complete snapshot current name (content, e, o) =
    rw (e, restored_in) (restored_at_complete snapshot name content o)

not_ok : {x : Exc} → ¬ (◌≡◌ {A = Result (Unit {0})} (err x) (ok tt))
not_ok h = cc

-- The check passes exactly when the read has every named file as the snapshot has it: the same
-- bytes for a file that existed, and confirmed absence for one that did not.
pub verify_snapshot_restored_iff :
    (snapshot : DeploymentSnapshot) (current : Files) (names : List String)
    → (verify_snapshot_restored snapshot current names ≡ ok tt)
      ↔ All (RestoredIn snapshot current) names
unfolding verify_snapshot_restored
verify_snapshot_restored_iff snapshot current [] = ((λ _. tt), (λ _. refl))
verify_snapshot_restored_iff snapshot current (name ∷ names) =
    let ih : (verify_snapshot_restored snapshot current names ≡ ok tt)
        ↔ All (RestoredIn snapshot current) names =
      verify_snapshot_restored_iff snapshot current names in
    (
      (λ h. elim (Result-cases (restored_in snapshot current name)) [
        | inl (_, e) ↦ (
          restored_in-RestoredIn snapshot current name e,
          ih.0 (rw (e, verify_snapshot_restored) at h),
        )
        | inr (x, e) ↦ absurd (not_ok (rw (e, verify_snapshot_restored) at h))
      ]),
      (λ h.
          rw (restored_in_complete snapshot current name h.0, verify_snapshot_restored) (ih.1 h.1)),
    )
