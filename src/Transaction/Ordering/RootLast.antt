-- ===== src/Transaction/Ordering/RootLast.antt =====
-- `_ordered_artifacts` writes each changed file once, and the root file last.
use mathlib.Core.List.{Perm}
use mathlib.Core.List.Perm
use kace.Prelude.{true, false, List, [], ◌∷◌, ◌≡◌, refl, arith, all, Bool-cases, inl, inr}
use kace.ManagedConfig.{PlannedConfigArtifact}
use kace.Transaction.Ordering.{is_root, key_le, insert_ordered, ordered_artifacts}

-- Behind a root file there are root files only.
abbrev pub RootLast : List PlannedConfigArtifact → Type 0
RootLast [] = Unit
RootLast (x ∷ xs) = (is_root x ≡ true → all is_root xs ≡ true) × RootLast xs

insert_ordered-perm :
    (item : PlannedConfigArtifact) (xs : List PlannedConfigArtifact)
    → Perm (insert_ordered item xs) (item ∷ xs)
unfolding insert_ordered
insert_ordered-perm item [] = Perm.refl _
insert_ordered-perm item (x ∷ xs) = elim (Bool-cases (key_le item x)) [
  | inl below ↦ rw (below, insert_ordered) (Perm.refl _)
  | inr above ↦
      rw (above, insert_ordered)
        (Perm.trans (Perm.cons x (insert_ordered-perm item xs)) (Perm.swap item x xs))
]

ordered_artifacts-perm : (items : List PlannedConfigArtifact) → Perm (ordered_artifacts items) items
unfolding ordered_artifacts
ordered_artifacts-perm [] = Perm.refl _
ordered_artifacts-perm (item ∷ items) =
    Perm.trans (insert_ordered-perm item (ordered_artifacts items))
      (Perm.cons item (ordered_artifacts-perm items))

all_root-insert :
    (item : PlannedConfigArtifact) (xs : List PlannedConfigArtifact)
    → is_root item ≡ true
    → all is_root xs ≡ true
    → all is_root (insert_ordered item xs) ≡ true
unfolding insert_ordered
all_root-insert item [] r h = ground arith
all_root-insert item (x ∷ xs) r h = elim (Bool-cases (key_le item x)) [
  | inl below ↦ rw (below, insert_ordered) (ground arith)
  | inr above ↦ rw (above, insert_ordered) (ground (arith, all_root-insert item xs r))
]

key_le-root :
    (item x : PlannedConfigArtifact)
    → key_le item x ≡ false
    → is_root x ≡ true
    → is_root item ≡ true
unfolding key_le
key_le-root item x h r = ground arith

key_le-from_root :
    (item x : PlannedConfigArtifact) → key_le item x ≡ true → is_root item ≡ true → is_root x ≡ true
unfolding key_le
key_le-from_root item x h r = ground arith

insert_ordered-RootLast :
    (item : PlannedConfigArtifact) (xs : List PlannedConfigArtifact)
    → RootLast xs
    → RootLast (insert_ordered item xs)
unfolding insert_ordered
insert_ordered-RootLast item [] h = ((λ r. refl), tt)
insert_ordered-RootLast item (x ∷ xs) h = elim (Bool-cases (key_le item x)) [
  | inl below ↦
      rw (below, insert_ordered, RootLast)
        ((λ r. let root = key_le-from_root item x below r in rw root (h.0 root)), h)
  | inr above ↦
      rw (above, insert_ordered, RootLast)
        (
          (λ r. all_root-insert item xs (key_le-root item x above r) (h.0 r)),
          insert_ordered-RootLast item xs h.1,
        )
]

ordered_artifacts-RootLast :
    (items : List PlannedConfigArtifact) → RootLast (ordered_artifacts items)
unfolding ordered_artifacts
ordered_artifacts-RootLast [] = tt
ordered_artifacts-RootLast (item ∷ items) =
    insert_ordered-RootLast item _ (ordered_artifacts-RootLast items)

-- The upload order has every changed file as often as the plan has it, and no file that is not
-- printer.cfg behind printer.cfg: what the root includes is there before the root names it.
pub ordered_artifacts_lem :
    (items : List PlannedConfigArtifact)
    → Perm (ordered_artifacts items) items × RootLast (ordered_artifacts items)
ordered_artifacts_lem items = (ordered_artifacts-perm items, ordered_artifacts-RootLast items)
