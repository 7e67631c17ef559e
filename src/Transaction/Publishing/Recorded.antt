-- ===== src/Transaction/Publishing/Recorded.antt =====
-- Every upload that may have changed the destination is in the written names.
use kace.Prelude.{
  true, false, ◌&&◌, ◌||◌, String, str_eq_iff, Bytes, Option, none, some, List, [], ◌∷◌, ◌++◌,
  lookup, ◌≡◌, ◌⊎◌, inl, inr, refl, arith, Bool-cases, subst, sym, ap, ◌≢◌,
}
use kace.Effects.{Exc, unfinished, Result, ok, err, Exec, modify, is_exception, is_interrupt}
use kace.Effects.Triples.{
  Outcome, Triple, Triple-pure, Triple-raise, Triple-gets, Triple-modify, Triple-if, Triple-bind,
  Triple-attempt, Triple-weaken,
}
use kace.Effects.Ending.{Ends, Anywhere, Triple-ok, Triple-err}
use kace.ManagedConfig.{Content, content_eq, content_eq_iff, PlannedConfigArtifact}
use kace.Snapshot.{DeploymentSnapshot, mem_text}
use kace.Transaction.Interface.{Environment, Tx, call, returned}
use kace.Transaction.Quiet.{Triple-call}
use kace.Transaction.Recovery.{
  add_name, mark_written, is_unchanged, get_content, record_against, record_possible_write,
}
use kace.Transaction.Publishing.{upload}

-- A read of one file that returns tells its content at the end of the read.
abbrev pub TellsFile : {W : Type 0} → Environment W → (W → String → Content) → Type 0
TellsFile env files =
    (name : String)
    → Ends Anywhere (λ remote w. lookup name remote ≡ some (files w name))
        (env.transport.read_files (name ∷ []))

-- The content is the one that the snapshot has: its bytes, or the absence that it noted.
abbrev pub IsOriginal : DeploymentSnapshot → String → Content → Type 0
IsOriginal snapshot name c =
    ((mem_text name snapshot.missing_files ≡ true) × (c ≡ none))
    ⊎ ((b : Bytes) × (lookup name snapshot.config_files ≡ some b) × (c ≡ some b))

is_unchanged-IsOriginal :
    (snapshot : DeploymentSnapshot) (name : String) (c : Content)
    → is_unchanged snapshot name c ≡ true
    → IsOriginal snapshot name c
unfolding is_unchanged
is_unchanged-IsOriginal snapshot name c h = go (lookup name snapshot.config_files) refl
  where
    go : (o : Option Bytes) → lookup name snapshot.config_files ≡ o → IsOriginal snapshot name c
    go none e = inl (ground (arith, content_eq_iff c none), ground (arith, content_eq_iff c none))
    go (some b) e = elim (Bool-cases (mem_text name snapshot.missing_files && content_eq c none)) [
      | inl gone ↦
          inl (ground (arith, content_eq_iff c none), ground (arith, content_eq_iff c none))
      | inr there ↦ inr (b, e, ground (arith, content_eq_iff c (some b)))
    ]

mem_text-append : (name : String) (names : List String) → mem_text name (names ++ name ∷ []) ≡ true
mem_text-append name [] = ground (arith, str_eq_iff name name)
mem_text-append name (x ∷ names) = ground (arith, mem_text-append name names)

add_name-mem_text :
    (name : String) (names : List String) → mem_text name (add_name name names) ≡ true
add_name-mem_text name names = elim (Bool-cases (mem_text name names)) [
  | inl old ↦ rw (old, add_name) old
  | inr new ↦ rw (new, add_name) (mem_text-append name names)
]

get_content-eq :
    (name : String) (remote : List (String × Content)) (c : Content)
    → lookup name remote ≡ some c
    → get_content name remote ≡ c
get_content-eq name remote c h = ground arith

uncaught : (e : Exc) → (is_exception e || is_interrupt e) ≡ false → e ≡ unfinished
uncaught e h = ground arith

module _ {W A : Type 0} (F : Option DeploymentSnapshot → Type 0) where
  returned-snapshot :
      (t : Tx W) (o : Result A × W)
      → F t.snapshot
      → Outcome (λ _ t'. F t'.snapshot) (λ _ t'. F t'.snapshot) (returned t o)
  returned-snapshot t (ok a, w) f = f
  returned-snapshot t (err e, w) f = f

  call-snapshot :
      (m : Exec W A)
      → Triple (λ t. F t.snapshot) (call m) (λ _ t. F t.snapshot) (λ _ t. F t.snapshot)
  unfolding call
  call-snapshot m = record { at = λ t f. returned-snapshot t (m t.world) f }

module _ {W : Type 0} (env : Environment W) (files : W → String → Content)
    (tells : TellsFile env files) (snapshot : DeploymentSnapshot) where
  -- The file is recorded as written, or it was seen with its original content.
  abbrev pub IsTracked : String → Tx W → Type 0
  IsTracked name t =
      (mem_text name t.written_names ≡ true) ⊎ IsOriginal snapshot name (files t.world name)

  mark_written-IsTracked :
      (name : String)
      → Triple Anywhere
          (mark_written env name)
          (λ _. IsTracked name)
          (λ e t. (e ≡ unfinished) ⊎ IsTracked name t)
  unfolding mark_written
  mark_written-IsTracked name =
      Triple-modify _ (λ t p. inl (add_name-mem_text name t.written_names))

  record_against-IsTracked :
      (name : String)
      → Triple Anywhere
          (record_against env name (some snapshot))
          (λ _. IsTracked name)
          (λ e t. (e ≡ unfinished) ⊎ IsTracked name t)
  unfolding record_against
  record_against-IsTracked name =
      Triple-attempt _ _ _ _ (Triple-call _ (tells name).triple)
        (λ remote.
          Triple-if (is_unchanged snapshot name (get_content name remote)) _ _
            (λ same. Triple-pure tt λ t found. inr (
              is_unchanged-IsOriginal snapshot name (files t.world name)
                (rw (get_content-eq name remote (files t.world name) found) at same)))
            (λ differs.
              Triple-weaken (mark_written-IsTracked name) (λ t p. tt) (λ a t q. q) (λ e t q. q)))
        (λ e c. Triple-weaken (mark_written-IsTracked name) (λ t p. tt) (λ a t q. q) (λ e t q. q))
        (λ e t c p. inl (uncaught e c))

  record_possible_write-IsTracked :
      (name : String)
      → Triple
          (λ t. t.snapshot ≡ some snapshot)
          (record_possible_write env name)
          (λ _. IsTracked name)
          (λ e t. (e ≡ unfinished) ⊎ IsTracked name t)
  unfolding record_possible_write
  record_possible_write-IsTracked name =
      Triple-bind _ _ (Triple-gets {Q = λ o t. o ≡ some snapshot} _ (λ t h. h)) λ o. record {
        at = λ t e.
            subst
              (λ o.
                Outcome (λ _. IsTracked name) (λ e t. (e ≡ unfinished) ⊎ IsTracked name t)
                  (record_against env name o t))
              (sym e) ((record_against-IsTracked name).at t tt);
      }

  upload-IsTracked :
      (artifact : PlannedConfigArtifact) (previous : Content)
      → Triple
          (λ t. t.snapshot ≡ some snapshot)
          (upload env artifact previous)
          (λ _. IsTracked artifact.remote_name)
          (λ e t. (e ≡ unfinished) ⊎ IsTracked artifact.remote_name t)
  unfolding upload mark_written modify
  upload-IsTracked artifact previous =
      Triple-attempt {R = λ _. IsTracked artifact.remote_name}
        {F = λ _ t. t.snapshot ≡ some snapshot} _ _ _ _
        (Triple-bind _ _ (call-snapshot (λ o. o ≡ some snapshot) _) λ _.
          Triple-modify _ (λ t p. inl (add_name-mem_text artifact.remote_name t.written_names)))
        (λ _. Triple-pure tt (λ t h. h))
        (λ e c.
          Triple-bind _ _ (record_possible_write-IsTracked artifact.remote_name)
            (λ _. Triple-raise e (λ t h. inr h)))
        (λ e t c h. inl (uncaught e c))

  -- However an upload ends, unless the model's fuel ran out: the file is in the written names, for
  -- rollback to restore, or the destination was seen afterwards with its original content.
  pub upload_traced :
      (artifact : PlannedConfigArtifact) (previous : Content) (t t' : Tx W)
      → t.snapshot ≡ some snapshot
      → (r : Result (Unit {0})) → upload env artifact previous t ≡ (r, t')
      → r ≢ err unfinished
      → IsTracked artifact.remote_name t'
  upload_traced artifact previous t t' h (ok a) e n =
      Triple-ok (upload-IsTracked artifact previous) h e
  upload_traced artifact previous t t' h (err x) e n =
      elim (Triple-err (upload-IsTracked artifact previous) h e) [
        | inl u ↦ absurd (n (ap err u))
        | inr k ↦ k
      ]
