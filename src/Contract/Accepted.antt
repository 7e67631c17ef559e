-- ===== src/Contract/Accepted.antt =====
-- A plan that was created is accepted: the two halves of firmware/boards/deployment.py agree.
use kace.Prelude.{
  true, false, String, str_eq, str_eq_iff, texts_eq_iff, Option, none, some, List, [], ◌∷◌, ◌≡◌,
  refl, arith, ◌∙◌, sym, ap, subst,
}
use kace.Effects.{ok, Exec, pure, gets}
use kace.Effects.Triples.{Triple-and}
use kace.Effects.Ending.{
  Ends, Anywhere, Ends-pure, Ends-then, Ends-bind, Ends-require, Ends-value, Ends-map,
  Keeps-Anywhere, Triple-ok,
}
use kace.Effects.Settled.{
  ReturnsAt, IsSettled, ReturnsAt-bind, ReturnsAt-require, IsSettled-pure, IsSettled-raise,
  settled_rules,
}
use kace.Boards.{BuildTarget, HardwareVariant, BoardContract, find_variant, find_target}
use kace.Contract.{
  BuildArtifact, DeploymentStepId, DeploymentStep, ArtifactTransformation, DeploymentPlan,
  FirmwareBuildIdentity, Library, steps_eq, step_name, ArtifactTransformationKind, rename_only,
  is_rename_only,
}
use kace.Contract.Validation.{
  choose, steps_for, typed_steps, named_file, final_filename, is_basename,
  require_contract_identity, validate_transformation, validate_deployment_plan,
}
use kace.Contract.Validated.{choose-Ends}
use kace.Contract.Preparation.{
  Disk, transform, apply_artifact_policy, draft, signed, create_deployment_plan,
}

choose-IsSettled : {W A : Type 0} (text : String) (o : Option A) → IsSettled {S = W} (choose text o)
unfolding choose
choose-IsSettled text none = IsSettled-raise _
choose-IsSettled text (some a) = IsSettled-pure a

steps_for-IsSettled :
    {W : Type 0} (target : BuildTarget) (o : Option (List DeploymentStepId))
    (ids : List DeploymentStepId)
    → IsSettled {S = W} (steps_for target o ids)
unfolding steps_for
steps_for-IsSettled target none ids = IsSettled-raise _
steps_for-IsSettled target (some expected) ids = search settled_rules

typed_steps-IsSettled : {W : Type 0} (target : BuildTarget) → IsSettled {S = W} (typed_steps target)
unfolding typed_steps
typed_steps-IsSettled target = search (choose-IsSettled, steps_for-IsSettled, settled_rules)

module _ {W : Type 0} (library : Library W) where
  final_filename-IsSettled :
      (target : BuildTarget) (artifact : BuildArtifact)
      → IsSettled (final_filename library target artifact)
  unfolding final_filename named_file
  final_filename-IsSettled target artifact = search settled_rules depth 14

  require_contract_identity-IsSettled :
      (contract : BoardContract) (artifact : BuildArtifact)
      → IsSettled (require_contract_identity library contract artifact)
  unfolding require_contract_identity
  require_contract_identity-IsSettled contract artifact =
      search (choose-IsSettled, settled_rules) depth 14

Ends-and :
    {S A : Type 0} {P : S → Type 0} {Q R : A → S → Type 0} {m : Exec S A}
    → Ends P Q m
    → Ends P R m
    → Ends P (λ a s. Q a s × R a s) m
Ends-and h k = record { triple = Triple-and k.triple h.triple }

steps_eq_refl : (steps : List DeploymentStep) → steps_eq steps steps ≡ true
steps_eq_refl [] = refl
steps_eq_refl (step ∷ steps) =
    ground (arith, (str_eq_iff (step_name step.id) (step_name step.id)).1 refl, steps_eq_refl steps)

rename_lem : (kind : ArtifactTransformationKind) → is_rename_only kind ≡ true
rename_lem rename_only = refl

str_eq_refl : (s : String) → str_eq s s ≡ true
str_eq_refl s = (str_eq_iff s s).1 refl

module _ {W : Type 0} (library : Library W) where
  -- The variant and the target of an artifact in its contract.
  abbrev HasIdentity : BoardContract → BuildArtifact → HardwareVariant × BuildTarget → Type 0
  HasIdentity contract artifact found =
      ((w : W) → ReturnsAt (require_contract_identity library contract artifact) found w)
      × (find_variant (library.fold artifact.hardware_variant_id) contract.hardware_variants
          ≡ some (found.0))
      × (find_target (library.fold artifact.build_target_id) found.0.build_targets ≡ some (found.1))

  found-Ends :
      (contract : BoardContract) (artifact : BuildArtifact)
      → Ends Anywhere
          (λ found (_ : W).
            (find_variant (library.fold artifact.hardware_variant_id) contract.hardware_variants
              ≡ some (found.0))
            × (find_target (library.fold artifact.build_target_id) found.0.build_targets
                ≡ some (found.1)))
          (require_contract_identity library contract artifact)
  unfolding require_contract_identity
  found-Ends contract artifact = Ends-require _ _ λ _. Ends-value _ _ (choose-Ends _ _) λ variant v.
      Ends-value _ _ (choose-Ends _ _) λ target t. Ends-require _ _ λ _. Ends-pure _ (λ w p. (v, t))

  -- The transformation is a plain copy of the artifact under the name.
  abbrev IsRename : BuildArtifact → String → ArtifactTransformation → Type 0
  IsRename artifact filename t =
      (t.native_filename ≡ artifact.native_filename)
      × (t.native_sha256 ≡ artifact.sha256)
      × (t.final_sha256 ≡ artifact.sha256)
      × (t.final_filename ≡ filename)
      × (library.file_name t.final_path ≡ filename)
      × (t.size_bytes ≡ artifact.size_bytes)
      × (t.content_changed ≡ false)

  -- What stands behind a plan that was created.
  abbrev Stands : BoardContract → BuildArtifact → BuildTarget × ArtifactTransformation → W → Type 0
  Stands contract artifact applied w =
      (variant : HardwareVariant) × HasIdentity contract artifact (variant, applied.0)
      × (filename : String) × ((v : W)
          → ReturnsAt (final_filename library (applied.0) artifact) filename v)
      × IsRename artifact filename (applied.1)

  -- The final name is a plain name.
  final_filename-Ends :
      (target : BuildTarget) (artifact : BuildArtifact)
      → Ends Anywhere
          (λ filename (_ : W). is_basename library filename ≡ true)
          (final_filename library target artifact)
  unfolding final_filename
  final_filename-Ends target artifact =
      Ends-bind _ _ (Keeps-Anywhere _)
        λ filename. Ends-require _ _ λ all. Ends-pure _ (λ w p. all.0)

  module _ (disk : Disk W)
      (named : (d n : String)
        → is_basename library n ≡ true
        → library.file_name (library.child d n) ≡ n) where
    transform-Ends :
        (contract : BoardContract) (target : BuildTarget) (artifact : BuildArtifact)
        (out hash filename : String)
        → hash ≡ artifact.sha256
        → is_basename library filename ≡ true
        → Ends Anywhere
            (λ t (_ : W). IsRename artifact filename t)
            (transform library disk contract target artifact out hash filename)
    unfolding transform
    transform-Ends contract target artifact out hash filename same base =
        Ends-bind _ _ (Keeps-Anywhere _) λ directory. Ends-bind _ _ (Keeps-Anywhere _) λ _.
          Ends-bind _ _ (Keeps-Anywhere _) λ final_hash. Ends-require _ _ λ all.
            Ends-bind _ _ (Keeps-Anywhere _) λ native_path. Ends-pure _ λ w p. (
              refl,
              same,
              (str_eq_iff _ _).0 all.0 ∙ same,
              refl,
              named directory filename base,
              refl,
              refl,
            )

    apply-Ends :
        (contract : BoardContract) (artifact : BuildArtifact) (out : String) (last : Option String)
        → Ends Anywhere
            (Stands contract artifact)
            (apply_artifact_policy library disk contract artifact out last)
    unfolding apply_artifact_policy
    apply-Ends contract artifact out last =
        Ends-value {F = HasIdentity contract artifact} _ _
          (Ends-map _
            (Ends-and (require_contract_identity-IsSettled library contract artifact).ends
              (found-Ends contract artifact))
            (λ found w h. ((h.0, h.1.0, h.1.1), tt)))
          λ found identity. Ends-bind _ _ (Keeps-Anywhere _) λ w. Ends-require _ _ λ _.
            Ends-bind _ _ (Keeps-Anywhere _) λ hash. Ends-require _ _ λ same.
              Ends-bind _ _ (Keeps-Anywhere _) λ size. Ends-require _ _ λ _.
                Ends-value _ _
                  (Ends-map _
                    (Ends-and (final_filename-IsSettled library (found.1) artifact).ends
                      (final_filename-Ends (found.1) artifact))
                    (λ filename w h. (h, tt)))
                  λ filename given. Ends-require _ _ λ _.
                    Ends-then _ _
                      (transform-Ends contract (found.1) artifact out hash filename
                        ((str_eq_iff _ _).0 same.0) given.1)
                      λ t. Ends-pure _ (λ w copy. (found.0, identity, filename, given.0, copy))

  ReturnsAt-gets : {A : Type 0} (f : W → A) (w : W) → ReturnsAt (gets f) (f w) w
  unfolding gets
  ReturnsAt-gets f w = refl

  ReturnsAt-pure : {A : Type 0} (a : A) (w : W) → ReturnsAt (pure a) a w
  unfolding pure
  ReturnsAt-pure a w = refl

  ReturnsAt-choose :
      {A : Type 0} (text : String) (o : Option A) (a : A) (w : W)
      → o ≡ some a
      → ReturnsAt (choose text o) a w
  unfolding choose pure
  ReturnsAt-choose text o a w h = ap (λ p. choose text p w) h

  -- A signed draft on such a transformation is accepted.
  module _ (contract : BoardContract) (artifact : BuildArtifact) (target : BuildTarget)
      (t : ArtifactTransformation) (steps : List DeploymentStep) (identity : FirmwareBuildIdentity)
      (w : W) where
    abbrev made : DeploymentPlan
    made = signed library (draft contract artifact target t steps)

    transformation-accepted :
        (filename : String)
        → ((v : W) → ReturnsAt (final_filename library target artifact) filename v)
        → IsRename artifact filename t
        → artifact.firmware_identity ≡ some identity
        → identity.klipper_commit ≡ contract.validated_commit
        → identity.artifact_sha256 ≡ artifact.sha256
        → identity.artifact_size ≡ artifact.size_bytes
        → t.native_path ≡ library.resolve w artifact.path
        → ReturnsAt (validate_transformation library made target) target w
    unfolding validate_transformation
    transformation-accepted filename given copy known commit hash size path =
        ReturnsAt-bind _ _ identity _ w (ReturnsAt-choose _ _ identity w known) (
          ReturnsAt-bind _ _ tt _ w
            (ReturnsAt-require _ w (
              (str_eq_iff _ _).1 commit,
              ((str_eq_iff _ _).1 hash, (ground (arith, size), (rename_lem t.kind, tt))),
            ))
            (ReturnsAt-bind _ _ filename _ w (given w) (
              ReturnsAt-bind _ _ w _ w (ReturnsAt-gets _ w) (
                ReturnsAt-bind _ _ tt _ w
                  (ReturnsAt-require _ w (
                    (str_eq_iff _ _).1 (copy.3),
                    (
                      (str_eq_iff _ _).1 (copy.4),
                      (
                        (str_eq_iff _ _).1 (copy.0),
                        (
                          (str_eq_iff _ _).1 path,
                          (
                            (str_eq_iff _ _).1 (copy.1),
                            (
                              (str_eq_iff _ _).1 (copy.2),
                              (
                                ground (arith, copy.5),
                                (ground (arith, copy.6), (str_eq_refl _, (str_eq_refl _, tt))),
                              ),
                            ),
                          ),
                        ),
                      ),
                    ),
                  ))
                  (ReturnsAt-pure target w)))))

    plan-accepted :
        (variant : HardwareVariant) (filename : String)
        → HasIdentity contract artifact (variant, target)
        → ((v : W) → ReturnsAt (typed_steps target) steps v)
        → ((v : W) → ReturnsAt (final_filename library target artifact) filename v)
        → IsRename artifact filename t
        → artifact.firmware_identity ≡ some identity
        → identity.klipper_commit ≡ contract.validated_commit
        → identity.artifact_sha256 ≡ artifact.sha256
        → identity.artifact_size ≡ artifact.size_bytes
        → t.native_path ≡ library.resolve w artifact.path
        → ReturnsAt (validate_deployment_plan library contract made) target w
    unfolding validate_deployment_plan
    plan-accepted variant filename own typed given copy known commit hash size path =
        ReturnsAt-bind _ _ tt _ w
          (ReturnsAt-require _ w (str_eq_refl _, (str_eq_refl _, (str_eq_refl _, tt))))
          (ReturnsAt-bind _ _ variant _ w (ReturnsAt-choose _ _ variant w own.1) (
            ReturnsAt-bind _ _ target _ w (ReturnsAt-choose _ _ target w own.2) (
              ReturnsAt-bind _ _ tt _ w (ReturnsAt-require _ w (str_eq_refl _, tt)) (
                ReturnsAt-bind _ _ steps _ w (typed w) (
                  ReturnsAt-bind _ _ tt _ w
                    (ReturnsAt-require _ w (
                      steps_eq_refl steps,
                      ((texts_eq_iff contract.warnings contract.warnings).1 refl, tt),
                    ))
                    (ReturnsAt-bind _ _ (variant, target) _ w (own.0 w)
                      (ReturnsAt-bind _ _ tt _ w
                        (ReturnsAt-require _ w (
                          ground (arith, str_eq_refl variant.id, str_eq_refl target.id),
                          (str_eq_refl _, tt),
                        ))
                        (transformation-accepted filename given copy known commit hash size
                          path))))))))

  module _ (disk : Disk W)
      (named : (d n : String)
        → is_basename library n ≡ true
        → library.file_name (library.child d n) ≡ n) where
    -- The plan is a signed draft on what stands behind it.
    abbrev IsMade : BoardContract → BuildArtifact → DeploymentPlan → Type 0
    IsMade contract artifact plan =
        (target : BuildTarget) × (t : ArtifactTransformation) × (steps : List DeploymentStep)
        × (variant : HardwareVariant) × (filename : String) × (plan
            ≡ signed library (draft contract artifact target t steps))
        × HasIdentity contract artifact (variant, target)
        × ((v : W) → ReturnsAt (typed_steps target) steps v)
        × ((v : W) → ReturnsAt (final_filename library target artifact) filename v)
        × IsRename artifact filename t

    create-Ends :
        (contract : BoardContract) (artifact : BuildArtifact) (out : String) (last : Option String)
        → Ends Anywhere
            (λ plan (_ : W). IsMade contract artifact plan)
            (create_deployment_plan library disk contract artifact out last)
    unfolding create_deployment_plan
    create-Ends contract artifact out last =
        Ends-value {F = λ applied. (w : W) × Stands contract artifact applied w} _ _
          (Ends-map _ (apply-Ends disk named contract artifact out last)
            (λ applied w h. ((w, h), tt)))
          λ applied stands.
            Ends-value _ _
              (Ends-map _ (typed_steps-IsSettled (applied.0)).ends (λ steps w h. (h, tt)))
              λ steps typed. Ends-pure _ λ w p.
                let h = stands.1 in
                (applied.0, applied.1, steps, h.0, h.2, refl, h.1, typed, h.3, h.4)

    -- A plan that `create_deployment_plan` returns is accepted by `validate_deployment_plan` for the
    -- same contract, where the artifact has a firmware identity of the contract's commit with the
    -- artifact's hash and size, and its path resolves as it did. It is assumed that a plain file
    -- name (not empty, no dots alone, its own last component) is the last component of its path in
    -- a directory.
    pub create-validate :
        (contract : BoardContract) (artifact : BuildArtifact) (out : String) (last : Option String)
        (identity : FirmwareBuildIdentity) (plan : DeploymentPlan) (w w' v : W)
        → create_deployment_plan library disk contract artifact out last w ≡ (ok plan, w')
        → artifact.firmware_identity ≡ some identity
        → identity.klipper_commit ≡ contract.validated_commit
        → identity.artifact_sha256 ≡ artifact.sha256
        → identity.artifact_size ≡ artifact.size_bytes
        → plan.transformation.native_path ≡ library.resolve v artifact.path
        → (target : BuildTarget) × (validate_deployment_plan library contract plan v
            ≡ (ok target, v))
    create-validate contract artifact out last identity plan w w' v run known commit hash size
          path =
        let m = Triple-ok (create-Ends contract artifact out last).triple tt run in
        (
          m.0,
          subst (λ p. ReturnsAt (validate_deployment_plan library contract p) (m.0) v) (sym m.5)
              (plan-accepted contract artifact (m.0) (m.1) (m.2) identity v (m.3) (m.4) (m.6) (m.7)
                (m.8) (m.9) known commit hash size
                (ap (λ (p : DeploymentPlan). p.transformation.native_path) (sym m.5) ∙ path)),
        )
