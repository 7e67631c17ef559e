-- ===== src/Executor/Guarded.antt =====
-- Where `prepare_media` writes.
use kace.Prelude.{
  ℕ, ◌≤◌, Bool, true, false, any, String, str_eq_iff, Option, none, some, List, [], ◌∷◌, ◌≡◌, refl,
  All, In, here, there, arith, Bool-cases, inl, inr,
}
use kace.Effects.{Exc, Result, ok, err}
use kace.Effects.Triples.{
  Triple, Triple-bind, Triple-gets, Triple-require, Triple-weaken, Triple-assume, Triple-pure,
  Triple-raise, Triple-and, Ran, Triple-Ran,
}
use kace.Effects.Keeping.{Keeps, Keeps-bind, Keeps-require, keeps_rules}
use kace.Effects.Ending.{Ends, Anywhere, Triple-ok, Triple-err}
use kace.Boards.{BuildTarget}
use kace.Contract.{DeploymentPlan}
use kace.Executor.Session.{MediaCandidate, ContractDeploymentSession}
use kace.Executor.Steps.{Executor, Stage, outside}
use kace.Executor.Checks.{validate_plan, verify_media, medium_checks}
use kace.Executor.Media.{
  check_escape, check_again, copy_firmware, destination_on, fill_media, media_failed, prepare_media,
  present, refresh_same,
}
use kace.Executor.Rules.{On, Any, Triple-outside, Keeps-outside}
use kace.Executor.Quiet.{
  IsQuiet, validate_plan-Keeps, verify_artifacts-Keeps, refresh_same-OnWorld, verify_media-Keeps,
  inside-OnWorld, transition-OnWorld, fail_session-OnWorld, choose_medium-OnWorld,
  read_back-OnWorld, eject_medium-OnWorld, start_session-OnWorld,
}

any-In :
    (p : String → Bool) (xs : List String) → any p xs ≡ true → (x : String) × In x xs × (p x ≡ true)
any-In p [] h = absurd (cc h)
any-In p (x ∷ xs) h = elim (Bool-cases (p x)) [
  | inl holds ↦ (x, here refl, holds)
  | inr fails ↦
      let (y, place, passes) = any-In p xs (ground (arith, fails, h)) in (y, there place, passes)
]

module _ {W : Type 0} (executor : Executor W) where
  -- A medium that may be written to for a target: not of the system disk, writable, removable where
  -- the target asks for it, of a required file system, and with room for the artifact.
  abbrev pub IsAdmissible : BuildTarget → ℕ → MediaCandidate → Type 0
  IsAdmissible target size medium =
      (medium.system_disk ≡ false)
      × (medium.read_only ≡ false)
      × (target.flash.options.require_removable ≡ true → medium.removable ≡ true)
      × (size ≤ medium.free_bytes)
      × (item : String) × In item target.flash.options.required_filesystems
      × (executor.library.casefold item ≡ executor.library.casefold medium.filesystem)

  checks-IsAdmissible :
      (w : W) (medium : MediaCandidate) (target : BuildTarget) (size : ℕ)
      → All (λ (c : Bool × Exc). c.0 ≡ true) (medium_checks executor w medium target size true)
      → IsAdmissible target size medium
  checks-IsAdmissible w medium target size all =
      let (item, place, same) = any-In _ target.flash.options.required_filesystems (all.1.1.1.0) in
      (
        ground (arith, all.0),
        ground (arith, all.1.1.0),
        (λ asked. ground (arith, asked, all.1.0)),
        ground (arith, all.1.1.1.1.1.1.0),
        item,
        place,
        (str_eq_iff _ _).0 same,
      )

  module _ (P : W → Type 0) (quiet : IsQuiet executor P) where
    -- The condition on a stage.
    abbrev OnWorld : Stage W → Type 0
    OnWorld = On Any P

    verify_media-Triple :
        (medium : MediaCandidate) (target : BuildTarget) (size : ℕ)
        → Triple P
            (verify_media executor medium target size true)
            (λ _ w. IsAdmissible target size medium × P w)
            (λ _. P)
    unfolding verify_media
    verify_media-Triple medium target size =
        Triple-bind {R = λ _. P} _ _ (Triple-gets _ (λ w p. p)) λ w.
          Triple-weaken
            (Triple-require (medium_checks executor w medium target size true) (λ e v p. p))
            (λ v p. p) (λ _ v q. (checks-IsAdmissible w medium target size q.0, q.1)) (λ e v p. p)

    check_escape-OnWorld :
        (plan : DeploymentPlan) (medium : MediaCandidate)
        → Keeps OnWorld (check_escape executor plan medium)
    unfolding check_escape
    check_escape-OnWorld plan medium =
        search ((inside-OnWorld executor P quiet), keeps_rules) depth 10

    -- The media that refreshing told of, and that the plan's file may be copied to.
    module _ (plan : DeploymentPlan) (Told : MediaCandidate → Type 0)
        (told : (m : MediaCandidate)
          → Ends Anywhere
              (λ found (_ : W). (x : MediaCandidate) → found ≡ some x → Told x)
              (executor.ports.refresh m)) where
      present-Told :
          (gone : String) (o : Option MediaCandidate)
          → ((x : MediaCandidate) → o ≡ some x → Told x)
          → Triple OnWorld (present executor gone o) (λ x s. Told x × OnWorld s) (λ _. OnWorld)
      unfolding present
      present-Told gone none h = Triple-raise _ (λ s p. p)
      present-Told gone (some x) h = Triple-pure x (λ s p. (h x refl, p))

      refresh_same-Told :
          (medium : MediaCandidate) (gone changed : String)
          → Triple OnWorld
              (refresh_same executor medium gone changed)
              (λ x s. Told x × OnWorld s)
              (λ _. OnWorld)
      unfolding refresh_same
      refresh_same-Told medium gone changed =
          Triple-bind _ _
            (Triple-outside Any _ (
              Triple-and (quiet.refreshed medium).triple
                (Triple-weaken (told medium).triple (λ w p. tt) (λ found w h. h) (λ e w h. h))))
            λ found.
              Triple-bind _ _
                (Triple-weaken (Triple-assume (present-Told gone found))
                  (λ s p. (p.world.0, record { session = tt; world = p.world.1 })) (λ x s h. h)
                  (λ e s h. h))
                λ refreshed. Triple-assume λ known.
                  Triple-bind {R = λ _. OnWorld} _ _ (Triple-gets _ (λ s p. p)) λ w.
                    Triple-bind _ _ (Keeps-require _).triple
                      λ _. Triple-pure refreshed (λ s p. (known, p))

      -- The second look ends with an admissible medium that was told of.
      check_again-Triple :
          (target : BuildTarget) (medium : MediaCandidate)
          → Triple OnWorld
              (check_again executor plan target medium)
              (λ m s. (Told m × IsAdmissible target plan.artifact.size_bytes m) × OnWorld s)
              (λ _. OnWorld)
      unfolding check_again
      check_again-Triple target medium =
          Triple-bind _ _ (Keeps-outside _ (validate_plan-Keeps executor P quiet plan)).triple λ _.
            Triple-bind _ _ (Keeps-outside _ (verify_artifacts-Keeps executor P quiet plan)).triple
              λ _. Triple-bind _ _ (refresh_same-Told medium _ _) λ m. Triple-assume λ known.
                Triple-bind {R = λ _ s. IsAdmissible target plan.artifact.size_bytes m × OnWorld s}
                  _ _
                  (Triple-weaken
                    (Triple-outside Any _ (verify_media-Triple m target plan.artifact.size_bytes))
                    (λ s p. p) (λ _ s p. (p.world.0, record { session = tt; world = p.world.1 }))
                    (λ e s p. p))
                  λ _. Triple-assume λ good.
                    Triple-bind _ _ (check_escape-OnWorld plan m).triple
                      λ _. Triple-pure m (λ s p. ((known, good), p))

      -- Writing is allowed to a medium that was told of and that passed the tests for the target
      -- that the plan's validation returned.
      module _
          (written : (target : BuildTarget) (medium : MediaCandidate)
            → Ran (validate_plan executor plan) target
            → Told medium
            → IsAdmissible target plan.artifact.size_bytes medium
            → Keeps P (
                executor.ports.copy plan.transformation.final_path
                  (destination_on executor plan medium)
                  plan.deployment_id)) where
        copy_firmware-OnWorld :
            (target : BuildTarget) (medium : MediaCandidate)
            → Ran (validate_plan executor plan) target
            → Told medium × IsAdmissible target plan.artifact.size_bytes medium
            → Keeps OnWorld (copy_firmware executor plan target medium)
        unfolding copy_firmware
        copy_firmware-OnWorld target medium planned good =
            Keeps-bind _ _ (Keeps-outside _ (written target medium planned good.0 good.1)) λ _.
              search
                (
                  Keeps-outside,
                  (refresh_same-OnWorld executor P quiet),
                  (verify_media-Keeps executor P quiet),
                  (inside-OnWorld executor P quiet),
                  (transition-OnWorld executor P quiet),
                  keeps_rules,
                )
                depth 20

        fill_media-OnWorld :
            (target : BuildTarget)
            → Ran (validate_plan executor plan) target
            → (id : String) → Keeps OnWorld (fill_media executor plan target id)
        unfolding fill_media
        fill_media-OnWorld target planned id =
            Keeps-bind _ _ (choose_medium-OnWorld executor P quiet plan target id) λ first. record {
              triple = Triple-bind _ _ (check_again-Triple target first) λ medium.
                  Triple-assume λ good.
                    (Keeps-bind _ _ (copy_firmware-OnWorld target medium planned good) (λ after.
                      Keeps-bind _ _ (read_back-OnWorld executor P quiet plan _)
                        (λ _. eject_medium-OnWorld executor P quiet after))).triple;
            }

        media_failed-OnWorld :
            {A : Type 0} (e : Exc) → Keeps OnWorld (media_failed executor {A = A} e)
        unfolding media_failed
        media_failed-OnWorld e = fail_session-OnWorld executor P quiet e _ _

        -- The target of the validation, and that the validation returned it.
        validated-OnWorld :
            Triple OnWorld
              (outside (validate_plan executor plan))
              (λ target s. Ran (validate_plan executor plan) target × OnWorld s)
              (λ _. OnWorld)
        validated-OnWorld =
            Triple-weaken
              (Triple-outside Any _
                (Triple-and (validate_plan-Keeps executor P quiet plan).triple (Triple-Ran _)))
              (λ s p. p) (λ _ s p. (p.world.0, record { session = tt; world = p.world.1 }))
              (λ e s p. p)

        prepare_media-OnWorld : (id : String) → Keeps OnWorld (prepare_media executor plan id)
        unfolding prepare_media
        prepare_media-OnWorld id = record {
          triple = Triple-bind _ _ validated-OnWorld λ target. Triple-assume λ planned.
              (Keeps-bind _ _ (Keeps-outside _ (verify_artifacts-Keeps executor P quiet plan)) (λ _.
                Keeps-bind _ _ (start_session-OnWorld executor P quiet plan) (λ _.
                  search ((fill_media-OnWorld target planned), media_failed-OnWorld, keeps_rules)
                    depth 12))).triple;
        }

        -- However `prepare_media` ends, it copies nothing but the plan's file, under its name in
        -- the root of a medium that a refresh told of, and only if that medium is not of the system
        -- disk, is writable, is removable if the target asks for it, has a required file system, and
        -- has room for the plan's artifact; the target is the one that the plan's validation
        -- returned. So a condition on the world holds at the end if it held at the start, where
        -- every port but `copy` keeps it, and such a copy does. `Told` is whatever holds of each
        -- medium that a refresh returns.
        pub prepare_media_guarded :
            (id : String) (s s' : Stage W) (r : Result ContractDeploymentSession)
            → prepare_media executor plan id s ≡ (r, s')
            → P s.world
            → P s'.world
        prepare_media_guarded id s s' (ok x) e p =
            (Triple-ok (prepare_media-OnWorld id).triple (record { session = tt; world = p })
              e).world
        prepare_media_guarded id s s' (err x) e p =
            (Triple-err (prepare_media-OnWorld id).triple (record { session = tt; world = p })
              e).world
