-- ===== src/Monitor/Matched.antt =====
-- What a MATCH says of the two identities.
use kace.Prelude.{
  ℕ, Bool, true, false, ◌||◌, ltb, String, str_eq, str_eq_iff, List, In, here, there, [], ◌∷◌, ◌≡◌,
  ◌≢◌, refl, ◌⊎◌, inl, inr, arith, Bool-cases, if◌then◌else◌, ◌+◌, ◌-◌,
}
use kace.Monitor.{
  McuIdentity, match_verdict, has_text, has_any, is_set, both_same, both_differ, meets, same_port,
  same_by_path, same_id_path, same_devpath, has_topology_match, serial_match, serial_conflict,
  identity_score, vid_pid, normalized_vid_pids, assess_topology, assess_elsewhere,
  assess_mcu_identity,
}

module _ (lower_text fold : String → String) where
  topology-parts :
      (expected bootloader : List String) (observed : String) (a b : McuIdentity) (score : ℕ)
      → (assess_topology lower_text fold expected bootloader observed a b score).0 ≡ match_verdict
      → (has_text observed expected ≡ true)
        × (is_set observed ≡ true)
        × (serial_conflict a b ≡ false)
        × (ltb score 90 ≡ false)
  unfolding assess_topology
  topology-parts expected bootloader observed a b score h = ground arith

  elsewhere-parts :
      (expected : List String) (observed : String) (a b : McuIdentity)
      → (assess_elsewhere lower_text fold expected observed a b).0 ≢ match_verdict
  unfolding assess_elsewhere
  elsewhere-parts expected observed a b h = ground arith

-- Which comparisons reach the threshold, with the expected VID:PID.
enough :
    (port path id dev match conflict : Bool)
    → ltb
        (let base = (if port || path then 60 else if id then 55 else if dev then 50 else 0) + 30 in
          if match then base + 10 else if conflict then base - 20 else base)
        90
      ≡ false
    → (port ≡ true) ⊎ (path ≡ true) ⊎ (((id ≡ true) ⊎ (dev ≡ true)) × (match ≡ true))
enough true path id dev match conflict h = inl refl
enough false true id dev match conflict h = inr (inl refl)
enough false false true dev true conflict h = inr (inr (inl refl, refl))
enough false false true dev false conflict h = absurd (ground arith)
enough false false false true true conflict h = inr (inr (inr refl, refl))
enough false false false true false conflict h = absurd (ground arith)
enough false false false false match conflict h = absurd (ground arith)

has_text-In : (t : String) (ts : List String) → has_text t ts ≡ true → In t ts
has_text-In t [] h = absurd (cc h)
has_text-In t (u ∷ ts) h = elim (Bool-cases (str_eq u t)) [
  | inl same ↦ here ((str_eq_iff u t).0 same)
  | inr other ↦ there (has_text-In t ts (ground (arith, other, h)))
]

meets-In : (xs ys : List String) → meets xs ys ≡ true → (t : String) × In t xs × In t ys
meets-In [] ys h = absurd (cc h)
meets-In (x ∷ xs) ys h = elim (Bool-cases (has_text x ys)) [
  | inl shared ↦ (x, here refl, has_text-In x ys shared)
  | inr other ↦
      let (t, left, right) = meets-In xs ys (ground (arith, other, h)) in (t, there left, right)
]

no_conflict : (s t : String) → s ≢ "" → t ≢ "" → both_differ s t ≡ false → s ≡ t
no_conflict s t left right h = elim (Bool-cases (str_eq s t)) [
  | inl same ↦ (str_eq_iff s t).0 same
  | inr differ ↦ elim (Bool-cases (str_eq s "")) [
    | inl empty ↦ absurd (left ((str_eq_iff s "").0 empty))
    | inr filled ↦ elim (Bool-cases (str_eq t "")) [
      | inl empty ↦ absurd (right ((str_eq_iff t "").0 empty))
      | inr given ↦ absurd (ground (arith, h, differ, filled, given))
    ]
  ]
]

-- Equal and not empty.
abbrev pub SameText : String → String → Type 0
SameText s t = (s ≢ "") × (s ≡ t)

both_same-SameText : (s t : String) → both_same s t ≡ true → SameText s t
both_same-SameText s t h = (
  (λ e. absurd (ground (arith, h, (str_eq_iff s "").1 e))),
  (str_eq_iff s t).0 (ground (arith, h)),
)

-- Evidence enough for an automatic match: the physical port, or a common by-path name, or, with an
-- unchanged serial number, the udev path or the device path.
abbrev pub SameConnection : McuIdentity → McuIdentity → Type 0
SameConnection a b =
    SameText a.physical_port b.physical_port
    ⊎ ((name : String) × In name a.by_path × In name b.by_path)
    ⊎ ((SameText a.physical_path b.physical_path ⊎ SameText a.devpath b.devpath)
        × SameText a.serial b.serial)

connection :
    (a b : McuIdentity)
    → (same_port a b ≡ true)
      ⊎ (same_by_path a b ≡ true)
      ⊎ (((same_id_path a b ≡ true) ⊎ (same_devpath a b ≡ true)) × (serial_match a b ≡ true))
    → SameConnection a b
connection a b (inl port) = inl (both_same-SameText _ _ port)
connection a b (inr (inl path)) = inr (inl (meets-In a.by_path b.by_path (ground (arith, path))))
connection a b (inr (inr (inl id, serial))) =
    inr (inr (inl (both_same-SameText _ _ id), both_same-SameText _ _ serial))
connection a b (inr (inr (inr dev, serial))) =
    inr (inr (inr (both_same-SameText _ _ dev), both_same-SameText _ _ serial))

module _ (lower_text fold : String → String) where
  -- The steps to a match.
  match-parts :
      (a b : McuIdentity) (expected bootloader : List String) (observed : String) (topology : Bool)
      (score : ℕ)
      → (if topology
          then assess_topology lower_text fold expected bootloader observed a b score
          else assess_elsewhere lower_text fold expected observed a b).0
        ≡ match_verdict
      → (has_text observed expected ≡ true)
        × (is_set observed ≡ true)
        × (serial_conflict a b ≡ false)
        × (ltb score 90 ≡ false)
  match-parts a b expected bootloader observed true score h =
      topology-parts lower_text fold expected bootloader observed a b score h
  match-parts a b expected bootloader observed false score h =
      absurd (elsewhere-parts lower_text fold expected observed a b h)

  has_any-some : (t : String) (ts : List String) → has_text t ts ≡ true → has_any ts ≡ true
  has_any-some t [] h = absurd (cc h)
  has_any-some t (u ∷ ts) h = refl

  scored :
      (a b : McuIdentity) (e : Bool)
      → e ≡ true
      → ltb (identity_score e a b) 90 ≡ false
      → SameConnection a b
  scored a b true e h = connection a b (
      enough (same_port a b) (same_by_path a b) (same_id_path a b) (same_devpath a b) _
        (serial_conflict a b) h)
  scored a b false e h = absurd (cc e)

  -- `assess_mcu_identity` says MATCH only if the candidate's VID:PID is known and one of the expected
  -- ones, the serial numbers do not contradict each other, and the candidate is on the baseline's
  -- connection: the same physical port, or a common by-path name, or, with the same serial number,
  -- the same udev path or device path. Neither a serial number nor a VID:PID is enough.
  pub match_justified :
      (a b : McuIdentity) (expected bootloader : List String)
      → (assess_mcu_identity lower_text fold a b expected bootloader).verdict ≡ match_verdict
      → In (vid_pid lower_text fold b) (normalized_vid_pids lower_text fold expected)
        × (vid_pid lower_text fold b ≢ "")
        × (a.serial ≢ "" → b.serial ≢ "" → a.serial ≡ b.serial)
        × SameConnection a b
  unfolding assess_mcu_identity
  match_justified a b expected bootloader h =
      let parts = match-parts a b _ _ _ (has_topology_match a b) _ h in
      let observed = vid_pid lower_text fold b in
      let allowed = normalized_vid_pids lower_text fold expected in
      (
        has_text-In observed allowed parts.0,
        (λ e. absurd (ground (arith, parts.1, (str_eq_iff observed "").1 e))),
        (λ left right. no_conflict a.serial b.serial left right parts.2),
        scored a b _ (ground (arith, parts.0, has_any-some observed allowed parts.0)) parts.3,
      )
