-- ===== src/Monitor.antt =====
-- core/mcu_monitor.py: the identity of a microcontroller, and the assessment of the device that
-- appears after a flash. `lower_text` and `fold` are Python's `lower()` and `strip().lower()`.
pub mod Matched
use kace.Prelude.{
  ℕ, ◌+◌, ◌-◌, Bool, true, false, not, ◌&&◌, ◌||◌, ltb, String, str_eq, any, keep, map, List, [],
  ◌∷◌, ◌++◌, if◌then◌else◌, ◌<>◌, join,
}

pub record McuIdentity : Type 0 where
  pub configured_path : String
  pub device_node : String
  pub devpath : String
  pub serial : String
  pub physical_path : String
  pub vendor_id : String
  pub model_id : String
  pub physical_port : String
  pub by_path : List String

pub data McuIdentityVerdict : Type 0 where
  match_verdict ambiguous_verdict mismatch_verdict : McuIdentityVerdict
  transient_verdict unrelated_verdict : McuIdentityVerdict

pub record McuIdentityAssessment : Type 0 where
  pub verdict : McuIdentityVerdict
  pub baseline : McuIdentity
  pub candidate : McuIdentity
  pub reasons : List String
  pub topology_evidence : List String
  pub expected_vid_pids : List String
  pub score : ℕ
  pub automatic_threshold : ℕ

-- `bool(text)`.
abbrev pub is_set : String → Bool
is_set text = not (str_eq text "")

abbrev pub has_text : String → List String → Bool
has_text text texts = any (λ t. str_eq t text) texts

abbrev pub has_any : List String → Bool
has_any [] = false
has_any (t ∷ ts) = true

-- `a and b and a == b`.
abbrev pub both_same : String → String → Bool
both_same a b = is_set a && is_set b && str_eq a b

-- `a and b and a != b`.
abbrev pub both_differ : String → String → Bool
both_differ a b = is_set a && is_set b && not (str_eq a b)

-- `bool(set(xs).intersection(ys))`.
abbrev pub meets : List String → List String → Bool
meets xs ys = any (λ x. has_text x ys) xs

-- `dict.fromkeys`: each text once, at its first place.
abbrev pub distinct : List String → List String → List String
distinct seen [] = []
distinct seen (t ∷ ts) =
    let rest = distinct seen ts in
    let fresh = distinct (t ∷ seen) ts in if has_text t seen then rest else t ∷ fresh

-- The four comparisons of `topology`.
abbrev pub same_port : McuIdentity → McuIdentity → Bool
same_port a b = both_same a.physical_port b.physical_port

abbrev pub same_by_path : McuIdentity → McuIdentity → Bool
same_by_path a b = has_any a.by_path && has_any b.by_path && meets a.by_path b.by_path

abbrev pub same_id_path : McuIdentity → McuIdentity → Bool
same_id_path a b = both_same a.physical_path b.physical_path

abbrev pub same_devpath : McuIdentity → McuIdentity → Bool
same_devpath a b = both_same a.devpath b.devpath

abbrev pub evidence_of : Bool → String → List String
evidence_of b name = if b then name ∷ [] else []

abbrev pub topology : McuIdentity → McuIdentity → List String
topology a b =
    evidence_of (same_port a b) "physical_port"
    ++ (evidence_of (same_by_path a b) "by_path"
        ++ (evidence_of (same_id_path a b) "udev_id_path"
            ++ evidence_of (same_devpath a b) "devpath"))

abbrev pub has_topology_match : McuIdentity → McuIdentity → Bool
has_topology_match a b = same_port a b || same_by_path a b || same_id_path a b || same_devpath a b

abbrev pub topology_score : McuIdentity → McuIdentity → ℕ
topology_score a b =
    if same_port a b || same_by_path a b
    then 60
    else if same_id_path a b
    then 55
    else if same_devpath a b
    then 50
    else 0

abbrev pub serial_match : McuIdentity → McuIdentity → Bool
serial_match a b = both_same a.serial b.serial

abbrev pub serial_conflict : McuIdentity → McuIdentity → Bool
serial_conflict a b = both_differ a.serial b.serial

-- `identity_score`; the subtraction stops at 0, as `max(0, …)` does.
abbrev pub identity_score : Bool → McuIdentity → McuIdentity → ℕ
identity_score is_expected a b =
    let base = topology_score a b + (if is_expected then 30 else 0) in
    if serial_match a b then base + 10 else if serial_conflict a b then base - 20 else base

abbrev pub serial_reasons : McuIdentity → McuIdentity → List String
serial_reasons a b =
    if serial_match a b
    then "reported serial remained stable" ∷ []
    else if not (is_set a.serial) || not (is_set b.serial)
    then "serial evidence is unavailable and was not used" ∷ []
    else []

module _ (lower_text fold : String → String) where
  abbrev pub vid_pid : McuIdentity → String
  vid_pid i =
      if not (is_set i.vendor_id) || not (is_set i.model_id)
      then ""
      else lower_text i.vendor_id <> ":" <> lower_text i.model_id

  -- `_normalized_vid_pids`.
  abbrev pub normalized_vid_pids : List String → List String
  normalized_vid_pids values = distinct [] (map fold (keep is_set values))

  -- The verdict where the topology agrees, without the score in the reasons; `observed` is the candidate's VID:PID.
  unfoldable pub assess_topology :
      List String
      → List String
      → String
      → McuIdentity
      → McuIdentity
      → ℕ
      → McuIdentityVerdict × List String
  assess_topology expected bootloader observed a b score =
      if is_set observed && has_text observed bootloader && not (has_text observed expected)
      then (
        transient_verdict,
        ("declared bootloader VID:PID " <> observed <> " appeared on the expected physical port")
            ∷ [],
      )
      else if not (has_any expected)
      then (
        ambiguous_verdict,
        "physical topology matches but no application VID:PID contract was supplied" ∷ [],
      )
      else if not (is_set observed)
      then (
        ambiguous_verdict,
        "physical topology matches but candidate VID:PID is unavailable" ∷ [],
      )
      else if not (has_text observed expected)
      then (
        mismatch_verdict,
        ("candidate VID:PID " <> observed <> " is not allowed; expected " <> join ", " expected)
            ∷ [],
      )
      else if serial_conflict a b
      then (
        ambiguous_verdict,
        "physical topology and VID:PID match but the reported serial changed" ∷ [],
      )
      else if ltb score 90
      then (ambiguous_verdict, "identity evidence score is below the automatic threshold 90" ∷ [])
      else (
        match_verdict,
        "candidate reappeared on the same physical USB topology"
            ∷ ("candidate VID:PID " <> observed <> " matches the board profile")
            ∷ serial_reasons a b,
      )

  -- The verdict where it does not.
  unfoldable pub assess_elsewhere :
      List String → String → McuIdentity → McuIdentity → McuIdentityVerdict × List String
  assess_elsewhere expected observed a b =
      if has_any expected && has_text observed expected
      then (
        ambiguous_verdict,
        "candidate has an expected VID:PID but not the captured physical topology"
            ∷ (if serial_match a b
                then "reported serial matches but cannot override the port mismatch" ∷ []
                else []),
      )
      else if serial_match a b
      then (
        ambiguous_verdict,
        "reported serial matches but physical topology and expected VID:PID do not prove identity"
            ∷ [],
      )
      else (
        unrelated_verdict,
        "candidate does not match the captured physical topology or expected board identity" ∷ [],
      )

  unfoldable pub assess_mcu_identity :
      McuIdentity → McuIdentity → List String → List String → McuIdentityAssessment
  assess_mcu_identity baseline candidate expected_vid_pids bootloader_vid_pids =
      let expected = normalized_vid_pids expected_vid_pids in
      let bootloader = normalized_vid_pids bootloader_vid_pids in
      let observed = vid_pid candidate in
      let score =
        identity_score (has_any expected && has_text observed expected) baseline candidate in
      let result =
        if has_topology_match baseline candidate
        then assess_topology expected bootloader observed baseline candidate score
        else assess_elsewhere expected observed baseline candidate in
      record {
        verdict = result.0;
        baseline = baseline;
        candidate = candidate;
        reasons = result.1;
        topology_evidence = topology baseline candidate;
        expected_vid_pids = expected;
        score = score;
        automatic_threshold = 90;
      }
