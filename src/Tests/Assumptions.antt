-- ===== src/Tests/Assumptions.antt =====
-- The printer in memory meets what the theorems assume of a transport and of the clock.
use kace.Prelude.{
  ℕ, Bool, true, String, some, List, [], ◌∷◌, ◌≡◌, arith, lookup, str_eq, str_eq_iff, Bool-cases,
  inl, inr,
}
use kace.Effects.Triples.{Triple-pure, Triple-gets}
use kace.Effects.Keeping.{Keeps-pure, Keeps-gets, Keeps-modify, Keeps-bind, Keeps-if, Keeps-raise}
use kace.ManagedConfig.{Content}
use kace.Transaction.Quiet.{KeepsQuiet}
use kace.Transaction.Publishing.Outcomes.{KeepsUploads}
use kace.Transaction.Publishing.Recorded.{TellsFile}
use kace.Transaction.Reading.Bounds.{IsScannable}
use kace.Transaction.Recovery.Matching.{IsTruthful, IsHonest}
use kace.Transaction.Recovery.Preserving.{KeepsRestarts}
use kace.Transaction.Waiting.Deadline.{IsTimely}
use kace.Tests.World.{World, content_at, read_at, memory, plain, demo, blank}

read_at-content :
    (w : World) (names : List String) (name : String) (c : Content)
    → lookup name (read_at w names) ≡ some c
    → content_at w name ≡ c
unfolding lookup
read_at-content w [] name c h = absurd (cc h)
read_at-content w (j ∷ names) name c h = elim (Bool-cases (str_eq j name)) [
  | inl same ↦ cc ((str_eq_iff j name).0 same, same_content same h)
  | inr other ↦ read_at-content w names name c (ground (arith, h, other))
]
  where
    same_content :
        str_eq j name ≡ true
        → lookup name ((j, content_at w j) ∷ read_at w names) ≡ some c
        → content_at w j ≡ c
    same_content s e = ground (arith, s, e)

pub memory-IsTruthful : (answer : Bool) (mode : String) → IsTruthful (demo answer mode) content_at
memory-IsTruthful answer mode names = record {
  triple = Triple-gets _ (λ w _. read_at-content w names);
}

pub memory-IsHonest : (answer : Bool) (mode : String) → IsHonest (demo answer mode) content_at
memory-IsHonest answer mode = record {
  read = memory-IsTruthful answer mode;
  told = tt;
  left = λ planned. Keeps-pure tt;
  released = λ planned. Keeps-pure tt;
}

pub memory-TellsFile : (answer : Bool) (mode : String) → TellsFile (demo answer mode) content_at
unfolding lookup
memory-TellsFile answer mode name = record {
  triple = Triple-gets _ (λ w _. ground (arith, str_eq_iff name name));
}

pub memory-KeepsQuiet :
    (answer : Bool) (mode : String) (P : World → Type 0)
    → ((d : ℕ) (w : World) → P w → P (memory.sleep d w))
    → KeepsQuiet (demo answer mode) P
memory-KeepsQuiet answer mode P asleep = record {
  validate = Keeps-pure tt;
  read = λ names. Keeps-gets _;
  online = Keeps-pure true;
  klipper = Keeps-pure "ready";
  asleep = asleep;
  active = tt;
  review_built = λ plan. Keeps-pure _;
  validated = λ plan. Keeps-pure _;
  published = λ id files missing. Keeps-pure tt;
  reviewed = tt;
  confirmed = λ diff. Keeps-pure answer;
  shown = λ line. Keeps-pure tt;
  selected = Keeps-pure mode;
  told = tt;
  firmware = tt;
}

abbrev pub SameDisk : World → Type 0
SameDisk w = w.disk ≡ blank.disk

abbrev pub NoRestart : World → Type 0
NoRestart w = w.restarts ≡ 0

pub memory-KeepsUploads :
    (answer : Bool) (mode : String) → KeepsUploads (demo answer mode) NoRestart
memory-KeepsUploads answer mode = record {
  uploaded = λ name content previous.
      Keeps-bind _ _ (Keeps-gets _) λ w. Keeps-if _ _ _ (Keeps-modify _ (λ w h. h)) (Keeps-raise _);
}

pub memory-KeepsRestarts :
    (answer : Bool) (mode : String) → KeepsRestarts (demo answer mode) SameDisk
memory-KeepsRestarts answer mode = record {
  restart = λ activation. Keeps-modify _ (λ w h. h);
  restart_moonraker = Keeps-modify _ (λ w h. h);
}

pub memory-IsTimely : (answer : Bool) (mode : String) → IsTimely (demo answer mode)
memory-IsTimely answer mode = record {
  slept = λ d w. omega arith;
  online = λ n. Triple-pure true (λ w h. h);
  klipper = λ n. Triple-pure "ready" (λ w h. h);
  polls = omega arith;
}

pub memory-IsScannable : IsScannable memory plain
memory-IsScannable = record {
  read = λ names. Triple-gets _ (λ w _. tt);
  few = λ content source. omega arith;
  ending = λ content source h. cc h;
}
