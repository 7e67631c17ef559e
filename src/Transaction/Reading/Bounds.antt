-- ===== src/Transaction/Reading/Bounds.antt =====
-- The scan of the include graph ends within its fuel: each scanned byte pays for one include.
use kace.Prelude.{
  ℕ, zero, suc, ◌+◌, ◌-◌, ◌≤◌, ◌<◌, ◌||◌, String, Bytes, Option, none, some, List, [], ◌∷◌, length,
  ltb, ◌≡◌, ◌≢◌, arith,
}
use kace.Effects.{Exc, unfinished, err, Exec}
use kace.Effects.Triples.{
  Triple, Triple-pure, Triple-raise, Triple-if, Triple-bind, Triple-lift, Triple-need,
  Triple-weaken, Triple-assume,
}
use kace.Effects.Ending.{Anywhere}
use kace.ManagedConfig.{Content, Files}
use kace.Transaction.Interface.{Transport, Planner}
use kace.Transaction.Waiting.Deadline.{Finishes}
use kace.Transaction.Reading.{
  read_file, resolve_include, add_includes, scan_step, scan, read_config_state, is_visited,
  include_limit, candidates, pick, Pending, Visited,
}

-- A read ends, and a file has at most one include for each of its bytes: an include takes a line
-- of its own.
pub record IsScannable {W : Type 0} (transport : Transport W) (planner : Planner W) : Type 0 where
  pub read :
      (names : List String) → Triple Anywhere (transport.read_files names) (λ _. Anywhere) Finishes
  pub few :
      (content : Bytes) (source : String)
      → length (planner.config_includes content source).0 ≤ length content
  pub ending :
      (content : Bytes) (source : String)
      → (planner.config_includes content source).1 ≢ err unfinished

module _ {W : Type 0} (transport : Transport W) (planner : Planner W)
    (scannable : IsScannable transport planner) where
  resolve_include-Finishes :
      (name : String) (state : Files) (o : Option Content)
      → Triple Anywhere (resolve_include transport name state o) (λ _. Anywhere) Finishes
  unfolding resolve_include read_file
  resolve_include-Finishes name state (some c) = Triple-pure _ (λ w p. tt)
  resolve_include-Finishes name state none =
      Triple-bind _ _
        (Triple-bind _ _ (scannable.read _)
          λ remote. Triple-need _ _ (λ a w e p. tt) (λ w p h. cc h))
        λ content. Triple-pure _ (λ w p. tt)

  add_includes-length :
      (names : List String) (state : Files) (pending : Pending)
      → Triple Anywhere
          (add_includes transport names state pending)
          (λ r _. (length r.1 ≡ length names + length pending) × Unit {0})
          Finishes
  unfolding add_includes
  add_includes-length [] state pending = Triple-pure _ (λ w p. (omega arith, tt))
  add_includes-length (name ∷ names) state pending =
      Triple-bind _ _ (resolve_include-Finishes name state _) λ r.
        Triple-weaken (add_includes-length names r.0 ((name, r.1) ∷ pending)) (λ w p. p)
          (λ r' w q. (omega arith, tt)) (λ e w f. f)

  -- The rest of the loop, on fuel for what is left to scan.
  abbrev Resumes : (Pending → Visited → Files → ℕ → Exec W Files) → ℕ → Type 0
  Resumes again fuel =
      (p : Pending) (v : Visited) (s : Files) (t : ℕ)
      → t ≤ include_limit
      → include_limit - t + length p < fuel
      → Triple Anywhere (again p v s t) (λ _. Anywhere) Finishes

  scan_step-Finishes :
      (again : Pending → Visited → Files → ℕ → Exec W Files) (fuel : ℕ)
      → Resumes again fuel
      → Resumes (scan_step transport planner again) (suc fuel)
  unfolding scan_step
  scan_step-Finishes again fuel h [] v s t b m = Triple-pure _ (λ w p. tt)
  scan_step-Finishes again fuel h ((source, none) ∷ p) v s t b m = h p v s t b (omega arith)
  scan_step-Finishes again fuel h ((source, some content) ∷ p) v s t b m =
      Triple-if (is_visited source content v) _ _ (λ _. h p v s t b (omega arith))
        λ _.
          Triple-if (ltb 256 (length s) || ltb include_limit (t + length content)) _ _
            (λ _. Triple-raise _ (λ w p h. cc h))
            λ room. Triple-bind _ _ (add_includes-length _ s p) λ r. Triple-assume λ pushed.
              Triple-bind _ _
                (Triple-lift _ (λ a w e q. tt)
                  (λ e w x q f. scannable.ending content source (cc (x, f))))
                (λ _.
                  h r.1 _ r.0 (t + length content) (ground arith)
                    (ground (arith, scannable.few content source)))

  scan-Finishes : (fuel : ℕ) → Resumes (scan transport planner fuel) fuel
  unfolding scan
  scan-Finishes zero p v s t b m = elim m [ ]
  scan-Finishes (suc fuel) p v s t b m =
      scan_step-Finishes (scan transport planner fuel) fuel (scan-Finishes fuel) p v s t b m

  pick-Finishes :
      (names : List String) (remote : Files) (e : Exc) → pick names remote ≡ err e → e ≢ unfinished
  unfolding pick
  pick-Finishes [] remote e h = λ f. cc
  pick-Finishes (name ∷ names) remote e h =
      let ih : (x : Exc) → pick names remote ≡ err x → x ≢ unfinished =
        pick-Finishes names remote in
      λ f. ground (arith, ih e)

  -- `read_config_state` ends within its fuel, whatever the files include: the include graph may be
  -- cyclic, and the limit of 8 MiB on the scanned bytes is what ends it.
  pub read_config_state-Finishes :
      (hardware : Bytes) (macros : Option Bytes)
      → Triple Anywhere
          (read_config_state transport planner hardware macros)
          (λ _. Anywhere)
          Finishes
  unfolding read_config_state
  read_config_state-Finishes hardware macros = Triple-bind _ _ (scannable.read candidates) λ remote.
      Triple-bind _ _
        (Triple-lift (pick candidates remote) (λ a w e q. tt)
          (λ e w x q. pick-Finishes candidates remote e x))
        λ state.
          Triple-bind _ _ (Triple-need _ _ (λ a w e q. tt) (λ w q h. cc h))
            λ root. scan-Finishes _ _ _ state 0 (omega arith) (omega arith)
