-- ===== src/Executor/Listed.antt =====
-- What a listed medium is: a mounted partition or disk, marked where its device carries the system.
use kace.Prelude.{
  Bool, true, false, Bool-cases, any, String, str_eq, str_eq_iff, Option, none, some, List, [], ◌∷◌,
  ◌≡◌, ◌≢◌, ◌↔◌, refl, All, In, here, there, inl, inr, arith, ap, if◌then◌else◌, ◌∙◌, sym, subst,
}
use kace.Effects.{ok, pure}
use kace.Effects.Ending.{
  Ends, Anywhere, Ends-pure, Ends-raise, Ends-if, Ends-then, Ends-bind, Ends-require, Ends-value,
  Ends-try, Ends-map, Keeps-Anywhere, Triple-ok, Ends-Keeps,
}
use kace.Effects.Triples.{Outcome, Triple-assume}
use kace.Contract.{Library}
use kace.Executor.Session.{MediaCandidate}
use kace.Executor.Checks.{is_os_error}
use kace.Executor.Linux.{
  BlockNode, BlockForest, Listing, Host, Flattened, mounts_of, is_slash, system_roots, parent_of,
  flatten, id_le, insert_candidate, sorted_candidates, add_candidate, identified, mounted,
  candidate_of, candidates_of, candidates_in, list_candidates, stable_id_of,
}

-- The device with the path has a node that is mounted at `/`.
abbrev pub CarriesSystem : Flattened → String → Type 0
CarriesSystem flattened path =
    (node : BlockNode) × (root : BlockNode) × In (node, root) flattened
    × (root.path ≡ path)
    × In "/" (mounts_of node.mountpoints)

-- The candidate's node in the listing.
abbrev pub IsListed : Flattened → MediaCandidate → Type 0
IsListed flattened c =
    ((node : BlockNode) × (root : BlockNode) × In (node, root) flattened
      × (c.device_path ≡ node.path)
      × (c.parent_device ≡ parent_of node root)
      × (mount : String) × (mounts_of node.mountpoints ≡ mount ∷ [])
      × (mount ≢ "/"))
    × ((c.system_disk ≡ true) ↔ CarriesSystem flattened c.parent_device)

any-In : (t : String) (ts : List String) → any (λ s. str_eq s t) ts ≡ true → In t ts
any-In t [] h = absurd (cc h)
any-In t (s ∷ ts) h = elim (Bool-cases (str_eq s t)) [
  | inl same ↦ here ((str_eq_iff s t).0 same)
  | inr other ↦ there (any-In t ts (ground (arith, other, h)))
]

In-any : (t : String) (ts : List String) → In t ts → any (λ s. str_eq s t) ts ≡ true
In-any t [] p = elim p [ ]
In-any t (s ∷ ts) (here e) = ground (arith, (str_eq_iff s t).1 e)
In-any t (s ∷ ts) (there p) = ground (arith, In-any t ts p)

deeper :
    (f : BlockNode × BlockNode) (rest : Flattened) (path : String)
    → CarriesSystem rest path
    → CarriesSystem (f ∷ rest) path
deeper f rest path (node, root, place, same, slash) = (node, root, there place, same, slash)

some-injective : {A : Type 0} {a b : A} → some a ≡ some b → a ≡ b
some-injective h = cc h

root-carries :
    (node root : BlockNode) (rest : Flattened) (path : String) (b : Bool)
    → is_slash node ≡ b
    → (In path (system_roots rest) → CarriesSystem rest path)
    → In path (if b then root.path ∷ system_roots rest else system_roots rest)
    → CarriesSystem ((node, root) ∷ rest) path
root-carries node root rest path true e h (here same) =
    (node, root, here refl, same, any-In "/" (mounts_of node.mountpoints) e)
root-carries node root rest path true e h (there p) = deeper (node, root) rest path (h p)
root-carries node root rest path false e h p = deeper (node, root) rest path (h p)

system_roots-carry :
    (flattened : Flattened) (path : String)
    → In path (system_roots flattened)
    → CarriesSystem flattened path
system_roots-carry [] path p = elim p [ ]
system_roots-carry ((node, root) ∷ rest) path p =
    root-carries node root rest path _ refl (system_roots-carry rest path) p

skip-root :
    (b : Bool) (path other : String) (others : List String)
    → In path others
    → In path (if b then other ∷ others else others)
skip-root true path other others p = there p
skip-root false path other others p = p

take-root :
    (b : Bool) (path other : String) (others : List String)
    → b ≡ true
    → other ≡ path
    → In path (if b then other ∷ others else others)
take-root true path other others h e = here e
take-root false path other others h e = absurd (cc h)

carry-system_roots :
    (flattened : Flattened) (node root : BlockNode)
    → In (node, root) flattened
    → In "/" (mounts_of node.mountpoints)
    → In root.path (system_roots flattened)
carry-system_roots [] node root p slash = elim p [ ]
carry-system_roots ((n, r) ∷ rest) node root (here e) slash =
    take-root (is_slash n) _ _ _
      (In-any "/" (mounts_of n.mountpoints)
        (subst (λ (f : BlockNode × BlockNode). In "/" (mounts_of f.0.mountpoints)) (sym e) slash))
      (ap (λ (f : BlockNode × BlockNode). f.1.path) e)
carry-system_roots ((n, r) ∷ rest) node root (there p) slash =
    skip-root (is_slash n) _ _ _ (carry-system_roots rest node root p slash)

system_roots_iff :
    (flattened : Flattened) (path : String)
    → (any (λ p. str_eq p path) (system_roots flattened) ≡ true) ↔ CarriesSystem flattened path
system_roots_iff flattened path = (
  (λ h. system_roots-carry flattened path (any-In path (system_roots flattened) h)),
  (λ h. In-any path (system_roots flattened) (
      subst (λ p. In p (system_roots flattened)) (h.3)
        (carry-system_roots flattened (h.0) (h.1) (h.2) (h.4)))),
)

pick-All :
    (P : MediaCandidate → Type 0) (b : Bool) (xs ys : List MediaCandidate)
    → All P xs
    → All P ys
    → All P (if b then xs else ys)
pick-All P true xs ys p q = p
pick-All P false xs ys p q = q

insert-All :
    (P : MediaCandidate → Type 0) (c : MediaCandidate) (cs : List MediaCandidate)
    → P c
    → All P cs
    → All P (insert_candidate c cs)
insert-All P c [] p ps = (p, tt)
insert-All P c (d ∷ ds) p ps = pick-All P (id_le c d) _ _ (p, ps) (ps.0, insert-All P c ds p ps.1)

sorted-All :
    (P : MediaCandidate → Type 0) (cs : List MediaCandidate)
    → All P cs
    → All P (sorted_candidates cs)
sorted-All P [] ps = tt
sorted-All P (c ∷ cs) ps = insert-All P c (sorted_candidates cs) ps.0 (sorted-All P cs ps.1)

module _ {W : Type 0} (library : Library W) (host : Host W) where
  -- A candidate that a round adds.
  abbrev Adds : Flattened → Option MediaCandidate → W → Type 0
  Adds flattened o w = (c : MediaCandidate) → o ≡ some c → IsListed flattened c

  none-Adds : (flattened : Flattened) → Ends Anywhere (Adds flattened) (pure none)
  none-Adds flattened = Ends-pure none (λ w p c e. absurd (cc e))

  identified-Adds :
      (flattened : Flattened) (node root : BlockNode) (mount : String) (o : Option String)
      → In (node, root) flattened
      → mounts_of node.mountpoints ≡ mount ∷ []
      → mount ≢ "/"
      → Ends Anywhere
          (Adds flattened)
          (identified library host (system_roots flattened) node root mount o)
  unfolding identified
  identified-Adds flattened node root mount none place only away = none-Adds flattened
  identified-Adds flattened node root mount (some id) place only away =
      Ends-bind _ _ (Keeps-Anywhere _) λ path. Ends-bind _ _ (Keeps-Anywhere _) λ directory.
        Ends-if directory _ _
          (Ends-try {R = λ _ _. Unit {0}} is_os_error _ _ _
            (Ends-Keeps _ (Keeps-Anywhere _) (λ a s p. tt)) (λ e. none-Adds flattened)
            λ free. Ends-require _ _ λ _. Ends-pure _ λ w p c e.
              subst (IsListed flattened) (some-injective e) (
                (node, root, place, refl, refl, mount, only, away),
                system_roots_iff flattened (parent_of node root),
              ))
          (none-Adds flattened)

  mounted-Adds :
      (flattened : Flattened) (node root : BlockNode) (mounts : List String)
      → In (node, root) flattened
      → mounts_of node.mountpoints ≡ mounts
      → Ends Anywhere
          (Adds flattened)
          (mounted library host (system_roots flattened) node root mounts)
  unfolding mounted
  mounted-Adds flattened node root [] place e = none-Adds flattened
  mounted-Adds flattened node root (m ∷ n ∷ ms) place e = none-Adds flattened
  mounted-Adds flattened node root (mount ∷ []) place e = elim (Bool-cases (str_eq mount "/")) [
    | inl slash ↦
        subst
          (λ b. Ends Anywhere (Adds flattened) (
            if b
            then pure none
            else identified library host (system_roots flattened) node root mount
                (stable_id_of library host node root)))
          (sym slash) (none-Adds flattened)
    | inr away ↦
        subst
          (λ b. Ends Anywhere (Adds flattened) (
            if b
            then pure none
            else identified library host (system_roots flattened) node root mount
                (stable_id_of library host node root)))
          (sym away)
          (identified-Adds flattened node root mount _ place e
            (λ s. absurd (ground (arith, away, (str_eq_iff mount "/").1 s))))
  ]

  candidate_of-Adds :
      (flattened : Flattened) (node root : BlockNode)
      → In (node, root) flattened
      → Ends Anywhere
          (Adds flattened)
          (candidate_of library host (system_roots flattened) node root)
  unfolding candidate_of
  candidate_of-Adds flattened node root place =
      Ends-if _ _ _ (mounted-Adds flattened node root _ place refl) (none-Adds flattened)

  add-All :
      (flattened : Flattened) (o : Option MediaCandidate) (cs : List MediaCandidate)
      → ((c : MediaCandidate) → o ≡ some c → IsListed flattened c)
      → All (IsListed flattened) cs
      → All (IsListed flattened) (add_candidate o cs)
  add-All flattened none cs h all = all
  add-All flattened (some c) cs h all = (h c refl, all)

  candidates_of-All :
      (flattened rest : Flattened)
      → ((f : BlockNode × BlockNode) → In f rest → In f flattened)
      → Ends Anywhere
          (λ cs (_ : W). All (IsListed flattened) cs)
          (candidates_of library host (system_roots flattened) rest)
  unfolding candidates_of
  candidates_of-All flattened [] within = Ends-pure [] (λ w p. tt)
  candidates_of-All flattened ((node, root) ∷ rest) within =
      Ends-value {F = λ o. (c : MediaCandidate) → o ≡ some c → IsListed flattened c} _ _
        (Ends-map _ (candidate_of-Adds flattened node root (within _ (here refl)))
          (λ o w h. (h, tt)))
        λ o adds.
          Ends-then _ _ (candidates_of-All flattened rest (λ f p. within f (there p)))
            λ cs. Ends-pure _ (λ w all. add-All flattened o cs adds all)

  -- The listed media of a listing's trees.
  abbrev pub AllListed : Option BlockForest → List MediaCandidate → Type 0
  AllListed o cs = (forest : BlockForest) × (o ≡ some forest) × All (IsListed (flatten forest)) cs

  candidates_in-AllListed :
      (o : Option BlockForest)
      → Ends Anywhere (λ cs (_ : W). AllListed o cs) (candidates_in library host o)
  unfolding candidates_in
  candidates_in-AllListed none = Ends-raise _
  candidates_in-AllListed (some forest) =
      Ends-then _ _ (candidates_of-All (flatten forest) (flatten forest) (λ f p. p))
        λ cs. Ends-pure _ (λ w all. (forest, refl, sorted-All _ cs all))

  lsblk-Ends :
      (w v : W) (listing : Listing)
      → host.lsblk w ≡ (ok listing, v)
      → Ends (λ s. s ≡ w) (λ l (_ : W). (l ≡ listing) × Unit {0}) host.lsblk
  lsblk-Ends w v listing h = record {
    triple = record {
      at = λ s p.
          subst (Outcome (λ l (_ : W). (l ≡ listing) × Unit {0}) (λ _ _. Unit {0}))
            (sym (ap host.lsblk p ∙ h)) (refl, tt);
    };
  }

  list_candidates-AllListed :
      (w v : W) (listing : Listing)
      → host.lsblk w ≡ (ok listing, v)
      → Ends
          (λ s. s ≡ w)
          (λ cs (_ : W). AllListed listing.blockdevices cs)
          (list_candidates library host)
  unfolding list_candidates
  list_candidates-AllListed w v listing told = Ends-require _ _ λ _.
      Ends-then _ _ (lsblk-Ends w v listing told) λ l. record {
        triple = Triple-assume λ same.
            (Ends-require {P = Anywhere} _ _ λ _.
              Ends-map _ (candidates_in-AllListed l.blockdevices)
                (λ cs u h. subst (λ (k : Listing). AllListed k.blockdevices cs) same h)).triple;
      }

  -- Every medium that `list_candidates` returns stands for one node of lsblk's listing: it has the
  -- node's device and the path of the tree's root, the node has one mount point, which is not `/`,
  -- and the medium is marked as of the system disk exactly if a node of a tree whose root has that
  -- path is mounted at `/`.
  pub list_candidates_listed :
      (listing : Listing) (cs : List MediaCandidate) (w w' v : W)
      → host.lsblk w ≡ (ok listing, v)
      → list_candidates library host w ≡ (ok cs, w')
      → AllListed listing.blockdevices cs
  list_candidates_listed listing cs w w' v told run =
      Triple-ok (list_candidates-AllListed w v listing told).triple refl run
