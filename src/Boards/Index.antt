-- ===== src/Boards/Index.antt =====
-- The alias index of the catalog: complete, sound, and so unambiguous.
use kace.Prelude.{
  String, str_eq_iff, Option, none, some, List, [], ◌∷◌, ◌≡◌, refl, arith, lookup, insert,
  lookup-insert, All, All-map,
}
use kace.Effects.{Result, ok, err}
use kace.Boards.{
  CatalogEntry, BoardCatalog, Index, names_of, index_names, build_indices, catalog_of,
  resolve_exact,
}

module _ (normalize : String → String) where
  index_names-head :
      (entry : CatalogEntry) (alias : String) (names seen : List String) (index more : Index)
      (o : Option CatalogEntry)
      → lookup (normalize alias) index ≡ o
      → index_names normalize entry (alias ∷ names) seen index ≡ ok more
      → (lookup (normalize alias) index ≡ none)
        × (index_names normalize entry names
              (normalize alias ∷ seen)
              (insert (normalize alias) entry index)
            ≡ ok more)
  unfolding index_names
  index_names-head entry alias names seen index more none e h = ground arith
  index_names-head entry alias names seen index more (some owner) e h = ground arith

  -- The old keys keep their entries.
  abbrev Extends : Index → Index → Type 0
  Extends index more =
      (k : String) (e : CatalogEntry) → lookup k index ≡ some e → lookup k more ≡ some e

  insert-Extends :
      (name : String) (entry : CatalogEntry) (index : Index)
      → lookup name index ≡ none
      → Extends index (insert name entry index)
  insert-Extends name entry index fresh k e h =
      ground (arith, lookup-insert name k entry index, str_eq_iff name k)

  index_names-Extends :
      (entry : CatalogEntry) (names seen : List String) (index more : Index)
      → index_names normalize entry names seen index ≡ ok more
      → Extends index more
  unfolding index_names
  index_names-Extends entry [] seen index more h k e found = ground arith
  index_names-Extends entry (alias ∷ names) seen index more h k e found =
      let (fresh, rest) = index_names-head entry alias names seen index more _ refl h in
      index_names-Extends entry names _ _ more rest k e
        (insert-Extends (normalize alias) entry index fresh k e found)

  -- Each name leads to the entry.
  abbrev Owns : Index → CatalogEntry → List String → Type 0
  Owns index entry names = All (λ alias. lookup (normalize alias) index ≡ some entry) names

  index_names-Owns :
      (entry : CatalogEntry) (names seen : List String) (index more : Index)
      → index_names normalize entry names seen index ≡ ok more
      → Owns more entry names
  index_names-Owns entry [] seen index more h = tt
  index_names-Owns entry (alias ∷ names) seen index more h =
      let (fresh, rest) = index_names-head entry alias names seen index more _ refl h in
      (
        index_names-Extends entry names _ _ more rest (normalize alias) entry (
            ground (
              arith,
              lookup-insert (normalize alias) (normalize alias) entry index,
              str_eq_iff (normalize alias) (normalize alias),
            )),
        index_names-Owns entry names _ _ more rest,
      )

  build_indices-head :
      (entry : CatalogEntry) (entries : List CatalogEntry) (by_id by_alias : Index)
      (indices : Index × Index) (o : Option CatalogEntry) (r : Result Index)
      → lookup (normalize entry.contract.board_id) by_id ≡ o
      → index_names normalize entry (names_of entry) [] by_alias ≡ r
      → build_indices normalize (entry ∷ entries) by_id by_alias ≡ ok indices
      → (more : Index) × (index_names normalize entry (names_of entry) [] by_alias ≡ ok more)
        × (build_indices normalize entries
              (insert (normalize entry.contract.board_id) entry by_id)
              more
            ≡ ok indices)
  unfolding build_indices
  build_indices-head entry entries by_id by_alias indices none (ok more) e f h =
      (more, f, ground arith)
  build_indices-head entry entries by_id by_alias indices none (err x) e f h = absurd (ground arith)
  build_indices-head entry entries by_id by_alias indices (some owner) r e f h =
      absurd (ground arith)

  build_indices-Extends :
      (entries : List CatalogEntry) (by_id by_alias : Index) (indices : Index × Index)
      → build_indices normalize entries by_id by_alias ≡ ok indices
      → Extends by_alias indices.1
  unfolding build_indices
  build_indices-Extends [] by_id by_alias indices h k e found = ground arith
  build_indices-Extends (entry ∷ entries) by_id by_alias indices h k e found =
      let (more, named, rest) =
        build_indices-head entry entries by_id by_alias indices _ _ refl refl h in
      build_indices-Extends entries _ more indices rest k e
        (index_names-Extends entry (names_of entry) [] by_alias more named k e found)

  build_indices-Owns :
      (entries : List CatalogEntry) (by_id by_alias : Index) (indices : Index × Index)
      → build_indices normalize entries by_id by_alias ≡ ok indices
      → All (λ entry. Owns indices.1 entry (names_of entry)) entries
  build_indices-Owns [] by_id by_alias indices h = tt
  build_indices-Owns (entry ∷ entries) by_id by_alias indices h =
      let (more, named, rest) =
        build_indices-head entry entries by_id by_alias indices _ _ refl refl h in
      (
        All-map (names_of entry)
            (λ alias found.
              build_indices-Extends entries _ more indices rest (normalize alias) entry found)
            (index_names-Owns entry (names_of entry) [] by_alias more named),
        build_indices-Owns entries _ more indices rest,
      )

  catalog_of-indices :
      (entries : List CatalogEntry) (catalog : BoardCatalog) (r : Result (Index × Index))
      → build_indices normalize entries [] [] ≡ r
      → catalog_of normalize entries ≡ ok catalog
      → build_indices normalize entries [] [] ≡ ok (catalog.by_id, catalog.by_alias)
  unfolding catalog_of
  catalog_of-indices [] catalog r e h = absurd (cc h)
  catalog_of-indices (entry ∷ entries) catalog (err x) e h = absurd (ground arith)
  catalog_of-indices (entry ∷ entries) catalog (ok indices) e h = ground arith

  -- A catalog that can be built finds every one of its boards under its id and under each of its
  -- aliases: no exact name is shared by two boards.
  pub catalog_of-resolve_exact :
      (entries : List CatalogEntry) (catalog : BoardCatalog)
      → catalog_of normalize entries ≡ ok catalog
      → All
          (λ (entry : CatalogEntry).
            All
              (λ alias. resolve_exact normalize catalog alias ≡ some entry.contract)
              (names_of entry))
          entries
  unfolding resolve_exact
  catalog_of-resolve_exact entries catalog h =
      All-map entries
        (λ entry owned. All-map (names_of entry) (λ alias found. ground (arith, found)) owned)
        (build_indices-Owns entries [] [] _ (catalog_of-indices entries catalog _ refl h))
