-- ===== src/Cache/External.antt =====
-- The directories outside a module that are hashed, `hashExternalModuleTrees` of
-- internal/cli/cache.go.
use gomake.Base.{
  Str, Bool-cases, true, false, List, [], ◌∷◌, map, ◌↔◌, inl, inr, sym, ◌==◌, ◌||◌, not, str_eq,
  All, contains, Distinct, sort_by-IsSortedBy, sort_by-Distinct, IsSortedBy, contains-sort_by,
  by_text, ◌≡◌, ◌≢◌, ◌∙◌, arith,
}
use gomake.Base.Path.{clean}
use gomake.Workspace.{FileInfo, dir_exists}
use gomake.Cache.{collect_roots, external_roots, resolved, is_subpath}

module _ (stat : Str → FileInfo) (mod_root : Str) where
  -- A directory outside the module.
  abbrev pub IsExternal : Str → Type 0
  IsExternal abs = (is_subpath mod_root abs ≡ false) × (dir_exists (stat abs) ≡ true)

  collect_roots-IsExternal :
      (seen rels : List Str) → All IsExternal (collect_roots stat mod_root seen rels)
  unfolding collect_roots
  collect_roots-IsExternal seen [] = tt
  collect_roots-IsExternal seen (rel ∷ rels) = ground (
    arith,
    collect_roots-IsExternal seen rels,
    collect_roots-IsExternal (resolved mod_root rel ∷ seen) rels,
  )

  collect_roots-seen :
      (seen rels : List Str) (a : Str)
      → contains seen a ≡ true
      → contains (collect_roots stat mod_root seen rels) a ≡ false
  unfolding collect_roots contains
  collect_roots-seen seen [] a h = ground arith
  collect_roots-seen seen (rel ∷ rels) a h = ground (
    arith,
    h,
    collect_roots-seen seen rels a h,
    collect_roots-seen (resolved mod_root rel ∷ seen) rels a,
  )

  collect_roots-Distinct : (seen rels : List Str) → Distinct (collect_roots stat mod_root seen rels)
  unfolding collect_roots contains
  collect_roots-Distinct seen [] = tt
  collect_roots-Distinct seen (rel ∷ rels) = ground (
    arith,
    collect_roots-Distinct seen rels,
    collect_roots-Distinct (resolved mod_root rel ∷ seen) rels,
    collect_roots-seen (resolved mod_root rel ∷ seen) rels (resolved mod_root rel),
  )

  -- Every entry that is a directory outside the module is taken.
  collect_roots_complete :
      (seen rels : List Str) (a : Str)
      → contains (map (resolved mod_root) rels) a ≡ true
      → IsExternal a
      → contains seen a ≡ false
      → contains (collect_roots stat mod_root seen rels) a ≡ true
  unfolding collect_roots contains
  collect_roots_complete seen [] a h x n = absurd (cc)
  collect_roots_complete seen (r ∷ rels) a h x n = ground (
    arith,
    collect_roots_complete seen rels a,
    collect_roots_complete (resolved mod_root r ∷ seen) rels a,
  )

  collect_roots_sound :
      (seen rels : List Str) (a : Str)
      → contains (collect_roots stat mod_root seen rels) a ≡ true
      → (contains (map (resolved mod_root) rels) a ≡ true)
        × IsExternal a
        × (contains seen a ≡ false)
  unfolding collect_roots contains
  collect_roots_sound seen [] a h = absurd (cc)
  collect_roots_sound seen (r ∷ rels) a h =
      elim (Bool-cases (
        contains seen (resolved mod_root r)
        || is_subpath mod_root (resolved mod_root r)
        || not (dir_exists (stat (resolved mod_root r))))) [
          | inl e ↦ go (collect_roots_sound seen rels a (ground (arith, e, h)))
          | inr e ↦ elim (Bool-cases (resolved mod_root r == a)) [
            | inl q ↦ (
              ground (arith, q),
              (ground (arith, e, q), ground (arith, e, q)),
              ground (arith, e, q),
            )
            | inr q ↦
                go2 q (
                  collect_roots_sound (resolved mod_root r ∷ seen) rels a (ground (arith, e, q, h)))
          ]
        ]
    where
      Sound : List Str → Type 0
      Sound before =
          (contains (map (resolved mod_root) rels) a ≡ true)
          × IsExternal a
          × (contains before a ≡ false)

      go :
          Sound seen
          → (contains (map (resolved mod_root) (r ∷ rels)) a ≡ true)
            × IsExternal a
            × (contains seen a ≡ false)
      go (n, x, f) = (ground (arith, n), x, f)

      go2 :
          (resolved mod_root r == a) ≡ false
          → Sound (resolved mod_root r ∷ seen)
          → (contains (map (resolved mod_root) (r ∷ rels)) a ≡ true)
            × IsExternal a
            × (contains seen a ≡ false)
      go2 q (n, x, f) = (ground (arith, n), x, ground (arith, f, q))

  -- The directories that `hashExternalModuleTrees` hashes are sorted and without repetition. A path is
  -- among them exactly when an entry names it, it is not the module root, it is a directory, and it is
  -- outside the module.
  pub external_roots_lem :
      (rels : List Str) (path : Str)
      → IsSortedBy by_text (external_roots stat mod_root rels)
        × Distinct (external_roots stat mod_root rels)
        × ((contains (external_roots stat mod_root rels) path ≡ true) ↔ (
            (contains (map (resolved mod_root) rels) path ≡ true)
            × IsExternal path
            × (path ≢ clean mod_root)))
  unfolding external_roots contains
  external_roots_lem rels path =
      let found = collect_roots stat mod_root (clean mod_root ∷ []) rels in
      (
        sort_by-IsSortedBy by_text found,
        sort_by-Distinct by_text found (collect_roots-Distinct (clean mod_root ∷ []) rels),
        (
          λ h.
              (let (named, ext, new) =
                  collect_roots_sound (clean mod_root ∷ []) rels path
                    (sym (contains-sort_by by_text found path) ∙ h) in
                (named, ext, (λ e. ground (arith, new, e)))),
          λ (named, ext, n).
              contains-sort_by by_text found path
              ∙ collect_roots_complete (clean mod_root ∷ []) rels path named ext
                  (ground (arith, n)),
        ),
      )
