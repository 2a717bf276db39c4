-- ===== src/Compile/Tidy.antt =====
-- What `newGoMake` of internal/cli/cli.go leaves behind, and what it gives.
use gomake.Base.{
  subst, Str, List, [], ◌∷◌, ◌++◌, All, All-append, some, ◌≡◌, ◌⊎◌, inr, refl, ap, sym,
  append_assoc, str_eq,
}
use gomake.Compile.{
  Parts, GoMake, create_file, generated, or_remove_dir, in_build_dir, behind, and_parse, build_pkg,
  new_go_make,
}
use gomake.Prepare.{Act, make_dir, remove_all, Build, ◌>>=◌, ◌>>◌, give, CompUnit, prepare}
use gomake.Prepare.Tidy.{IsInner, IsTidy, bind-IsInner, bind-ok, act-IsInner, prepare-IsTidy}
use gomake.Scan.Makefile.{Makefile}
use gomake.Scan.Whole.{makefile_from_package-IsParsed, IsParsed}
use gomake.Targets.Valid.{IsValid}
use gomake.Workspace.{Result, ok, err}

-- How `newGoMake` ends: with no directory, with one that is removed again, or with one that stays.
abbrev pub IsTidyMake : Build GoMake → Type 0
IsTidyMake (t, err e) =
    (t ≡ [])
    ⊎ ((d : Str) × (inner : List Act) × (t ≡ make_dir d ∷ (inner ++ (remove_all d ∷ [])))
        × All IsInner inner)
IsTidyMake (t, ok gmk) =
    (inner : List Act) × (t ≡ make_dir gmk.cu.build_dir ∷ inner)
    × All IsInner inner
    × IsValid gmk.targets

module _ (p : Parts) (version : Str) where
  generated-IsInner : (cu : CompUnit) (pmf : Makefile) → All IsInner (generated p version cu pmf).0
  generated-IsInner cu pmf = bind-IsInner (give (p.generate pmf.targets)) _ tt (λ code.
      bind-IsInner (create_file p cu.main_user code) _ (act-IsInner _ _ tt) (λ _.
        bind-IsInner (give (p.main_source version)) _ tt (λ main.
          bind-IsInner (create_file p cu.main_gen main)
            (λ _. give (ok (record { cu = cu; targets = pmf.targets }))) (act-IsInner _ _ tt)
            (λ _. tt))))

  generated-ok :
      (cu : CompUnit) (pmf : Makefile) (gmk : GoMake)
      → (generated p version cu pmf).1 ≡ ok gmk
      → (gmk.cu ≡ cu) × (gmk.targets ≡ pmf.targets)
  generated-ok cu pmf gmk h =
      let (code, h1) = bind-ok (give (p.generate pmf.targets)) rest gmk h in
      let (_, h2) = bind-ok (create_file p cu.main_user code) (λ _. last) gmk h1 in
      let (main, h3) = bind-ok (give (p.main_source version)) write_main gmk h2 in
      let (_, h4) = bind-ok (create_file p cu.main_gen main) (λ _. give (ok made)) gmk h3 in same h4
    where
      made : GoMake
      made = record { cu = cu; targets = pmf.targets }

      write_main : Str → Build GoMake
      write_main main = create_file p cu.main_gen main >> give (ok made)

      last : Build GoMake
      last = give (p.main_source version) >>= write_main

      rest : Str → Build GoMake
      rest code = create_file p cu.main_user code >> last

      same : ok made ≡ ok gmk → (gmk.cu ≡ cu) × (gmk.targets ≡ pmf.targets)
      same e = (cc, cc)

  ended :
      (cu : CompUnit) (before : List Act) (m : Build GoMake)
      → All IsInner before
      → All IsInner m.0
      → ((gmk : GoMake) → m.1 ≡ ok gmk → (gmk.cu ≡ cu) × IsValid gmk.targets)
      → IsTidyMake
          (make_dir cu.build_dir ∷ (before ++ (or_remove_dir p cu m).0), (or_remove_dir p cu m).1)
  ended cu before (t, err e) b h f = inr (
    cu.build_dir,
    before ++ t,
    ap (λ l. make_dir cu.build_dir ∷ l)
        (sym (append_assoc before t (remove_all cu.build_dir ∷ []))),
    All-append IsInner before t b h,
  )
  ended cu before (t, ok gmk) b h f =
      let (e, v) = f gmk refl in
      (
        before ++ t,
        ap (λ u. make_dir u.build_dir ∷ (before ++ t)) (sym e),
        All-append IsInner before t b h,
        v,
      )

  parsed-IsTidyMake :
      (cu : CompUnit) (before : List Act) (r : Result Makefile)
      → All IsInner before
      → IsParsed p.go (p.loader cu) r
      → IsTidyMake (
        make_dir cu.build_dir
            ∷ (before ++ (or_remove_dir p cu (give r >>= generated p version cu)).0),
        (or_remove_dir p cu (give r >>= generated p version cu)).1,
      )
  parsed-IsTidyMake cu before (err e) b v = ended cu before ([], err e) b tt (λ gmk x. absurd (cc))
  parsed-IsTidyMake cu before (ok pmf) b (v, _) =
      ended cu before (give (ok pmf) >>= generated p version cu) b (generated-IsInner cu pmf)
        (λ gmk x. (let (e, q) = generated-ok cu pmf gmk x in (e, subst IsValid (sym q) v)))

  and_parse-IsTidyMake :
      (m : Build CompUnit)
      → IsTidy p.calls m
      → (r : Build GoMake) × ((and_parse p version m ≡ some r) × IsTidyMake r)
  and_parse-IsTidyMake (t, err e) h = ((t, err e), (refl, h))
  and_parse-IsTidyMake (t, ok cu) (inner, e, i, _) =
      let (r, (q, v)) = makefile_from_package-IsParsed p.go (p.loader cu) (build_pkg p cu) in
      let m = or_remove_dir p cu (give r >>= generated p version cu) in
      (
        (t ++ m.0, m.1),
        (
          ap (λ o. behind p t (in_build_dir p version cu o)) q,
          subst (λ l. IsTidyMake (l ++ m.0, m.1)) (sym e) (parsed-IsTidyMake cu inner r i v),
        ),
      )

  -- `newGoMake` ends. When it fails, it made no build directory, or it removes the one that it made
  -- as its last act, whether preparing, parsing or generating failed. When it succeeds, the directory
  -- that it made is that of its unit and stays, and its targets form a valid collection.
  pub new_go_make-IsTidyMake :
      (tmp src : Str)
      → (r : Build GoMake) × ((new_go_make p version tmp src ≡ some r) × IsTidyMake r)
  unfolding new_go_make
  new_go_make-IsTidyMake tmp src =
      and_parse-IsTidyMake (prepare p.calls tmp src) (prepare-IsTidy p.calls tmp src)
