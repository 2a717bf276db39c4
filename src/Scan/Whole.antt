-- ===== src/Scan/Whole.antt =====
-- The parse of a whole makefile, internal/parser/makefile.go.
use gomake.Base.{
  ℕ, Str, true, List, [], ◌∷◌, Option, none, some, if◌then◌else◌, str_eq, ◌≡◌, ◌⊎◌, inl, inr, arith,
  refl, sym, subst, ap, ◌∙◌, Bool-cases, contains, All, IsSortedBy, le_str, Distinct,
}
use gomake.Target.{Target}
use gomake.Error.{Err, Sentinel, is_err}
use gomake.Workspace.{Result, ok, err}
use gomake.Syntax.{File, Spec, top_level_names, file_imports}
use gomake.Syntax.Tags.{ImpSpec, find_default}
use gomake.Targets.{
  Targets, AddError, new_targets, mark_default, mark_loop, marks_here, reserve, name_of,
}
use gomake.Targets.Valid.{IsValid, names_in, new_targets-IsValid}
use gomake.Targets.Default.{names_in-mark_loop}
use gomake.Scan.{GoDoc, Package, add_func}
use gomake.Scan.Sound.{add_func-IsValid, add_type-IsValid}
use gomake.Scan.Makefile.{
  Doc, Makefile, Loader, Added, fine, broken, targets_of, and_then, bind, added, added_types,
  mark_makefile_default, mark_found, mark_ref, default_ref, marked_or_err, types_of, add_package,
  add_loaded, add_packages, and_packages, and_resolve, add_gm_imports, add_targets,
  makefile_from_package, and_default, finish, finished, from_doc, unless_empty, resolve_all,
}

reserve-IsValid : (tgs : Targets) (names : List Str) → IsValid tgs → IsValid (reserve tgs names)
unfolding reserve
reserve-IsValid tgs names v = record {
  distinct = v.distinct;
  unique_iff = v.unique_iff;
  ordered = v.ordered;
}

mark_loop-All :
    (n : Str) (ts : List Target) (def spec ref : Str)
    → All (λ t. le_str n t.name ≡ true) ts
    → All (λ t. le_str n t.name ≡ true) (mark_loop def spec ref ts).0
unfolding mark_loop
mark_loop-All n [] def spec ref h = tt
mark_loop-All n (t ∷ ts) def spec ref h = (h.0, mark_loop-All n ts _ spec ref h.1)

mark_loop-IsSortedBy :
    (ts : List Target) (def spec ref : Str)
    → IsSortedBy name_of ts
    → IsSortedBy name_of (mark_loop def spec ref ts).0
unfolding mark_loop
mark_loop-IsSortedBy [] def spec ref h = tt
mark_loop-IsSortedBy (t ∷ ts) def spec ref h =
    (mark_loop-All t.name ts _ spec ref h.0, mark_loop-IsSortedBy ts _ spec ref h.1)

mark_default-IsValid :
    (tgs : Targets) (spec ref : Str) → IsValid tgs → IsValid (mark_default tgs spec ref).0
unfolding mark_default
mark_default-IsValid tgs spec ref v = record {
  distinct = subst (λ ns. Distinct ns) (sym (names_in-mark_loop tgs.list [] spec ref)) v.distinct;
  unique_iff = λ n.
      v.unique_iff n ∙ ap (λ ns. contains ns n) (sym (names_in-mark_loop tgs.list [] spec ref));
  ordered = λ h. mark_loop-IsSortedBy tgs.list [] spec ref (v.ordered h);
}

mark_loop-name :
    (ts : List Target) (def spec ref : Str)
    → ((mark_loop def spec ref ts).1 ≡ def)
      ⊎ (contains (names_in ts) (mark_loop def spec ref ts).1 ≡ true)
unfolding mark_loop contains
mark_loop-name [] def spec ref = inl refl
mark_loop-name (t ∷ ts) def spec ref =
    let rest = mark_loop-name ts (if marks_here def spec ref t then t.name else def) spec ref in
    elim (Bool-cases (marks_here def spec ref t)) [
      | inl e ↦ ground (arith, e, rest)
      | inr e ↦ ground (arith, e, rest)
    ]

-- The name is empty, or that of a target.
abbrev pub IsDefault : Targets → Str → Type 0
IsDefault tgs name = (name ≡ []) ⊎ (contains (names_in tgs.list) name ≡ true)

mark_default-IsDefault :
    (tgs : Targets) (spec ref : Str)
    → IsDefault (mark_default tgs spec ref).0 (mark_default tgs spec ref).1
unfolding mark_default
mark_default-IsDefault tgs spec ref = elim (mark_loop-name tgs.list [] spec ref) [
  | inl e ↦ inl e
  | inr e ↦ inr (
      ap (λ ns. contains ns (mark_loop [] spec ref tgs.list).1)
        (names_in-mark_loop tgs.list [] spec ref)
      ∙ e)
]

abbrev IsMarked : Added × Str → Type 0
IsMarked r = IsValid (targets_of r.0) × IsDefault (targets_of r.0) r.1

marked_or_err-IsMarked :
    (ref : List Str) (r : Targets × Str)
    → IsValid r.0
    → IsDefault r.0 r.1
    → IsMarked (marked_or_err ref r)
marked_or_err-IsMarked ref (tgs, []) v d = unfold str_eq in (v, inl refl)
marked_or_err-IsMarked ref (tgs, c ∷ name) v d = unfold str_eq in (v, d)

mark_makefile_default-IsMarked :
    (files : List File) (vars : List Spec) (tgs : Targets)
    → IsValid tgs
    → IsMarked (mark_makefile_default files vars tgs)
unfolding mark_makefile_default
mark_makefile_default-IsMarked files vars tgs v = by_ref (find_default vars)
  where
    by_spec : (ref : List Str) (r : Str × Str) → IsMarked (mark_ref tgs ref r)
    by_spec ref (spec, def_ref) =
        marked_or_err-IsMarked ref (mark_default tgs spec def_ref)
          (mark_default-IsValid tgs spec def_ref v) (mark_default-IsDefault tgs spec def_ref)

    by_ref : (r : List Str × ℕ) → IsMarked (mark_found files tgs r)
    by_ref ([], pos) = (v, inl refl)
    by_ref (a ∷ ref, pos) = by_spec (a ∷ ref) (default_ref tgs (file_imports files pos) (a ∷ ref))

-- A search that ends with valid targets.
abbrev Ends : Option Added → Type 0
Ends o = (a : Added) × ((o ≡ some a) × IsValid (targets_of a))

and_then-Ends :
    (a : Added) (f : Targets → Option Added)
    → IsValid (targets_of a)
    → ((t : Targets) → IsValid t → Ends (f t))
    → Ends (and_then a f)
and_then-Ends (fine tgs) f v g = g tgs v
and_then-Ends (broken tgs e) f v g = (broken tgs e, (refl, v))

bind-Ends :
    (o : Option Added) (f : Targets → Option Added)
    → Ends o
    → ((t : Targets) → IsValid t → Ends (f t))
    → Ends (bind o f)
bind-Ends o f (a, (e, v)) g = subst (λ x. Ends (bind x f)) (sym e) (and_then-Ends a f v g)

added-IsValid : (r : Targets × Option AddError) → IsValid r.0 → IsValid (targets_of (added r))
added-IsValid (tgs, none) v = v
added-IsValid (tgs, some e) v = v

module _ (go : GoDoc) (loader : Loader) where
  add_package-Ends :
      (pkg : Package) (d : Doc) (tgs : Targets)
      → IsValid tgs
      → Ends (add_package go loader pkg d tgs)
  add_package-Ends pkg d tgs v =
      and_then-Ends (added (add_func go pkg' d.funcs tgs)) (types_of go loader pkg' d)
        (added-IsValid (add_func go pkg' d.funcs tgs) (add_func-IsValid go pkg' d.funcs tgs v))
        types
    where
      pkg' : Package
      pkg' = record pkg { files = d.files }

      types : (t : Targets) → IsValid t → Ends (types_of go loader pkg' d t)
      types t w =
          let (out, (e, x)) = add_type-IsValid go pkg' d.types t w in
          (added out, (ap added_types e, added-IsValid out x))

  add_loaded-Ends :
      (pkg : Package) (tgs : Targets) (r : Result Doc)
      → IsValid tgs
      → Ends (add_loaded go loader pkg tgs r)
  add_loaded-Ends pkg tgs (ok d) v = add_package-Ends pkg d tgs v
  add_loaded-Ends pkg tgs (err e) v = elim (Bool-cases (is_err Sentinel.ast_empty e)) [
    | inl x ↦ rw (x) (fine tgs, (refl, v))
    | inr x ↦ rw (x) (broken tgs e, (refl, v))
  ]

  add_packages-Ends :
      (pks : List Package) (tgs : Targets) → IsValid tgs → Ends (add_packages go loader pks tgs)
  unfolding add_packages
  add_packages-Ends [] tgs v = (fine tgs, (refl, v))
  add_packages-Ends (pkg ∷ pks) tgs v =
      bind-Ends (add_loaded go loader pkg tgs (loader.parse pkg))
        (λ t. add_packages go loader pks t) (add_loaded-Ends pkg tgs (loader.parse pkg) v)
        (λ t w. add_packages-Ends pks t w)

  and_resolve-Ends :
      (tgs : Targets) (r : Result (List ImpSpec)) → IsValid tgs → Ends (and_resolve go loader tgs r)
  and_resolve-Ends tgs (err e) v = (broken tgs e, (refl, v))
  and_resolve-Ends tgs (ok specs) v = resolved (resolve_all go loader specs)
    where
      resolved : (r : Result (List Package)) → Ends (and_packages go loader tgs r)
      resolved (err e) = (broken tgs e, (refl, v))
      resolved (ok pks) = add_packages-Ends pks tgs v

  add_gm_imports-Ends :
      (files : List File) (tgs : Targets) → IsValid tgs → Ends (add_gm_imports go loader files tgs)
  unfolding add_gm_imports
  add_gm_imports-Ends files tgs v = and_resolve-Ends tgs _ v

  add_targets-IsMarked :
      (pkg : Package) (d : Doc)
      → (r : Added × Str) × ((add_targets go loader pkg d ≡ some r) × IsMarked r)
  unfolding add_targets
  add_targets-IsMarked pkg d =
      let (a, (e, v)) =
        bind-Ends (add_package go loader pkg d (reserve new_targets (top_level_names d.files)))
          (add_gm_imports go loader d.files)
          (add_package-Ends pkg d (reserve new_targets (top_level_names d.files))
            (reserve-IsValid new_targets (top_level_names d.files) new_targets-IsValid))
          (add_gm_imports-Ends d.files) in
      let (r, (e', m)) = marked a v in (r, (ap (and_default go loader d) e ∙ e', m))
    where
      marked :
          (a : Added)
          → IsValid (targets_of a)
          → (r : Added × Str) × ((and_default go loader d (some a) ≡ some r) × IsMarked r)
      marked (broken tgs e) v = ((broken tgs e, []), (refl, (v, inl refl)))
      marked (fine tgs) v = (
        mark_makefile_default d.files d.vars tgs,
        (refl, mark_makefile_default-IsMarked d.files d.vars tgs v),
      )

  -- The targets of a makefile are valid, and its default is one of them or none.
  abbrev pub IsParsed : Result Makefile → Type 0
  IsParsed (err e) = Unit
  IsParsed (ok m) = IsValid m.targets × IsDefault m.targets m.default

  unless_empty-IsParsed :
      (tgs : Targets) (e : Err) → IsValid tgs → IsParsed (unless_empty go loader tgs e)
  unless_empty-IsParsed tgs e v = elim (Bool-cases (is_err Sentinel.ast_empty e)) [
    | inl x ↦ rw (x) (v, inl refl)
    | inr x ↦ rw (x) tt
  ]

  -- `MakefileFromPackage` ends for every package and every package that it imports. What it gives is
  -- an error, or a makefile whose targets form a valid collection (no two names are the same) and
  -- whose default is the name of one of them or empty.
  pub makefile_from_package-IsParsed :
      (pkg : Package)
      → (r : Result Makefile) × ((makefile_from_package go loader pkg ≡ some r) × IsParsed r)
  unfolding makefile_from_package
  makefile_from_package-IsParsed pkg = by_doc (loader.parse pkg)
    where
      by_added : (d : Doc) (r : Added × Str) → IsMarked r → IsParsed (finished go loader d r)
      by_added d (fine tgs, name) m = m
      by_added d (broken tgs e, name) m = unless_empty-IsParsed tgs e m.0

      by_doc :
          (r : Result Doc)
          → (m : Result Makefile) × ((from_doc go loader pkg r ≡ some m) × IsParsed m)
      by_doc (err e) = (
        unless_empty go loader new_targets e,
        (refl, unless_empty-IsParsed new_targets e new_targets-IsValid),
      )
      by_doc (ok d) =
          let (r, (e, m)) = add_targets-IsMarked pkg d in
          (finished go loader d r, (ap (finish go loader d) e, by_added d r m))
