-- ===== src/Scan/Makefile.antt =====
-- The targets of a makefile and of the packages that it imports, internal/parser/makefile.go.
use gomake.Base.{
  ℕ, Str, List, [], ◌∷◌, ◌++◌, codes, join, ◌==◌, str_eq, not, Option, none, some, if◌then◌else◌,
}
use gomake.Base.Dict
use gomake.Base.Dict.{Dict}
use gomake.Error.{Err, Sentinel, message, is_err}
use gomake.Workspace.{Result, ok, err}
use gomake.Syntax.{Spec, Decl, File, file_imports, top_level_names}
use gomake.Syntax.Tags.{ImpSpec, gm_imports, find_default, to_one_line}
use gomake.Targets.{
  Targets, AddError, dup_target, new_targets, mark_default, reserve, pkg_name_for_imp,
}
use gomake.Scan.{GoDoc, Func, DocType, Package, add_func}
use gomake.Scan.Types.{add_type}

-- What `astAndDocPkg` gives for a package: its files, in the order of its list of files, and its
-- documentation.
pub record Doc : Type 0 where
  pub files : List File
  pub text : Str
  pub funcs : List Func
  pub types : List DocType
  pub vars : List Spec

-- `Makefile`, with the functions that were skipped in its targets.
pub record Makefile : Type 0 where
  pub targets : Targets
  pub default : Str
  pub doc : Str

-- The calls: `astAndDocPkg` and the resolution of an import.
pub record Loader : Type 0 where
  pub parse : Package → Result Doc
  pub resolve : ImpSpec → Result Package

abbrev dot : ℕ
dot = b'.'

-- The targets so far, with the error that ends the search if there is one.
pub data Added : Type 0 where
  fine : Targets → Added
  broken : Targets → Err → Added

abbrev pub targets_of : Added → Targets
targets_of (fine tgs) = tgs
targets_of (broken tgs e) = tgs

abbrev pub and_then : Added → (Targets → Option Added) → Option Added
and_then (fine tgs) f = f tgs
and_then (broken tgs e) f = some (broken tgs e)

abbrev pub bind : Option Added → (Targets → Option Added) → Option Added
bind none f = none
bind (some a) f = and_then a f

abbrev add_error : AddError → Err
add_error (dup_target a b) = message (a ++ (codes " " ++ b))

abbrev pub added : Targets × Option AddError → Added
added (tgs, none) = fine tgs
added (tgs, some e) = broken tgs (add_error e)

abbrev pub added_types : Option (Targets × Option AddError) → Option Added
added_types none = none
added_types (some r) = some (added r)

-- The reference that is looked for, with the import that it names.
abbrev pub default_ref : Targets → Dict Str Str → List Str → Str × Str
default_ref tgs imports [] = ([], [])
default_ref tgs imports (a ∷ []) = ([], a)
default_ref tgs imports (a ∷ b ∷ more) = elim (Dict.lookup a imports) [
  | none ↦ ([], join dot (a ∷ b ∷ more))
  | some path ↦
      if pkg_name_for_imp tgs path == []
      then ([], join dot (a ∷ b ∷ more))
      else (path, pkg_name_for_imp tgs path ++ (dot ∷ join dot (b ∷ more)))
]

-- The end of `markDefault` of the makefile.
abbrev pub marked_or_err : List Str → Targets × Str → Added × Str
marked_or_err ref (tgs, name) =
    if not (name == []) then (fine tgs, name) else (broken tgs (message (join dot ref)), [])

abbrev pub mark_ref : Targets → List Str → Str × Str → Added × Str
mark_ref tgs ref (spec, def_ref) = marked_or_err ref (mark_default tgs spec def_ref)

abbrev pub mark_found : List File → Targets → List Str × ℕ → Added × Str
mark_found files tgs ([], pos) = (fine tgs, [])
mark_found files tgs (a ∷ ref, pos) =
    mark_ref tgs (a ∷ ref) (default_ref tgs (file_imports files pos) (a ∷ ref))

-- `markDefault` of the makefile: the targets, and the name of the default, empty for none.
unfoldable pub mark_makefile_default : List File → List Spec → Targets → Added × Str
mark_makefile_default files vars tgs = mark_found files tgs (find_default vars)

module _ (go : GoDoc) (loader : Loader) where
  -- The functions and the types of a package.
  abbrev pub types_of : Package → Doc → Targets → Option Added
  types_of pkg d tgs = added_types (add_type go pkg d.types tgs)

  abbrev pub add_package : Package → Doc → Targets → Option Added
  add_package pkg d tgs =
      and_then (added (add_func go (record pkg { files = d.files }) d.funcs tgs))
        (types_of (record pkg { files = d.files }) d)

  abbrev pub add_loaded : Package → Targets → Result Doc → Option Added
  add_loaded pkg tgs (err e) =
      if is_err Sentinel.ast_empty e then some (fine tgs) else some (broken tgs e)
  add_loaded pkg tgs (ok d) = add_package pkg d tgs

  -- The packages of `gmImpPackages`: all of them are resolved first.
  unfoldable pub resolve_all : List ImpSpec → Result (List Package)
  resolve_all [] = ok []
  resolve_all (s ∷ specs) = elim (loader.resolve s) [
    | err e ↦ err e
    | ok pkg ↦ elim (resolve_all specs) [ err e ↦ err e | ok pks ↦ ok (pkg ∷ pks) ]
  ]

  -- The loop of `addGmImports`.
  unfoldable pub add_packages : List Package → Targets → Option Added
  unfolding add_func add_type
  add_packages [] tgs = some (fine tgs)
  add_packages (pkg ∷ pks) tgs =
      bind (add_loaded pkg tgs (loader.parse pkg)) (λ tgs'. add_packages pks tgs')

  abbrev pub and_packages : Targets → Result (List Package) → Option Added
  and_packages tgs (err e) = some (broken tgs e)
  and_packages tgs (ok pks) = add_packages pks tgs

  abbrev pub and_resolve : Targets → Result (List ImpSpec) → Option Added
  and_resolve tgs (err e) = some (broken tgs e)
  and_resolve tgs (ok specs) = and_packages tgs (resolve_all specs)

  abbrev all_decls : List File → List Decl
  all_decls [] = []
  all_decls (f ∷ files) = f.decls ++ all_decls files

  -- `addGmImports`
  unfoldable pub add_gm_imports : List File → Targets → Option Added
  unfolding add_packages resolve_all
  add_gm_imports files tgs = and_resolve tgs (gm_imports go.lower [] (all_decls files))

  abbrev pub and_default : Doc → Option Added → Option (Added × Str)
  and_default d none = none
  and_default d (some (broken tgs e)) = some (broken tgs e, [])
  and_default d (some (fine tgs)) = some (mark_makefile_default d.files d.vars tgs)

  -- `addTargets`, behind a successful `astAndDocPkg`.
  unfoldable pub add_targets : Package → Doc → Option (Added × Str)
  unfolding add_gm_imports mark_makefile_default add_func add_type
  add_targets pkg d = and_default d (
      bind (add_package pkg d (reserve new_targets (top_level_names d.files)))
        (add_gm_imports d.files))

  abbrev pub no_doc : Targets → Makefile
  no_doc tgs = record { targets = tgs; default = []; doc = [] }

  abbrev pub unless_empty : Targets → Err → Result Makefile
  unless_empty tgs e = if is_err Sentinel.ast_empty e then ok (no_doc tgs) else err e

  abbrev pub finished : Doc → Added × Str → Result Makefile
  finished d (broken tgs e, name) = unless_empty tgs e
  finished d (fine tgs, name) =
      ok (record { targets = tgs; default = name; doc = to_one_line d.text })

  abbrev pub finish : Doc → Option (Added × Str) → Option (Result Makefile)
  finish d none = none
  finish d (some r) = some (finished d r)

  abbrev pub from_doc : Package → Result Doc → Option (Result Makefile)
  from_doc pkg (err e) = some (unless_empty new_targets e)
  from_doc pkg (ok d) = finish d (add_targets pkg d)

  -- `MakefileFromPackage`; `none` means that the fuel of a loop ran out. The lines for skipped
  -- functions are those of `report_skips` of the targets.
  unfoldable pub makefile_from_package : Package → Option (Result Makefile)
  unfolding add_targets
  makefile_from_package pkg = from_doc pkg (loader.parse pkg)
