-- ===== src/Scan.antt =====
-- How the parser finds targets: `newTarget` and its checks, internal/parser/target.go, and the
-- methods of `Targets` that add those of a package, internal/parser/targets.go.
pub mod Types
pub mod Named
pub mod Checks
pub mod Shape
pub mod Sound
pub mod Makefile
pub mod Whole
use gomake.Base.{
  ℕ, zero, suc, Str, Bool, true, false, List, [], ◌∷◌, ◌++◌, codes, ◌==◌, str_eq, nat_eq, not, ◌||◌,
  ◌&&◌, ltb, length, Option, none, some, if◌then◌else◌, ◌+◌,
}
use gomake.Base.Dict
use gomake.Base.Dict.{Dict}
use gomake.Alias.{main_name}
use gomake.Env.{or_empty}
use gomake.Name.{set_derived_fields}
use gomake.Syntax.{
  Expr, ident, selector, star, array, struct_type, other_expr, TypeSpec, File, file_imports,
  q_ident, trim_prefix,
}
use gomake.Syntax.Tags.{is_hidden, remove_no_lint_comments, to_one_line}
use gomake.Syntax.Trail.{breadcrumbs, part_crumb}
use gomake.Target.{Target, new_target}
use gomake.Targets.{Targets, AddError, add, note_skip}

-- An `ast.Field`: its type, and how many names it has.
pub record Field : Type 0 where
  pub type_expr : Expr
  pub names : ℕ

-- A `doc.Func` with its declaration.
pub record Func : Type 0 where
  pub name : Str
  pub recv : Str
  pub doc : Str
  pub pos : ℕ
  pub generic : Bool
  pub params : List Field
  pub results : List Field

-- A `doc.Type`: its spec if its declaration has one only, and its methods.
pub record DocType : Type 0 where
  pub name : Str
  pub spec : Option TypeSpec
  -- the types of its file, which the identifiers of the file name
  pub scope : List TypeSpec
  pub methods : List Func

-- `Package`
pub record Package : Type 0 where
  pub name : Str
  pub imp_spec : Str
  pub imp_path : Str
  pub pkg_ns : Str
  pub files : List File

-- The errors of `newTarget`.
pub data Refusal : Type 0 where
  not_exported generic inv_arg aliased inv_result : Refusal

abbrev pub ring_path : Str
ring_path = codes "github.com/ctx42/ring/pkg/ring"

-- `imports[name]`
abbrev pub import_of : Dict Str Str → Str → Str
import_of imports name = or_empty (Dict.lookup name imports)

-- `importedAs`
unfoldable pub imported_as : Expr → Dict Str Str → Str → Str → Bool
imported_as (selector (ident x) s) imports path sel = s == sel && import_of imports x == path
imported_as (selector (selector x y) s) imports path sel = false
imported_as (selector (star x) s) imports path sel = false
imported_as (selector (array x) s) imports path sel = false
imported_as (selector struct_type s) imports path sel = false
imported_as (selector other_expr s) imports path sel = false
imported_as (ident x) imports path sel = false
imported_as (star x) imports path sel = false
imported_as (array x) imports path sel = false
imported_as struct_type imports path sel = false
imported_as other_expr imports path sel = false

abbrev pub aliased_or_inv : Bool → Option Refusal
aliased_or_inv a = if a then some aliased else some inv_arg

-- The check of the second parameter; `x` is behind its star.
abbrev pub check_ring : Expr → Dict Str Str → Option Refusal
check_ring (star x) imports =
    if not (q_ident x == codes "ring.Ring") || not (import_of imports (codes "ring") == ring_path)
    then aliased_or_inv (imported_as x imports ring_path (codes "Ring"))
    else none
check_ring (ident x) imports = some inv_arg
check_ring (selector x s) imports = some inv_arg
check_ring (array x) imports = some inv_arg
check_ring struct_type imports = some inv_arg
check_ring other_expr imports = some inv_arg

abbrev pub or_names : Option Refusal → Field → Field → Option Refusal
or_names (some r) a b = some r
or_names none a b = if ltb 1 a.names || ltb 1 b.names then some inv_arg else none

-- `checkParams`
unfoldable pub check_params : List Field → Dict Str Str → Option Refusal
unfolding imported_as
check_params [] imports = some inv_arg
check_params (a ∷ []) imports = some inv_arg
check_params (a ∷ b ∷ []) imports =
    if not (q_ident a.type_expr == codes "context.Context")
      || not (import_of imports (codes "context") == codes "context")
    then aliased_or_inv (imported_as a.type_expr imports (codes "context") (codes "Context"))
    else or_names (check_ring b.type_expr imports) a b
check_params (a ∷ b ∷ c ∷ more) imports = some inv_arg

-- `NumFields` of `ast.FieldList`: a field with no name counts once.
unfoldable pub num_fields : List Field → ℕ
num_fields [] = 0
num_fields (f ∷ fs) = (if f.names == 0 then 1 else f.names) + num_fields fs

-- `checkResults`
unfoldable pub check_results : List Field → Option Refusal
unfolding num_fields
check_results [] = some inv_result
check_results (f ∷ fs) =
    if not (num_fields (f ∷ fs) == 1)
    then some inv_result
    else if not (q_ident f.type_expr == codes "error")
    then some inv_result
    else none

pub data Made : Type 0 where
  made : Target → Made
  refused : Refusal → Made

-- The fields that `newTarget` sets from the documentation.
abbrev pub documented : Target → Func → Target
documented t fn =
    let (text, hidden) = is_hidden fn.doc in
    record t {
      doc = trim_prefix (to_one_line (remove_no_lint_comments text)) (fn.name ++ codes " ");
      hidden = hidden;
    }

abbrev pub bare_target : Package → Func → List Str → Target
bare_target pkg fn crumbs = record new_target {
  imp_spec = pkg.imp_spec;
  imp_path = pkg.imp_path;
  pkg_name = pkg.name;
  pkg_ns = pkg.pkg_ns;
  breadcrumbs = crumbs;
  receiver = trim_prefix fn.recv (codes "*");
  func_name = fn.name;
}

-- strings.ToLower, `Synopsis` of go/doc and ast.IsExported.
pub record GoDoc : Type 0 where
  pub lower : Str → Str
  pub synopsis : Str → Str
  pub exported : Str → Bool

module _ (go : GoDoc) where
  -- `newTarget`
  unfoldable pub scan_target : Package → Func → List Str → Made
  unfolding check_params check_results
  scan_target pkg fn crumbs =
      if not (go.exported fn.name)
      then refused not_exported
      else if fn.generic
      then refused generic
      else elim (check_params fn.params (file_imports pkg.files fn.pos)) [
        | some r ↦ refused r
        | none ↦ elim (check_results fn.results) [
          | some r ↦ refused r
          | none ↦
              made (
                set_derived_fields go.lower go.synopsis (documented (bare_target pkg fn crumbs) fn))
        ]
      ]

  abbrev is_aliased : Refusal → Bool
  is_aliased aliased = true
  is_aliased not_exported = false
  is_aliased generic = false
  is_aliased inv_arg = false
  is_aliased inv_result = false

  -- What the loops do with one function; the collection, and the error of `Add`.
  abbrev pub take : Targets → Func → Made → Targets × Option AddError
  take tgs fn (made t) = add tgs (t ∷ [])
  take tgs fn (refused r) = (if is_aliased r then note_skip tgs fn.name else tgs, none)

  -- `addMethods`, and `addFunc` with no breadcrumbs.
  unfoldable pub add_methods : Package → List Str → List Func → Targets → Targets × Option AddError
  unfolding scan_target
  add_methods pkg nsp [] tgs = (tgs, none)
  add_methods pkg nsp (fn ∷ fns) tgs =
      let (tgs', e) = take tgs fn (scan_target pkg fn nsp) in
      elim e [ some x ↦ (tgs', some x) | none ↦ add_methods pkg nsp fns tgs' ]

  -- `addFunc`
  unfoldable pub add_func : Package → List Func → Targets → Targets × Option AddError
  unfolding add_methods
  add_func pkg fns tgs = add_methods pkg [] fns tgs

  -- `nsReachable`
  abbrev pub ns_reachable : Package → DocType → Bool
  ns_reachable pkg typ = pkg.name == main_name || go.exported typ.name
