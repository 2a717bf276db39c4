-- ===== src/Tests/Scanning.antt =====
-- Makefiles with namespaces, methods and functions.
use mathlib.Core.List.{reverse}
use gomake.Base.{
  arith, Str, Bool, true, false, List, [], ◌∷◌, ◌++◌, codes, ◌≡◌, ◌⊎◌, ◌↔◌, refl, Option, none,
  some, str_eq, nat_eq, map,
}
use gomake.Base.Dict
use gomake.Workspace.{Result, ok, err}
use gomake.Error.{sentinel, Sentinel}
use gomake.Target.{Target}
use gomake.Syntax.{
  Expr, ident, selector, star, struct_type, TypeSpec, File, ImportSpec, Decl, Spec, type_spec,
  gen_decl, func_decl, file_imports,
}
use gomake.Syntax.Trail.{breadcrumbs, resolve}
use gomake.Syntax.Trail.Exact.{breadcrumbs_lem, IsTrail}
use gomake.Scan.{GoDoc, Func, Field, DocType, Package, made, scan_target, check_params}
use gomake.Scan.Named.{IsNamed}
use gomake.Scan.Shape.{scan_target_iff, IsParams, IsResults}
use gomake.Scan.Makefile.{Doc, Loader, Makefile, makefile_from_package}
use gomake.Scan.Whole.{makefile_from_package-IsParsed, IsParsed}

-- A is declared from B and B from A; Dev is a root, and Web is declared from it.
abbrev type_of : Str → Expr → Option (List Str) → TypeSpec
type_of name x doc = record {
  name = name;
  generic = false;
  type_expr = x;
  comment = none;
  doc = doc;
}

abbrev a_type : TypeSpec
a_type = type_of (codes "A") (ident (codes "B")) none

abbrev b_type : TypeSpec
b_type = type_of (codes "B") (ident (codes "A")) none

abbrev dev_type : TypeSpec
dev_type = type_of (codes "Dev") struct_type (some (codes "//gomake:ns_root" ∷ []))

abbrev web_type : TypeSpec
web_type = type_of (codes "Web") (ident (codes "Dev")) none

abbrev scope : List TypeSpec
scope = a_type ∷ b_type ∷ dev_type ∷ web_type ∷ []

cyclic : breadcrumbs scope a_type ≡ some []
unfolding breadcrumbs str_eq gomake.Base.contains
cyclic = refl

web_crumbs : breadcrumbs scope web_type ≡ some (codes "__root__" ∷ codes "Dev" ∷ codes "Web" ∷ [])
unfolding breadcrumbs str_eq gomake.Base.contains gomake.Syntax.is_ns_root gomake.Base.trim_space
    nat_eq
web_crumbs = refl

declared : resolve scope (codes "Web") ≡ some web_type
unfolding resolve str_eq
declared = refl

breadcrumbs_lem_example :
    (crumbs : List Str) × (breadcrumbs scope web_type ≡ some crumbs)
    × (((trail : List Str) × IsTrail scope web_type trail
          × (crumbs ≡ reverse (codes "Web" ∷ trail)))
        ⊎ ((crumbs ≡ []) × ¬ ((trail : List Str) × IsTrail scope web_type trail)))
breadcrumbs_lem_example = breadcrumbs_lem scope web_type declared

abbrev file : File
file = record {
  file_start = 1;
  file_end = 100;
  imports =
      record { name = none; path = codes "\"context\""; comment = none; doc = none }
      ∷ record {
        name = none;
        path = codes "\"github.com/ctx42/ring/pkg/ring\"";
        comment = none;
        doc = none;
      }
      ∷ [];
  decls = [];
}

abbrev makefile : Package
makefile = record {
  name = codes "main";
  imp_spec = [];
  imp_path = codes "m";
  pkg_ns = [];
  files = file ∷ [];
}

abbrev go : GoDoc
go = record { lower = λ s. s; synopsis = λ s. s; exported = λ s. true }

abbrev context : Expr
context = selector (ident (codes "context")) (codes "Context")

abbrev ring : Expr
ring = star (selector (ident (codes "ring")) (codes "Ring"))

abbrev field_of : Expr → Field
field_of x = record { type_expr = x; names = 1 }

abbrev func_of : Str → List Field → Func
func_of name params = record {
  name = name;
  recv = [];
  doc = codes "build makes the program.";
  pos = 7;
  generic = false;
  params = params;
  results = record { type_expr = ident (codes "error"); names = 0 } ∷ [];
}

abbrev build : Func
build = func_of (codes "build") (field_of context ∷ field_of ring ∷ [])

context-IsNamed : IsNamed context
context-IsNamed = ground arith

ring-IsNamed : IsNamed ring
ring-IsNamed = ground arith

error-IsNamed : IsNamed (ident (codes "error"))
error-IsNamed = ground arith

scan_target_iff_example : ((t : Target) × (scan_target go makefile build [] ≡ made t)) ↔ (
    (true ≡ true)
    × (false ≡ false)
    × IsParams build.params (file_imports (file ∷ []) 7)
    × IsResults build.results)
scan_target_iff_example =
    scan_target_iff go makefile build [] (context-IsNamed, (ring-IsNamed, tt)) (error-IsNamed, tt)

imported :
    file_imports (file ∷ []) 7
    ≡ (codes "context", codes "context")
      ∷ (codes "ring", codes "github.com/ctx42/ring/pkg/ring")
      ∷ []
unfolding file_imports str_eq nat_eq Dict.insert gomake.Base.split
imported = refl

build_params : check_params build.params (file_imports (file ∷ []) 7) ≡ none
unfolding check_params str_eq gomake.Syntax.q_ident Dict.lookup file_imports nat_eq Dict.insert
    gomake.Base.split
build_params = refl

-- A pointer to a context is taken as well.
starred_params :
    check_params (field_of (star context) ∷ field_of ring ∷ []) (file_imports (file ∷ []) 7) ≡ none
unfolding check_params str_eq gomake.Syntax.q_ident Dict.lookup file_imports nat_eq Dict.insert
    gomake.Base.split
starred_params = refl

abbrev web : DocType
web = record {
  name = codes "Web";
  spec = some web_type;
  scope = scope;
  methods = record build { recv = codes "*Web" } ∷ [];
}

abbrev doc : Doc
doc = record {
  files = file ∷ [];
  text = codes "Builds.";
  funcs = build ∷ [];
  types = web ∷ [];
  vars = [];
}

abbrev loader : Loader
loader = record { parse = λ pkg. ok doc; resolve = λ spec. err (sentinel Sentinel.ast_empty) }

makefile_from_package-IsParsed_example :
    (r : Result Makefile) × ((makefile_from_package go loader makefile ≡ some r)
      × IsParsed go loader r)
makefile_from_package-IsParsed_example = makefile_from_package-IsParsed go loader makefile
