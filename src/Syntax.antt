-- ===== src/Syntax.antt =====
-- What the parser reads from the syntax trees of Go, internal/parser/helpers.go. The trees have the
-- parts of `go/ast` and `go/doc` that the parser looks at; a comment is its text with the slashes.
pub mod Trail
pub mod Tags
use gomake.Base.{
  ℕ, zero, suc, Str, Bool, true, false, List, [], ◌∷◌, ◌++◌, map, codes, ◌==◌, str_eq, nat_eq, not,
  ◌||◌, ◌&&◌, contains, length, get_elem?, ltb, leb, split, has_prefix, cut_prefix, cut_suffix,
  trim_space, fields, Option, none, some, if◌then◌else◌, ◌+◌,
}
use gomake.Base.Dict
use gomake.Base.Dict.{Dict}
use gomake.Base.Path.{slash}

-- `ast.Expr`
pub data Expr : Type 0 where
  ident : Str → Expr
  selector : Expr → Str → Expr
  star : Expr → Expr
  array : Expr → Expr
  struct_type : Expr
  other_expr : Expr

-- An `ast.CommentGroup`, none for nil.
abbrev pub Comments : Type 0
Comments = Option (List Str)

pub record TypeSpec : Type 0 where
  pub name : Str
  -- whether it has type parameters
  pub generic : Bool
  pub type_expr : Expr
  pub comment : Comments
  pub doc : Comments

pub record ImportSpec : Type 0 where
  pub name : Option Str
  -- the literal, with its quotes
  pub path : Str
  pub comment : Comments
  pub doc : Comments

pub record ValueSpec : Type 0 where
  pub names : List Str
  pub values : List Expr
  pub pos : ℕ

pub data Spec : Type 0 where
  type_spec : TypeSpec → Spec
  import_spec : ImportSpec → Spec
  value_spec : ValueSpec → Spec

pub data Decl : Type 0 where
  -- a function, and whether it has a receiver
  func_decl : Bool → Str → Decl
  -- a declaration, and whether it is one of imports
  gen_decl : Bool → Comments → List Spec → Decl

pub record File : Type 0 where
  pub file_start : ℕ
  pub file_end : ℕ
  pub imports : List ImportSpec
  pub decls : List Decl

-- strings.TrimPrefix and strings.TrimSuffix
abbrev pub trim_prefix : Str → Str → Str
trim_prefix s p = elim (cut_prefix s p) [ none ↦ s | some r ↦ r ]

abbrev pub trim_suffix : Str → Str → Str
trim_suffix s p = elim (cut_suffix s p) [ none ↦ s | some r ↦ r ]

-- `commentBodies`
unfoldable pub comment_bodies : Comments → List Str
comment_bodies none = []
comment_bodies (some texts) =
    map (λ text. trim_space (trim_prefix (trim_space text) (codes "//"))) texts

abbrev ns_tag : Str
ns_tag = codes "gomake:ns_root"

unfoldable pub any_ns_tag : List Str → Bool
any_ns_tag [] = false
any_ns_tag (text ∷ lines) =
    let rest = any_ns_tag lines in
    if text == ns_tag || has_prefix text (ns_tag ++ codes " ") then true else rest

-- `isNSRoot`
unfoldable pub is_ns_root : TypeSpec → Bool
unfolding comment_bodies any_ns_tag
is_ns_root spc = any_ns_tag (comment_bodies spc.comment ++ comment_bodies spc.doc)

-- The doc comment of a declaration, where the spec has none.
abbrev or_doc : Comments → List Str → Comments
or_doc none doc = some doc
or_doc (some own) doc = some own

abbrev with_doc : List Str → Spec → Spec
with_doc doc (type_spec s) = type_spec (record s { doc = or_doc s.doc doc })
with_doc doc (import_spec s) = import_spec (record s { doc = or_doc s.doc doc })
with_doc doc (value_spec s) = value_spec s

abbrev attach_decl : Decl → Decl
attach_decl (func_decl m name) = func_decl m name
attach_decl (gen_decl i none specs) = gen_decl i none specs
attach_decl (gen_decl i (some doc) []) = gen_decl i (some doc) []
attach_decl (gen_decl i (some doc) (s ∷ [])) = gen_decl i (some doc) (with_doc doc s ∷ [])
attach_decl (gen_decl i (some doc) (s ∷ t ∷ specs)) = gen_decl i (some doc) (s ∷ t ∷ specs)

-- `attachDeclDoc`
unfoldable pub attach_decl_doc : File → File
attach_decl_doc f = record f { decls = map attach_decl f.decls }

-- `isBuiltinType`
unfoldable pub is_builtin_type : Str → Bool
is_builtin_type name =
    contains
      (codes "bool"
        ∷ codes "string"
        ∷ codes "byte"
        ∷ codes "rune"
        ∷ codes "uintptr"
        ∷ codes "int"
        ∷ codes "int8"
        ∷ codes "int16"
        ∷ codes "int32"
        ∷ codes "int64"
        ∷ codes "uint"
        ∷ codes "uint8"
        ∷ codes "uint16"
        ∷ codes "uint32"
        ∷ codes "uint64"
        ∷ codes "float32"
        ∷ codes "float64"
        ∷ codes "complex64"
        ∷ codes "complex128"
        ∷ [])
      name

abbrev is_quote : ℕ → Bool
is_quote c = c == 0x22 || c == 0x60

unfoldable pub trim_quotes_left : Str → Str
trim_quotes_left [] = []
trim_quotes_left (c ∷ s) = if is_quote c then trim_quotes_left s else c ∷ s

-- `unquote`: strings.Trim of both kinds of quotes.
unfoldable pub unquote : Str → Str
unfolding trim_quotes_left
unquote lit =
    mathlib.Core.List.reverse (trim_quotes_left (mathlib.Core.List.reverse (trim_quotes_left lit)))

-- The last element of a path.
unfoldable pub last_of : Str → List Str → Str
last_of d [] = d
last_of d (p ∷ ps) = last_of p ps

-- The local name of an import, none for a dot or blank import.
abbrev local_name : Option Str → Str → Option Str
local_name none path = some (last_of path (split slash path))
local_name (some n) path = if n == codes "_" || n == codes "." then none else some n

-- One round of `importLocalNames`.
abbrev add_import : ImportSpec → Dict Str Str → Dict Str Str
add_import imp out =
    let path = unquote imp.path in
    if path == []
    then out
    else elim (local_name imp.name path) [ none ↦ out | some n ↦ Dict.insert n path out ]

unfoldable pub import_names_from : Dict Str Str → List ImportSpec → Dict Str Str
unfolding unquote last_of
import_names_from out [] = out
import_names_from out (imp ∷ imps) = import_names_from (add_import imp out) imps

-- `importLocalNames`
unfoldable pub import_local_names : File → Dict Str Str
unfolding import_names_from
import_local_names fil = import_names_from [] fil.imports

unfoldable pub spec_names : List Spec → List Str
spec_names [] = []
spec_names (type_spec s ∷ specs) = s.name ∷ spec_names specs
spec_names (import_spec s ∷ specs) = spec_names specs
spec_names (value_spec s ∷ specs) = s.names ++ spec_names specs

unfoldable pub decl_names : List Decl → List Str
unfolding spec_names
decl_names [] = []
decl_names (func_decl true name ∷ ds) = decl_names ds
decl_names (func_decl false name ∷ ds) = name ∷ decl_names ds
decl_names (gen_decl i doc specs ∷ ds) = spec_names specs ++ decl_names ds

-- `topLevelNames`; the map of the files is a list here.
unfoldable pub top_level_names : List File → List Str
unfolding decl_names
top_level_names [] = []
top_level_names (fil ∷ files) = decl_names fil.decls ++ top_level_names files

-- `fileImports`; the ranges of the files are disjoint.
unfoldable pub file_imports : List File → ℕ → Dict Str Str
unfolding import_local_names
file_imports [] pos = []
file_imports (fil ∷ files) pos =
    if leb fil.file_start pos && ltb pos fil.file_end
    then import_local_names fil
    else file_imports files pos

-- `codeRef`
unfoldable pub code_ref : Expr → List Str → List Str
code_ref (ident name) prev = prev ++ (name ∷ [])
code_ref (selector x sel) prev = code_ref x prev ++ (sel ∷ [])
code_ref (star x) prev = prev
code_ref (array x) prev = prev
code_ref struct_type prev = prev
code_ref other_expr prev = prev

-- `qIdent`
unfoldable pub q_ident : Expr → Str
q_ident (star x) = q_ident x
q_ident (ident name) = name
q_ident (selector (ident x) sel) = x ++ (codes "." ++ sel)
q_ident (selector (selector x y) sel) = []
q_ident (selector (star x) sel) = []
q_ident (selector (array x) sel) = []
q_ident (selector struct_type sel) = []
q_ident (selector other_expr sel) = []
q_ident (array elt) = codes "[]" ++ q_ident elt
q_ident struct_type = []
q_ident other_expr = []
