-- ===== src/Syntax/Tags.antt =====
-- Comments that direct the parser, internal/parser/helpers.go: imported packages, hidden targets, and
-- the default target.
use gomake.Base.{
  ℕ, suc, Str, Bool, true, false, List, [], ◌∷◌, ◌++◌, map, codes, ◌==◌, str_eq, nat_eq, ◌&&◌,
  length, get_elem?, ltb, has_prefix, trim_space, fields, Option, none, some, if◌then◌else◌,
}
use gomake.Syntax.{
  Expr, ImportSpec, Spec, type_spec, import_spec, value_spec, Decl, func_decl, gen_decl,
  comment_bodies, unquote, trim_suffix, code_ref,
}
use gomake.Error.{message}
use gomake.Workspace.{Result, ok, err}

abbrev newline : ℕ
newline = b'\n'

-- strings.Lines: every line with its line end.
abbrev cons_line : ℕ → List Str → List Str
cons_line c [] = (c ∷ []) ∷ []
cons_line c (l ∷ ls) = (c ∷ l) ∷ ls

unfoldable pub lines : Str → List Str
lines [] = []
lines (c ∷ s) = let rest = lines s in if c == newline then (c ∷ []) ∷ rest else cons_line c rest

-- A line without its end.
abbrev pub bare : Str → Str
bare lin = trim_suffix (trim_suffix lin (codes "\n")) (codes "\r")

-- The loop of `removeLines`: the text that is kept, and how many lines are not.
unfoldable pub keep_lines : Str → List Str → Str × ℕ
keep_lines start [] = ([], 0)
keep_lines start (lin ∷ ls) =
    let rest = keep_lines start ls in
    if has_prefix lin start then (rest.0, suc rest.1) else (bare lin ++ (newline ∷ rest.0), rest.1)

-- `removeLines`
unfoldable pub remove_lines : Str → Str → Str × ℕ
unfolding keep_lines lines
remove_lines s start = let kept = keep_lines start (lines s) in (trim_space kept.0, kept.1)

abbrev hidden_tag : Str
hidden_tag = codes "gomake:hidden"

-- `isHidden`
unfoldable pub is_hidden : Str → Str × Bool
unfolding remove_lines
is_hidden s = let (text, n) = remove_lines s hidden_tag in (text, ltb 0 n)

-- `removeNoLintComments`
unfoldable pub remove_no_lint_comments : Str → Str
unfolding remove_lines
remove_no_lint_comments s = (remove_lines s (codes "nolint")).0

abbrev spaced : ℕ → ℕ
spaced c = if c == newline then b' ' else c

-- `toOneLine`
unfoldable pub to_one_line : Str → Str
to_one_line s = trim_space (map spaced s)

abbrev import_tag : Str
import_tag = codes "gomake:import"

-- What one comment says of an import: nothing, a namespace and a path, or an error.
abbrev tagged : (Str → Str) → Str → List Str → Option (Result (Str × Str))
tagged lower path [] = none
tagged lower path (f ∷ []) = if f == import_tag then some (ok ([], path)) else none
tagged lower path (f ∷ ns ∷ []) = if f == import_tag then some (ok (lower ns, path)) else none
tagged lower path (f ∷ a ∷ b ∷ more) = if f == import_tag then some (err (message path)) else none

unfoldable pub first_tag : (Str → Str) → Str → List Str → Result (Str × Str)
first_tag lower path [] = ok ([], [])
first_tag lower path (text ∷ texts) = elim (tagged lower path (fields text)) [
  | some r ↦ r
  | none ↦ first_tag lower path texts
]

-- `gmImpSpec`; `lower` is strings.ToLower.
unfoldable pub gm_imp_spec : (Str → Str) → ImportSpec → Result (Str × Str)
unfolding first_tag
gm_imp_spec lower is =
    first_tag lower (unquote is.path) (comment_bodies is.comment ++ comment_bodies is.doc)

-- A namespace and an import path.
pub record ImpSpec : Type 0 where
  pub ns : Str
  pub imp : Str

abbrev pub same_spec : ImpSpec → ImpSpec → Bool
same_spec a b = a.ns == b.ns && a.imp == b.imp

unfoldable pub seen_spec : List ImpSpec → ImpSpec → Bool
seen_spec [] key = false
seen_spec (s ∷ specs) key = let rest = seen_spec specs key in if same_spec s key then true else rest

-- The loop of `gmImpPackages` over the specs; `done` are those that are found already.
abbrev add_spec : List ImpSpec → Str × Str → List ImpSpec
add_spec done (ns, imp) =
    if imp == []
    then done
    else if seen_spec done (record { ns = ns; imp = imp })
    then done
    else done ++ (record { ns = ns; imp = imp } ∷ [])

unfoldable pub collect_specs : (Str → Str) → List ImpSpec → List Spec → Result (List ImpSpec)
unfolding gm_imp_spec seen_spec
collect_specs lower done [] = ok done
collect_specs lower done (type_spec s ∷ specs) = collect_specs lower done specs
collect_specs lower done (value_spec s ∷ specs) = collect_specs lower done specs
collect_specs lower done (import_spec s ∷ specs) = elim (gm_imp_spec lower s) [
  | err e ↦ err e
  | ok tag ↦ collect_specs lower (add_spec done tag) specs
]

-- The imports of `gmImpPackages`, before the packages are resolved.
unfoldable pub gm_imports : (Str → Str) → List ImpSpec → List Decl → Result (List ImpSpec)
unfolding collect_specs
gm_imports lower done [] = ok done
gm_imports lower done (func_decl m name ∷ dcs) = gm_imports lower done dcs
gm_imports lower done (gen_decl false doc specs ∷ dcs) = gm_imports lower done dcs
gm_imports lower done (gen_decl true doc specs ∷ dcs) = elim (collect_specs lower done specs) [
  | err e ↦ err e
  | ok done' ↦ gm_imports lower done' dcs
]

abbrev default_name : Str
default_name = codes "Default"

-- The place of the name Default in a list of names.
unfoldable pub default_index : List Str → ℕ → Option ℕ
default_index [] j = none
default_index (name ∷ names) j =
    let rest = default_index names (suc j) in if name == default_name then some j else rest

abbrev value_at : List Expr → ℕ → Option Expr
value_at values j = get_elem? values (if ltb j (length values) then j else 0)

abbrev reference : Option Expr → List Str
reference none = []
reference (some x) = code_ref x []

-- `findDefault`: the reference, the empty list for nil, and the position of its declaration.
unfoldable pub find_default : List Spec → List Str × ℕ
unfolding default_index
find_default [] = ([], 0)
find_default (type_spec s ∷ specs) = find_default specs
find_default (import_spec s ∷ specs) = find_default specs
find_default (value_spec vs ∷ specs) = elim (default_index vs.names 0) [
  | none ↦ find_default specs
  | some j ↦ if length vs.values == 0 then ([], 0) else (reference (value_at vs.values j), vs.pos)
]
