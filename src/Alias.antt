-- ===== src/Alias.antt =====
-- Import aliases of generated code: `importAliasMap`, `uniqueImportAlias`, `goImports` and
-- `codePkgName` of internal/parser/targets.go.
pub mod Fresh
pub mod Map
use Prim.Native.Nat.{◌/◌, ◌%◌, ◌+◌, zero, suc}
use gomake.Base.{
  ℕ, Str, Bool, true, false, List, [], ◌∷◌, ◌++◌, map, codes, ◌==◌, not, ◌&&◌, ◌||◌, str_eq, nat_eq,
  Option, none, some, if◌then◌else◌, sort_by, leb, join, length,
}
use gomake.Base.Dict
use gomake.Base.Dict.{Dict}
use gomake.Base.Decimal.{decimal}
use gomake.Target.{Target}
use gomake.Targets.{Targets, list}

abbrev is_digit : ℕ → Bool
is_digit c = leb b'0' c && leb c b'9'

-- `strings.TrimRight(s, "0123456789")`
pub trim_digits : Str → Str
trim_digits [] = []
trim_digits (c ∷ s) = elim (trim_digits s) [
  | [] ↦ if is_digit c then [] else c ∷ []
  | d ∷ r ↦ c ∷ d ∷ r
]

-- `MainName`
abbrev pub main_name : Str
main_name = codes "main"

abbrev pub Taken : Type 0
Taken = Dict Str Str

abbrev free_for : Option Str → Str → Bool
free_for none spec = true
free_for (some other) spec = other == spec

-- Whether the alias is not taken, or taken by the same import.
pub is_free : Taken → Str → Str → Bool
is_free taken spec alias = free_for (Dict.lookup alias taken) spec

-- The loop over `n`, with fuel.
pub next_alias : ℕ → ℕ → Str → Taken → Str → Option Str
next_alias zero n stem taken spec = none
next_alias (suc fuel) n stem taken spec =
    let rest = next_alias fuel (n + 1) stem taken spec in
    let alias = stem ++ decimal n in if is_free taken spec alias then some alias else rest

abbrev stem_of : Str → Str → Str
stem_of base [] = base
stem_of base (c ∷ s) = c ∷ s

-- `uniqueImportAlias`. One round more than there are taken names is enough fuel.
unfoldable pub unique_import_alias : Str → Taken → Str → Option Str
unfolding is_free next_alias trim_digits
unique_import_alias base taken spec =
    let loop = next_alias (suc (length taken)) 2 (stem_of base (trim_digits base)) taken spec in
    if is_free taken spec base then some base else loop

-- The package name that each import path declares; the first target wins.
pub pkg_by_spec : Dict Str Str → List Target → Dict Str Str
pkg_by_spec d [] = d
pkg_by_spec d (t ∷ ts) = elim (t.pkg_name == main_name || t.imp_spec == []) [
  | true ↦ pkg_by_spec d ts
  | false ↦ elim (Dict.lookup t.imp_spec d) [
    | none ↦ pkg_by_spec (Dict.insert t.imp_spec t.pkg_name d) ts
    | some _ ↦ pkg_by_spec d ts
  ]
]

abbrev pub reserved : Str
reserved = codes "reserved"

-- The names of the templates and of the local variables of the generated code.
abbrev pub seeds : List Str
seeds = codes "context" ∷ codes "ring" ∷ codes "mkf" ∷ codes "targets" ∷ codes "tgt" ∷ []

pub take_names : List Str → Taken → Taken
take_names [] taken = taken
take_names (name ∷ names) taken = take_names names (Dict.insert name reserved taken)

abbrev pub or_empty : Option Str → Str
or_empty none = []
or_empty (some v) = v

-- The last loop of `importAliasMap`; `none` if the search of an alias did not end.
pub assign : List Str → Dict Str Str → Taken → Dict Str Str → Option (Dict Str Str)
assign [] pkgs taken out = some out
assign (spec ∷ specs) pkgs taken out =
    elim (unique_import_alias (or_empty (Dict.lookup spec pkgs)) taken spec) [
      | none ↦ none
      | some alias ↦ assign specs pkgs (Dict.insert alias spec taken) (Dict.insert spec alias out)
    ]

-- `importAliasMap`, over the sorted list of targets.
unfoldable pub import_alias_map : Targets → Option (Dict Str Str)
unfolding list pkg_by_spec take_names assign
import_alias_map tgs =
    let pkgs = pkg_by_spec [] (list tgs).1 in
    assign (sort_by (λ s. s) (Dict.keys pkgs)) pkgs (take_names tgs.reserved (take_names seeds []))
      []

-- `codePkgName`
unfoldable pub code_pkg_name : Target → Dict Str Str → Str
code_pkg_name t aliases =
    let alias = or_empty (Dict.lookup t.imp_spec aliases) in
    if t.pkg_name == main_name || t.imp_spec == []
    then t.pkg_name
    else if not (alias == [])
    then alias
    else t.pkg_name

-- The text of one import; `quote` is the verb `%q`.
pub import_line : (Str → Str) → Dict Str Str → Target → Str
import_line quote aliases t =
    let alias = or_empty (Dict.lookup t.imp_spec aliases) in
    if not (alias == []) && not (alias == t.pkg_name)
    then alias ++ (codes " " ++ quote t.imp_spec)
    else quote t.imp_spec

-- The loop of `goImports`: the lines so far, and the import paths that have one.
pub import_lines : (Str → Str) → Dict Str Str → List Str → List Target → List Str
import_lines quote aliases used [] = []
import_lines quote aliases used (t ∷ ts) =
    elim (t.pkg_name == main_name || gomake.Base.contains used t.imp_spec) [
      | true ↦ import_lines quote aliases used ts
      | false ↦ import_line quote aliases t ∷ import_lines quote aliases (t.imp_spec ∷ used) ts
    ]

-- The first line is empty, and every line ends with a newline.
pub layout : List Str → Str
layout [] = []
layout (l ∷ ls) = join b'\n' (sort_by (λ s. s) ([] ∷ l ∷ ls)) ++ codes "\n"

-- `goImports`
unfoldable pub go_imports : (Str → Str) → Targets → Dict Str Str → Str
unfolding layout import_lines list
go_imports quote tgs aliases = layout (import_lines quote aliases [] (list tgs).1)
