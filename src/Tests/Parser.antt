-- ===== src/Tests/Parser.antt =====
-- Collections of targets, import aliases and merged imports.
use gomake.Base.{
  Str, true, List, [], ◌∷◌, ◌++◌, str_eq, nat_eq, none, some, codes, contains, Distinct, ◌≡◌, ◌≢◌,
  ◌↔◌, ◌⊎◌, ◌||◌, refl, All, cut, sort_by, le_str,
}
use gomake.Base.Dict
use gomake.Base.Dict.{Dict}
use gomake.Base.Decimal.{decimal}
use gomake.Target.{Target, new_target, is_core}
use gomake.Targets.{Targets, new_targets, add, list, get, check_batch, add_all}
use gomake.Targets.Valid.{IsValid, new_targets-IsValid, names_in}
use gomake.Targets.Adding.{add-eq-none_iff, add_lem}
use gomake.Targets.BuiltIn.{IsPlain}
use gomake.Alias.{import_alias_map, seeds, reserved, unique_import_alias}
use gomake.Alias.Map.{
  import_alias_map_total, import_alias_map_injective, import_alias_map_reserved, is_imported,
}
use gomake.Imports.{
  ImportEntry, ImportsConfig, Result, ok, err, conflict_import, merge_imports, equal, meta_key,
  is_major_version, pkg_path, PathLib, apply_external_target_meta,
}
use gomake.Imports.Merge.{merge_imports-ok}
use gomake.Imports.Loop.{entries, Agree, packages, first_of}
use gomake.Imports.Meta.{apply_external_target_meta_lem, meta_keys, keyed, config_of, config_or}

abbrev build : Target
build = record new_target {
  name = codes "build";
  def_ref = codes "Build";
  imp_spec = codes "x/y";
  pkg_name = codes "y";
}

abbrev lint : Target
lint = record new_target {
  name = codes "lint";
  def_ref = codes "Lint";
  imp_spec = codes "x/z";
  pkg_name = codes "ring";
}

abbrev two : List Target
two = lint ∷ build ∷ []

add-eq-none_iff_example :
    ((add new_targets two).1 ≡ none) ↔ Distinct (names_in (new_targets.list ++ two))
add-eq-none_iff_example = add-eq-none_iff new_targets two new_targets-IsValid

add_lem_example :
    IsValid (add new_targets two).0
    × (((add new_targets two).1 ≡ none) × ((add new_targets two).0.list ≡ new_targets.list ++ two)
        ⊎ ((add new_targets two).1 ≢ none) × ((add new_targets two).0 ≡ new_targets))
add_lem_example = add_lem new_targets two new_targets-IsValid

abbrev collection : Targets
collection = (add new_targets two).0

collection-IsValid : IsValid collection
collection-IsValid = add_lem_example.0

collection_list : collection.list ≡ two
unfolding add get Dict.lookup Dict.insert str_eq check_batch add_all
collection_list = refl

plain : All IsPlain collection.list
unfolding is_core nat_eq
plain = rw collection_list (refl, (refl, tt))

abbrev aliases : Dict Str Str
aliases = (codes "x/y", codes "y") ∷ (codes "x/z", codes "ring2") ∷ []

abbrev scanned : Targets
scanned = record new_targets { list = two }

aliased : import_alias_map scanned ≡ some aliases
unfolding import_alias_map str_eq nat_eq sort_by Dict.keys le_str Dict.lookup Dict.insert
    unique_import_alias decimal
aliased = refl

listed : (list scanned).1 ≡ build ∷ lint ∷ []
unfolding list str_eq nat_eq sort_by le_str
listed = refl

import_alias_map_total_example : (out : Dict Str Str) × (import_alias_map scanned ≡ some out)
import_alias_map_total_example = import_alias_map_total scanned

of_y : Dict.lookup (codes "x/y") aliases ≡ some (codes "y")
unfolding Dict.lookup str_eq nat_eq
of_y = refl

import_alias_map_injective_example : codes "x/y" ≡ codes "x/y"
import_alias_map_injective_example =
    import_alias_map_injective scanned aliases (codes "x/y") (codes "x/y") (codes "y") aliased of_y
      of_y

ring_taken : (contains scanned.reserved (codes "ring") || contains seeds (codes "ring")) ≡ true
unfolding contains str_eq nat_eq
ring_taken = refl

not_reserved : All (λ t. t.imp_spec ≢ reserved) (list scanned).1
not_reserved = rw listed ((λ e. cc), ((λ e. cc), tt))

import_alias_map_reserved_example : Dict.lookup (codes "x/z") aliases ≢ some (codes "ring")
import_alias_map_reserved_example =
    import_alias_map_reserved scanned aliases (codes "ring") (codes "x/z") ring_taken not_reserved
      aliased

imported : is_imported lint ≡ true
unfolding str_eq nat_eq
imported = refl

abbrev lint_import : ImportEntry
lint_import = record { path = codes "x/lint@v1"; namespace = []; config = codes "{}" }

abbrev test_import : ImportEntry
test_import = record { path = codes "x/test/v2"; namespace = []; config = codes "1" }

abbrev lint_file : Str × ImportsConfig
lint_file = (codes "a", record { imports = lint_import ∷ []; raw = none })

abbrev both_file : Str × ImportsConfig
both_file = (codes "b", record { imports = test_import ∷ lint_import ∷ []; raw = none })

abbrev clash_file : Str × ImportsConfig
clash_file = (
  codes "c",
  record { imports = record lint_import { path = codes "x/lint@v2" } ∷ []; raw = none },
)

abbrev encode : List ImportEntry → Result Str
encode ents = ok (codes "yaml")

abbrev merged : ImportsConfig
merged = record { imports = lint_import ∷ test_import ∷ []; raw = some (codes "yaml") }

merges : merge_imports encode (lint_file ∷ both_file ∷ []) ≡ ok merged
unfolding merge_imports str_eq nat_eq Dict.lookup Dict.insert pkg_path cut equal
merges = refl

merge_imports-ok_example :
    Agree (entries (lint_file ∷ both_file ∷ []))
    × Distinct (packages merged.imports)
    × ((k : Str) → first_of k merged.imports ≡ first_of k (entries (lint_file ∷ both_file ∷ [])))
    × ((raw : Str) × (encode merged.imports ≡ ok raw) × (merged.raw ≡ some raw))
merge_imports-ok_example = merge_imports-ok encode lint_file both_file [] merged merges

clashes :
    merge_imports encode (lint_file ∷ clash_file ∷ [])
    ≡ err (conflict_import (codes "x/lint") (codes "a") (codes "c"))
unfolding merge_imports str_eq nat_eq Dict.lookup Dict.insert pkg_path cut equal
clashes = refl

abbrev no_dirs : PathLib
no_dirs = record { base = λ p. p; dir = λ p. p }

keys_differ : Distinct (meta_keys no_dirs (keyed merged.imports))
unfolding meta_keys keyed contains meta_key pkg_path cut is_major_version str_eq nat_eq
keys_differ = (refl, (refl, tt))

apply_external_target_meta_lem_example :
    ((apply_external_target_meta no_dirs (some merged) []).0 ≡ none)
    × (Dict.lookup (codes "x/lint") (apply_external_target_meta no_dirs (some merged) []).1
        ≡ config_or
            (config_of no_dirs (codes "x/lint") (keyed merged.imports))
            (Dict.lookup (codes "x/lint") []))
apply_external_target_meta_lem_example =
    apply_external_target_meta_lem no_dirs merged [] (codes "x/lint") keys_differ
