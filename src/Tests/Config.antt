-- ===== src/Tests/Config.antt =====
-- Configuration paths and the blocks that targets are given.
use gomake.Base.{Bool, true, sort_by}
use gomake.Base.{
  Str, true, List, [], ◌∷◌, str_eq, nat_eq, none, some, if◌then◌else◌, codes, contains, ◌≡◌, ◌⊎◌,
  refl, inl, inr, arith, All, cut, cut_prefix, join, split, has_prefix,
}
use gomake.Base.Decimal.{decimal}
use gomake.Value.{Fields, text, obj, end, field, child, lookup_field}
use gomake.Target.{Target, new_target}
use gomake.CfgPath.{Result, ok, err, split_path, split_loop, array_index, dot, boundary}
use gomake.CfgPath.Split.{split_path_total, split_path-join, IsWritten, written, meant}
use gomake.CfgPath.Walk.{array_index-decimal}
use gomake.ConfigFile.{
  resolve_target_block, resolve_delivered, known_nodes, target_imp, name_path, setting_keys,
  imp_in_module, full_key, colon,
}
use gomake.ConfigFile.{FileConfig}
use gomake.ConfigFile.Check.{check_config_problems}
use gomake.ConfigFile.Block.{nearest, resolve_target_block-nearest, lookup_field-setting_keys}
use gomake.ConfigFile.Delivered.{resolve_delivered-IsBlockIn, setting_keys-known_nodes, IsBlockIn}

split_path_total_example : (r : Result (List Str)) × (split_path (codes "a.'b.c'.d") ≡ some r)
split_path_total_example = split_path_total (codes "a.'b.c'.d")

misplaced : split_path (codes "'a'b") ≡ some (err (boundary (codes "'a'b")))
unfolding split_path str_eq split_loop cut_prefix nat_eq cut
misplaced = refl

abbrev quoted : Str × Str
quoted = (codes "'b.c'", codes "b.c")

both-IsWritten : All IsWritten ((codes "a", codes "a") ∷ quoted ∷ [])
unfolding cut_prefix nat_eq
both-IsWritten = (
  inl (refl, (omega arith, tt), refl),
  (inr (refl, (omega arith, (omega arith, (omega arith, tt)))), tt),
)

split_path-join_example :
    split_path (join dot (codes "a" ∷ written (quoted ∷ [])))
    ≡ some (ok (codes "a" ∷ meant (quoted ∷ [])))
split_path-join_example =
    split_path-join (codes "a") (codes "a") (quoted ∷ []) both-IsWritten (unfold join in λ e. cc)

abbrev block : Fields
block = field (codes "a") (obj (field (codes "b.c") (text (codes "x")) end)) end

array_index-decimal_example : array_index (decimal 12) ≡ some 12
array_index-decimal_example = array_index-decimal 12 (omega arith)

-- A tree with settings for a namespace and for a target in it.
abbrev tree : Fields
tree =
    field (codes "go")
      (obj (field (codes "fast") (text (codes "yes")) (field (codes "lint") (obj end) end))) end

abbrev lint : Target
lint = record new_target { name = codes "go:lint"; imp_spec = codes "x/y" }

abbrev project : Fields
project = field (codes "x/y") (obj tree) end

resolve_target_block-nearest_example :
    resolve_target_block tree (codes "go" ∷ codes "lint" ∷ []) (codes "go" ∷ codes "go:lint" ∷ [])
    ≡ nearest (codes "go" ∷ codes "go:lint" ∷ []) [] tree (codes "go" ∷ codes "lint" ∷ [])
resolve_target_block-nearest_example =
    resolve_target_block-nearest tree (codes "go" ∷ codes "lint" ∷ [])
      (codes "go" ∷ codes "go:lint" ∷ [])

lookup_field-setting_keys_example :
    lookup_field (codes "lint") (setting_keys (codes "go" ∷ []) tree (codes "go:lint" ∷ [])) ≡ (
      if contains (codes "go:lint" ∷ []) (full_key (join colon (codes "go" ∷ [])) (codes "lint"))
      then none
      else lookup_field (codes "lint") tree)
lookup_field-setting_keys_example =
    lookup_field-setting_keys (codes "lint") (codes "go" ∷ []) (codes "go:lint" ∷ []) tree

abbrev given : Fields
given = field (codes "fast") (text (codes "yes")) end

delivers : resolve_delivered lint (codes "x") (codes "x") end project (lint ∷ []) ≡ some given
unfolding resolve_delivered str_eq nat_eq child target_imp resolve_target_block name_path split
    setting_keys contains known_nodes full_key join
delivers = refl

resolve_delivered-IsBlockIn_example :
    IsBlockIn
      (codes "x/y")
      (known_nodes (lint ∷ []) (codes "x") (codes "x/y"))
      project
      (name_path lint.name)
      given
    ⊎ IsBlockIn
        (codes "x/y")
        (known_nodes (lint ∷ []) (codes "x") (codes "x/y"))
        end
        (name_path lint.name)
        given
unfolding target_imp str_eq
resolve_delivered-IsBlockIn_example =
    resolve_delivered-IsBlockIn lint (codes "x") (codes "x") end project (lint ∷ []) given delivers

in_module : imp_in_module (target_imp lint (codes "x")) (codes "x") ≡ true
unfolding imp_in_module target_imp str_eq nat_eq has_prefix cut_prefix
in_module = refl

lint_path : name_path lint.name ≡ codes "go" ∷ codes "lint" ∷ []
unfolding name_path split str_eq nat_eq
lint_path = refl

setting_keys-known_nodes_example :
    lookup_field (codes "lint") (
      setting_keys
        (codes "go" ∷ [])
        tree
        (known_nodes (lint ∷ []) (codes "x") (target_imp lint (codes "x"))))
    ≡ none
setting_keys-known_nodes_example =
    setting_keys-known_nodes [] [] lint (codes "x") (codes "go" ∷ []) tree (codes "lint") []
      lint_path

abbrev no_file : FileConfig
no_file = record { version = none; settings = none; targets = end }

abbrev project_file : FileConfig
project_file = record {
  version = none;
  settings = some (record { timeout = none; tmp = some (codes "tmp") });
  targets = field (codes "x/z") (obj end) project;
}

abbrev rooted : Str → Bool
rooted s = has_prefix s (codes "/")

two_problems :
    check_config_problems rooted (codes "x/y" ∷ []) no_file project_file
    ≡ codes "project settings.tmp is not an absolute path: tmp"
      ∷ codes "project import path has no target: x/z"
      ∷ []
unfolding check_config_problems str_eq has_prefix cut_prefix nat_eq sort_by contains
two_problems = refl
