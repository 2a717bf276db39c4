-- ===== src/ConfigFile.antt =====
-- Target configuration and settings of the gomake.yaml files, internal/cli/config_file.go.
pub mod Block
pub mod Delivered
pub mod Check
pub mod Load
pub mod Deliver
use gomake.Base.{
  ℕ, Str, Bool, true, false, List, [], ◌∷◌, ◌++◌, map, codes, ◌==◌, str_eq, not, ◌||◌, ◌&&◌, split,
  join, has_prefix, Option, none, some, if◌then◌else◌, contains, sort_by,
}
use gomake.Base.Int.{ℤ}
use gomake.Value.{Value, Fields, end, field, lookup_field, child, is_empty, as_map}
use gomake.Target.{Target}

abbrev pub colon : ℕ
colon = b':'

-- `targetImp`
unfoldable pub target_imp : Target → Str → Str
target_imp t local_imp = if not (t.imp_spec == []) then t.imp_spec else local_imp

unfoldable pub non_empty : List Str → List Str
non_empty [] = []
non_empty (s ∷ ss) = let rest = non_empty ss in if s == [] then rest else s ∷ rest

-- `namePath`
unfoldable pub name_path : Str → List Str
unfolding non_empty
name_path name = non_empty (split colon name)

-- `impInModule`
unfoldable pub imp_in_module : Str → Str → Bool
imp_in_module imp mod_path = imp == mod_path || has_prefix imp (mod_path ++ codes "/")

-- Every non-empty prefix of a path, behind the elements before it, as texts joined by colons.
pub prefixes : List Str → List Str → List Str
prefixes before [] = []
prefixes before (c ∷ path) = join colon (before ++ (c ∷ [])) ∷ prefixes (before ++ (c ∷ [])) path

-- `knownNodes`: a set, as a list.
unfoldable pub known_nodes : List Target → Str → Str → List Str
unfolding prefixes
known_nodes [] local_imp imp = []
known_nodes (t ∷ ts) local_imp imp =
    let rest = known_nodes ts local_imp imp in
    if not (target_imp t local_imp == imp) then rest else prefixes [] (name_path t.name) ++ rest

-- The path of a key: behind the base and a colon, if there is a base.
unfoldable pub full_key : Str → Str → Str
full_key base key = if not (base == []) then base ++ (colon ∷ key) else key

pub drop_known : Str → List Str → Fields → Fields
drop_known base known end = end
drop_known base known (field key val fs) =
    let rest = drop_known base known fs in
    if contains known (full_key base key) then rest else field key val rest

-- `settingKeys`
unfoldable pub setting_keys : List Str → Fields → List Str → Fields
unfolding drop_known
setting_keys prefix node known = drop_known (join colon prefix) known node

-- A `level` of `resolveTargetBlock`.
pub record Level : Type 0 where
  pub prefix : List Str
  pub node : Fields

-- The first loop: the levels from the root down, the deepest one first. `chain` holds those above.
pub descend : List Level → List Str → Fields → List Str → List Level
descend chain prefix node [] = record { prefix = prefix; node = node } ∷ chain
descend chain prefix node (comp ∷ path) = elim (child comp node) [
  | none ↦ record { prefix = prefix; node = node } ∷ chain
  | some sub ↦
      descend (record { prefix = prefix; node = node } ∷ chain) (prefix ++ (comp ∷ [])) sub path
]

-- The second loop, from the deepest level up.
pub first_block : List Str → List Level → Option Fields
first_block known [] = none
first_block known (l ∷ ls) =
    let blk = setting_keys l.prefix l.node known in
    if not (is_empty blk) then some blk else first_block known ls

-- `resolveTargetBlock`
unfoldable pub resolve_target_block : Fields → List Str → List Str → Option Fields
unfolding descend first_block
resolve_target_block root path known = first_block known (descend [] [] root path)

-- The block of one file for an import path, if the file has one.
abbrev pub block_of : Option Fields → List Str → List Str → Option Fields
block_of none path known = none
block_of (some root) path known = resolve_target_block root path known

-- `resolveDelivered`
unfoldable pub resolve_delivered :
    Target → Str → Str → Fields → Fields → List Target → Option Fields
resolve_delivered t local_imp mod_path user_tgts project_tgts tgts =
    let imp = target_imp t local_imp in
    let path = name_path t.name in
    let known = known_nodes tgts local_imp imp in
    elim (block_of (child imp project_tgts) path known) [
      | some blk ↦ some blk
      | none ↦
          if not (mod_path == []) && imp_in_module imp mod_path
          then none
          else block_of (child imp user_tgts) path known
    ]

-- `fileSettings`, `fileConfig` and `mergedConfig`. A nil pointer is `none`.
pub record FileSettings : Type 0 where
  pub timeout : Option Str
  pub tmp : Option Str

pub record FileConfig : Type 0 where
  pub version : Option ℤ
  pub settings : Option FileSettings
  pub targets : Fields

pub record MergedConfig : Type 0 where
  pub timeout : Option Str
  pub tmp : Option Str

-- `fileConfig.timeout` and `fileConfig.tmp`
abbrev pub timeout_setting : FileConfig → Option Str
timeout_setting cfg = elim (cfg.settings) [ none ↦ none | some s ↦ s.timeout ]

abbrev pub tmp_setting : FileConfig → Option Str
tmp_setting cfg = elim (cfg.settings) [ none ↦ none | some s ↦ s.tmp ]

-- `pickSetting`
abbrev pub pick_setting : Option Str → Option Str → Option Str
pick_setting user (some v) = some v
pick_setting user none = user

-- `mergeConfigs`
unfoldable pub merge_configs : FileConfig → FileConfig → MergedConfig
merge_configs user project = record {
  timeout = pick_setting (timeout_setting user) (timeout_setting project);
  tmp = pick_setting (tmp_setting user) (tmp_setting project);
}
