-- ===== src/ConfigFile/Check.antt =====
-- The problems that `checkConfigProblems` of internal/cli/config_file.go reports. `filepath.IsAbs`
-- is a parameter, as it depends on the platform.
use gomake.Base.{
  Str, Bool, true, false, List, [], ◌∷◌, ◌++◌, ◌==◌, str_eq, not, ◌&&◌, Option, none, some,
  if◌then◌else◌, codes, contains, map, sort_by, ◌≡◌,
}
use gomake.Value.{Value, Fields, end, field, as_map}
use gomake.ConfigFile.{FileConfig, tmp_setting}

abbrev tmp_problem : (Str → Bool) → Str → Option Str → List Str
tmp_problem is_abs name none = []
tmp_problem is_abs name (some tmp) =
    if not (tmp == []) && not (is_abs tmp)
    then (name ++ (codes " settings.tmp is not an absolute path: " ++ tmp)) ∷ []
    else []

abbrev is_some_map : Value → Bool
is_some_map v = elim (as_map v) [ none ↦ false | some fs ↦ true ]

-- The keys whose value is not a mapping.
unfoldable pub malformed : Fields → List Str
malformed end = []
malformed (field imp blk fs) =
    let rest = malformed fs in if is_some_map blk then rest else imp ∷ rest

-- The keys of mappings with no target.
unfoldable pub unmatched : List Str → Fields → List Str
unmatched valid end = []
unmatched valid (field imp blk fs) =
    let rest = unmatched valid fs in
    if is_some_map blk && not (contains valid imp) then imp ∷ rest else rest

-- The problems of one file; `check` is the field `match`.
unfoldable pub level_problems : List Str → Str → Bool → Fields → List Str
unfolding malformed unmatched
level_problems valid label check tree =
    map (λ imp. label ++ (codes " config is not a mapping: " ++ imp))
      (sort_by (λ s. s) (malformed tree))
    ++ map (λ imp. label ++ (codes " import path has no target: " ++ imp))
        (sort_by (λ s. s) (if check then unmatched valid tree else []))

-- `checkConfigProblems`, with the import paths that have targets.
unfoldable pub check_config_problems : (Str → Bool) → List Str → FileConfig → FileConfig → List Str
unfolding level_problems
check_config_problems is_abs valid user project =
    tmp_problem is_abs (codes "user") (tmp_setting user)
    ++ (tmp_problem is_abs (codes "project") (tmp_setting project)
        ++ (level_problems valid (codes "user") false user.targets
            ++ level_problems valid (codes "project") true project.targets))

-- A temporary directory is not set, empty or absolute.
abbrev pub IsTmp : (Str → Bool) → Option Str → Type 0
IsTmp is_abs none = Unit
IsTmp is_abs (some tmp) = (not (tmp == []) && not (is_abs tmp)) ≡ false

-- Every value is a mapping, and every key has a target, if that is asked for.
abbrev pub IsTree : (Str → Bool) → Fields → Type 0
IsTree good end = Unit
IsTree good (field imp blk fs) = (is_some_map blk ≡ true) × (good imp ≡ true) × IsTree good fs
