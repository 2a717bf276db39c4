-- ===== src/Install.antt =====
-- The installer's workspace for targets of local modules, internal/install/main.go, and the imports
-- that are fetched, internal/cli/pull_orchestrate.go. The calls of the Go toolchain are parameters.
pub mod Modules
use gomake.Base.{
  Str, Bool, true, false, List, [], ◌∷◌, ◌++◌, map, codes, ◌==◌, str_eq, not, ◌||◌, ◌&&◌, Option,
  none, some, if◌then◌else◌, has_prefix, fields, join, contains, cut,
}
use gomake.Base.Path.{clean, dir, path_join}
use gomake.Workspace.{Result, ok, err}

abbrev space : Str
space = codes " "

unfoldable pub kept_flags : List Str → List Str
kept_flags [] = []
kept_flags (flag ∷ flags) =
    let rest = kept_flags flags in
    if flag == codes "-mod=mod" || flag == codes "--mod=mod" then rest else flag ∷ rest

-- `withoutModMod`
unfoldable pub without_mod_mod : Str → Str
unfolding kept_flags
without_mod_mod flags = join b' ' (kept_flags (fields flags))

-- A URL of a targets file, in lower case.
abbrev pub is_url : Str → Bool
is_url lower = has_prefix lower (codes "http://") || has_prefix lower (codes "https://")

-- strings.ToLower, ExpandTargetsPath and `moduleAt`, which gives a module and its root, or none.
pub record Calls : Type 0 where
  pub lower : Str → Str
  pub expand : Str → Result Str
  pub module_at : Str → Result (Option (Str × Str))

module _ (c : Calls) where
  -- The module of a targets file, none for a URL or a file outside of modules.
  abbrev pub module_of : Str → Result (Option (Str × Str))
  module_of tg =
      if is_url (c.lower tg)
      then ok none
      else elim (c.expand tg) [ err e ↦ err e | ok pth ↦ c.module_at (dir pth) ]

  -- The modules and their roots, in the order first met.
  abbrev pub with_module : List (Str × Str) → Option (Str × Str) → List (Str × Str)
  with_module found none = found
  with_module found (some (name, root)) =
      if contains (map (λ m. m.1) found) root then found else found ++ ((name, root) ∷ [])

  -- The loop of `localModules`; a module and its root are a pair here.
  unfoldable pub local_modules_from : List (Str × Str) → List Str → Result (List (Str × Str))
  local_modules_from found [] = ok found
  local_modules_from found (tg ∷ tgs) = elim (module_of tg) [
    | err e ↦ err e
    | ok m ↦ local_modules_from (with_module found m) tgs
  ]

  -- `localModules`
  unfoldable pub local_modules : List Str → Result (List (Str × Str))
  unfolding local_modules_from
  local_modules tgs = local_modules_from [] tgs

-- The roots of a workspace: the build directory stands for the module that is built.
unfoldable pub workspace_roots : Str → Str → List Str → List Str
workspace_roots build_dir src roots =
    map (λ root. if clean root == clean src then build_dir else root) roots

abbrev at_sign : Str
at_sign = codes "@"

-- The import path in front of its version.
unfoldable pub without_version : Str → Str
without_version [] = []
without_version (c ∷ s) = if (c ∷ []) == at_sign then [] else c ∷ without_version s

-- `underModule`
unfoldable pub under_module : Str → Str → Bool
unfolding without_version
under_module path name =
    if name == []
    then false
    else without_version path == name || has_prefix (without_version path) (name ++ codes "/")

-- The loop of `prepareExternalTargets`: the imports that `go get` is called for.
unfoldable pub fetched : List Str → List Str → List Str
unfolding under_module
fetched skip [] = []
fetched skip (path ∷ paths) =
    let rest = fetched skip paths in if any_module path skip then rest else path ∷ rest
  where
    any_module : Str → List Str → Bool
    any_module path [] = false
    any_module path (m ∷ mods) = under_module path m || any_module path mods
