-- ===== src/Cache.antt =====
-- The binary cache, internal/cli/cache.go: which files go into the key of a compiled makefile.
pub mod Subpath
pub mod External
pub mod Key
use gomake.Base.{
  Str, Bool, true, false, List, [], ◌∷◌, ◌++◌, map, codes, ◌==◌, str_eq, not, ◌||◌, ◌&&◌, contains,
  sort_by, by_text, Option, none, some, if◌then◌else◌, has_prefix, cut_suffix, has_suffix, has_text,
}
use gomake.Base.Path.{path_join, dir, clean, is_abs, slash}
use gomake.Error.{Err}
use gomake.Workspace.{FileInfo, absent, unreadable, Result, ok, err, dir_exists, path_exists}

-- `isSubpath`
unfoldable pub is_subpath : Str → Str → Bool
is_subpath parent child =
    let parent = clean parent in
    let child = clean child in
    if parent == child
    then true
    else has_prefix child
        (if has_suffix parent (slash ∷ []) then parent else parent ++ (slash ∷ []))

-- `isLocalDiskPath`
unfoldable pub is_local_disk_path : Str → Bool
is_local_disk_path pth =
    if pth == [] then false else if is_abs pth then true else has_prefix pth (codes ".")

-- A replace directive of a go.mod or go.work file.
pub record Replace : Type 0 where
  pub old_path : Str
  pub old_version : Str
  pub new_path : Str

-- A parsed go.work file.
pub record WorkFile : Type 0 where
  pub uses : List Str
  pub replaces : List Replace

-- `localReplacePaths`
unfoldable pub local_replace_paths : List Replace → List Str
unfolding is_local_disk_path
local_replace_paths [] = []
local_replace_paths (rpl ∷ rpls) =
    let rest = local_replace_paths rpls in
    if is_local_disk_path rpl.new_path then rpl.new_path ∷ rest else rest

abbrev in_dir : Str → Str → Str
in_dir work_dir rel = if is_abs rel then rel else path_join work_dir rel

-- `absWorkPaths`; the file is `none` when it cannot be read or parsed.
unfoldable pub abs_work_paths : Str → Option WorkFile → List Str
unfolding local_replace_paths
abs_work_paths go_work_path file = if go_work_path == [] then [] else elim file [
  | none ↦ []
  | some wf ↦ map (in_dir (dir go_work_path)) (wf.uses ++ local_replace_paths wf.replaces)
]

-- `localPathsFromGoMod`; `none` stands for a file that cannot be read or parsed.
unfoldable pub local_paths_from_go_mod : Option (List Replace) → List Str
local_paths_from_go_mod none = []
local_paths_from_go_mod (some rpls) = local_replace_paths rpls

-- An entry as a clean absolute path.
abbrev pub resolved : Str → Str → Str
resolved mod_root rel = clean (if is_abs rel then rel else path_join mod_root rel)

-- The loop of `hashExternalModuleTrees` over the entries; `seen` are the directories to skip.
unfoldable pub collect_roots : (Str → FileInfo) → Str → List Str → List Str → List Str
collect_roots stat mod_root seen [] = []
collect_roots stat mod_root seen (rel ∷ rels) =
    let abs = resolved mod_root rel in
    let skipped = collect_roots stat mod_root seen rels in
    let rest = collect_roots stat mod_root (abs ∷ seen) rels in
    if contains seen abs || is_subpath mod_root abs || not (dir_exists (stat abs))
    then skipped
    else abs ∷ rest

-- The directories outside the module that `hashExternalModuleTrees` hashes, in its order.
unfoldable pub external_roots : (Str → FileInfo) → Str → List Str → List Str
unfolding collect_roots
external_roots stat mod_root rels =
    sort_by by_text (collect_roots stat mod_root (clean mod_root ∷ []) rels)

-- `shouldSkipCacheDir`
unfoldable pub should_skip_cache_dir : Str → Bool
should_skip_cache_dir name =
    contains
      (codes "vendor"
        ∷ codes "node_modules"
        ∷ codes ".git"
        ∷ codes ".hg"
        ∷ codes ".svn"
        ∷ codes ".bzr"
        ∷ [])
      name

-- What stands in a directory, as filepath.WalkDir visits it.
mutual
  pub data Node : Type 0 where
    file : Str → Node
    folder : Str → Nodes → Node
    -- a node for which the walk reports an error
    failing : Err → Node

  pub data Nodes : Type 0 where
    nil : Nodes
    cons : Node → Nodes → Nodes

-- The sorted paths of a walk, or its first error.
abbrev both : Result (List Str) → Result (List Str) → Result (List Str)
both (ok xs) (ok ys) = ok (xs ++ ys)
both (ok xs) (err e) = err e
both (err e) r = err e

unfoldable mutual
  pub walk_node : (Str → Bool) → Str → Node → Result (List Str)
  walk_node keep pth (file name) = if keep name then ok (path_join pth name ∷ []) else ok []
  walk_node keep pth (folder name nodes) =
      let inside = walk_nodes keep (path_join pth name) nodes in
      if should_skip_cache_dir name then ok [] else inside
  walk_node keep pth (failing e) = err e

  pub walk_nodes : (Str → Bool) → Str → Nodes → Result (List Str)
  walk_nodes keep pth nil = ok []
  walk_nodes keep pth (cons n ns) = both (walk_node keep pth n) (walk_nodes keep pth ns)

abbrev sorted : Result (List Str) → Result (List Str)
sorted (ok ps) = ok (sort_by by_text ps)
sorted (err e) = err e

-- `walkCacheFiles` of a directory with its nodes; the root itself is never skipped.
unfoldable pub walk_cache_files : Str → Nodes → (Str → Bool) → Result (List Str)
unfolding walk_nodes walk_node
walk_cache_files root nodes keep = sorted (walk_nodes keep root nodes)
