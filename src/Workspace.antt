-- ===== src/Workspace.antt =====
-- Go modules and workspaces around a makefile: `Root` of pkg/gomake/root.go, the file tests of
-- pkg/gomake/sys.go, and the lookups of internal/cli/helpers.go and internal/cli/cache.go.
pub mod Walk
pub mod Roots
pub mod Edit
use gomake.Base.{
  ℕ, zero, suc, Str, Bool, true, false, List, [], ◌∷◌, ◌++◌, codes, ◌==◌, str_eq, not, ◌||◌, ◌&&◌,
  length, Option, none, some, if◌then◌else◌, has_prefix, cut_suffix,
}
use gomake.Base.Path.{path_join, dir, clean, is_abs, slash}
use gomake.Error.{Err, Sentinel, sentinel, message, wraps, nil, cons}

-- What `os.Stat` finds.
pub data FileInfo : Type 0 where
  regular directory special absent : FileInfo
  unreadable : Err → FileInfo

-- A result or an error.
pub data Result {ℓ} (A : Type ℓ) : Type ℓ where
  ok : A → Result A
  err : Err → Result A

-- What a round of a search that goes up finds in a directory.
pub data Probe : Type 0 where
  found missing : Probe
  broken : Err → Probe

-- How such a search ends.
pub data Walked : Type 0 where
  at : Str → Walked
  nowhere : Walked
  stopped : Err → Walked

-- The loop from a directory toward the root of the file system; `none` means that the fuel ran out.
unfoldable pub walk : (Str → Probe) → ℕ → Str → Option Walked
walk probe zero d = none
walk probe (suc fuel) d = elim (probe d) [
  | found ↦ some (at d)
  | broken e ↦ some (stopped e)
  | missing ↦ let rest = walk probe fuel (dir d) in if dir d == d then some nowhere else rest
]

-- A directory has at most as many ancestors as its path has bytes.
unfoldable pub walk_up : (Str → Probe) → Str → Option Walked
unfolding walk
walk_up probe d = walk probe (suc (length d)) d

-- `FileExists`
abbrev pub file_exists : FileInfo → Bool
file_exists regular = true
file_exists directory = false
file_exists special = false
file_exists absent = false
file_exists (unreadable e) = false

-- `DirExists`
abbrev pub dir_exists : FileInfo → Bool
dir_exists directory = true
dir_exists regular = false
dir_exists special = false
dir_exists absent = false
dir_exists (unreadable e) = false

-- `PathExists`
abbrev pub path_exists : FileInfo → Bool
path_exists regular = true
path_exists directory = true
path_exists special = true
path_exists absent = false
path_exists (unreadable e) = false

-- A round that looks for any file.
abbrev pub any_file : FileInfo → Probe
any_file i = if path_exists i then found else missing

-- A round of `Root`, which looks for a regular file.
abbrev pub regular_file : FileInfo → Probe
regular_file regular = found
regular_file directory = missing
regular_file special = missing
regular_file absent = missing
regular_file (unreadable e) = broken e

-- filepath.Abs; `wd` is what os.Getwd gives.
unfoldable pub abs_path : Result Str → Str → Result Str
abs_path wd p =
    if is_abs p then ok (clean p) else elim wd [ ok d ↦ ok (path_join d p) | err e ↦ err e ]

-- `filepath.Join` of the elements behind a path.
unfoldable pub join_all : Str → List Str → Str
join_all p [] = p
join_all p (e ∷ es) = join_all (path_join p e) es

module _ (stat : Str → FileInfo) where
  abbrev pub go_mod_probe : Str → Probe
  go_mod_probe d = regular_file (stat (path_join d (codes "go.mod")))

  abbrev pub rooted_at : List Str → Option Walked → Option (Result Str)
  rooted_at elems none = none
  rooted_at elems (some (at d)) = some (ok (join_all (clean d) elems))
  rooted_at elems (some nowhere) =
      some (err (wraps (codes "gomake: root") (cons (sentinel Sentinel.no_go_mod) nil)))
  rooted_at elems (some (stopped e)) = some (err (wraps (codes "gomake: root") (cons e nil)))

  -- `Root`
  unfoldable pub root : Result Str → Str → List Str → Option (Result Str)
  unfolding walk_up
  root wd pth elems = elim (abs_path wd pth) [
    | err e ↦ some (err (wraps (codes "gomake: root") (cons e nil)))
    | ok d ↦ rooted_at elems (walk_up go_mod_probe d)
  ]

  abbrev pub any_go_mod : Str → Probe
  any_go_mod d = any_file (stat (path_join d (codes "go.mod")))

  abbrev pub found_dir : Option Walked → Option Str
  found_dir none = none
  found_dir (some (at d)) = some d
  found_dir (some nowhere) = some []
  found_dir (some (stopped e)) = some []

  -- `findModuleRoot`
  unfoldable pub find_module_root : Str → Option Str
  unfolding walk_up
  find_module_root src_dir = found_dir (walk_up any_go_mod src_dir)

  abbrev pub any_go_work : Str → Probe
  any_go_work d = any_file (stat (path_join d (codes "go.work")))

  abbrev pub found_work : Option Walked → Option (Result Str)
  found_work none = none
  found_work (some (at d)) = some (ok (path_join d (codes "go.work")))
  found_work (some nowhere) = some (ok [])
  found_work (some (stopped e)) = some (ok [])

  no_such_file : Str → Err
  no_such_file p = message (codes "GOWORK " ++ (p ++ codes ": no such file"))

  -- `findGoWorkValue`
  unfoldable pub find_go_work_value : Result Str → Str → Str → Option (Result Str)
  unfolding walk_up no_such_file abs_path
  find_go_work_value wd gowork mod_root =
      if not (gowork == [])
      then if gowork == codes "off" then some (ok []) else elim (abs_path wd gowork) [
        | err e ↦ some (err (wraps (codes "GOWORK") (cons e nil)))
        | ok pth ↦
            if file_exists (stat (clean pth))
            then some (ok (clean pth))
            else some (err (no_such_file (clean pth)))
      ]
      else found_work (walk_up any_go_work mod_root)
