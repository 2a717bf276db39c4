-- ===== src/Tests/Files.antt =====
-- Makefiles, workspaces and the cache.
use mathlib.Core.List.{reverse}
use mathlib.Core.List.Perm
use gomake.Base.{
  trim_space, ◌≢◌, Str, Bool, true, false, List, [], ◌∷◌, ◌++◌, map, codes, ◌≡◌, ◌≢◌, ◌↔◌, ◌⊎◌,
  refl, inl, inr, arith, All, Distinct, contains, IsSortedBy, by_text, cut_prefix, cut_suffix,
  split, Option, none, some, str_eq, nat_eq, if◌then◌else◌, has_prefix, trim_space,
}
use gomake.Base.Path.{rooted_path, IsElement, is_abs, clean, path_join, dir, dot_path}
use gomake.Sources.{valid_makefile_name, select_makefiles}
use gomake.Sources.Names.{IsMakefileName, valid_makefile_name_iff}
use gomake.Sources.Tags.{
  Expr, tag, not_expr, and_expr, strip_build_tag, strip_build_tag_iff, IsConstraint,
  normalize_newlines, newline,
}
use gomake.Workspace.{FileInfo, regular, directory, absent, ok, root, find_module_root}
use gomake.Workspace.Roots.{find_module_root-root, root_of, IsRegular, IsNearest}
use gomake.Workspace.Edit.{use_replacement, new_use, use_replacement_lem, IsDirOf}
use gomake.Cache.{nil, is_subpath, external_roots, resolved}
use gomake.Cache.Subpath.{is_subpath_iff, IsBelow}
use gomake.Cache.External.{external_roots_lem, IsExternal}
use gomake.Cache.Key.{Files, hashed_text, hashed_text-perm}
use gomake.Prepare.{Calls, prepare}
use gomake.Prepare.Tidy.{IsTidy, prepare-IsTidy}

valid_makefile_name_iff_example :
    (valid_makefile_name (codes "makefile_linux_arm64.go") ≡ true)
    ↔ IsMakefileName (codes "makefile_linux_arm64.go")
valid_makefile_name_iff_example = valid_makefile_name_iff (codes "makefile_linux_arm64.go")

both_platforms : valid_makefile_name (codes "makefile_linux_arm64.go") ≡ true
unfolding valid_makefile_name str_eq cut_prefix nat_eq cut_suffix split gomake.Osarch.is_goos
    contains gomake.Osarch.goos gomake.Osarch.is_goarch gomake.Osarch.goarch
both_platforms = refl

reversed_platforms : valid_makefile_name (codes "makefile_arm64_linux.go") ≡ false
unfolding valid_makefile_name str_eq cut_prefix nat_eq cut_suffix split gomake.Osarch.is_goos
    contains gomake.Osarch.goos
reversed_platforms = refl

-- A parser of constraints that knows one line.
abbrev go_build : Str
go_build = codes "//go:build !gomake && linux"

abbrev parse_one : Str → Option Expr
parse_one line =
    if has_prefix line go_build
    then some (and_expr (not_expr (tag (codes "gomake"))) (tag (codes "linux")))
    else none

abbrev tagged_file : Str
tagged_file = go_build ++ codes "\r\n\npackage main\n"

stripped : strip_build_tag parse_one tagged_file ≡ codes "package main\n"
unfolding strip_build_tag gomake.Base.join split gomake.Sources.Tags.normalize_newlines nat_eq
    has_prefix cut_prefix trim_space gomake.Sources.Tags.has_tag str_eq
stripped = refl

trimmed : trim_space (codes "package main") ≡ codes "package main"
unfolding trim_space nat_eq
trimmed = refl

clause-written : trim_space (codes "package main") ≢ []
clause-written e = cc (trimmed, e)

strip_build_tag_iff_example :
    (contains (split newline (strip_build_tag parse_one tagged_file)) (codes "package main") ≡ true)
    ↔ ((contains (split newline (normalize_newlines tagged_file)) (codes "package main") ≡ true)
        × ¬ IsConstraint parse_one (codes "package main"))
strip_build_tag_iff_example =
    strip_build_tag_iff parse_one tagged_file (codes "package main") clause-written

-- A file system with one go.mod.
abbrev one_mod : Str → FileInfo
one_mod p = if has_prefix p (codes "/a/go.mod") then regular else absent

one_mod-IsRegular : IsRegular one_mod
one_mod-IsRegular d = ground arith

a-IsElement : IsElement (codes "a")
a-IsElement = ((λ e. cc), ((λ e. cc), ((λ e. cc), ((λ e. omega (arith, e)), tt))))

b-IsElement : IsElement (codes "b")
b-IsElement = ((λ e. cc), ((λ e. cc), ((λ e. cc), ((λ e. omega (arith, e)), tt))))

find_module_root-root_example :
    (m : Str) × (find_module_root one_mod (rooted_path (reverse (codes "b" ∷ codes "a" ∷ [])))
      ≡ some m)
    × (root one_mod (ok (codes "/")) (rooted_path (reverse (codes "b" ∷ codes "a" ∷ []))) []
        ≡ some (root_of m))
    × IsNearest one_mod (codes "b" ∷ codes "a" ∷ []) m
find_module_root-root_example =
    find_module_root-root one_mod (ok (codes "/")) (codes "b" ∷ codes "a" ∷ [])
      (b-IsElement, (a-IsElement, tt)) one_mod-IsRegular

is_subpath_iff_example :
    (is_subpath (rooted_path (codes "a" ∷ [])) (rooted_path (codes "a" ∷ codes "b" ∷ [])) ≡ true)
    ↔ IsBelow (codes "a" ∷ []) (codes "a" ∷ codes "b" ∷ [])
is_subpath_iff_example =
    is_subpath_iff (codes "a" ∷ []) (codes "a" ∷ codes "b" ∷ []) (a-IsElement, tt)
      (a-IsElement, (b-IsElement, tt))

not_below : is_subpath (codes "/a/b") (codes "/a/bc") ≡ false
unfolding is_subpath str_eq clean gomake.Base.Path.render nat_eq gomake.Base.join
    gomake.Base.Path.clean_elements split has_prefix cut_prefix gomake.Base.has_suffix
not_below = refl

abbrev all_dirs : Str → FileInfo
all_dirs p = directory

abbrev rels : List Str
rels = codes "../x" ∷ codes "sub" ∷ codes "/b" ∷ codes "../x/." ∷ []

two_roots : external_roots all_dirs (codes "/m") rels ≡ codes "/b" ∷ codes "/x" ∷ []
unfolding external_roots gomake.Base.sort_by contains str_eq clean gomake.Base.Path.render nat_eq
    path_join gomake.Base.join gomake.Base.Path.clean_elements split gomake.Base.Path.step_up
    is_subpath has_prefix cut_prefix gomake.Base.has_suffix gomake.Base.le_str
two_roots = refl

external_roots_lem_example :
    IsSortedBy by_text (external_roots all_dirs (codes "/m") rels)
    × Distinct (external_roots all_dirs (codes "/m") rels)
    × ((contains (external_roots all_dirs (codes "/m") rels) (codes "/x") ≡ true) ↔ (
        (contains (map (resolved (codes "/m")) rels) (codes "/x") ≡ true)
        × IsExternal all_dirs (codes "/m") (codes "/x")
        × (codes "/x" ≢ clean (codes "/m"))))
external_roots_lem_example = external_roots_lem all_dirs (codes "/m") rels (codes "/x")

use_replacement_lem_example :
    (d : Str) × IsDirOf (codes "/w") (codes "./m") d
    × (((d ≡ codes "/w/m")
          × (clean
                (new_use (use_replacement (codes "/w/m") (codes "/w") (codes "./m")) (codes "./m"))
              ≡ dot_path))
        ⊎ ((d ≢ codes "/w/m")
            × (is_abs (
                  new_use (use_replacement (codes "/w/m") (codes "/w") (codes "./m")) (codes "./m"))
                ≡ true)
            × ((d
                  ≡ new_use
                      (use_replacement (codes "/w/m") (codes "/w") (codes "./m"))
                      (codes "./m"))
                ⊎ (d
                    ≡ clean (
                        new_use
                          (use_replacement (codes "/w/m") (codes "/w") (codes "./m"))
                          (codes "./m"))))))
use_replacement_lem_example =
    use_replacement_lem (codes "/w/m") (codes "/w") (codes "./m") (unfold is_abs in ground arith)

module_use : use_replacement (codes "/w/m") (codes "/w") (codes "./m") ≡ some (codes ".")
unfolding use_replacement str_eq is_abs nat_eq clean gomake.Base.Path.render
    gomake.Base.Path.clean_elements split gomake.Base.join path_join
module_use = refl

-- Every file holds its own path.
abbrev own_files : Files
own_files = record {
  stat = one_mod;
  read = λ p. ok p;
  nodes = λ d. nil;
  work_file = λ p. none;
  mod_file = λ p. none;
  rel = λ a b. none;
  wd = ok (codes "/a");
}

hashed_text-perm_example :
    hashed_text own_files
      (codes "go1")
      (λ k. [])
      (codes "/a")
      (codes "y" ∷ codes "x" ∷ [])
      []
      []
      []
      []
    ≡ hashed_text own_files
        (codes "go1")
        (λ k. [])
        (codes "/a")
        (codes "x" ∷ codes "y" ∷ [])
        []
        []
        []
        []
hashed_text-perm_example =
    hashed_text-perm own_files (codes "go1") (λ k. []) (codes "/a") (codes "y" ∷ codes "x" ∷ [])
      (codes "x" ∷ codes "y" ∷ []) [] [] [] [] (Perm.swap _ _ _)

-- A build directory in which go.mod cannot be edited.
abbrev calls : Calls
calls = record {
  root = none;
  stat = λ p. if has_prefix p (codes "/m/makefile.go") then regular else absent;
  new_package = ok (record {
    files = codes "makefile.go" ∷ [];
    mod_spec = codes "m";
    mod_dir = codes "/m";
    mod_path = codes "/m/go.mod";
  });
  mkdir_temp = λ tmp. ok (codes "/tmp/gomake-1");
  read = λ p. ok p;
  write = λ p s. none;
  parse_constraint = λ s. none;
  find_go_work = λ d. ok [];
  edit_go_work = none;
  edit_go_mod = some (gomake.Error.message (codes "edit"));
  user_source = codes "package main";
}

prepare-IsTidy_example : IsTidy calls (prepare calls (codes "/tmp") (codes "/m"))
prepare-IsTidy_example = prepare-IsTidy calls (codes "/tmp") (codes "/m")
