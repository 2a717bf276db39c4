-- ===== src/Cache/Key.antt =====
-- What is hashed into the key of a compiled makefile, `binaryCacheKey` of internal/cli/cache.go.
use mathlib.Core.List.{Perm}
use gomake.Base.{
  Str, Bool, false, List, [], ◌∷◌, ◌++◌, codes, ◌==◌, str_eq, not, ◌&&◌, contains, sort_by, by_text,
  sort_by-perm_eq, ◌≡◌, ap, Option, none, some, if◌then◌else◌, has_suffix, has_text,
}
use gomake.Base.Path.{path_join, dir}
use gomake.Workspace.{
  FileInfo, absent, unreadable, Result, ok, err, path_exists, find_module_root, find_go_work_value,
}
use gomake.Cache.{
  Replace, WorkFile, Nodes, abs_work_paths, local_paths_from_go_mod, external_roots,
  walk_cache_files,
}

-- The files as the program reads them.
pub record Files : Type 0 where
  pub stat : Str → FileInfo
  pub read : Str → Result Str
  pub nodes : Str → Nodes
  -- modfile.ParseWork and modfile.Parse of a file, `none` if it cannot be read or parsed
  pub work_file : Str → Option WorkFile
  pub mod_file : Str → Option (List Replace)
  -- filepath.Rel
  pub rel : Str → Str → Option Str
  -- os.Getwd
  pub wd : Result Str

-- What is written, up to the first error.
abbrev pub then_write : Result Str → Result Str → Result Str
then_write (ok a) (ok b) = ok (a ++ b)
then_write (ok a) (err e) = err e
then_write (err e) r = err e

abbrev newline : Str
newline = codes "\n"

module _ (files : Files) where
  -- `hashFile`
  unfoldable pub hash_file : Str → Str → Result Str
  hash_file label pth = then_write (ok (label ++ newline)) (files.read pth)

  -- `cacheLabel`
  unfoldable pub cache_label : Str → Str → Str
  cache_label root pth = elim (files.rel root pth) [ none ↦ pth | some r ↦ r ]

  -- An optional file beside another.
  abbrev hash_optional : Str → Str → Result Str
  hash_optional label pth = elim (files.stat pth) [
    | absent ↦ ok []
    | unreadable e ↦ err e
    | _ ↦ hash_file label pth
  ]

  unfoldable pub is_hashed_source : Str → Bool
  is_hashed_source name = has_suffix name (codes ".go") && not (has_suffix name (codes "_test.go"))

  pub hash_sources : Str → List Str → Result Str
  hash_sources mod_root [] = ok []
  hash_sources mod_root (pth ∷ paths) =
      then_write (hash_file (codes "go:" ++ cache_label mod_root pth) pth)
        (hash_sources mod_root paths)

  abbrev has_embed : Result Str → Bool
  has_embed (ok content) = has_text content (codes "//go:embed")
  has_embed (err e) = false

  pub embed_dirs : List Str → List Str
  embed_dirs [] = []
  embed_dirs (pth ∷ paths) =
      let rest = embed_dirs paths in if has_embed (files.read pth) then dir pth ∷ rest else rest

  abbrev is_embedded : Str → Bool
  is_embedded name = not (has_suffix name (codes ".go"))

  -- The set of embedded files; a map of Go, here with one entry for each file.
  abbrev add_new : Str → List Str → List Str
  add_new p ps = if contains ps p then ps else p ∷ ps

  abbrev add_all_new : List Str → List Str → List Str
  add_all_new [] ps = ps
  add_all_new (q ∷ qs) ps = add_new q (add_all_new qs ps)

  abbrev join_sets : Result (List Str) → Result (List Str) → Result (List Str)
  join_sets (ok xs) (ok ys) = ok (add_all_new xs ys)
  join_sets (ok xs) (err e) = err e
  join_sets (err e) r = err e

  pub embedded_files : List Str → Result (List Str)
  embedded_files [] = ok []
  embedded_files (d ∷ dirs) =
      join_sets (walk_cache_files d (files.nodes d) is_embedded) (embedded_files dirs)

  pub hash_embeds : Str → List Str → Result Str
  hash_embeds mod_root [] = ok []
  hash_embeds mod_root (pth ∷ paths) =
      then_write (hash_file (codes "embed:" ++ cache_label mod_root pth) pth)
        (hash_embeds mod_root paths)

  abbrev hash_embedded : Str → Result (List Str) → Result Str
  hash_embedded mod_root (ok paths) = hash_embeds mod_root (sort_by by_text paths)
  hash_embedded mod_root (err e) = err e

  -- `hashModuleGoFiles`
  unfoldable pub hash_module_go_files : Str → Result Str
  unfolding hash_sources embed_dirs embedded_files hash_embeds is_hashed_source
  hash_module_go_files mod_root =
      elim (walk_cache_files mod_root (files.nodes mod_root) is_hashed_source) [
        | err e ↦ err e
        | ok paths ↦
            then_write (hash_sources mod_root paths)
              (hash_embedded mod_root (embedded_files (embed_dirs paths)))
      ]

  pub hash_roots : List Str → Result Str
  unfolding hash_file hash_module_go_files
  hash_roots [] = ok []
  hash_roots (root ∷ roots) =
      let mod_path = path_join root (codes "go.mod") in
      then_write
        (if path_exists (files.stat mod_path)
          then hash_file (codes "extmod:" ++ root) mod_path
          else ok [])
        (then_write (hash_module_go_files root) (hash_roots roots))

  abbrev work_of : Str → Option WorkFile
  work_of p = files.work_file p

  -- `hashExternalModuleTrees`
  unfoldable pub hash_external_module_trees : Str → Str → Result Str
  unfolding hash_roots
  hash_external_module_trees mod_root go_work_path = hash_roots (
      external_roots files.stat mod_root (
        abs_work_paths go_work_path (work_of go_work_path)
        ++ local_paths_from_go_mod (files.mod_file (path_join mod_root (codes "go.mod")))))

  pub hash_makefiles : Str → List Str → Result Str
  hash_makefiles src_dir [] = ok []
  hash_makefiles src_dir (name ∷ names) =
      then_write (hash_file (codes "f:" ++ name) (path_join src_dir name))
        (hash_makefiles src_dir names)

  -- The go.work that applies, `gowork` is the value of GOWORK; an error counts as none.
  abbrev work_path : Option (Result Str) → Str
  work_path (some (ok p)) = p
  work_path (some (err e)) = []
  work_path none = []

  abbrev hash_work : Str → Result Str
  hash_work p =
      if p == []
      then ok []
      else then_write (hash_file (codes "go.work") p)
          (hash_optional (codes "go.work.sum") (p ++ codes ".sum"))

  -- What a module adds: its go.mod and go.sum, its workspace, its sources and those beside it.
  abbrev hash_module : Str → Str → Result Str
  hash_module gowork mod_root =
      if mod_root == []
      then ok []
      else let work = work_path (find_go_work_value files.stat files.wd gowork mod_root) in
        then_write (hash_file (codes "go.mod") (path_join mod_root (codes "go.mod"))) (
          then_write (hash_optional (codes "go.sum") (path_join mod_root (codes "go.sum"))) (
            then_write (ok (codes "gowork:" ++ (gowork ++ newline))) (
              then_write (hash_work work) (
                then_write (hash_module_go_files mod_root)
                  (hash_external_module_trees mod_root work)))))

  abbrev or_none : Option Str → Str
  or_none none = []
  or_none (some d) = d

  -- The variables of the toolchain that are set.
  pub hash_variables : (Str → Str) → List Str → Str
  hash_variables getenv [] = []
  hash_variables getenv (key ∷ names) =
      let rest = hash_variables getenv names in
      if not (getenv key == [])
      then key ++ (codes ":" ++ (getenv key ++ (newline ++ rest)))
      else rest

  abbrev toolchain_keys : List Str
  toolchain_keys =
      codes "GOFLAGS"
      ∷ codes "CGO_ENABLED"
      ∷ codes "CGO_CFLAGS"
      ∷ codes "CGO_LDFLAGS"
      ∷ codes "GOTOOLCHAIN"
      ∷ codes "GOEXPERIMENT"
      ∷ codes "GO386"
      ∷ codes "GOAMD64"
      ∷ codes "GOARM"
      ∷ codes "GOARM64"
      ∷ codes "GOMIPS"
      ∷ codes "GOMIPS64"
      ∷ codes "GOPPC64"
      ∷ codes "GORISCV64"
      ∷ codes "GOWASM"
      ∷ []

  -- The version, the platform and the toolchain.
  pub hash_settings : Str → (Str → Str) → Str → Str → Str → Result Str
  unfolding hash_variables
  hash_settings go_version getenv version goos goarch = ok (
      codes "ver:"
      ++ (version
          ++ (codes "\ngoos:"
              ++ (goos
                  ++ (codes "\ngoarch:"
                      ++ (goarch
                          ++ (codes "\ngo:"
                              ++ (go_version
                                  ++ (newline ++ hash_variables getenv toolchain_keys)))))))))

  -- The text that `binaryCacheKey` hashes; `go_version` is runtime.Version.
  unfoldable pub hashed_text :
      Str → (Str → Str) → Str → List Str → Str → Str → Str → Str → Result Str
  unfolding hash_makefiles hash_settings
  hashed_text go_version getenv src_dir mkf_names version goos goarch gowork =
      then_write (hash_makefiles src_dir (sort_by by_text mkf_names)) (
        then_write (hash_module gowork (or_none (find_module_root files.stat src_dir)))
          (hash_settings go_version getenv version goos goarch))

  -- The key does not depend on the order in which the makefiles are given.
  pub hashed_text-perm :
      (go_version : Str) (getenv : Str → Str) (src_dir : Str) (xs ys : List Str)
      (version goos goarch gowork : Str)
      → Perm xs ys
      → hashed_text go_version getenv src_dir xs version goos goarch gowork
        ≡ hashed_text go_version getenv src_dir ys version goos goarch gowork
  unfolding hashed_text
  hashed_text-perm go_version getenv src_dir xs ys version goos goarch gowork p =
      ap
        (λ names. then_write (hash_makefiles src_dir names) (
          then_write (hash_module gowork (or_none (find_module_root files.stat src_dir)))
            (hash_settings go_version getenv version goos goarch)))
        (sort_by-perm_eq xs ys p)
