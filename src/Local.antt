-- ===== src/Local.antt =====
-- Packages of local directories, internal/parser/local.go, and the list of files that are parsed,
-- `astFiles` of internal/parser/ast.go. The selection of files by go/build, the parser of Go and
-- `modfile.ModulePath` are parameters.
pub mod Tags
use gomake.Base.{
  ℕ, Str, Bool, true, false, List, [], ◌∷◌, ◌++◌, map, codes, ◌==◌, str_eq, nat_eq, not, ◌||◌, ◌&&◌,
  Option, none, some, if◌then◌else◌, has_prefix, cut_prefix, split, join, trim_space, fields, leb,
  length, contains, sort_by, by_text,
}
use gomake.Base.Path.{is_abs, path_join}
use gomake.Error.{Err, Sentinel, sentinel, message, wraps, cons, nil}
use gomake.Syntax.{File, attach_decl_doc}
use gomake.Workspace.{Result, ok, err}

abbrev comma : ℕ
comma = b','

unfoldable pub keep_tags : List Str → List Str
keep_tags [] = []
keep_tags (p ∷ parts) =
    let rest = keep_tags parts in if trim_space p == [] then rest else trim_space p ∷ rest

-- `splitTags`
unfoldable pub split_tags : Str → List Str
unfolding keep_tags
split_tags s = keep_tags (split comma s)

abbrev pub tags_flag : Str
tags_flag = codes "-tags="

abbrev pub is_tags : Str → Bool
is_tags f = f == codes "-tags" || f == codes "--tags"

-- The loop of `goFlagsTags`; the flag is that the next field is a list of tags.
unfoldable pub flag_tags : Bool → List Str → List Str
unfolding split_tags
flag_tags next [] = []
flag_tags true (f ∷ fs) = split_tags f ++ flag_tags false fs
flag_tags false (f ∷ fs) = elim (cut_prefix f tags_flag) [
  | some tags ↦ split_tags tags ++ flag_tags false fs
  | none ↦ flag_tags (is_tags f) fs
]

-- `goFlagsTags`
unfoldable pub go_flags_tags : Str → List Str
unfolding flag_tags
go_flags_tags flags = flag_tags false (fields flags)

-- `buildTags`, of GOFLAGS and of the tag among the meta values.
unfoldable pub build_tags : Str → Str → List Str
unfolding go_flags_tags
build_tags flags tag = go_flags_tags flags ++ (if tag == [] then [] else tag ∷ [])

abbrev tag_args : List Str → List Str
tag_args [] = []
tag_args (t ∷ tags) = codes "-tags" ∷ join comma (t ∷ tags) ∷ []

-- `listTagArgs`
unfoldable pub list_tag_args : Str → Str → List Str
unfolding build_tags
list_tag_args flags tag = tag_args (build_tags flags tag)

-- `importSpec`, of the module path and filepath.Rel of the two directories.
unfoldable pub import_spec_of : Str → Option Str → Str
import_spec_of mod_spec none = mod_spec
import_spec_of mod_spec (some rel) =
    if rel == codes "." || rel == [] then mod_spec else mod_spec ++ (codes "/" ++ rel)

-- The settings of `importDir`.
pub record BuildContext : Type 0 where
  pub goos : Str
  pub goarch : Str
  pub cgo : Bool
  pub build_tags : List Str

abbrev or_default : Str → Str → Str
or_default v d = if v == [] then d else v

abbrev cgo_of : Str → Bool → Bool
cgo_of v d = if v == codes "0" then false else if v == codes "1" then true else d

-- `importDir` up to the call of go/build: the context, of the default one and the environment.
unfoldable pub import_context : BuildContext → (Str → Str) → Str → BuildContext
unfolding build_tags
import_context d env tag = record {
  goos = or_default (env (codes "GOOS")) d.goos;
  goarch = or_default (env (codes "GOARCH")) d.goarch;
  cgo = cgo_of (env (codes "CGO_ENABLED")) d.cgo;
  build_tags = d.build_tags ++ build_tags (env (codes "GOFLAGS")) tag;
}

-- What go/build finds: the package name and the files.
pub record Found : Type 0 where
  pub name : Str
  pub go_files : List Str

pub record Module : Type 0 where
  pub imp_spec : Str
  pub imp_path : Str
  pub mod_path : Str

pub record LocalPackage : Type 0 where
  pub name : Str
  pub imp_spec : Str
  pub files : List Str
  pub of_module : Module

-- What `newLocalPackage` calls.
pub record Calls : Type 0 where
  -- gomake.Root
  pub root : Str → Result Str
  pub import_dir : BuildContext → Str → Result Found
  pub read : Str → Result Str
  -- modfile.ModulePath
  pub module_path : Str → Str
  pub rel : Str → Str → Option Str

module _ (c : Calls) where
  abbrev declared : Str → Option Str
  declared m = if m == [] then none else some m

  -- `readModulePath`; its errors are not looked at.
  unfoldable pub read_module_path : Str → Option Str
  read_module_path pth = elim (c.read pth) [
    | err e ↦ none
    | ok content ↦ declared (c.module_path content)
  ]

  abbrev pub package_of : Str → Str → Found → Str → LocalPackage
  package_of dir root bp mod_spec = record {
    name = bp.name;
    imp_spec = import_spec_of mod_spec (c.rel root dir);
    files = bp.go_files;
    of_module = record {
      imp_spec = mod_spec;
      imp_path = root;
      mod_path = path_join root (codes "go.mod");
    };
  }

  abbrev pub in_module : Str → Str → Found → Option LocalPackage
  in_module dir root bp = elim (read_module_path (path_join root (codes "go.mod"))) [
    | none ↦ none
    | some mod_spec ↦ some (package_of dir root bp mod_spec)
  ]

  abbrev pub in_root : BuildContext → Str → Str → Option LocalPackage
  in_root ctx dir root = elim (c.import_dir ctx dir) [
    | err e ↦ none
    | ok bp ↦ in_module dir root bp
  ]

  -- `newLocalPackage`; none is the answer false.
  unfoldable pub new_local_package : BuildContext → Str → Option LocalPackage
  unfolding read_module_path import_spec_of
  new_local_package ctx dir = elim (c.root dir) [ err e ↦ none | ok root ↦ in_root ctx dir root ]

-- The paths that `astFiles` parses.
unfoldable pub to_parse : Str → List Str → List Str
to_parse dir files = map (λ f. if is_abs f then f else path_join dir f) files

-- strings.Join with a comma and a space
abbrev comma_list : List Str → Str
comma_list [] = []
comma_list (n ∷ []) = n
comma_list (n ∷ m ∷ names) = n ++ (codes ", " ++ comma_list (m ∷ names))

-- A file that is parsed, with the name of its package.
abbrev pub Parsed : Type 0
Parsed = Str × (Str × File)

module _ (parse_file : Str → Result (Str × File)) (dir : Str) where
  -- The loop of `astFiles`, which ends with the first error.
  unfoldable pub parse_all : List Str → Result (List Parsed)
  parse_all [] = ok []
  parse_all (pth ∷ paths) = elim (parse_file pth) [
    | err e ↦ err (wraps dir (cons (sentinel Sentinel.ast_parse) (cons e nil)))
    | ok (name, file) ↦ elim (parse_all paths) [
      | err e ↦ err e
      | ok files ↦ ok ((pth, (name, attach_decl_doc file)) ∷ files)
    ]
  ]

  -- The distinct package names.
  unfoldable pub pkg_names : List Parsed → List Str
  pkg_names [] = []
  pkg_names ((pth, (name, file)) ∷ files) =
      let rest = pkg_names files in if contains rest name then rest else name ∷ rest

  abbrev one_package : List Parsed → Result (List Parsed)
  one_package files =
      if leb (length (pkg_names files)) 1
      then ok files
      else err (
          wraps (dir ++ (codes ": " ++ comma_list (sort_by by_text (pkg_names files))))
            (cons (sentinel Sentinel.ast_multi_pkg) nil))

  abbrev parse_listed : List Str → Result (List Parsed)
  parse_listed [] = err (wraps dir (cons (sentinel Sentinel.ast_empty) nil))
  parse_listed (pth ∷ paths) = elim (parse_all (pth ∷ paths)) [
    | err e ↦ err e
    | ok files ↦ one_package files
  ]

  -- `astFiles`
  unfoldable pub ast_files : List Str → Result (List Parsed)
  unfolding parse_all pkg_names to_parse
  ast_files files = parse_listed (to_parse dir files)
