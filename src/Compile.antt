-- ===== src/Compile.antt =====
-- A command that is ready to run a target, internal/cli/cli.go: `newGoMake`, which prepares the build
-- directory and parses its makefiles, and `Execute`, which runs a binary from the cache or a new one.
-- The texts of the generated files are parameters.
pub mod Tidy
pub mod Fresh
use gomake.Base.{
  Str, Bool, true, false, List, [], ◌∷◌, ◌++◌, codes, Option, none, some, if◌then◌else◌,
}
use gomake.Error.{Err}
use gomake.Prepare.{
  Act, write_file, remove_all, Build, ◌>>=◌, ◌>>◌, give, act, CompUnit, Calls, prepare,
}
use gomake.Scan.{GoDoc, Package}
use gomake.Scan.Makefile.{Loader, Makefile, makefile_from_package}
use gomake.Targets.{Targets}
use gomake.Workspace.{Result, ok, err}

-- What `newGoMake` calls; the loader reads the files that the unit lists.
pub record Parts : Type 0 where
  pub calls : Calls
  pub go : GoDoc
  pub loader : CompUnit → Loader
  -- the name of the package of the sources
  pub pkg_name : Str
  pub generate : Targets → Result Str
  pub main_source : Str → Result Str
  pub create : Str → Str → Option Err

-- `goMake`, but for its configuration.
pub record GoMake : Type 0 where
  pub cu : CompUnit
  pub targets : Targets

module _ (p : Parts) where
  abbrev pub create_file : Str → Str → Build (Unit {0})
  create_file pth text = act (write_file pth text) (p.create pth text)

  -- The package of the build directory.
  abbrev pub build_pkg : CompUnit → Package
  build_pkg cu = record {
    name = p.pkg_name;
    imp_spec = [];
    imp_path = cu.build_dir;
    pkg_ns = [];
    files = [];
  }

  -- The files that are generated for the targets.
  abbrev pub generated : Str → CompUnit → Makefile → Build GoMake
  generated version cu pmf = do
    code ← give (p.generate pmf.targets)
    create_file cu.main_user code
    main ← give (p.main_source version)
    create_file cu.main_gen main
    give (ok (record { cu = cu; targets = pmf.targets }))

  -- The deferred removal.
  abbrev pub or_remove_dir : CompUnit → Build GoMake → Build GoMake
  or_remove_dir cu (t, ok gmk) = (t, ok gmk)
  or_remove_dir cu (t, err e) = (t ++ (remove_all cu.build_dir ∷ []), err e)

  abbrev pub in_build_dir : Str → CompUnit → Option (Result Makefile) → Option (Build GoMake)
  in_build_dir version cu none = none
  in_build_dir version cu (some r) = some (or_remove_dir cu (give r >>= generated version cu))

  abbrev pub behind : List Act → Option (Build GoMake) → Option (Build GoMake)
  behind t none = none
  behind t (some m) = some (t ++ m.0, m.1)

  abbrev pub and_parse : Str → Build CompUnit → Option (Build GoMake)
  and_parse version (t, err e) = some (t, err e)
  and_parse version (t, ok cu) =
      behind t (in_build_dir version cu (makefile_from_package p.go (p.loader cu) (build_pkg cu)))

  -- `newGoMake`; `none` means that the fuel of a loop of the parser ran out.
  unfoldable pub new_go_make : Str → Str → Str → Option (Build GoMake)
  unfolding prepare makefile_from_package
  new_go_make version tmp src = and_parse version (prepare p.calls tmp src)

-- What `Execute` does, in order.
pub data Step : Type 0 where
  -- the compiler writes a binary
  compiled : Str → Step
  -- a binary is copied into the cache
  stored : Str → Str → Step
  -- a binary runs with its arguments
  ran : Str → List Str → Step

-- What `Execute` calls.
pub record Runner : Type 0 where
  -- binaryCachePath, and whether a path exists
  pub cache : Result Str
  pub exists : Str → Bool
  pub compile : Option Err
  pub run : Option Err
  -- the text of the meta value with the configuration of the target
  pub config : Option Str

abbrev pub target_config_arg : Str
target_config_arg = codes "--gomake-config"

module _ (r : Runner) where
  -- The path in the cache, if there is a binary.
  abbrev pub cached : Result Str → Option Str
  cached (err e) = none
  cached (ok pth) = if r.exists pth then some pth else none

  abbrev pub run_args : Option Str → List Str → List Str
  run_args none args = args
  run_args (some text) args = (target_config_arg ++ (codes "=" ++ text)) ∷ args

  abbrev pub run_bin : Str → List Str → List Step × Option Err
  run_bin pth args = (ran pth (run_args r.config args) ∷ [], r.run)

  abbrev pub store : Str → Result Str → List Step
  store bin (err e) = []
  store bin (ok pth) = stored bin pth ∷ []

  abbrev pub after_compile : Str → List Str → Option Err → List Step × Option Err
  after_compile bin args (some e) = (compiled bin ∷ [], some e)
  after_compile bin args none =
      (compiled bin ∷ (store bin r.cache ++ (run_bin bin args).0), (run_bin bin args).1)

  abbrev pub run_or_compile : Str → List Str → Option Str → List Step × Option Err
  run_or_compile bin args none = after_compile bin args r.compile
  run_or_compile bin args (some pth) = run_bin pth args

  -- `Execute` of `goMake`
  unfoldable pub execute : GoMake → List Str → List Step × Option Err
  execute gmk args = run_or_compile gmk.cu.main_bin args (cached r.cache)
