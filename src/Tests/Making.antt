-- ===== src/Tests/Making.antt =====
-- A build directory that is filled and parsed, and the binary that runs.
use gomake.Base.{
  List, Str, true, false, [], ◌∷◌, ◌++◌, codes, ◌≡◌, ◌⊎◌, none, some, if◌then◌else◌, has_prefix,
}
use gomake.Compile.{Parts, GoMake, Runner, new_go_make, execute, Step, ran, compiled}
use gomake.Compile.Fresh.{execute_lem, IsHit, IsMiss}
use gomake.Compile.Tidy.{new_go_make-IsTidyMake, IsTidyMake}
use gomake.Error.{Err, message}
use gomake.Base.Int.{pos}
use gomake.Exec.{Wake}
use gomake.Program.{Flags, parsed, Settings, World, Makefile}
use gomake.Target.{Target, new_target}
use gomake.Prepare.{Calls, Build}
use gomake.Scan.Makefile.{Doc, Loader}
use gomake.Targets.{new_targets}
use gomake.Workspace.{regular, absent, ok, err}

abbrev calls : Calls
calls = record {
  root = none;
  stat = λ p. if has_prefix p (codes "/m/makefile.go") then regular else absent;
  new_package = ok (record {
    files = codes "makefile.go" ∷ [];
    mod_spec = codes "m";
    mod_dir = codes "/m";
    mod_path = codes "/m/go.mod";
  });
  mkdir_temp = λ tmp. ok (codes "/tmp/gomake-1");
  read = λ p. ok p;
  write = λ p s. none;
  parse_constraint = λ s. none;
  find_go_work = λ d. ok [];
  edit_go_work = none;
  edit_go_mod = none;
  user_source = codes "package main";
}

abbrev doc : Doc
doc = record { files = []; text = []; funcs = []; types = []; vars = [] }

abbrev loader : Loader
loader = record { parse = λ pkg. ok doc; resolve = λ spec. err (message (codes "no import")) }

-- The generation of code fails.
abbrev parts : Parts
parts = record {
  calls = calls;
  go = record { lower = λ s. s; synopsis = λ s. s; exported = λ s. true };
  loader = λ cu. loader;
  pkg_name = codes "main";
  generate = λ tgs. err (message (codes "generate"));
  main_source = λ version. ok version;
  create = λ pth text. none;
}

new_go_make-IsTidyMake_example :
    (r : Build GoMake) × ((new_go_make parts (codes "v1") (codes "/tmp") (codes "/m") ≡ some r)
      × IsTidyMake r)
new_go_make-IsTidyMake_example =
    new_go_make-IsTidyMake parts (codes "v1") (codes "/tmp") (codes "/m")

abbrev runner : Runner
runner = record {
  cache = ok (codes "/c/1");
  exists = λ p. false;
  compile = none;
  run = none;
  config = some (codes "{}");
}

abbrev command : GoMake
command = record {
  cu = record {
    build_dir = codes "/b";
    main_gen = codes "/b/makefile_gen.go";
    main_bin = codes "/b/makefile";
    main_user = codes "/b/makefile_user.go";
    mkf_names = [];
    ignored = [];
  };
  targets = new_targets;
}

execute_lem_example :
    ((pth : Str) × IsHit runner command [] pth
      × (execute runner command [] ≡ (ran pth (codes "--gomake-config={}" ∷ []) ∷ [], none)))
    ⊎ ((copies : List Step) × IsMiss runner command [] copies
        × (((runner.compile ≡ none)
              × (execute runner command [] ≡ (
                compiled (codes "/b/makefile")
                    ∷ (copies
                        ++ (ran (codes "/b/makefile") (codes "--gomake-config={}" ∷ []) ∷ [])),
                none,
              )))
            ⊎ ((e : Err) × (runner.compile ≡ some e)
                × (execute runner command [] ≡ (compiled (codes "/b/makefile") ∷ [], some e)))))
execute_lem_example = execute_lem runner command []

-- A program with one target and no flags.
abbrev build : Target
build = record new_target { name = codes "build" }

abbrev flags : Flags
flags = record {
  wd = [];
  timeout = pos 0;
  help = false;
  version = false;
  list = false;
  left = codes "build" ∷ [];
}

abbrev program : gomake.Program.Calls
program = record { getwd = ok (codes "/p"); os_args = []; parse_flags = λ args. parsed flags }

abbrev settings : Settings
settings = record { args = some []; version = none }

abbrev world : World
world = record {
  help_usage = λ args tgs. ok (codes "help");
  context = λ t d. record { err = none; cause = none };
  wake = λ t d. Wake.finished none;
}

-- Two files of one module, and a URL.
abbrev installer : gomake.Install.Calls
installer = record {
  lower = λ s. s;
  expand = λ s. ok s;
  module_at = λ d. ok (some (codes "m", codes "/m"));
}

abbrev target_files : List Str
target_files = codes "/m/a.yaml" ∷ codes "http://x/t.yaml" ∷ codes "/m/sub/b.yaml" ∷ []
