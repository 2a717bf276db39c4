-- ===== src/Tests/Command.antt =====
-- Runs of the command.
use gomake.Base.{
  true, false, [], ◌∷◌, str_eq, nat_eq, none, codes, All, ◌≡◌, refl, has_prefix, cut_prefix, join,
}
use gomake.Error.{message}
use gomake.Target.{Target, new_target}
use gomake.Exec.{find_target}
use gomake.Targets.{new_targets}
use gomake.Cli.Trace.{ok, panicked, run_built_in, pre_run}
use gomake.Cli.{main}
use gomake.Cli.Calls.{CliConfig, World, dir, complete}
use gomake.Cli.Quiet.{main-meta}
use gomake.Cli.Only.{IsPlain}
use gomake.Cli.Order.{main-IsOrdered}
use gomake.Cli.Runs.{IsOrdered, hook_count, run_part}

abbrev build : Target
build = record new_target { name = codes "build" }

abbrev plain : CliConfig
plain = record {
  show_version = false;
  show_complete = false;
  show_check_config = false;
  show_list = false;
  show_help = false;
  target = codes "build";
  bin = [];
  src = codes "/src";
  args = codes "build" ∷ [];
}

abbrev world : World
world = record {
  new_config = ok plain;
  run_complete = ([], none);
  built_ins = build ∷ [];
  comp_line = false;
  stat_tmp = dir;
  make_tmp_dir = none;
  run_check_config = ok [];
  all_targets = ok [];
  help_targets = λ ts. [];
  help_usage = λ args ts. ok [];
  pre_runs = ok tt ∷ ok tt ∷ [];
  apply_external = ok tt;
  deliver_config = λ t. ok tt;
  new_makefile = none;
  run_direct = ok tt;
  new_go_make = ok (record { ignored = []; targets = new_targets });
  ignore_warning = λ s. s;
  compile = ok tt;
  execute_makefile = panicked (message []);
}

built_in_run : run_part (main (codes "v1") world).0 ≡ pre_run 0 ∷ pre_run 1 ∷ run_built_in ∷ []
unfolding main run_part str_eq find_target
built_in_run = refl

main-IsOrdered_example : IsOrdered (hook_count world) (run_part (main (codes "v1") world).0)
main-IsOrdered_example = main-IsOrdered (codes "v1") world

abbrev unknown_target : World
unknown_target = record world { built_ins = [] }

crashed : (main (codes "v1") unknown_target).1 ≡ 1
unfolding main str_eq find_target
crashed = refl

abbrev listing : CliConfig
listing = record plain { show_list = true }

main-meta_example : All IsPlain (main (codes "v1") (record world { new_config = ok listing })).0
main-meta_example =
    main-meta (codes "v1") (record world { new_config = ok listing }) listing refl refl

completion : complete (codes "gomake" ∷ codes "b" ∷ [] ∷ []) (build ∷ []) ≡ codes "build"
unfolding complete str_eq has_prefix cut_prefix nat_eq join
completion = refl

-- A panic of newGoMake ends the run with exit code 1.
parse_crash :
    (main
      (codes "v1")
      (record unknown_target { new_go_make = panicked (message (codes "nil map")) })).1
    ≡ 1
unfolding main str_eq find_target
parse_crash = refl
