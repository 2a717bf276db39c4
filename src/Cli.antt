-- ===== src/Cli.antt =====
-- The command `gomake`: `Main`, `complete` and `invokedTarget` of internal/cli. The trace of a run
-- is computed from a record of what the calls give that reach the file system, the toolchain and
-- the targets.
pub mod Trace
pub mod Calls
pub mod Only
pub mod Cleanup
pub mod Runs
pub mod Quiet
pub mod Order
use gomake.Base.{
  ℕ, zero, suc, Str, Bool, true, false, List, [], ◌∷◌, ◌++◌, ◌==◌, str_eq, nat_eq, not, ◌||◌, ◌&&◌,
  map, codes, join, has_prefix, Option, none, some, if◌then◌else◌, ◌+◌,
}
use gomake.Error.{Err, Sentinel, sentinel, message, wraps, cons, nil, is_err, is_compile}
use gomake.Target.{Target}
use gomake.Targets.{Targets, get, list}
use gomake.Exec.{
  Found, found, find_target, exit_code, compile_exit, exit_status, has_run, exit_code_err,
  exit_code_unk_target,
}
use gomake.Cli.Trace.{
  Event, write_out, write_err, report, set_env, set_meta, make_tmp, install_completion,
  check_config, discover, format_usage, parse_args, pre_run, apply_meta, deliver, run_built_in,
  analyze_failed, analyze_panicked, analyzed, compile_bin, execute, remove_build_dir, reraise,
  recovered, Ended, value, exit, panic, Run, ◌>>=◌, ◌>>◌, tell, stop, done, fail, when, Step, ok,
  failed, panicked, attempt, seq,
}
use gomake.Cli.Calls.{
  CliConfig, GoMake, Stat, World, absent, complete, dir, other_file, stat_failed,
}

-- `fail(err, 1)`
abbrev pub fail_1 {ℓ} : {A : Type ℓ} → Err → Run A
fail_1 e = fail e 1

-- `fail(err, mkf.ExitCode(err))`
abbrev pub fail_code {ℓ} : {A : Type ℓ} → Err → Run A
fail_code e = fail e (exit_code (some e))

abbrev version_key : Str
version_key = codes "GOMAKE_VERSION"

abbrev project_dir_key : Str
project_dir_key = codes "GOMAKE_PROJECT_DIR"

-- The message of runComplete, if there is one, and its error.
abbrev pub completion : Str → Option Err → Run (Unit {0})
completion msg e = do
  tell (install_completion ∷ [])
  when (not (msg == [])) (tell (write_err msg ∷ []))
  elim e [ none ↦ stop (exit_code none) | some e' ↦ fail_code e' ]

abbrev pub made : Option Err → Run (Unit {0})
made none = tell (make_tmp ∷ [])
made (some e) = tell (make_tmp ∷ []) >> fail_code e

abbrev pub prepare_tmp : Stat → Option Err → Run (Unit {0})
prepare_tmp dir e = done tt
prepare_tmp other_file e = fail_1 (message (codes "must be a directory"))
prepare_tmp absent e = made e
prepare_tmp (stat_failed e') e = fail_code e'

abbrev pub check_config_run : Step Str → Run (Unit {0})
check_config_run s = do text ← attempt check_config s fail_code; tell (write_err text ∷ []); stop 0

abbrev pub list_run : World → Run (Unit {0})
list_run w = do
  all ← attempt discover w.all_targets fail_code
  tell (write_out (w.help_targets all) ∷ [])
  stop 0

abbrev pub help_args : CliConfig → List Str
help_args cfg = if cfg.target == [] then [] else cfg.target ∷ []

abbrev pub help_run : World → CliConfig → Run (Unit {0})
help_run w cfg = do
  all ← attempt discover w.all_targets fail_code
  text ← attempt format_usage (w.help_usage (help_args cfg) all) fail_1
  tell (write_err text ∷ [])
  stop 0

-- The meta-commands, in the order of the code; each of them ends the run.
abbrev pub meta_commands : Str → World → CliConfig → List (Run (Unit {0}))
meta_commands ver w cfg =
    when cfg.show_version (tell (write_out (ver ++ codes "\n") ∷ []) >> stop 0)
    ∷ when cfg.show_complete (completion w.run_complete.0 w.run_complete.1)
    ∷ when w.comp_line (tell (write_out (complete cfg.args w.built_ins) ∷ []) >> stop 0)
    ∷ prepare_tmp w.stat_tmp w.make_tmp_dir
    ∷ when cfg.show_check_config (check_config_run w.run_check_config)
    ∷ when cfg.show_list (list_run w)
    ∷ when cfg.show_help (help_run w cfg)
    ∷ []

-- `runPreRuns`, from the hook with the number.
unfoldable pub run_pre_runs : List (Step (Unit {0})) → ℕ → Run (Unit {0})
run_pre_runs [] i = done tt
run_pre_runs (s ∷ ss) i = attempt (pre_run i) s fail_1 >> run_pre_runs ss (i + 1)

abbrev pub reported : ℕ → Option Err → Run (Unit {0})
reported code none = stop code
reported code (some e) = fail e code

-- `runWithoutCompile`: the exit code, and the error to report.
abbrev pub run_without_compile : Option Err → Step (Unit {0}) → Run (ℕ × Option Err)
run_without_compile (some e) s = done (exit_code_err, some e)
run_without_compile none (ok u) = tell (run_built_in ∷ []) >> done (0, none)
run_without_compile none (failed e) = tell (run_built_in ∷ []) >> done (exit_code (some e), some e)
run_without_compile none (panicked e) = (run_built_in ∷ [], panic e)

-- The run of a built-in target.
abbrev pub direct_run : World → Run (Unit {0})
direct_run w = do (code, e) ← run_without_compile w.new_makefile w.run_direct; reported code e

abbrev pub built_in_steps : World → Target → List (Run (Unit {0}))
built_in_steps w t =
    run_pre_runs w.pre_runs 0
    ∷ attempt apply_meta w.apply_external fail_1
    ∷ attempt (deliver (some t)) (w.deliver_config (some t)) fail_1
    ∷ direct_run w
    ∷ []

unfoldable pub built_in_target : World → Target → Run (Unit {0})
unfolding run_pre_runs seq
built_in_target w t = seq (built_in_steps w t)

abbrev pub built_in_found : World → Found → Run (Unit {0})
built_in_found w (found t) = built_in_target w t
built_in_found w (Found.failed e) = done tt

-- A built-in target runs with no makefile.
unfoldable pub built_in_stage : World → CliConfig → Run (Unit {0})
unfolding built_in_target
built_in_stage w cfg =
    when (cfg.bin == [] && not (cfg.target == []))
      (built_in_found w (find_target cfg.target w.built_ins))

abbrev pub reraised : ℕ → Option Err → Run (Unit {0})
reraised code none = stop code
reraised code (some e) = tell (report e ∷ reraise e ∷ []) >> stop code

abbrev pub direct_reraised : World → Run (Unit {0})
direct_reraised w = do (code, e) ← run_without_compile w.new_makefile w.run_direct; reraised code e

-- The branches of `Main` for an error of newGoMake.
unfoldable pub no_makefile : World → CliConfig → Err → Run (Unit {0})
unfolding run_pre_runs seq
no_makefile w cfg e =
    if not (is_err Sentinel.no_makefile e || is_err Sentinel.no_go_mod e)
    then fail_code e
    else if is_err Sentinel.no_go_mod e && not (cfg.target == [])
    then fail_code e
    else if not (cfg.target == [])
    then fail (sentinel Sentinel.unk_target) exit_code_unk_target
    else if not (cfg.bin == [])
    then fail_code e
    else seq (run_pre_runs w.pre_runs 0 ∷ direct_reraised w ∷ [])

first_default : List Target → Option Target
first_default [] = none
first_default (t ∷ ts) = if t.default then some t else first_default ts

-- `invokedTarget`
unfoldable pub invoked_target : CliConfig → Targets → Option Target
unfolding first_default
invoked_target cfg tgs =
    if not (cfg.target == []) then get tgs cfg.target else first_default (list tgs).1

abbrev pub executed : Step (Unit {0}) → Run (Unit {0})
executed (ok u) = tell (execute ∷ []) >> stop 0
executed (panicked e) = (execute ∷ [], panic e)
executed (failed e) = do
  tell (execute ∷ [])
  if is_compile e
      then fail e (compile_exit e)
      else (do when (not (has_run (some e))) (tell (report e ∷ [])); stop (exit_status (some e)))

abbrev pub bin_run : World → GoMake → Run (Unit {0})
bin_run w gmk = do
  when (gomake.Base.length gmk.targets.list == 0) (fail_code (sentinel Sentinel.no_targets))
  attempt compile_bin w.compile (λ e. fail e (compile_exit e))
  stop 0

-- `Main` behind a newGoMake that succeeds.
abbrev pub makefile_steps : World → CliConfig → GoMake → Option Target → List (Run (Unit {0}))
makefile_steps w cfg gmk tgt =
    tell (map (λ name. write_err (w.ignore_warning name)) gmk.ignored)
    ∷ when (not (cfg.bin == [])) (bin_run w gmk)
    ∷ run_pre_runs w.pre_runs 0
    ∷ attempt apply_meta w.apply_external fail_1
    ∷ attempt (deliver tgt) (w.deliver_config tgt) fail_1
    ∷ executed w.execute_makefile
    ∷ []

unfoldable pub with_makefile : World → CliConfig → GoMake → Run (Unit {0})
unfolding run_pre_runs seq invoked_target
with_makefile w cfg gmk = seq (makefile_steps w cfg gmk (invoked_target cfg gmk.targets))

-- The deferred removal of the build directory, on every way out.
abbrev pub clean_up {ℓ} : {A : Type ℓ} → Run A → Run A
clean_up (t, r) = (t ++ (remove_build_dir ∷ []), r)

abbrev pub makefile_stage : World → CliConfig → Step GoMake → Run (Unit {0})
makefile_stage w cfg (ok gmk) = tell (analyzed ∷ []) >> clean_up (with_makefile w cfg gmk)
makefile_stage w cfg (failed e) = tell (analyze_failed ∷ []) >> no_makefile w cfg e
makefile_stage w cfg (panicked e) = (analyze_panicked ∷ [], panic e)

abbrev pub announce : Str → CliConfig → List Event
announce ver cfg =
    set_env version_key ver
    ∷ set_env project_dir_key cfg.src
    ∷ set_meta version_key ver
    ∷ set_meta project_dir_key cfg.src
    ∷ []

-- `Main` behind newConfig.
unfoldable pub dispatch : Str → World → CliConfig → Run (Unit {0})
unfolding built_in_stage no_makefile with_makefile seq
dispatch ver w cfg = do
  tell (announce ver cfg)
  seq (meta_commands ver w cfg)
  built_in_stage w cfg
  makefile_stage w cfg w.new_go_make

unfoldable pub body : Str → World → Run (Unit {0})
unfolding dispatch
body ver w = do cfg ← attempt parse_args w.new_config fail_1; dispatch ver w cfg

-- The recovery from a panic.
abbrev pub finish : Run (Unit {0}) → List Event × ℕ
finish (t, value u) = (t, 0)
finish (t, exit code) = (t, code)
finish (t, panic e) = (t ++ (recovered e ∷ []), 1)

-- `Main`: what it does, and its exit code.
unfoldable pub main : Str → World → List Event × ℕ
unfolding body
main ver w = finish (body ver w)
