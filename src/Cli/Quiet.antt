-- ===== src/Cli/Quiet.antt =====
-- The events of the meta-commands of `Main`, internal/cli/main.go.
use gomake.Base.{
  ℕ, Str, Bool, true, List, [], ◌∷◌, ◌++◌, ◌==◌, str_eq, not, ◌||◌, Option, none, some, All,
  All-append, ◌≡◌, refl, arith, codes,
}
use gomake.Error.{Err}
use gomake.Exec.{exit_code}
use gomake.Target.{Target}
use gomake.Cli.Trace.{
  Event, write_out, write_err, install_completion, discover, format_usage, parse_args, recovered,
  value, exit, panic, Run, ◌>>=◌, ◌>>◌, tell, stop, fail, when, Step, ok, failed, panicked, attempt,
  seq,
}
use gomake.Cli.{
  meta_commands, dispatch, finish, built_in_stage, makefile_stage, completion, prepare_tmp,
  check_config_run, list_run, help_run, help_args, main, body,
}
use gomake.Cli.Calls.{CliConfig, World, Stat, dir, other_file, absent, stat_failed, complete}
use gomake.Cli.Only.{
  IsPlain, Only, Only-attempt, Only-bind, Only-bind_stops, Only-seq, Only-when, any_stops, stops,
  stops-bind, stops-seq, stops-when,
}

prepare_tmp_lem : (s : Stat) (e : Option Err) → Only IsPlain (prepare_tmp s e)
prepare_tmp_lem dir e = tt
prepare_tmp_lem other_file e = ((refl, refl), tt)
prepare_tmp_lem absent none = ((refl, refl), tt)
prepare_tmp_lem absent (some e) = ((refl, refl), ((refl, refl), tt))
prepare_tmp_lem (stat_failed e') e = ((refl, refl), tt)

abbrev last_of : Option Err → Run (Unit {0})
last_of e = elim e [ none ↦ stop (exit_code none) | some e' ↦ fail e' (exit_code (some e')) ]

completion_lem :
    (msg : Str) (e : Option Err)
    → Only IsPlain (completion msg e) × (stops (completion msg e) ≡ true)
unfolding stops
completion_lem msg none =
    let shown = when (not (msg == [])) (tell (write_err msg ∷ [])) in
    (
      (
        (refl, refl),
        Only-bind IsPlain shown (λ _. last_of none)
            (Only-when IsPlain (not (msg == [])) (tell (write_err msg ∷ []))
              (λ h. ((refl, refl), tt)))
            (λ _. tt),
      ),
      stops-bind (tell (install_completion ∷ [])) (λ _. shown >> last_of none)
          (λ _. stops-bind shown (λ _. last_of none) (λ _. refl)),
    )
completion_lem msg (some e) =
    let shown = when (not (msg == [])) (tell (write_err msg ∷ [])) in
    (
      (
        (refl, refl),
        Only-bind IsPlain shown (λ _. last_of (some e))
            (Only-when IsPlain (not (msg == [])) (tell (write_err msg ∷ []))
              (λ h. ((refl, refl), tt)))
            (λ _. ((refl, refl), tt)),
      ),
      stops-bind (tell (install_completion ∷ [])) (λ _. shown >> last_of (some e))
          (λ _. stops-bind shown (λ _. last_of (some e)) (λ _. refl)),
    )

check_config_run_lem :
    (s : Step Str) → Only IsPlain (check_config_run s) × (stops (check_config_run s) ≡ true)
unfolding stops
check_config_run_lem (ok a) = (((refl, refl), ((refl, refl), tt)), refl)
check_config_run_lem (failed e) = (((refl, refl), ((refl, refl), tt)), refl)
check_config_run_lem (panicked e) = (((refl, refl), tt), refl)

abbrev attempted : {A : Type 0} → Event → Step A → (Err → ℕ) → Run A
attempted ev s code = attempt ev s (λ e. fail e (code e))

attempted_lem :
    {A : Type 0} (ev : Event) (s : Step A) (code : Err → ℕ)
    → IsPlain ev
    → Only IsPlain (attempted ev s code)
attempted_lem ev s code p =
    Only-attempt IsPlain ev s (λ e. fail e (code e)) p (λ e. ((refl, refl), tt))

list_run_lem : (w : World) → Only IsPlain (list_run w) × (stops (list_run w) ≡ true)
list_run_lem w =
    let found = attempted discover w.all_targets (λ e. exit_code (some e)) in
    (
      Only-bind IsPlain found (λ all. tell (write_out (w.help_targets all) ∷ []) >> stop 0)
          (attempted_lem discover w.all_targets (λ e. exit_code (some e)) (refl, refl))
          (λ all. ((refl, refl), tt)),
      stops-bind found (λ all. tell (write_out (w.help_targets all) ∷ []) >> stop 0)
          (λ all. unfold stops in refl),
    )

help_run_lem :
    (w : World) (cfg : CliConfig) → Only IsPlain (help_run w cfg) × (stops (help_run w cfg) ≡ true)
help_run_lem w cfg =
    let found = attempted discover w.all_targets (λ e. exit_code (some e)) in
    let usage : List Target → Run Str =
      λ all. attempted format_usage (w.help_usage (help_args cfg) all) (λ e. 1) in
    let shown : Str → Run (Unit {0}) = λ text. tell (write_err text ∷ []) >> stop 0 in
    (
      Only-bind IsPlain found (λ all. usage all >>= shown)
          (attempted_lem discover w.all_targets (λ e. exit_code (some e)) (refl, refl))
          (λ all.
            Only-bind IsPlain (usage all) shown
              (attempted_lem format_usage (w.help_usage (help_args cfg) all) (λ e. 1) (refl, refl))
              (λ text. ((refl, refl), tt))),
      stops-bind found (λ all. usage all >>= shown)
          (λ all. stops-bind (usage all) shown (λ text. unfold stops in refl)),
    )

pub meta_commands_lem :
    (ver : Str) (w : World) (cfg : CliConfig) → All (Only IsPlain) (meta_commands ver w cfg)
meta_commands_lem ver w cfg = (
  Only-when IsPlain cfg.show_version _ (λ h. ((refl, refl), tt)),
  (
    Only-when IsPlain cfg.show_complete _
        (λ h. (completion_lem w.run_complete.0 w.run_complete.1).0),
    (
      Only-when IsPlain w.comp_line _ (λ h. ((refl, refl), tt)),
      (
        prepare_tmp_lem w.stat_tmp w.make_tmp_dir,
        (
          Only-when IsPlain cfg.show_check_config _
              (λ h. (check_config_run_lem w.run_check_config).0),
          (
            Only-when IsPlain cfg.show_list _ (λ h. (list_run_lem w).0),
            (Only-when IsPlain cfg.show_help _ (λ h. (help_run_lem w cfg).0), tt),
          ),
        ),
      ),
    ),
  ),
)

-- Whether the arguments or the environment ask for something other than a run.
abbrev pub is_meta : World → CliConfig → Bool
is_meta w cfg =
    cfg.show_version
    || (cfg.show_complete
        || (w.comp_line || (cfg.show_check_config || (cfg.show_list || cfg.show_help))))

any_stops-meta_commands :
    (ver : Str) (w : World) (cfg : CliConfig)
    → is_meta w cfg ≡ true
    → any_stops (meta_commands ver w cfg) ≡ true
unfolding any_stops
any_stops-meta_commands ver w cfg h =
    let version = tell (write_out (ver ++ codes "\n") ∷ []) >> stop {A = Unit {0}} 0 in
    let words = tell (write_out (complete cfg.args w.built_ins) ∷ []) >> stop {A = Unit {0}} 0 in
    ground (
      arith,
      stops-when cfg.show_version version (unfold stops in refl),
      stops-when cfg.show_complete _ (completion_lem w.run_complete.0 w.run_complete.1).1,
      stops-when w.comp_line words (unfold stops in refl),
      stops-when cfg.show_check_config _ (check_config_run_lem w.run_check_config).1,
      stops-when cfg.show_list _ (list_run_lem w).1,
      stops-when cfg.show_help _ (help_run_lem w cfg).1,
    )

pub Only-meta :
    (ver : Str) (w : World) (cfg : CliConfig) → Only IsPlain (seq (meta_commands ver w cfg))
Only-meta ver w cfg = Only-seq IsPlain (meta_commands ver w cfg) (meta_commands_lem ver w cfg)

-- A finished trace adds no more than a recovery.
pub All-finish :
    (P : Event → Type 0) (m : Run (Unit {0}))
    → ((e : Err) → P (recovered e))
    → Only P m
    → All P (finish m).0
All-finish P (t, value u) r h = h
All-finish P (t, exit c) r h = h
All-finish P (t, panic e) r h = All-append P t (recovered e ∷ []) h (r e, tt)

abbrev pub stages : World → CliConfig → Run (Unit {0})
stages w cfg = built_in_stage w cfg >> makefile_stage w cfg w.new_go_make

dispatch-meta :
    (ver : Str) (w : World) (cfg : CliConfig)
    → is_meta w cfg ≡ true
    → Only IsPlain (dispatch ver w cfg)
unfolding dispatch
dispatch-meta ver w cfg m = (
  (refl, refl),
  (
    (refl, refl),
    (
      (refl, refl),
      (
        (refl, refl),
        Only-bind_stops IsPlain (seq (meta_commands ver w cfg)) (λ _. stages w cfg)
            (Only-meta ver w cfg)
            (stops-seq (meta_commands ver w cfg) (any_stops-meta_commands ver w cfg m)),
      ),
    ),
  ),
)

body-meta :
    (ver : Str) (w : World) (cfg : CliConfig) (s : Step CliConfig)
    → s ≡ ok cfg
    → is_meta w cfg ≡ true
    → Only IsPlain (attempt parse_args s (λ e. fail e 1) >>= dispatch ver w)
body-meta ver w cfg s h m = rw h ((refl, refl), dispatch-meta ver w cfg m)

-- Under a meta-command nothing is run and no build directory is made: no hook, no target, no
-- compiler.
pub main-meta :
    (ver : Str) (w : World) (cfg : CliConfig)
    → w.new_config ≡ ok cfg
    → is_meta w cfg ≡ true
    → All IsPlain (main ver w).0
unfolding main body
main-meta ver w cfg h m =
    All-finish IsPlain (body ver w) (λ e. (refl, refl)) (body-meta ver w cfg w.new_config h m)
