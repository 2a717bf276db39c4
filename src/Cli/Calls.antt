-- ===== src/Cli/Calls.antt =====
-- `complete` of internal/cli/main.go, and what the calls of `Main` give.
use gomake.Base.{
  Str, Bool, List, [], ◌∷◌, ◌==◌, str_eq, nat_eq, ◌||◌, join, has_prefix, Option, none, some,
  if◌then◌else◌,
}
use gomake.Error.{Err}
use gomake.Target.{Target}
use gomake.Targets.{Targets}
use gomake.Cli.Trace.{Step}

-- The loop of `complete`: the words, or none when the last word is a target that is suggested.
unfoldable pub complete_words : Str → Str → List Target → Option (List Str)
complete_words partial before [] = some []
complete_words partial before (t ∷ ts) =
    let rest = complete_words partial before ts in
    if t.hidden
    then rest
    else if partial == [] || has_prefix t.name partial
    then if before == t.name then none else elim rest [ none ↦ none | some ws ↦ some (t.name ∷ ws) ]
    else rest

abbrev joined : Option (List Str) → Str
joined none = []
joined (some ws) = join b' ' ws

-- `complete`
unfoldable pub complete : List Str → List Target → Str
unfolding complete_words
complete [] ts = []
complete (a ∷ []) ts = []
complete (a ∷ b ∷ []) ts = []
complete (cmd ∷ partial ∷ before ∷ []) ts = joined (complete_words partial before ts)
complete (a ∷ b ∷ c ∷ d ∷ more) ts = []

-- The fields of `config` that `Main` reads.
pub record CliConfig : Type 0 where
  pub show_version : Bool
  pub show_complete : Bool
  pub show_check_config : Bool
  pub show_list : Bool
  pub show_help : Bool
  pub target : Str
  pub bin : Str
  pub src : Str
  pub args : List Str

-- What `os.Stat` finds at the temporary directory.
pub data Stat : Type 0 where
  dir : Stat
  other_file : Stat
  absent : Stat
  stat_failed : Err → Stat

-- A goMake: the files that are ignored, and the targets.
pub record GoMake : Type 0 where
  pub ignored : List Str
  pub targets : Targets

-- What the calls of one run give.
pub record World : Type 0 where
  pub new_config : Step CliConfig
  -- runComplete: a message, and an error or none
  pub run_complete : Str × Option Err
  pub built_ins : List Target
  pub comp_line : Bool
  pub stat_tmp : Stat
  pub make_tmp_dir : Option Err
  pub run_check_config : Step Str
  pub all_targets : Step (List Target)
  pub help_targets : List Target → Str
  pub help_usage : List Str → List Target → Step Str
  pub pre_runs : List (Step (Unit {0}))
  pub apply_external : Step (Unit {0})
  pub deliver_config : Option Target → Step (Unit {0})
  -- NewMakefile and Execute in runWithoutCompile
  pub new_makefile : Option Err
  pub run_direct : Step (Unit {0})
  pub new_go_make : Step GoMake
  pub ignore_warning : Str → Str
  pub compile : Step (Unit {0})
  pub execute_makefile : Step (Unit {0})
