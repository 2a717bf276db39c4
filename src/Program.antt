-- ===== src/Program.antt =====
-- The compiled program that runs targets, internal/mkf/makefile.go: `NewMakefile` and `Execute`. The
-- parser of flags and the texts of help are parameters.
pub mod Starts
use gomake.Base.{
  Str, Bool, true, false, List, [], ◌∷◌, codes, ◌==◌, str_eq, Option, none, some, if◌then◌else◌,
}
use gomake.Base.Int.{ℤ, is_negative, is_positive}
use gomake.Error.{Err, Sentinel, sentinel, message, wraps, cons, nil}
use gomake.Exec.{Found, found, Context, Wake, pick_target, run_target}
use gomake.Target.{Target}
use gomake.Workspace.{Result, ok, err}

-- The flags of a program, and the arguments behind them.
pub record Flags : Type 0 where
  pub wd : Str
  pub timeout : ℤ
  pub help : Bool
  pub version : Bool
  pub list : Bool
  pub left : List Str

-- `Parse` of the flag set; a refusal may name a flag.
pub data FlagResult : Type 0 where
  parsed : Flags → FlagResult
  refused : Option Str → Err → FlagResult

-- The targets that options stand for.
pub data OptionTarget : Type 0 where
  -- `fTgtVersion` and `fTgtList`
  version_target : Str → OptionTarget
  list_target : List Target → OptionTarget

-- `Makefile`
pub record Makefile : Type 0 where
  pub wd : Str
  pub timeout : ℤ
  pub targets : List Target
  pub args : List Str
  pub version : Str
  pub show_help : Bool
  pub option_target : Option OptionTarget

-- The options of `NewMakefile`: WithMakefileArgs and WithMakefileVersion.
pub record Settings : Type 0 where
  pub args : Option (List Str)
  pub version : Option Str

-- What `NewMakefile` calls: os.Getwd, the arguments of the process, and the parser of flags.
pub record Calls : Type 0 where
  pub getwd : Result Str
  pub os_args : List Str
  pub parse_flags : List Str → FlagResult

abbrev pub args_of : Calls → Option (List Str) → List Str
args_of c none = c.os_args
args_of c (some args) = args

abbrev pub version_of : Option Str → Str
version_of none = codes "unknown version"
version_of (some v) = v

abbrev pub option_of : Str → List Target → Flags → Option OptionTarget
option_of version tgs f =
    if f.help
    then none
    else if f.version
    then some (version_target version)
    else if f.list
    then some (list_target tgs)
    else none

abbrev pub ready : List Target → Str → Str → Flags → Makefile
ready tgs version wd f = record {
  wd = if f.wd == [] then wd else f.wd;
  timeout = f.timeout;
  targets = tgs;
  args = f.left;
  version = version;
  show_help = f.help;
  option_target = option_of version tgs f;
}

abbrev pub with_flags : List Target → Str → Str → FlagResult → Result Makefile
with_flags tgs version wd (refused none e) = err (wraps (codes "parsing flags") (cons e nil))
with_flags tgs version wd (refused (some name) e) =
    if name == codes "timeout"
    then err (wraps [] (cons (sentinel Sentinel.inv_timeout) (cons e nil)))
    else err (wraps (codes "parsing flags") (cons e nil))
with_flags tgs version wd (parsed f) =
    if is_negative f.timeout
    then err (sentinel Sentinel.inv_timeout)
    else ok (ready tgs version wd f)

abbrev pub in_wd : Calls → List Target → Settings → Result Str → Result Makefile
in_wd c tgs s (err e) = err (wraps (codes "working directory") (cons e nil))
in_wd c tgs s (ok wd) = with_flags tgs (version_of s.version) wd (c.parse_flags (args_of c s.args))

-- `NewMakefile`
unfoldable pub new_makefile : Calls → List Target → Settings → Result Makefile
new_makefile c tgs s = in_wd c tgs s c.getwd

-- What `Execute` does.
pub data Action : Type 0 where
  printed_help : Str → Action
  printed_version : Str → Action
  printed_list : List Target → Action
  -- a target, its arguments, its directory and its timeout, if it has one
  started : Target → List Str → Str → Option ℤ → Action

-- HelpUsage, and how the select of a run goes for a target with its timeout.
pub record World : Type 0 where
  pub help_usage : List Str → List Target → Result Str
  pub context : Target → Option ℤ → Context
  pub wake : Target → Option ℤ → Wake

abbrev pub deadline : ℤ → Option ℤ
deadline timeout = if is_positive timeout then some timeout else none

module _ (w : World) where
  abbrev pub helped : Result Str → List Action × Option Err
  helped (err e) = ([], some e)
  helped (ok help) = (printed_help help ∷ [], none)

  abbrev pub run_option : OptionTarget → List Action × Option Err
  run_option (version_target version) = (printed_version version ∷ [], none)
  run_option (list_target tgs) = (printed_list tgs ∷ [], none)

  abbrev pub run_picked : Makefile → Found × List Str → List Action × Option Err
  run_picked m (found t, args) = (
    started t args m.wd (deadline m.timeout) ∷ [],
    run_target (w.context t (deadline m.timeout)) (w.wake t (deadline m.timeout)),
  )
  run_picked m (Found.failed e, args) = ([], some e)

  abbrev pub option_or_run : Makefile → Option OptionTarget → List Action × Option Err
  option_or_run m (some o) = run_option o
  option_or_run m none = run_picked m (pick_target m.targets m.args)

  -- `Execute` of `Makefile`
  unfoldable pub execute : Makefile → List Action × Option Err
  unfolding pick_target run_target
  execute m =
      if m.show_help
      then helped (w.help_usage m.args m.targets)
      else option_or_run m m.option_target
