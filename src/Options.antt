-- ===== src/Options.antt =====
-- The configuration of a run, internal/cli/config.go and `applyFileConfig` of
-- internal/cli/config_file.go: options, the environment and the gomake.yaml files.
pub mod Checked
pub mod Precedence
use gomake.Base.{
  ℕ, Str, Bool, true, false, List, [], ◌∷◌, ◌++◌, codes, ◌==◌, str_eq, not, ◌||◌, ◌&&◌, ltb,
  contains, length, Option, none, some, if◌then◌else◌,
}
use gomake.Base.Int.{ℤ, pos, is_negative, is_positive}
use gomake.Base.Path.{path_join, is_abs}
use gomake.Env.{env_split, value_of, get_goos, get_goarch}
use gomake.Error.{Err, Sentinel, sentinel, message, wraps, nil, cons}
use gomake.Value.{Fields, end}
use gomake.Workspace.{Result, ok, err}
use gomake.ConfigFile.{FileConfig, MergedConfig, merge_configs}
use gomake.ConfigFile.Load.{empty_config, bin_name, user_config_path, project_config_path}
use gomake.Cli.Calls.{CliConfig}

-- `config`, but for the flag set. A duration is a number of nanoseconds.
pub record Config : Type 0 where
  pub src : Str
  pub wd : Str
  pub tmp : Str
  pub bin : Str
  pub timeout : ℤ
  pub show_help : Bool
  pub show_list : Bool
  pub show_version : Bool
  pub show_complete : Bool
  pub show_check_config : Bool
  pub goos : Str
  pub goarch : Str
  pub version : Str
  pub args : List Str
  pub target : Str
  pub user_targets : Fields
  pub project_targets : Fields

-- What the flag set holds after its `Parse`: the values, with the defaults of the options that are
-- not given, the names of those that are, and the arguments that are left.
pub record Flags : Type 0 where
  pub src : Str
  pub wd : Str
  pub tmp : Str
  pub bin : Str
  pub timeout : ℤ
  pub help : Bool
  pub list : Bool
  pub version : Bool
  pub complete : Bool
  pub check_config : Bool
  pub given : List Str
  pub left : List Str

-- The flag that a *xflag.ParseError names, if the error is one.
pub data FlagResult : Type 0 where
  parsed : Flags → FlagResult
  refused : Option Str → Err → FlagResult

-- The calls of `parse`.
pub record Calls : Type 0 where
  -- os.Getwd and os.TempDir
  pub getwd : Result Str
  pub temp_dir : Str
  pub parse_flags : List Str → FlagResult
  -- loadConfigFile
  pub load : Str → Result FileConfig
  -- time.ParseDuration and Duration.String
  pub parse_duration : Str → Result ℤ
  pub duration_text : ℤ → Str
  -- PathExists
  pub exists : Str → Bool

abbrev pub tmp_key : Str
tmp_key = codes "GOMAKE_TMP_DIR"

abbrev pub and_then {ℓ κ} : {A : Type ℓ} {B : Type κ} → Result A → (A → Result B) → Result B
and_then (ok a) f = f a
and_then (err e) f = err e

-- A path as seen from the working directory.
abbrev pub absolute : Str → Str → Str
absolute wd p = if not (is_abs p) then path_join wd p else p

module _ (c : Calls) where
  abbrev pub user_config : Option Str → Result FileConfig
  user_config none = ok empty_config
  user_config (some pth) = c.load pth

  -- The timeout of the settings, for an option that is not given.
  abbrev pub settle_timeout : Flags → Option Str → Result ℤ
  settle_timeout f none = ok f.timeout
  settle_timeout f (some text) =
      if contains f.given (codes "timeout") then ok f.timeout else elim (c.parse_duration text) [
        | err e ↦
            err (wraps (codes "settings.timeout") (cons (sentinel Sentinel.cfg_parse) (cons e nil)))
        | ok dur ↦ if is_negative dur then err (sentinel Sentinel.inv_timeout) else ok dur
      ]

  abbrev pub or_default : Option Str → Str
  or_default none = path_join c.temp_dir bin_name
  or_default (some tmp) = if tmp == [] then path_join c.temp_dir bin_name else tmp

  -- The temporary directory, without that of the settings for none.
  abbrev pub settle_tmp : List Str → Str → Option Str → Str
  settle_tmp env tmp setting =
      if not (tmp == [])
      then tmp
      else if not (value_of (env_split env) tmp_key == [])
      then value_of (env_split env) tmp_key
      else or_default setting

  abbrev pub with_settings : List Str → Config → FileConfig → FileConfig → ℤ → Result Config
  with_settings env cfg user project timeout = ok (record cfg {
    timeout = timeout;
    tmp = settle_tmp env cfg.tmp (merge_configs user project).tmp;
    user_targets = user.targets;
    project_targets = project.targets;
  })

  abbrev pub with_project : List Str → Flags → Config → FileConfig → FileConfig → Result Config
  with_project env f cfg user project =
      and_then (settle_timeout f (merge_configs user project).timeout)
        (with_settings env cfg user project)

  abbrev pub with_user : List Str → Flags → Config → FileConfig → Result Config
  with_user env f cfg user =
      and_then (c.load (project_config_path cfg.src)) (with_project env f cfg user)

  -- `applyFileConfig`
  unfoldable pub apply_file_config : List Str → Flags → Config → Result Config
  apply_file_config env f cfg = and_then (user_config (user_config_path env)) (with_user env f cfg)

  -- The arguments for the makefile.
  abbrev pub flag_if : Bool → List Str → List Str
  flag_if b xs = if b then xs else []

  abbrev pub makefile_args : Str → Config → List Str → List Str
  makefile_args wd cfg left =
      flag_if (not (cfg.wd == []) && not (cfg.wd == wd)) (codes "--wd" ∷ cfg.wd ∷ [])
      ++ (flag_if (is_positive cfg.timeout) (codes "--timeout" ∷ c.duration_text cfg.timeout ∷ [])
          ++ (flag_if cfg.show_help (codes "--help" ∷ [])
              ++ (flag_if cfg.show_list (codes "--list" ∷ [])
                  ++ (flag_if cfg.show_version (codes "--version" ∷ []) ++ left))))

  abbrev pub first_arg : List Str → Str
  first_arg [] = []
  first_arg (a ∷ as_left) = a

  -- The checks of `--bin`.
  abbrev pub check_bin : Str → Config → Result Config
  check_bin wd cfg =
      if cfg.bin == []
      then ok cfg
      else let bin = absolute wd cfg.bin in
        if c.exists bin
        then err (wraps bin (cons (sentinel Sentinel.bin_exists) nil))
        else if cfg.show_help
        then err (message (codes "-h, --help cannot be used with --bin"))
        else if cfg.show_version
        then err (message (codes "--version cannot be used with --bin"))
        else if cfg.show_list
        then err (message (codes "--list cannot be used with --bin"))
        else if is_positive cfg.timeout
        then err (message (codes "--timeout cannot be used with --bin"))
        else if not (cfg.target == [])
        then err (message (codes "--bin cannot be used with targets"))
        else ok (record cfg { bin = bin })

  -- What follows the settings.
  abbrev pub finish : Str → List Str → Config → Result Config
  finish wd left cfg =
      if is_negative cfg.timeout
      then err (sentinel Sentinel.inv_timeout)
      else if not (is_abs cfg.tmp)
      then err (wraps cfg.tmp (cons (sentinel Sentinel.not_abs) nil))
      else check_bin wd (record cfg { target = first_arg left; args = makefile_args wd cfg left })

  -- `--version` reads no file.
  abbrev pub settled : List Str → Flags → Config → Result Config
  settled env f cfg =
      if cfg.show_version
      then ok (record cfg { tmp = settle_tmp env cfg.tmp none })
      else apply_file_config env f cfg

  -- The fields behind the call of the flag set.
  abbrev pub with_flags : Config → Flags → Config
  with_flags cfg f = record cfg {
    src = f.src;
    wd = f.wd;
    tmp = f.tmp;
    bin = f.bin;
    timeout = f.timeout;
    show_help = f.help;
    show_list = f.list;
    show_version = f.version;
    show_complete = f.complete;
    show_check_config = f.check_config;
  }

  abbrev pub parse_in : List Str → Str → Config → Flags → Result Config
  parse_in env wd cfg f =
      if f.complete
      then if ltb 1 (length f.given) || ltb 0 (length f.left)
        then err (message (codes "--complete must be the only option"))
        else ok (with_flags cfg f)
      else if is_negative f.timeout
      then err (sentinel Sentinel.inv_timeout)
      else and_then
          (settled env f
            (record (with_flags cfg f) { src = absolute wd f.src; wd = absolute wd f.wd }))
          (finish wd f.left)

  abbrev pub flags_read : List Str → Str → Config → FlagResult → Result Config
  flags_read env wd cfg (parsed f) = parse_in env wd cfg f
  flags_read env wd cfg (refused none e) = err e
  flags_read env wd cfg (refused (some name) e) =
      if name == codes "timeout" then err (sentinel Sentinel.inv_timeout) else err e

  -- `parse`
  unfoldable pub parse : List Str → List Str → Config → Result Config
  unfolding apply_file_config
  parse env args cfg = elim c.getwd [
    | err e ↦ err (wraps (codes "config") (cons e nil))
    | ok wd ↦ flags_read env wd cfg (c.parse_flags args)
  ]

  -- `newConfig`
  unfoldable pub new_config : Str → Str → Str → List Str → List Str → Result Config
  unfolding parse
  new_config goos goarch ver env args = parse env args (record {
    src = [];
    wd = [];
    tmp = [];
    bin = [];
    timeout = pos 0;
    show_help = false;
    show_list = false;
    show_version = false;
    show_complete = false;
    show_check_config = false;
    goos = get_goos goos env;
    goarch = get_goarch goarch env;
    version = ver;
    args = [];
    target = [];
    user_targets = end;
    project_targets = end;
  })

-- What `Main` reads of it.
abbrev pub cli_config : Config → CliConfig
cli_config cfg = record {
  show_version = cfg.show_version;
  show_complete = cfg.show_complete;
  show_check_config = cfg.show_check_config;
  show_list = cfg.show_list;
  show_help = cfg.show_help;
  target = cfg.target;
  bin = cfg.bin;
  src = cfg.src;
  args = cfg.args;
}
