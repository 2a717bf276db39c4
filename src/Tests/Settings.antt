-- ===== src/Tests/Settings.antt =====
-- Options and the files of settings.
use gomake.Base.{
  Str, Bool, true, false, List, [], ◌∷◌, codes, ◌≡◌, ◌≢◌, ◌⊎◌, refl, inl, inr, arith, Option, none,
  some, str_eq, nat_eq, if◌then◌else◌, has_prefix, cut_prefix,
}
use gomake.Base.Int.{pos}
use gomake.Base.Path.{is_abs}
use gomake.Value.{Fields, field, end, obj, text}
use gomake.Target.{Target, new_target}
use gomake.Workspace.{FileInfo, regular, absent, Result, ok, err}
use gomake.ConfigFile.{FileConfig, FileSettings, timeout_setting, tmp_setting}
use gomake.ConfigFile.Load.{
  empty_config, load_config_file, load_config_file-version, config_schema_version, user_config_path,
  project_config_path,
}
use gomake.ConfigFile.Deliver.{
  Project, module_import_path, deliver_target_config, deliver_target_config-own,
}
use gomake.Options.{Config, Flags, parsed, Calls, parse, apply_file_config, user_config}
use gomake.Options.Checked.{IsResolved, IsBin, parse-IsResolved}
use gomake.Options.Precedence.{apply_file_config-ok, tmp_of, either, IsTimeout}

abbrev project_file : FileConfig
project_file = record {
  version = some (pos 1);
  settings = some (record { timeout = some (codes "5s"); tmp = some (codes "/var/tmp") });
  targets = end;
}

abbrev decode : Str → Result FileConfig
decode s = ok project_file

abbrev read : Str → Result Str
read p = ok (codes "version: 1")

loaded : load_config_file decode read (codes "/p/gomake.yaml") ≡ ok project_file
unfolding load_config_file str_eq gomake.Base.trim_space nat_eq
loaded = refl

load_config_file-version_example :
    (project_file ≡ empty_config) ⊎ (project_file.version ≡ some (pos config_schema_version))
load_config_file-version_example =
    load_config_file-version decode read (codes "/p/gomake.yaml") project_file loaded

-- No option is given, and one target.
abbrev flags : Flags
flags = record {
  src = [];
  wd = [];
  tmp = [];
  bin = [];
  timeout = pos 0;
  help = false;
  list = false;
  version = false;
  complete = false;
  check_config = false;
  given = [];
  left = codes "build" ∷ [];
}

abbrev calls : Calls
calls = record {
  getwd = ok (codes "/p");
  temp_dir = codes "/tmp";
  parse_flags = λ args. parsed flags;
  load = λ p. ok project_file;
  parse_duration = λ s. ok (pos 5);
  duration_text = λ d. codes "5s";
  exists = λ p. false;
}

abbrev start : Config
start = record {
  src = [];
  wd = [];
  tmp = [];
  bin = [];
  timeout = pos 0;
  show_help = false;
  show_list = false;
  show_version = false;
  show_complete = false;
  show_check_config = false;
  goos = codes "linux";
  goarch = codes "arm64";
  version = codes "v1";
  args = [];
  target = [];
  user_targets = end;
  project_targets = end;
}

abbrev settled_config : Config
settled_config = record start {
  src = codes "/p";
  wd = codes "/p";
  tmp = codes "/var/tmp";
  timeout = pos 5;
  target = codes "build";
  args = codes "--timeout" ∷ codes "5s" ∷ codes "build" ∷ [];
}

accepted : parse calls [] [] start ≡ ok settled_config
unfolding parse user_config_path gomake.Env.lookup_env gomake.ConfigFile.merge_configs
    gomake.Base.contains is_abs str_eq gomake.Base.Dict.lookup gomake.Env.env_split
    gomake.Env.env_split_ordered nat_eq gomake.Base.Path.path_join gomake.Base.Path.clean
    gomake.Base.Path.render gomake.Base.join gomake.Base.Path.clean_elements gomake.Base.split
accepted = refl

parse-IsResolved_example : IsResolved settled_config × IsBin calls settled_config
parse-IsResolved_example =
    parse-IsResolved calls (codes "/p") [] [] start settled_config refl
      (unfold is_abs in ground arith) accepted refl

abbrev applied_config : Config
applied_config = record start { tmp = codes "/var/tmp"; timeout = pos 5 }

applied : apply_file_config calls [] flags start ≡ ok applied_config
unfolding apply_file_config user_config_path gomake.Env.lookup_env gomake.ConfigFile.merge_configs
    gomake.Base.contains str_eq gomake.Base.Dict.lookup gomake.Env.env_split
    gomake.Env.env_split_ordered
applied = refl

apply_file_config-ok_example :
    (user : FileConfig) × (project : FileConfig) × (user_config calls (user_config_path [])
      ≡ ok user)
    × (calls.load (project_config_path []) ≡ ok project)
    × (applied_config.tmp ≡ tmp_of calls [] [] (either (tmp_setting project) (tmp_setting user)))
    × IsTimeout calls flags (either (timeout_setting project) (timeout_setting user)) (pos 5)
apply_file_config-ok_example = apply_file_config-ok calls [] flags start applied_config applied

-- A module m at /p.
abbrev project : Project
project = record {
  stat = λ p. if has_prefix p (codes "/p/go.mod") then regular else absent;
  wd = ok (codes "/p");
  read = read;
  rel = λ a b. some (codes ".");
  module_path = λ s. codes "m";
  marshal = λ fs. ok (codes "{}");
}

module_m : module_import_path project (codes "/p") ≡ some (ok (codes "m"))
unfolding module_import_path gomake.Workspace.root gomake.Workspace.abs_path is_abs nat_eq
    has_prefix cut_prefix gomake.Base.Path.path_join str_eq gomake.Base.Path.clean
    gomake.Base.Path.render gomake.Base.join gomake.Base.Path.clean_elements gomake.Base.split
module_m = refl

abbrev tree : Fields
tree = field (codes "m") (obj (field (codes "build") (text (codes "x")) end)) end

abbrev build : Target
build = record new_target { name = codes "build" }

deliver_target_config-own_example :
    deliver_target_config project (codes "/p") (some build) tree tree (build ∷ [])
    ≡ deliver_target_config project (codes "/p") (some build) end tree (build ∷ [])
deliver_target_config-own_example =
    deliver_target_config-own project (codes "/p") (codes "m") build tree end tree (build ∷ []) refl
      module_m (λ e. cc) refl
