-- ===== src/ConfigFile/Load.antt =====
-- Where the gomake.yaml files are, and how one is read, internal/cli/config_file.go.
use gomake.Base.{
  ℕ, Str, Bool, List, [], ◌++◌, codes, ◌==◌, str_eq, not, ◌&&◌, ltb, trim_space, Option, none, some,
  if◌then◌else◌, ◌≡◌, ◌⊎◌, inl, inr, sym, ap, ◌∙◌, Bool-cases, arith,
}
use gomake.Base.Int.{ℤ, pos, negsuc}
use gomake.Base.Path.{path_join}
use gomake.Env.{lookup_env}
use gomake.Error.{Sentinel, sentinel, wraps, nil, cons, is_err}
use gomake.Value.{end}
use gomake.Workspace.{Result, ok, err}
use gomake.ConfigFile.{FileConfig}

abbrev config_file_name : Str
config_file_name = codes "gomake.yaml"

abbrev pub bin_name : Str
bin_name = codes "gomake"

-- The value of a variable that is set and not empty.
abbrev set_value : Str × Bool → Option Str
set_value (v, found) = if found && not (v == []) then some v else none

-- `userConfigPath`
unfoldable pub user_config_path : List Str → Option Str
user_config_path env = elim (set_value (lookup_env env (codes "XDG_CONFIG_HOME"))) [
  | some base ↦ some (path_join (path_join base bin_name) config_file_name)
  | none ↦ elim (set_value (lookup_env env (codes "HOME"))) [
    | some home ↦
        some (path_join (path_join (path_join home (codes ".config")) bin_name) config_file_name)
    | none ↦ none
  ]
]

-- `projectConfigPath`
unfoldable pub project_config_path : Str → Str
project_config_path src_dir = path_join src_dir config_file_name

-- `&fileConfig{}`
abbrev pub empty_config : FileConfig
empty_config = record { version = none; settings = none; targets = end }

-- `configSchemaVersion`
abbrev pub config_schema_version : ℕ
config_schema_version = 1

-- The checks of the version.
abbrev checked : FileConfig → Option ℤ → Result FileConfig
checked cfg none = err (sentinel Sentinel.cfg_version)
checked cfg (some (negsuc n)) = err (sentinel Sentinel.cfg_version)
checked cfg (some (pos n)) =
    if ltb n 1
    then err (sentinel Sentinel.cfg_version)
    else if ltb config_schema_version n
    then err (wraps [] (cons (sentinel Sentinel.cfg_version_new) nil))
    else ok cfg

-- `decode` is the strict YAML decoder, on content that is not blank.
module _ (decode : Str → Result FileConfig) where
  -- `parseConfigFile`
  unfoldable pub parse_config_file : Str → Result FileConfig
  parse_config_file content =
      if trim_space content == [] then ok empty_config else elim (decode content) [
        | err e ↦ err (wraps [] (cons (sentinel Sentinel.cfg_parse) (cons e nil)))
        | ok cfg ↦ checked cfg cfg.version
      ]

  -- What `loadConfigFile` makes of the content.
  abbrev located : Str → Result FileConfig → Result FileConfig
  located pth (ok cfg) = ok cfg
  located pth (err e) = err (wraps pth (cons e nil))

  -- `loadConfigFile`; `read` is os.ReadFile.
  unfoldable pub load_config_file : (Str → Result Str) → Str → Result FileConfig
  unfolding parse_config_file
  load_config_file read pth = elim (read pth) [
    | err e ↦
        if is_err Sentinel.not_exist e
        then ok empty_config
        else err (wraps (codes "read " ++ pth) (cons e nil))
    | ok content ↦ located pth (parse_config_file content)
  ]

  checked-version :
      (c cfg : FileConfig) (v : Option ℤ)
      → checked c v ≡ ok cfg
      → (c ≡ cfg) × (v ≡ some (pos config_schema_version))
  checked-version c cfg none h = absurd (cc)
  checked-version c cfg (some (negsuc n)) h = absurd (cc)
  checked-version c cfg (some (pos n)) h = ground (arith, h)

  parse_config_file-version :
      (content : Str) (cfg : FileConfig)
      → parse_config_file content ≡ ok cfg
      → (cfg ≡ empty_config) ⊎ (cfg.version ≡ some (pos config_schema_version))
  unfolding parse_config_file
  parse_config_file-version content cfg h = elim (Bool-cases (trim_space content == [])) [
    | inl e ↦ inl (ground (arith, e, h))
    | inr e ↦ go (decode content) (ground (arith, e, h))
  ]
    where
      go :
          (r : Result FileConfig)
          → elim r [
            | err e ↦ err (wraps [] (cons (sentinel Sentinel.cfg_parse) (cons e nil)))
            | ok c ↦ checked c c.version
          ]
            ≡ ok cfg
          → (cfg ≡ empty_config) ⊎ (cfg.version ≡ some (pos config_schema_version))
      go (err e) x = absurd (cc)
      go (ok c) x =
          let r = checked-version c cfg c.version x in inr (ap (λ d. d.version) (sym r.0) ∙ r.1)

  -- A configuration that is loaded is the empty one, or its version is the one that is supported,
  -- for every content and every decoder.
  pub load_config_file-version :
      (read : Str → Result Str) (pth : Str) (cfg : FileConfig)
      → load_config_file read pth ≡ ok cfg
      → (cfg ≡ empty_config) ⊎ (cfg.version ≡ some (pos config_schema_version))
  unfolding load_config_file
  load_config_file-version read pth cfg h = go (read pth) h
    where
      inner : (r : Result FileConfig) → located pth r ≡ ok cfg → r ≡ ok cfg
      inner (ok c) x = x
      inner (err e) x = absurd (cc)

      go :
          (r : Result Str)
          → elim r [
            | err e ↦
                if is_err Sentinel.not_exist e
                then ok empty_config
                else err (wraps (codes "read " ++ pth) (cons e nil))
            | ok content ↦ located pth (parse_config_file content)
          ]
            ≡ ok cfg
          → (cfg ≡ empty_config) ⊎ (cfg.version ≡ some (pos config_schema_version))
      go (err e) x = inl (ground (arith, x))
      go (ok content) x =
          parse_config_file-version content cfg (inner (parse_config_file content) x)
