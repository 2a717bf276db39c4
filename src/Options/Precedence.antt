-- ===== src/Options/Precedence.antt =====
-- Which source of a setting wins, `applyFileConfig` of internal/cli/config_file.go.
use gomake.Base.{
  Str, true, false, List, [], ◌∷◌, codes, not, ◌==◌, str_eq, contains, Option, none, some,
  if◌then◌else◌, ◌≡◌, ◌⊎◌, Bool-cases, subst, inl, inr, arith, refl, ap, ◌∙◌, sym,
}
use gomake.Base.Int.{ℤ, is_negative}
use gomake.Base.Path.{path_join}
use gomake.Env.{env_split, value_of}
use gomake.Error.{Sentinel, sentinel, wraps, nil, cons}
use gomake.Workspace.{Result, ok, err}
use gomake.ConfigFile.{FileConfig, merge_configs, timeout_setting, tmp_setting, pick_setting}
use gomake.ConfigFile.Load.{user_config_path, project_config_path, bin_name}
use gomake.Options.{
  Config, Flags, Calls, apply_file_config, user_config, with_user, with_project, with_settings,
  settle_timeout, tmp_key, settle_tmp,
}
use gomake.Options.Checked.{and_then-ok}

-- The first text of a list that is not empty.
unfoldable pub first_text : List Str → Str → Str
first_text [] default = default
first_text (s ∷ ss) default = if s == [] then first_text ss default else s

-- The first setting that is there, or none.
abbrev pub either : Option Str → Option Str → Option Str
either (some s) user = some s
either none user = user

-- The timeout comes from the option, else from the first file that sets it.
abbrev pub IsTimeout : Calls → Flags → Option Str → ℤ → Type 0
IsTimeout c f s timeout =
    ((contains f.given (codes "timeout") ≡ true) × (timeout ≡ f.timeout))
    ⊎ ((contains f.given (codes "timeout") ≡ false) × (s ≡ none) × (timeout ≡ f.timeout))
    ⊎ ((contains f.given (codes "timeout") ≡ false)
        × ((text : Str) × (s ≡ some text)
            × (c.parse_duration text ≡ ok timeout)
            × (is_negative timeout ≡ false)))

abbrev pub or_empty : Option Str → Str
or_empty none = []
or_empty (some s) = s

-- The temporary directory: the option, the environment, the setting, or the system's.
abbrev pub tmp_of : Calls → List Str → Str → Option Str → Str
tmp_of c env option s =
    first_text (option ∷ value_of (env_split env) tmp_key ∷ or_empty s ∷ [])
      (path_join c.temp_dir bin_name)

module _ (c : Calls) (env : List Str) (f : Flags) where
  settle_timeout-IsTimeout :
      (s : Option Str) (timeout : ℤ) → settle_timeout c f s ≡ ok timeout → IsTimeout c f s timeout
  settle_timeout-IsTimeout none timeout h = elim (Bool-cases (contains f.given (codes "timeout"))) [
    | inl e ↦ inl (e, ground (arith, e, h))
    | inr e ↦ inr (inl (e, refl, ground (arith, e, h)))
  ]
  settle_timeout-IsTimeout (some text) timeout h =
      elim (Bool-cases (contains f.given (codes "timeout"))) [
        | inl e ↦ inl (e, ground (arith, e, h))
        | inr e ↦
            (let (q, n) = go (c.parse_duration text) (ground (arith, e, h)) in
              inr (inr (e, (text, refl, q, n))))
      ]
    where
      go :
          (r : Result ℤ)
          → elim r [
            | err e ↦
                err (
                  wraps
                    (codes "settings.timeout")
                    (cons (sentinel Sentinel.cfg_parse) (cons e nil)))
            | ok dur ↦ if is_negative dur then err (sentinel Sentinel.inv_timeout) else ok dur
          ]
            ≡ ok timeout
          → (r ≡ ok timeout) × (is_negative timeout ≡ false)
      go (err e) x = absurd (cc)
      go (ok dur) x = (ground (arith, x), ground (arith, x))

  first_of :
      (tmp v d : Str) (s : Option Str)
      → (if not (tmp == [])
          then tmp
          else if not (v == [])
          then v
          else elim s [ none ↦ d | some t ↦ if t == [] then d else t ])
        ≡ first_text (tmp ∷ v ∷ or_empty s ∷ []) d
  unfolding first_text str_eq
  first_of (x ∷ tmp) v d s = refl
  first_of [] (x ∷ v) d s = refl
  first_of [] [] d none = refl
  first_of [] [] d (some []) = refl
  first_of [] [] d (some (x ∷ t)) = refl

  settle_tmp-tmp_of : (tmp : Str) (s : Option Str) → settle_tmp c env tmp s ≡ tmp_of c env tmp s
  settle_tmp-tmp_of tmp none =
      first_of tmp (value_of (env_split env) tmp_key) (path_join c.temp_dir bin_name) none
  settle_tmp-tmp_of tmp (some t) =
      first_of tmp (value_of (env_split env) tmp_key) (path_join c.temp_dir bin_name) (some t)

  ok_inj : (a b : Config) → ok a ≡ ok b → a ≡ b
  ok_inj a b e = cc

  either-eq : (user project : Option Str) → pick_setting user project ≡ either project user
  either-eq user none = refl
  either-eq user (some s) = refl

  -- When `applyFileConfig` succeeds, both files were read; the temporary directory is the first that
  -- is not empty of the option, the environment and the setting, and the system's otherwise; the
  -- timeout is that of the option if it is given, and else that of the setting if there is one. A
  -- setting is the project's, and the user's only where the project has none.
  pub apply_file_config-ok :
      (cfg out : Config)
      → apply_file_config c env f cfg ≡ ok out
      → (user : FileConfig) × (project : FileConfig) × (user_config c (user_config_path env)
          ≡ ok user)
        × (c.load (project_config_path cfg.src) ≡ ok project)
        × (out.tmp ≡ tmp_of c env cfg.tmp (either (tmp_setting project) (tmp_setting user)))
        × IsTimeout c f (either (timeout_setting project) (timeout_setting user)) out.timeout
  unfolding apply_file_config merge_configs
  apply_file_config-ok cfg out h =
      let (user, (e, h1)) =
        and_then-ok (user_config c (user_config_path env)) (with_user c env f cfg) out h in
      let (project, (e', h2)) =
        and_then-ok (c.load (project_config_path cfg.src)) (with_project c env f cfg user) out h1 in
      let (timeout, (e'', h3)) =
        and_then-ok (settle_timeout c f (merge_configs user project).timeout)
          (with_settings c env cfg user project) out h2 in
      let same = ok_inj _ out h3 in
      (
        user,
        project,
        e,
        e',
        ap (λ o. o.tmp) (sym same)
            ∙ settle_tmp-tmp_of cfg.tmp (merge_configs user project).tmp
            ∙ ap (tmp_of c env cfg.tmp) (either-eq (tmp_setting user) (tmp_setting project)),
        subst (IsTimeout c f (either (timeout_setting project) (timeout_setting user)))
            (ap (λ o. o.timeout) same)
            (subst (λ s. IsTimeout c f s timeout)
              (either-eq (timeout_setting user) (timeout_setting project))
              (settle_timeout-IsTimeout (merge_configs user project).timeout timeout e'')),
      )
