-- ===== src/Options/Checked.antt =====
-- What holds of every configuration that `parse` of internal/cli/config.go accepts.
use gomake.Base.{
  Str, true, false, List, [], str_eq, none, some, ◌≡◌, ◌⊎◌, inl, inr, arith, refl, ap, ◌∙◌,
  Bool-cases,
}
use gomake.Base.Int.{is_negative, is_positive}
use gomake.Base.Path.{is_abs, is_abs-path_join}
use gomake.Workspace.{Result, ok, err}
use gomake.ConfigFile.{merge_configs}
use gomake.Options.{
  Config, Flags, FlagResult, parsed, refused, Calls, parse, apply_file_config, and_then, absolute,
  check_bin, finish, settled, parse_in, flags_read, first_arg, makefile_args, with_flags, with_user,
  with_project, with_settings, settle_timeout, user_config,
}
use gomake.ConfigFile.Load.{user_config_path, project_config_path}

-- The paths are absolute, and the timeout is not negative.
abbrev pub IsResolved : Config → Type 0
IsResolved cfg =
    (is_abs cfg.src ≡ true)
    × (is_abs cfg.wd ≡ true)
    × (is_abs cfg.tmp ≡ true)
    × (is_negative cfg.timeout ≡ false)

-- There is no `--bin`, or its path is absolute and new, and it stands with none of these.
abbrev pub IsBin : Calls → Config → Type 0
IsBin c cfg =
    (cfg.bin ≡ [])
    ⊎ ((is_abs cfg.bin ≡ true)
        × (c.exists cfg.bin ≡ false)
        × (cfg.show_help ≡ false)
        × (cfg.show_version ≡ false)
        × (cfg.show_list ≡ false)
        × (is_positive cfg.timeout ≡ false)
        × (cfg.target ≡ []))

pub and_then-ok {ℓ κ} :
    {A : Type ℓ} {B : Type κ} (r : Result A) (f : A → Result B) (b : B)
    → and_then r f ≡ ok b
    → (a : A) × ((r ≡ ok a) × (f a ≡ ok b))
and_then-ok (ok a) f b h = (a, (refl, h))
and_then-ok (err e) f b h = absurd (cc)

module _ (c : Calls) (wd : Str) (here : is_abs wd ≡ true) where
  absolute-is_abs : (p : Str) → is_abs (absolute wd p) ≡ true
  absolute-is_abs p = ground (arith, is_abs-path_join wd p here)

  check_bin-IsBin :
      (cfg out : Config)
      → IsResolved cfg
      → check_bin c wd cfg ≡ ok out
      → IsResolved out × IsBin c out
  check_bin-IsBin cfg out r h = ground (arith, absolute-is_abs cfg.bin, h, r)

  finish-IsBin :
      (left : List Str) (cfg out : Config)
      → is_abs cfg.src ≡ true
      → is_abs cfg.wd ≡ true
      → finish c wd left cfg ≡ ok out
      → IsResolved out × IsBin c out
  finish-IsBin left cfg out s w h = elim (Bool-cases (is_negative cfg.timeout)) [
    | inl n ↦ absurd (ground (arith, n, h))
    | inr n ↦ elim (Bool-cases (is_abs cfg.tmp)) [
      | inr t ↦ absurd (ground (arith, n, t, h))
      | inl t ↦
          check_bin-IsBin
            (record cfg { target = first_arg c left; args = makefile_args c wd cfg left }) out
            (s, w, t, n) (ground (arith, n, t, h))
    ]
  ]

  settled-eq :
      (env : List Str) (f : Flags) (cfg out : Config)
      → settled c env f cfg ≡ ok out
      → (out.src ≡ cfg.src) × (out.wd ≡ cfg.wd)
  unfolding apply_file_config
  settled-eq env f cfg out h = elim (Bool-cases cfg.show_version) [
    | inl v ↦ ground (arith, v, h)
    | inr v ↦
        let (user, (e, h1)) =
          and_then-ok (user_config c (user_config_path env)) (with_user c env f cfg) out
            (ground (arith, v, h)) in
        let (project, (e', h2)) =
          and_then-ok (c.load (project_config_path cfg.src)) (with_project c env f cfg user) out
            h1 in
        let (timeout, (e'', h3)) =
          and_then-ok (settle_timeout c f (merge_configs user project).timeout)
            (with_settings c env cfg user project) out h2 in
        ground (arith, h3)
  ]

  parse_in-IsBin :
      (env : List Str) (cfg out : Config) (f : Flags)
      → out.show_complete ≡ false
      → parse_in c env wd cfg f ≡ ok out
      → IsResolved out × IsBin c out
  parse_in-IsBin env cfg out f n h = elim (Bool-cases f.complete) [
    | inl e ↦ absurd (ground (arith, e, n, h))
    | inr e ↦ elim (Bool-cases (is_negative f.timeout)) [
      | inl t ↦ absurd (ground (arith, e, t, h))
      | inr t ↦
          let placed = record (with_flags c cfg f) {
            src = absolute wd f.src;
            wd = absolute wd f.wd;
          } in
          let (mid, (e1, e2)) =
            and_then-ok (settled c env f placed) (finish c wd f.left) out
              (ground (arith, e, t, h)) in
          let kept = settled-eq env f placed mid e1 in
          finish-IsBin f.left mid out (ap is_abs kept.0 ∙ absolute-is_abs f.src)
            (ap is_abs kept.1 ∙ absolute-is_abs f.wd) e2
    ]
  ]

-- Every configuration that `parse` accepts, but for that of `--complete`, has absolute paths for the
-- sources, the working directory and the temporary directory, and a timeout that is not negative;
-- with `--bin`, the path is absolute and does not exist, and neither help, version, list, a positive
-- timeout nor a target is asked for. The working directory of the process is absolute, as
-- os.Getwd gives it.
pub parse-IsResolved :
    (c : Calls) (wd : Str) (env args : List Str) (cfg out : Config)
    → c.getwd ≡ ok wd
    → is_abs wd ≡ true
    → parse c env args cfg ≡ ok out
    → out.show_complete ≡ false
    → IsResolved out × IsBin c out
unfolding parse
parse-IsResolved c wd env args cfg out g here h n = go (c.parse_flags args) (ground (arith, g, h))
  where
    go : (r : FlagResult) → flags_read c env wd cfg r ≡ ok out → IsResolved out × IsBin c out
    go (parsed f) x = parse_in-IsBin c wd here env cfg out f n x
    go (refused none e) x = absurd (cc)
    go (refused (some name) e) x = absurd (ground (arith, x))
