-- ===== src/ConfigFile/Deliver.antt =====
-- The block that is put before a target, `deliverTargetConfig` of internal/cli/config_file.go, with
-- the import paths of a project.
use gomake.Base.{
  Str, true, false, List, [], ◌∷◌, ◌++◌, codes, ◌==◌, str_eq, ◌||◌, ◌&&◌, Option, none, some,
  if◌then◌else◌, has_prefix, cut_prefix-append, append_assoc, ◌≡◌, ◌≢◌, ◌∙◌, sym, refl, arith,
}
use gomake.Error.{Sentinel, sentinel, wraps, nil, cons, is_err}
use gomake.Value.{Fields, is_empty}
use gomake.Target.{Target}
use gomake.Workspace.{FileInfo, Result, ok, err, root}
use gomake.ConfigFile.{imp_in_module, resolve_delivered, target_imp}
use gomake.ConfigFile.Delivered.{resolve_delivered-in_module}

-- What the calls give: os.Stat, os.Getwd, os.ReadFile, filepath.Rel (none for an error),
-- modfile.ModulePath and json.Marshal.
pub record Project : Type 0 where
  pub stat : Str → FileInfo
  pub wd : Result Str
  pub read : Str → Result Str
  pub rel : Str → Str → Option Str
  pub module_path : Str → Str
  pub marshal : Fields → Result Str

-- The import path of a directory of the module.
abbrev beside : Str → Option Str → Str
beside mod_path none = mod_path
beside mod_path (some p) =
    if p == codes "." || p == [] then mod_path else mod_path ++ (codes "/" ++ p)

module _ (project : Project) where
  abbrev local_of : Str → Str → Option (Result Str) → Option Str
  local_of src_dir mod_path none = none
  local_of src_dir mod_path (some (err e)) = some mod_path
  local_of src_dir mod_path (some (ok r)) = some (beside mod_path (project.rel r src_dir))

  -- `localImportPath`; `none` means that the fuel of `root` ran out.
  unfoldable pub local_import_path : Str → Str → Option Str
  local_import_path src_dir mod_path =
      if mod_path == []
      then some []
      else local_of src_dir mod_path (root project.stat project.wd src_dir [])

  abbrev module_of : Option (Result Str) → Option (Result Str)
  module_of none = none
  module_of (some (err e)) = if is_err Sentinel.no_go_mod e then some (ok []) else some (err e)
  module_of (some (ok mod_file)) = elim (project.read mod_file) [
    | err e ↦ some (err (wraps (codes "read module path") (cons e nil)))
    | ok content ↦ some (ok (project.module_path content))
  ]

  -- `moduleImportPath`
  unfoldable pub module_import_path : Str → Option (Result Str)
  module_import_path dir = module_of (root project.stat project.wd dir (codes "go.mod" ∷ []))

  -- The text that is stored, or none.
  abbrev stored : Option Fields → Result (Option Str)
  stored none = ok none
  stored (some blk) = elim (project.marshal blk) [
    | ok text ↦ ok (some text)
    | err e ↦ err (wraps [] (cons (sentinel Sentinel.cfg_parse) (cons e nil)))
  ]

  abbrev deliver_in :
      Target → Str → Option Str → Fields → Fields → List Target → Option (Result (Option Str))
  deliver_in t mod_imp none user tree tgts = none
  deliver_in t mod_imp (some local_imp) user tree tgts =
      some (stored (resolve_delivered t local_imp mod_imp user tree tgts))

  abbrev deliver_of :
      Str
      → Target
      → Option (Result Str)
      → Fields
      → Fields
      → List Target
      → Option (Result (Option Str))
  deliver_of src t none user tree tgts = none
  deliver_of src t (some (err e)) user tree tgts = some (err e)
  deliver_of src t (some (ok mod_imp)) user tree tgts =
      deliver_in t mod_imp (local_import_path src mod_imp) user tree tgts

  -- `deliverTargetConfig`: what it stores under ConfigMetaKey. `user` and `tree` are the targets of
  -- the two files.
  unfoldable pub deliver_target_config :
      Str → Option Target → Fields → Fields → List Target → Option (Result (Option Str))
  unfolding local_import_path module_import_path
  deliver_target_config src none user tree tgts = some (ok none)
  deliver_target_config src (some t) user tree tgts =
      if is_empty user && is_empty tree
      then some (ok none)
      else deliver_of src t (module_import_path src) user tree tgts

  has_prefix-append : (p s : Str) → has_prefix (p ++ s) p ≡ true
  unfolding has_prefix
  has_prefix-append p s = rw (has_prefix, cut_prefix-append p s) refl

  beside-in_module : (m : Str) (o : Option Str) → imp_in_module (beside m o) m ≡ true
  unfolding imp_in_module
  beside-in_module m none = ground arith
  beside-in_module m (some p) =
      ground (arith, has_prefix-append (m ++ codes "/") p, append_assoc m (codes "/") p)

  local_import_path-in_module :
      (src m l : Str) → m ≢ [] → local_import_path src m ≡ some l → imp_in_module l m ≡ true
  unfolding local_import_path
  local_import_path-in_module src m l n h =
      go (root project.stat project.wd src []) (ground (arith, n, h))
    where
      own : imp_in_module m m ≡ true
      own = beside-in_module m none

      go : (o : Option (Result Str)) → local_of src m o ≡ some l → imp_in_module l m ≡ true
      go none x = absurd (cc)
      go (some (err e)) x = ground (arith, x, own)
      go (some (ok r)) x = ground (arith, x, beside-in_module m (project.rel r src))

  -- A target of the project's own makefile is given nothing from the user's file: within a module
  -- with a path, and with targets in the file of the project, what is stored does not depend on it.
  pub deliver_target_config-own :
      (src m : Str) (t : Target) (user user' tree : Fields) (tgts : List Target)
      → t.imp_spec ≡ []
      → module_import_path src ≡ some (ok m)
      → m ≢ []
      → is_empty tree ≡ false
      → deliver_target_config src (some t) user tree tgts
        ≡ deliver_target_config src (some t) user' tree tgts
  unfolding deliver_target_config target_imp
  deliver_target_config-own src m t user user' tree tgts s e n f =
      skip user ∙ go (local_import_path src m) refl ∙ sym (skip user')
    where
      skip :
          (u : Fields)
          → deliver_target_config src (some t) u tree tgts
            ≡ deliver_in t m (local_import_path src m) u tree tgts
      skip u = ground (arith, e, f)

      go :
          (o : Option Str)
          → local_import_path src m ≡ o
          → deliver_in t m (local_import_path src m) user tree tgts
            ≡ deliver_in t m (local_import_path src m) user' tree tgts
      go none x = rw (x) refl
      go (some l) x =
          rw
            (
              x,
              resolve_delivered-in_module t l m user user' tree tgts n
                  (ground (arith, s, local_import_path-in_module src m l n x)),
            )
            refl
