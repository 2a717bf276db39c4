-- ===== src/Prepare.antt =====
-- The build directory of a makefile, `prepare` of internal/cli/helpers.go: what it does to the file
-- system, in order, on every way out.
pub mod Tidy
use gomake.Base.{
  Str, Bool, true, false, List, [], ◌∷◌, ◌++◌, codes, ◌==◌, str_eq, not, contains, Option, none,
  some, if◌then◌else◌,
}
use gomake.Base.Path.{path_join, path_base, dir}
use gomake.Error.{Err, Sentinel, sentinel, message, wraps, nil, cons, is_err}
use gomake.Sources.{makefile_main, select_makefiles}
use gomake.Sources.Tags.{Expr, strip_build_tag}
use gomake.Workspace.{FileInfo, absent, unreadable, Result, ok, err, path_exists, file_exists}

-- What it does to the file system; an edit is one of go.work or of go.mod by the Go toolchain.
pub data Act : Type 0 where
  make_dir : Str → Act
  write_file : Str → Str → Act
  edit_work : Str → Act
  edit_mod : Str → Act
  remove_all : Str → Act

abbrev pub Build {ℓ} : Type ℓ → Type ℓ
Build A = List Act × Result A

infixl 5 ◌>>=◌ ◌>>◌
abbrev after {ℓ κ} : {A : Type ℓ} {B : Type κ} → List Act → Result A → (A → Build B) → Build B
after t (ok a) f = (t ++ (f a).0, (f a).1)
after t (err e) f = (t, err e)

abbrev pub ◌>>=◌ {ℓ κ} : {A : Type ℓ} {B : Type κ} → Build A → (A → Build B) → Build B
m >>= f = after m.0 m.1 f

abbrev pub ◌>>◌ {ℓ κ} : {A : Type ℓ} {B : Type κ} → Build A → Build B → Build B
m >> k = m >>= λ _. k

abbrev pub give {ℓ} : {A : Type ℓ} → Result A → Build A
give r = ([], r)

-- A call that acts and may fail.
abbrev pub act : Act → Option Err → Build (Unit {0})
act a none = (a ∷ [], ok tt)
act a (some e) = (a ∷ [], err e)

abbrev pub check : Option Err → Build (Unit {0})
check none = ([], ok tt)
check (some e) = ([], err e)

-- `Package` and its `module`, as far as `prepare` reads them.
pub record Pkg : Type 0 where
  pub files : List Str
  pub mod_spec : Str
  pub mod_dir : Str
  pub mod_path : Str

-- `compUnit`
pub record CompUnit : Type 0 where
  pub build_dir : Str
  pub main_gen : Str
  pub main_bin : Str
  pub main_user : Str
  pub mkf_names : List Str
  pub ignored : List Str

-- The calls of `prepare`.
pub record Calls : Type 0 where
  -- the error of Root
  pub root : Option Err
  pub stat : Str → FileInfo
  pub new_package : Result Pkg
  pub mkdir_temp : Str → Result Str
  pub read : Str → Result Str
  pub write : Str → Str → Option Err
  pub parse_constraint : Str → Option Expr
  pub find_go_work : Str → Result Str
  pub edit_go_work : Option Err
  pub edit_go_mod : Option Err
  -- parser.TgsUserEmptySrc
  pub user_source : Str

abbrev pub makefile_gen : Str
makefile_gen = codes "makefile_gen.go"

abbrev pub makefile_bin : Str
makefile_bin = codes "makefile"

abbrev pub makefile_user : Str
makefile_user = codes "makefile_user.go"

module _ (c : Calls) where
  abbrev pub stat_main : Str → Str → FileInfo → Option Err
  stat_main src pth absent = some (wraps src (cons (sentinel Sentinel.no_makefile) nil))
  stat_main src pth (unreadable e) = some (wraps (codes "stat " ++ pth) (cons e nil))
  stat_main src pth i = none

  abbrev pub forbid : Str → Str → Option Err
  forbid src name =
      if path_exists (c.stat (path_join src name))
      then some (message (codes "source directory must not contain file " ++ name))
      else none

  -- Copies a file as it is.
  abbrev pub copy : Str → Str → Build (Unit {0})
  copy from to = do content ← give (c.read from); act (write_file to content) (c.write to content)

  abbrev pub copy_makefile : Str → Str → Str → Build (Unit {0})
  copy_makefile src build_dir name = do
    content ← give (c.read (path_join src name))
    let text = strip_build_tag c.parse_constraint content in
        let dst = path_join build_dir (path_base (path_join src name)) in
        act (write_file dst text) (c.write dst text)

  unfoldable pub copy_makefiles : Str → Str → List Str → Build (Unit {0})
  copy_makefiles src build_dir [] = give (ok tt)
  copy_makefiles src build_dir (name ∷ names) =
      copy_makefile src build_dir name >> copy_makefiles src build_dir names

  abbrev pub work_sum : Str → Str → Build (Unit {0})
  work_sum work build_dir =
      if file_exists (c.stat (work ++ codes ".sum"))
      then copy (work ++ codes ".sum") (path_join build_dir (codes "go.work.sum"))
      else give (ok tt)

  -- The go.work file that applies, if there is one.
  abbrev pub copy_found : Str → Str → Build (Unit {0})
  copy_found build_dir work =
      copy work (path_join build_dir (codes "go.work"))
      >> (act (edit_work (path_join build_dir (codes "go.work"))) c.edit_go_work
          >> work_sum work build_dir)

  abbrev pub copy_work : Str → Str → Build (Unit {0})
  copy_work build_dir work = if not (work == []) then copy_found build_dir work else give (ok tt)

  -- The go.sum file, which may be missing.
  abbrev pub copy_sum : Str → Result Str → Build (Unit {0})
  copy_sum build_dir (ok content) =
      let dst = path_join build_dir (codes "go.sum") in
      act (write_file dst content) (c.write dst content)
  copy_sum build_dir (err e) = if is_err Sentinel.not_exist e then give (ok tt) else give (err e)

  -- The makefiles to copy: makefile.go is always one of them.
  abbrev pub with_main : List Str → List Str
  with_main names = if contains names makefile_main then names else makefile_main ∷ names

  abbrev pub unit : Str → List Str → List Str → CompUnit
  unit build_dir names ignored = record {
    build_dir = build_dir;
    main_gen = path_join build_dir makefile_gen;
    main_bin = path_join build_dir makefile_bin;
    main_user = path_join build_dir makefile_user;
    mkf_names = names;
    ignored = ignored;
  }

  -- The steps that follow the creation of the directory, from the last one to the first.
  abbrev pub and_mod : Str → CompUnit → Build CompUnit
  and_mod build_dir cu =
      act (edit_mod (path_join build_dir (codes "go.mod"))) c.edit_go_mod >> give (ok cu)

  abbrev pub and_work : Str → Pkg → CompUnit → Str → Build CompUnit
  and_work build_dir pkg cu work =
      copy_work build_dir work
      >> (copy_sum build_dir (c.read (path_join (dir pkg.mod_path) (codes "go.sum")))
          >> and_mod build_dir cu)

  abbrev pub and_modules : Str → Pkg → CompUnit → Build CompUnit
  and_modules build_dir pkg cu =
      copy pkg.mod_path (path_join build_dir (codes "go.mod"))
      >> (give (c.find_go_work (dir pkg.mod_path)) >>= and_work build_dir pkg cu)

  abbrev pub write_user : Str → Build (Unit {0})
  write_user build_dir =
      act (write_file (path_join build_dir makefile_user) c.user_source)
        (c.write (path_join build_dir makefile_user) c.user_source)

  unfoldable pub fill : Str → Str → Pkg → List Str → List Str → Build CompUnit
  unfolding copy_makefiles
  fill src build_dir pkg names ignored =
      copy_makefiles src build_dir names
      >> (write_user build_dir >> and_modules build_dir pkg (unit build_dir names ignored))

  -- The deferred removal.
  abbrev pub or_remove : Str → Build CompUnit → Build CompUnit
  or_remove d (t, ok cu) = (t, ok cu)
  or_remove d (t, err e) = (t ++ (remove_all d ∷ []), err e)

  abbrev pub in_new_dir : Str → Pkg → Result Str → Build CompUnit
  in_new_dir src pkg (err e) = ([], err e)
  in_new_dir src pkg (ok d) =
      let (keep, ignored) = select_makefiles path_base pkg.files in
      act (make_dir d) none >> or_remove d (fill src d pkg (with_main keep) ignored)

  -- `prepare`
  unfoldable pub prepare : Str → Str → Build CompUnit
  unfolding fill
  prepare tmp src = do
    check c.root
    check (stat_main src (path_join src makefile_main) (c.stat (path_join src makefile_main)))
    check (forbid src makefile_gen)
    check (forbid src makefile_bin)
    check (forbid src makefile_user)
    pkg ← give c.new_package
    in_new_dir src pkg (c.mkdir_temp tmp)
