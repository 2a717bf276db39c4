-- ===== src/Prepare/Tidy.antt =====
-- What `prepare` of internal/cli/helpers.go leaves behind.
use gomake.Base.{
  codes, Str, true, List, [], ◌∷◌, ◌++◌, All, All-append, contains, ◌==◌, str_eq, Option, none,
  some, ◌≡◌, ◌⊎◌, inl, inr, refl, ap, sym, ◌∙◌, ==_refl, arith, Bool-cases,
}
use gomake.Base.Path.{path_join, path_base, dir}
use gomake.Error.{Err, Sentinel, is_err}
use gomake.Sources.{makefile_main, select_makefiles}
use gomake.Workspace.{Result, ok, err, file_exists}
use gomake.Prepare.{
  Act, make_dir, write_file, edit_work, edit_mod, remove_all, Build, ◌>>=◌, ◌>>◌, give, act, check,
  Pkg, CompUnit, Calls, copy, and_mod, and_work, and_modules, write_user, work_sum, makefile_user,
  makefile_gen, makefile_bin, forbid, stat_main, copy_makefile, copy_makefiles, copy_work, copy_sum,
  with_main, unit, fill, or_remove, in_new_dir, prepare,
}

-- An act inside the build directory.
abbrev pub IsInner : Act → Type 0
IsInner (make_dir d) = ⊥
IsInner (remove_all d) = ⊥
IsInner (write_file p s) = Unit
IsInner (edit_work p) = Unit
IsInner (edit_mod p) = Unit

pub bind-IsInner {ℓ κ} :
    {A : Type ℓ} {B : Type κ} (m : Build A) (f : A → Build B)
    → All IsInner m.0
    → ((a : A) → All IsInner (f a).0)
    → All IsInner (m >>= f).0
bind-IsInner (t, ok a) f h k = All-append IsInner t (f a).0 h (k a)
bind-IsInner (t, err e) f h k = h

pub bind-ok {ℓ κ} :
    {A : Type ℓ} {B : Type κ} (m : Build A) (f : A → Build B) (b : B)
    → (m >>= f).1 ≡ ok b
    → (a : A) × ((f a).1 ≡ ok b)
bind-ok (t, ok a) f b h = (a, h)
bind-ok (t, err e) f b h = absurd (cc)

pub act-IsInner : (a : Act) (o : Option Err) → IsInner a → All IsInner (act a o).0
act-IsInner a none h = (h, tt)
act-IsInner a (some e) h = (h, tt)

module _ (c : Calls) where
  copy-IsInner : (from to : Str) → All IsInner (copy c from to).0
  copy-IsInner from to =
      bind-IsInner (give (c.read from)) (λ s. act (write_file to s) (c.write to s)) tt
        (λ s. act-IsInner (write_file to s) (c.write to s) tt)

  copy_makefiles-IsInner :
      (src d : Str) (names : List Str) → All IsInner (copy_makefiles c src d names).0
  unfolding copy_makefiles
  copy_makefiles-IsInner src d [] = tt
  copy_makefiles-IsInner src d (name ∷ names) =
      bind-IsInner (copy_makefile c src d name) (λ _. copy_makefiles c src d names)
        (bind-IsInner (give (c.read (path_join src name))) _ tt (λ s. act-IsInner _ _ tt))
        (λ _. copy_makefiles-IsInner src d names)

  work_sum-IsInner : (d work : Str) → All IsInner (work_sum c work d).0
  work_sum-IsInner d work = elim (Bool-cases (file_exists (c.stat (work ++ codes ".sum")))) [
    | inl x ↦ rw (x) (copy-IsInner (work ++ codes ".sum") (path_join d (codes "go.work.sum")))
    | inr x ↦ rw (x) tt
  ]

  copy_work-IsInner : (d work : Str) → All IsInner (copy_work c d work).0
  copy_work-IsInner d work = elim (Bool-cases (work == [])) [
    | inl x ↦ rw (x) tt
    | inr x ↦ rw (x) (
        bind-IsInner (copy c work (path_join d (codes "go.work")))
          (λ _. act (edit_work (path_join d (codes "go.work"))) c.edit_go_work >> work_sum c work d)
          (copy-IsInner work (path_join d (codes "go.work")))
          (λ _.
            bind-IsInner (act (edit_work (path_join d (codes "go.work"))) c.edit_go_work)
              (λ _. work_sum c work d)
              (act-IsInner (edit_work (path_join d (codes "go.work"))) c.edit_go_work tt)
              (λ _. work_sum-IsInner d work)))
  ]

  copy_sum-IsInner : (d : Str) (r : Result Str) → All IsInner (copy_sum c d r).0
  copy_sum-IsInner d (ok s) = act-IsInner _ _ tt
  copy_sum-IsInner d (err e) = elim (Bool-cases (is_err Sentinel.not_exist e)) [
    | inl x ↦ rw (x) tt
    | inr x ↦ rw (x) tt
  ]

  fill-IsInner :
      (src d : Str) (pkg : Pkg) (names ignored : List Str)
      → All IsInner (fill c src d pkg names ignored).0
  unfolding fill
  fill-IsInner src d pkg names ignored =
      bind-IsInner (copy_makefiles c src d names) (λ _. write_user c d >> and_modules c d pkg cu)
        (copy_makefiles-IsInner src d names)
        (λ _.
          bind-IsInner (write_user c d) (λ _. and_modules c d pkg cu)
            (act-IsInner (write_file (path_join d makefile_user) c.user_source)
              (c.write (path_join d makefile_user) c.user_source) tt)
            (λ _. modules))
    where
      cu : CompUnit
      cu = unit c d names ignored

      last : All IsInner (and_mod c d cu).0
      last =
          bind-IsInner (act (edit_mod (path_join d (codes "go.mod"))) c.edit_go_mod)
            (λ _. give (ok cu))
            (act-IsInner (edit_mod (path_join d (codes "go.mod"))) c.edit_go_mod tt) (λ _. tt)

      work : (w : Str) → All IsInner (and_work c d pkg cu w).0
      work w =
          let sum = c.read (path_join (dir pkg.mod_path) (codes "go.sum")) in
          bind-IsInner (copy_work c d w) (λ _. copy_sum c d sum >> and_mod c d cu)
            (copy_work-IsInner d w)
            (λ _.
              bind-IsInner (copy_sum c d sum) (λ _. and_mod c d cu) (copy_sum-IsInner d sum)
                (λ _. last))

      modules : All IsInner (and_modules c d pkg cu).0
      modules =
          bind-IsInner (copy c pkg.mod_path (path_join d (codes "go.mod")))
            (λ _. give (c.find_go_work (dir pkg.mod_path)) >>= and_work c d pkg cu)
            (copy-IsInner pkg.mod_path (path_join d (codes "go.mod")))
            (λ _.
              bind-IsInner (give (c.find_go_work (dir pkg.mod_path))) (and_work c d pkg cu) tt work)

  fill-ok :
      (src d : Str) (pkg : Pkg) (names ignored : List Str) (cu : CompUnit)
      → (fill c src d pkg names ignored).1 ≡ ok cu
      → cu ≡ unit c d names ignored
  unfolding fill
  fill-ok src d pkg names ignored cu h =
      let (_, h1) =
        bind-ok (copy_makefiles c src d names) (λ _. write_user c d >> and_modules c d pkg cu') cu
          h in
      let (_, h2) = bind-ok (write_user c d) (λ _. and_modules c d pkg cu') cu h1 in
      let (_, h3) =
        bind-ok (copy c pkg.mod_path (path_join d (codes "go.mod")))
          (λ _. give (c.find_go_work (dir pkg.mod_path)) >>= and_work c d pkg cu') cu h2 in
      let (work, h4) =
        bind-ok (give (c.find_go_work (dir pkg.mod_path))) (and_work c d pkg cu') cu h3 in
      let (_, h5) = bind-ok (copy_work c d work) (λ _. copy_sum c d sum >> and_mod c d cu') cu h4 in
      let (_, h6) = bind-ok (copy_sum c d sum) (λ _. and_mod c d cu') cu h5 in
      let (_, h7) =
        bind-ok (act (edit_mod (path_join d (codes "go.mod"))) c.edit_go_mod) (λ _. give (ok cu'))
          cu h6 in
      same h7
    where
      cu' : CompUnit
      cu' = unit c d names ignored

      sum : Result Str
      sum = c.read (path_join (dir pkg.mod_path) (codes "go.sum"))

      same : ok cu' ≡ ok cu → cu ≡ cu'
      same e = cc

  -- How a run ends: with no directory, with one that is removed again, or with one that stays.
  abbrev pub IsTidy : Build CompUnit → Type 0
  IsTidy (t, err e) =
      (t ≡ [])
      ⊎ ((d : Str) × (inner : List Act) × (t ≡ make_dir d ∷ (inner ++ (remove_all d ∷ [])))
          × All IsInner inner)
  IsTidy (t, ok cu) =
      (inner : List Act) × (t ≡ make_dir cu.build_dir ∷ inner)
      × All IsInner inner
      × (contains cu.mkf_names makefile_main ≡ true)

  with_main-contains : (names : List Str) → contains (with_main c names) makefile_main ≡ true
  unfolding contains
  with_main-contains names = elim (Bool-cases (contains names makefile_main)) [
    | inl x ↦ rw (x) x
    | inr x ↦ rw (x) (ground (arith, ==_refl makefile_main))
  ]

  in_new_dir-IsTidy : (src : Str) (pkg : Pkg) (r : Result Str) → IsTidy (in_new_dir c src pkg r)
  in_new_dir-IsTidy src pkg (err e) = inl refl
  in_new_dir-IsTidy src pkg (ok d) =
      ended (fill c src d pkg names (select_makefiles path_base pkg.files).1)
        (fill-IsInner src d pkg names (select_makefiles path_base pkg.files).1)
        (fill-ok src d pkg names (select_makefiles path_base pkg.files).1)
    where
      names : List Str
      names = with_main c (select_makefiles path_base pkg.files).0

      ended :
          (m : Build CompUnit)
          → All IsInner m.0
          → ((cu : CompUnit)
              → m.1 ≡ ok cu
              → cu ≡ unit c d names (select_makefiles path_base pkg.files).1)
          → IsTidy (act (make_dir d) none >> or_remove c d m)
      ended (t, err e) h f = inr (d, t, refl, h)
      ended (t, ok cu) h f = (
        t,
        ap (λ u. make_dir u.build_dir ∷ t) (sym (f cu refl)),
        h,
        ap (λ u. contains u.mkf_names makefile_main) (f cu refl)
            ∙ with_main-contains (select_makefiles path_base pkg.files).0,
      )

  check-IsTidy : (o : Option Err) (k : Build CompUnit) → IsTidy k → IsTidy (check o >> k)
  check-IsTidy none k h = h
  check-IsTidy (some e) k h = inl refl

  -- `prepare` leaves no build directory behind when it fails: either it made none, or it removes the
  -- one that it made, as its last act. When it succeeds, the directory that it made is that of the
  -- result and stays, all its other acts are files and edits in between, and makefile.go is one of the
  -- makefiles that are copied.
  pub prepare-IsTidy : (tmp src : Str) → IsTidy (prepare c tmp src)
  unfolding prepare
  prepare-IsTidy tmp src = check-IsTidy c.root (check main >> (check (no makefile_gen) >> no_bin)) (
      check-IsTidy main (check (no makefile_gen) >> no_bin) (
        check-IsTidy (no makefile_gen) no_bin (
          check-IsTidy (no makefile_bin) no_user
            (check-IsTidy (no makefile_user) packaged (by_package c.new_package)))))
    where
      no : Str → Option Err
      no name = forbid c src name

      main : Option Err
      main = stat_main c src (path_join src makefile_main) (c.stat (path_join src makefile_main))

      packaged : Build CompUnit
      packaged = give c.new_package >>= λ pkg. in_new_dir c src pkg (c.mkdir_temp tmp)

      no_user : Build CompUnit
      no_user = check (no makefile_user) >> packaged

      no_bin : Build CompUnit
      no_bin = check (no makefile_bin) >> no_user

      by_package :
          (r : Result Pkg) → IsTidy (give r >>= λ pkg. in_new_dir c src pkg (c.mkdir_temp tmp))
      by_package (ok pkg) = in_new_dir-IsTidy src pkg (c.mkdir_temp tmp)
      by_package (err e) = inl refl
