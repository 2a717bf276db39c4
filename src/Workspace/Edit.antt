-- ===== src/Workspace/Edit.antt =====
-- How the go.work and go.mod files of the build directory are edited, internal/cli/helpers.go. An
-- edit is a command of the Go toolchain, given as its arguments.
use gomake.Base.{
  Str, Bool, true, false, List, [], ◌∷◌, ◌++◌, map, codes, ◌==◌, str_eq, not, ◌&&◌, Option, none,
  some, if◌then◌else◌, trim_space, ◌≡◌, ◌≢◌, ◌⊎◌, inl, inr, arith, refl, ap, sym, ◌∙◌, Bool-cases,
  ==_iff, split, join, nat_eq,
}
use gomake.Base.Dict
use gomake.Base.Dict.{Dict}
use gomake.Base.Path.{
  path_join, clean, is_abs, is_abs-path_join, is_abs-clean, dot_path, clean_elements, render,
}
use gomake.Error.{Err, Sentinel, sentinel, wraps, nil, cons}
use gomake.Cache.{Replace, is_local_disk_path}

-- The directory of a use entry.
unfoldable pub use_path : Str → Str → Str
use_path work_dir dp =
    if is_abs dp
    then clean dp
    else if clean dp == dot_path
    then work_dir
    else clean (path_join work_dir dp)

-- What replaces a use entry, none to leave it.
unfoldable pub use_replacement : Str → Str → Str → Option Str
unfolding use_path
use_replacement mod_root work_dir dp =
    let pth = use_path work_dir dp in
    if not (mod_root == []) && pth == mod_root
    then if not (clean dp == dot_path) then some dot_path else none
    else if clean dp == dot_path
    then some pth
    else if is_abs dp
    then none
    else some pth

abbrev add_replacement : Option Str → Str → Dict Str Str → Dict Str Str
add_replacement none dp d = d
add_replacement (some to) dp d = Dict.insert dp to d

-- The map `replace` of `editGoWork`.
unfoldable pub use_replacements : Str → Str → List Str → Dict Str Str → Dict Str Str
unfolding use_replacement
use_replacements mod_root work_dir [] d = d
use_replacements mod_root work_dir (dp ∷ uses) d =
    use_replacements mod_root work_dir uses
      (add_replacement (use_replacement mod_root work_dir dp) dp d)

-- `go work edit` and `go mod edit` with these arguments.
abbrev pub Edit : Type 0
Edit = List Str

abbrev drop_use : Str × Str → Edit
drop_use (from, to) = codes "-dropuse" ∷ from ∷ []

abbrev add_use : Str × Str → Edit
add_use (from, to) = codes "-use" ∷ to ∷ []

abbrev old_spec : Replace → Str
old_spec rpl =
    if not (rpl.old_version == [])
    then rpl.old_path ++ (codes "@" ++ rpl.old_version)
    else rpl.old_path

abbrev pub in_dir : Str → Str → Str
in_dir d p = if not (is_abs p) then clean (path_join d p) else p

abbrev replace_edit : Str → Replace → Edit
replace_edit d rpl =
    (codes "-dropreplace=" ++ old_spec rpl)
    ∷ (codes "-replace=" ++ (old_spec rpl ++ (codes "=" ++ in_dir d rpl.new_path)))
    ∷ []

-- The edits of local replace targets in a go.work file, all of them.
unfoldable pub work_replaces : Str → List Replace → List Edit
work_replaces work_dir [] = []
work_replaces work_dir (rpl ∷ rpls) =
    let rest = work_replaces work_dir rpls in
    if not (is_local_disk_path rpl.new_path) then rest else replace_edit work_dir rpl ∷ rest

-- Those in a go.mod file, where the path is not absolute yet.
unfoldable pub mod_replaces : Str → List Replace → List Edit
mod_replaces dir [] = []
mod_replaces dir (rpl ∷ rpls) =
    let rest = mod_replaces dir rpls in
    if not (is_local_disk_path rpl.new_path)
    then rest
    else if in_dir dir rpl.new_path == rpl.new_path
    then rest
    else replace_edit dir rpl ∷ rest

-- The commands of `editGoWork`, in order: all drops come before all additions.
unfoldable pub work_edits : Str → Str → List Str → List Replace → List Edit
unfolding use_replacements work_replaces
work_edits mod_root work_dir uses rpls =
    let work_dir = clean work_dir in
    let replaced = use_replacements (clean mod_root) work_dir uses [] in
    map drop_use replaced ++ (map add_use replaced ++ work_replaces work_dir rpls)

-- `goEditErr`
unfoldable pub go_edit_err : Sentinel → Str → Str → Err → Err
go_edit_err s where_ out e =
    let detail = trim_space out in
    if detail == []
    then wraps where_ (cons (sentinel s) (cons e nil))
    else wraps (where_ ++ (codes ": " ++ detail)) (cons (sentinel s) (cons e nil))

-- A command of the toolchain, with its output and its error.
module _ (run : Edit → Str × Option Err) (s : Sentinel) (at_file : Str) where
  -- The commands up to the first that fails: those that ran, and the error.
  unfoldable pub run_edits : List Edit → List Edit × Option Err
  unfolding go_edit_err
  run_edits [] = ([], none)
  run_edits (e ∷ es) =
      let rest = run_edits es in
      elim ((run e).1) [
        | some x ↦ (e ∷ [], some (go_edit_err s at_file (run e).0 x))
        | none ↦ (e ∷ rest.0, rest.1)
      ]

-- The entry of a directory behind the edits.
abbrev pub new_use : Option Str → Str → Str
new_use none dp = dp
new_use (some to) dp = to

clean-dot : clean dot_path ≡ dot_path
unfolding clean is_abs clean_elements render split nat_eq str_eq join
clean-dot = refl

use_path-is_abs :
    (work_dir dp : Str) → is_abs work_dir ≡ true → is_abs (use_path work_dir dp) ≡ true
unfolding use_path
use_path-is_abs work_dir dp h = ground (
  arith,
  h,
  is_abs-clean dp,
  is_abs-clean (path_join work_dir dp),
  is_abs-path_join work_dir dp h,
)

is_abs-ne_nil : (p : Str) → is_abs p ≡ true → p ≢ []
unfolding is_abs
is_abs-ne_nil [] a e = absurd (cc)
is_abs-ne_nil (c ∷ p) a e = cc

use_path-abs : (work_dir dp : Str) → is_abs dp ≡ true → use_path work_dir dp ≡ clean dp
unfolding use_path
use_path-abs work_dir dp h = ground (arith, h)

-- The directory that a use entry stands for: an absolute path itself, the directory of the go.work
-- file for a dot, and else a path below it.
abbrev pub IsDirOf : Str → Str → Str → Type 0
IsDirOf work_dir dp d =
    ((is_abs dp ≡ true) × (d ≡ clean dp))
    ⊎ ((is_abs dp ≡ false) × (clean dp ≡ dot_path) × (d ≡ work_dir))
    ⊎ ((is_abs dp ≡ false) × (clean dp ≢ dot_path) × (d ≡ clean (path_join work_dir dp)))

use_path-IsDirOf : (work_dir dp : Str) → IsDirOf work_dir dp (use_path work_dir dp)
unfolding use_path
use_path-IsDirOf work_dir dp = elim (Bool-cases (is_abs dp)) [
  | inl a ↦ inl (a, ground (arith, a))
  | inr a ↦ elim (Bool-cases (clean dp == dot_path)) [
    | inl d ↦ inr (inl (a, (==_iff (clean dp) dot_path).0 d, ground (arith, a, d)))
    | inr d ↦ inr (inr (a, (λ e. cc (d, (==_iff (clean dp) dot_path).1 e)), ground (arith, a, d)))
  ]
]

-- Behind the edits, a use entry for the directory of the module is a dot, which is the build
-- directory, and an entry for any other directory is an absolute path to that one. The directory of
-- the workspace is absolute.
pub use_replacement_lem :
    (mod_root work_dir dp : Str)
    → is_abs work_dir ≡ true
    → (d : Str) × IsDirOf work_dir dp d
      × (((d ≡ mod_root) × (clean (new_use (use_replacement mod_root work_dir dp) dp) ≡ dot_path))
          ⊎ ((d ≢ mod_root)
              × (is_abs (new_use (use_replacement mod_root work_dir dp) dp) ≡ true)
              × ((d ≡ new_use (use_replacement mod_root work_dir dp) dp)
                  ⊎ (d ≡ clean (new_use (use_replacement mod_root work_dir dp) dp)))))
unfolding use_replacement
use_replacement_lem mod_root work_dir dp h = (
  use_path work_dir dp,
  use_path-IsDirOf work_dir dp,
  elim (Bool-cases (not (mod_root == []) && use_path work_dir dp == mod_root)) [
    | inl e ↦ elim (Bool-cases (clean dp == dot_path)) [
      | inl d ↦ inl (ground (arith, e), ap clean (left e d) ∙ (==_iff (clean dp) dot_path).0 d)
      | inr d ↦ inl (ground (arith, e), ap clean (dotted e d) ∙ clean-dot)
    ]
    | inr e ↦ elim (Bool-cases (clean dp == dot_path)) [
      | inl d ↦ inr (elsewhere e, ap is_abs (moved e d) ∙ own, inl (sym (moved e d)))
      | inr d ↦ elim (Bool-cases (is_abs dp)) [
        | inl a ↦ inr (
          elsewhere e,
          ap is_abs (kept e d a) ∙ a,
          inr (use_path-abs work_dir dp a ∙ ap clean (sym (kept e d a))),
        )
        | inr a ↦ inr (elsewhere e, ap is_abs (joined e d a) ∙ own, inl (sym (joined e d a)))
      ]
    ]
  ],
)
  where
    own : is_abs (use_path work_dir dp) ≡ true
    own = use_path-is_abs work_dir dp h

    new : Str
    new = new_use (use_replacement mod_root work_dir dp) dp

    Same : Bool → Type 0
    Same b = (not (mod_root == []) && use_path work_dir dp == mod_root) ≡ b

    elsewhere : Same false → use_path work_dir dp ≢ mod_root
    elsewhere e q = ground (arith, e, q, is_abs-ne_nil (use_path work_dir dp) own)

    left : Same true → (clean dp == dot_path) ≡ true → new ≡ dp
    left e d = rw (use_replacement, e, d) refl

    dotted : Same true → (clean dp == dot_path) ≡ false → new ≡ dot_path
    dotted e d = rw (use_replacement, e, d) refl

    moved : Same false → (clean dp == dot_path) ≡ true → new ≡ use_path work_dir dp
    moved e d = rw (use_replacement, e, d) refl

    kept : Same false → (clean dp == dot_path) ≡ false → is_abs dp ≡ true → new ≡ dp
    kept e d a = rw (use_replacement, e, d, a) refl

    joined :
        Same false → (clean dp == dot_path) ≡ false → is_abs dp ≡ false → new ≡ use_path work_dir dp
    joined e d a = rw (use_replacement, e, d, a) refl
