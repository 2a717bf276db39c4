-- ===== src/Workspace/Roots.antt =====
-- The roots of modules and the go.work files that the searches find.
use mathlib.Core.List.{reverse}
use gomake.Base.{
  subst, sym, ap, Str, true, List, [], ◌∷◌, All, codes, ◌==◌, str_eq, if◌then◌else◌, Option, none,
  some, arith, ◌≡◌, ◌≢◌, ◌⊎◌, inl, inr, refl, Bool-cases, length, suc,
}
use gomake.Base.Path.{clean-rooted_path, path_join, rooted_path, IsElement, is_abs}
use gomake.Error.{Err, Sentinel, sentinel, wraps, nil, cons}
use gomake.Workspace.{
  FileInfo, regular, absent, Result, ok, err, Walked, at, nowhere, stopped, walk_up, root,
  go_mod_probe, any_go_mod, any_go_work, find_module_root, find_go_work_value, path_exists,
  file_exists, abs_path, join_all, rooted_at, found, broken, found_dir, found_work,
}
use gomake.Workspace.Walk.{
  nearest, walk_up-nearest, nearest-clean, nearest-ext, walk-found, nearest-ne-nil,
  nearest-ne-stopped, reverse-All,
}

-- The error of `Root` in a tree with no go.mod.
abbrev no_go_mod : Err
no_go_mod = wraps (codes "gomake: root") (cons (sentinel Sentinel.no_go_mod) nil)

-- What `Root` makes of the answer of `findModuleRoot`, where the empty text is for none.
abbrev pub root_of : Str → Result Str
root_of m = if m == [] then err no_go_mod else ok m

module _ (stat : Str → FileInfo) where
  -- No go.mod is anything but a regular file.
  abbrev pub IsRegular : Type 0
  IsRegular =
      (d : Str)
      → (stat (path_join d (codes "go.mod")) ≡ regular)
        ⊎ (stat (path_join d (codes "go.mod")) ≡ absent)

  go_mod-eq : IsRegular → (d : Str) → go_mod_probe stat d ≡ any_go_mod stat d
  go_mod-eq h d = elim (h d) [ inl e ↦ rw e refl | inr e ↦ rw e refl ]

  any_go_mod-ne-broken : (d : Str) (e : Err) → any_go_mod stat d ≢ broken e
  any_go_mod-ne-broken d e h = ground arith

  abbrev dir_of : Walked → Str
  dir_of (at d) = d
  dir_of nowhere = []
  dir_of (stopped e) = []

  rooted_at-eq :
      (es : List Str) (w : Walked)
      → All IsElement es
      → nearest (any_go_mod stat) es ≡ w
      → rooted_at stat [] (some w) ≡ some (root_of (dir_of w))
  unfolding join_all
  rooted_at-eq es (at d) h e =
      ground
        (arith, nearest-clean (any_go_mod stat) es d h e, nearest-ne-nil (any_go_mod stat) es d e)
  rooted_at-eq es nowhere h e = ground arith
  rooted_at-eq es (stopped x) h e =
      absurd (nearest-ne-stopped (any_go_mod stat) any_go_mod-ne-broken es x e)

  abs_path-rooted :
      (wd : Result Str) (es : List Str)
      → All IsElement es
      → abs_path wd (rooted_path es) ≡ ok (rooted_path es)
  unfolding abs_path is_abs
  abs_path-rooted wd es h = ground (arith, clean-rooted_path es h)

  found_dir-dir_of : (w : Walked) → found_dir stat (some w) ≡ some (dir_of w)
  found_dir-dir_of (at d) = refl
  found_dir-dir_of nowhere = refl
  found_dir-dir_of (stopped e) = refl

  -- The nearest directory with a go.mod, or the empty text for none, on the way up from a directory
  -- whose elements are listed from the last one.
  abbrev pub IsNearest : List Str → Str → Type 0
  IsNearest [] m =
      ((stat (path_join (rooted_path []) (codes "go.mod")) ≡ regular) × (m ≡ rooted_path []))
      ⊎ ((stat (path_join (rooted_path []) (codes "go.mod")) ≡ absent) × (m ≡ []))
  IsNearest (c ∷ es) m =
      ((stat (path_join (rooted_path (reverse (c ∷ es))) (codes "go.mod")) ≡ regular)
        × (m ≡ rooted_path (reverse (c ∷ es))))
      ⊎ ((stat (path_join (rooted_path (reverse (c ∷ es))) (codes "go.mod")) ≡ absent)
          × IsNearest es m)

  nearest-up :
      (c : Str) (es : List Str)
      → stat (path_join (rooted_path (reverse (c ∷ es))) (codes "go.mod")) ≡ absent
      → nearest (any_go_mod stat) (c ∷ es) ≡ nearest (any_go_mod stat) es
  unfolding nearest
  nearest-up c es e = rw (nearest, e) refl

  nearest-IsNearest :
      (es : List Str) → IsRegular → IsNearest es (dir_of (nearest (any_go_mod stat) es))
  unfolding nearest
  nearest-IsNearest [] r = elim (r (rooted_path [])) [
    | inl e ↦ inl (e, ground (arith, e))
    | inr e ↦ inr (e, ground (arith, e))
  ]
  nearest-IsNearest (c ∷ es) r = elim (r (rooted_path (reverse (c ∷ es)))) [
    | inl e ↦ inl (e, ground (arith, e))
    | inr e ↦
        inr (e, subst (IsNearest es) (sym (ap dir_of (nearest-up c es e))) (nearest-IsNearest es r))
  ]

  -- From every absolute path that is clean, both `findModuleRoot` and `Root` end. The one gives the
  -- nearest directory with a go.mod, from the path up to the root of the file system, or the empty
  -- text if there is none, and the other the same directory, or the error for no go.mod; if no go.mod
  -- is anything but a regular file.
  pub find_module_root-root :
      (wd : Result Str) (es : List Str)
      → All IsElement es
      → IsRegular
      → (m : Str) × (find_module_root stat (rooted_path (reverse es)) ≡ some m)
        × (root stat wd (rooted_path (reverse es)) [] ≡ some (root_of m))
        × IsNearest es m
  unfolding root find_module_root
  find_module_root-root wd es h r = (
    dir_of (nearest (any_go_mod stat) es),
    found_eq,
    rw
        (
          root,
          abs_path-rooted wd (reverse es) (reverse-All es h),
          walk_up-nearest (go_mod_probe stat) es h,
          nearest-ext (go_mod_probe stat) (any_go_mod stat) (go_mod-eq r) es,
        )
        (rooted_at-eq es (nearest (any_go_mod stat) es) h refl),
    nearest-IsNearest es r,
  )
    where
      found_eq :
          find_module_root stat (rooted_path (reverse es))
          ≡ some (dir_of (nearest (any_go_mod stat) es))
      found_eq =
          rw (find_module_root, walk_up-nearest (any_go_mod stat) es h)
            (found_dir-dir_of (nearest (any_go_mod stat) es))

  found_work-exists :
      (o : Option Walked) (pth : Str)
      → ((e : Str) → o ≡ some (at e) → any_go_work stat e ≡ found)
      → found_work stat o ≡ some (ok pth)
      → pth ≢ []
      → path_exists (stat pth) ≡ true
  found_work-exists none pth f h n = absurd (cc)
  found_work-exists (some (at d)) pth f h n = ground (arith, f d refl)
  found_work-exists (some nowhere) pth f h n = absurd (n (cc))
  found_work-exists (some (stopped e)) pth f h n = absurd (n (cc))

  file_exists-path_exists : (i : FileInfo) → file_exists i ≡ true → path_exists i ≡ true
  file_exists-path_exists i h = ground arith

  -- A go.work that `findGoWorkValue` reports exists, be it named by GOWORK or found on the way up,
  -- for every value of GOWORK and every directory.
  pub find_go_work_value-exists :
      (wd : Result Str) (gowork mod_root pth : Str)
      → find_go_work_value stat wd gowork mod_root ≡ some (ok pth)
      → pth ≢ []
      → path_exists (stat pth) ≡ true
  unfolding find_go_work_value walk_up
  find_go_work_value-exists wd gowork mod_root pth h n = elim (Bool-cases (gowork == [])) [
    | inl e ↦
        found_work-exists (walk_up (any_go_work stat) mod_root) pth
          (walk-found (any_go_work stat) (suc (length mod_root)) mod_root) (ground (arith, e, h)) n
    | inr e ↦ ground (arith, e, h, file_exists-path_exists (stat pth))
  ]
