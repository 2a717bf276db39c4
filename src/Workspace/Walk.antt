-- ===== src/Workspace/Walk.antt =====
-- Searches from a directory toward the root of the file system: `Root`, `findModuleRoot` and the
-- loop of `findGoWorkValue`.
use mathlib.Core.List.{reverse, reverse-append}
use gomake.Base.{
  ℕ, zero, suc, Str, List, [], ◌∷◌, ◌++◌, length, length-append, All, All-append, some, arith, ◌≡◌,
  ◌≢◌, ◌<◌, subst, ap, ◌∙◌, sym, refl,
}
use gomake.Base.Path.{
  dir, clean, clean-rooted_path, dir-append, dir-root, rooted_path, IsElement, length-rooted_path,
  dir-append_lt,
}
use gomake.Error.{Err}
use gomake.Workspace.{Probe, found, missing, broken, Walked, at, nowhere, stopped, walk, walk_up}

reverse-cons : (c : Str) (es : List Str) → reverse (c ∷ es) ≡ reverse es ++ (c ∷ [])
reverse-cons c es = reverse-append (c ∷ []) es

pub reverse-All : (es : List Str) → All IsElement es → All IsElement (reverse es)
reverse-All [] h = tt
reverse-All (c ∷ es) h =
    subst (All IsElement) (sym (reverse-cons c es))
      (All-append IsElement (reverse es) (c ∷ []) (reverse-All es h.1) (h.0, tt))

length-reverse : (es : List Str) → length (reverse es) ≡ length es
length-reverse [] = refl
length-reverse (c ∷ es) =
    omega
      (arith, ap length (reverse-cons c es), length-append (reverse es) (c ∷ []), length-reverse es)

module _ (c : Str) (es : List Str) (h : All IsElement (c ∷ es)) where
  up-eq : dir (rooted_path (reverse (c ∷ es))) ≡ rooted_path (reverse es)
  up-eq =
      ap (λ r. dir (rooted_path r)) (reverse-cons c es)
      ∙ dir-append (reverse es) c (reverse-All es h.1) h.0.1.1.1

  up-ne : dir (rooted_path (reverse (c ∷ es))) ≢ rooted_path (reverse (c ∷ es))
  up-ne e = omega (
    arith,
    subst (λ r. length (dir (rooted_path r)) < length (rooted_path r)) (sym (reverse-cons c es))
        (dir-append_lt (reverse es) c (reverse-All es h.1) h.0),
    ap length e,
  )

module _ (probe : Str → Probe) where
  -- The nearest ancestor where a file is found, unless a test fails on the way. The elements of the
  -- directory are listed from the last one.
  unfoldable pub nearest : List Str → Walked
  nearest [] = elim (probe (rooted_path [])) [
    | found ↦ at (rooted_path [])
    | missing ↦ nowhere
    | broken e ↦ stopped e
  ]
  nearest (c ∷ es) = elim (probe (rooted_path (reverse (c ∷ es)))) [
    | found ↦ at (rooted_path (reverse (c ∷ es)))
    | missing ↦ nearest es
    | broken e ↦ stopped e
  ]

  walk-nearest :
      (fuel : ℕ) (es : List Str)
      → All IsElement es
      → length es < fuel
      → walk probe fuel (rooted_path (reverse es)) ≡ some (nearest es)
  unfolding walk nearest
  walk-nearest zero es h l = absurd (omega (arith, l))
  walk-nearest (suc fuel) [] h l = ground (arith, dir-root)
  walk-nearest (suc fuel) (c ∷ es) h l =
      ground (arith, up-eq c es h, up-ne c es h, walk-nearest fuel es h.1 (omega (arith, l)))

  -- The searches of the program end for every directory, with what the nearest ancestor has.
  pub walk_up-nearest :
      (es : List Str)
      → All IsElement es
      → walk_up probe (rooted_path (reverse es)) ≡ some (nearest es)
  unfolding walk_up
  walk_up-nearest es h =
      walk-nearest (suc (length (rooted_path (reverse es)))) es h
        (omega (arith, length-reverse es, length-rooted_path (reverse es)))

  -- Where a search ends, the file is found.
  pub walk-found : (fuel : ℕ) (d e : Str) → walk probe fuel d ≡ some (at e) → probe e ≡ found
  unfolding walk
  walk-found zero d e h = absurd (cc)
  walk-found (suc fuel) d e h = ground (arith, walk-found fuel (dir d) e)

  pub nearest-clean : (es : List Str) (d : Str) → All IsElement es → nearest es ≡ at d → clean d ≡ d
  unfolding nearest
  nearest-clean [] d h e = ground (arith, clean-rooted_path [] tt)
  nearest-clean (c ∷ es) d h e =
      ground (
        arith,
        nearest-clean es d h.1,
        clean-rooted_path (reverse (c ∷ es)) (reverse-All (c ∷ es) h),
      )

  pub nearest-ne-nil : (es : List Str) (d : Str) → nearest es ≡ at d → d ≢ []
  unfolding nearest
  nearest-ne-nil [] d e n = ground arith
  nearest-ne-nil (c ∷ es) d e n = ground (arith, nearest-ne-nil es d)

  -- A search whose rounds do not fail does not fail.
  pub nearest-ne-stopped :
      ((d : Str) (e : Err) → probe d ≢ broken e)
      → (es : List Str) (e : Err) → nearest es ≢ stopped e
  unfolding nearest
  nearest-ne-stopped h [] e n = ground (arith, h (rooted_path []) e)
  nearest-ne-stopped h (c ∷ es) e n =
      ground (arith, h (rooted_path (reverse (c ∷ es))) e, nearest-ne-stopped h es e)

-- Two rounds that agree find the same.
pub nearest-ext :
    (p q : Str → Probe) → ((d : Str) → p d ≡ q d) → (es : List Str) → nearest p es ≡ nearest q es
unfolding nearest
nearest-ext p q h [] = rw (nearest, h (rooted_path [])) refl
nearest-ext p q h (c ∷ es) =
    ground (arith, h (rooted_path (reverse (c ∷ es))), nearest-ext p q h es)
