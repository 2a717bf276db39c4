-- ===== src/Cache/Subpath.antt =====
-- `isSubpath` on clean absolute paths, internal/cli/cache.go.
use gomake.Base.{
  Str, Bool, true, false, List, [], ◌∷◌, ◌++◌, All, All-append_right, ◌==◌, str_eq, has_prefix,
  has_suffix, cut_prefix, cut_prefix_sound, cut_prefix-append, split, join, split-join,
  split-append_sep, join-append, cut_suffix-append, cut_suffix_sound, cut_suffix, if◌then◌else◌,
  Option-cases, Bool-cases, inl, inr, ◌≡◌, ◌↔◌, ◌≢◌, refl, sym, ap, ◌∙◌, append_assoc, append-nil,
  arith, subst,
}
use gomake.Base.Path.{slash, rooted_path, IsElement, clean-rooted_path, Lacks-All, append-ne-nil}
use gomake.Cache.{is_subpath}

split-join_elements :
    (e : Str) (es : List Str) → All IsElement (e ∷ es) → split slash (join slash (e ∷ es)) ≡ e ∷ es
split-join_elements e es h = split-join slash e es (Lacks-All (e ∷ es) h)

-- A path of elements does not end in a slash.
join-ne-append :
    (e : Str) (es : List Str) (r : Str)
    → All IsElement (e ∷ es)
    → join slash (e ∷ es) ≢ r ++ (slash ∷ [])
unfolding split
join-ne-append e es r h x =
    (All-append_right IsElement (split slash r) ([] ∷ []) (
        subst (All IsElement)
          (sym (split-join_elements e es h) ∙ ap (split slash) x ∙ split-append_sep slash r [])
          h)).0.0
      refl

join-ne-nil : (e : Str) (es : List Str) → All IsElement (e ∷ es) → join slash (e ∷ es) ≢ []
unfolding split
join-ne-nil e es h x = h.0.0 (head-eq e es (sym (split-join_elements e es h) ∙ ap (split slash) x))
  where
    head-eq : (e : Str) (es : List Str) → e ∷ es ≡ [] ∷ [] → e ≡ []
    head-eq e es y = cc

tail-eq : (s t : Str) → slash ∷ s ≡ slash ∷ t → s ≡ t
tail-eq s t e = cc

has_suffix-rooted :
    (e : Str) (es : List Str)
    → All IsElement (e ∷ es)
    → has_suffix (rooted_path (e ∷ es)) (slash ∷ []) ≡ false
unfolding has_suffix
has_suffix-rooted e es h = elim (Option-cases (cut_suffix (rooted_path (e ∷ es)) (slash ∷ []))) [
  | inl n ↦ rw (has_suffix, n) refl
  | inr (r, n) ↦ absurd (go r (cut_suffix_sound (rooted_path (e ∷ es)) (slash ∷ []) r n))
]
  where
    go : (r : Str) → rooted_path (e ∷ es) ≡ r ++ (slash ∷ []) → ⊥
    go [] x = join-ne-nil e es h (cc)
    go (c ∷ r) x = join-ne-append e es r h (cc)

-- One path is below another, by their elements.
abbrev pub IsBelow : List Str → List Str → Type 0
IsBelow ps cs = (rest : List Str) × (cs ≡ ps ++ rest)

prefix-IsBelow :
    (p : Str) (ps cs : List Str)
    → All IsElement (p ∷ ps)
    → All IsElement cs
    → has_prefix (rooted_path cs) (rooted_path (p ∷ ps) ++ (slash ∷ [])) ≡ true
    → IsBelow (p ∷ ps) cs
unfolding has_prefix join
prefix-IsBelow p ps cs h k x =
    elim (Option-cases (cut_prefix (rooted_path cs) (rooted_path (p ∷ ps) ++ (slash ∷ [])))) [
      | inl n ↦ absurd (ground (arith, n, x))
      | inr (r, n) ↦ (
        split slash r,
        go cs r k (
            tail-eq (join slash cs) (join slash (p ∷ ps) ++ (slash ∷ r)) (
              cut_prefix_sound (rooted_path (p ∷ ps) ++ (slash ∷ [])) (rooted_path cs) r n
              ∙ append_assoc (rooted_path (p ∷ ps)) (slash ∷ []) r)),
      )
    ]
  where
    go :
        (cs : List Str) (r : Str)
        → All IsElement cs
        → join slash cs ≡ join slash (p ∷ ps) ++ (slash ∷ r)
        → cs ≡ (p ∷ ps) ++ split slash r
    go [] r k y = absurd (append-ne-nil (join slash (p ∷ ps)) slash r (sym y))
    go (c ∷ cs) r k y =
        sym (split-join_elements c cs k)
        ∙ ap (split slash) y
        ∙ split-append_sep slash (join slash (p ∷ ps)) r
        ∙ ap (λ t. t ++ split slash r) (split-join_elements p ps h)

append-prefix :
    (p : Str) (ps : List Str) (r : Str) (rs : List Str)
    → has_prefix (rooted_path ((p ∷ ps) ++ (r ∷ rs))) (rooted_path (p ∷ ps) ++ (slash ∷ [])) ≡ true
unfolding has_prefix
append-prefix p ps r rs =
    rw
      (
        has_prefix,
        join-append slash p r ps rs,
        sym (append_assoc (join slash (p ∷ ps)) (slash ∷ []) (join slash (r ∷ rs))),
        cut_prefix-append (rooted_path (p ∷ ps) ++ (slash ∷ [])) (join slash (r ∷ rs)),
      )
      refl

rooted_path_injective :
    (p : Str) (ps cs : List Str)
    → All IsElement (p ∷ ps)
    → All IsElement cs
    → rooted_path (p ∷ ps) ≡ rooted_path cs
    → p ∷ ps ≡ cs
unfolding join
rooted_path_injective p ps [] h k e = absurd (join-ne-nil p ps h (cc))
rooted_path_injective p ps (c ∷ cs) h k e =
    sym (split-join_elements p ps h)
    ∙ ap (split slash) (tail-eq (join slash (p ∷ ps)) (join slash (c ∷ cs)) e)
    ∙ split-join_elements c cs k

root_prefix : (s : Str) → has_prefix (slash ∷ s) (rooted_path []) ≡ true
unfolding has_prefix join
root_prefix s = rw (has_prefix, cut_prefix-append (slash ∷ []) s) refl

root_suffix : has_suffix (rooted_path []) (slash ∷ []) ≡ true
unfolding has_suffix join
root_suffix = rw (has_suffix, cut_suffix-append [] (slash ∷ [])) refl

module _ (ps cs : List Str) (h : All IsElement ps) (k : All IsElement cs) where
  abbrev below_test : Bool
  below_test =
      if rooted_path ps == rooted_path cs
      then true
      else has_prefix (rooted_path cs) (
          if has_suffix (rooted_path ps) (slash ∷ [])
          then rooted_path ps
          else rooted_path ps ++ (slash ∷ []))

  is_subpath-rooted : is_subpath (rooted_path ps) (rooted_path cs) ≡ below_test
  unfolding is_subpath
  is_subpath-rooted = rw (is_subpath, clean-rooted_path ps h, clean-rooted_path cs k) refl

-- On clean absolute paths, `isSubpath` compares the elements, not the bytes: the child's are the
-- parent's with any others behind them.
pub is_subpath_iff :
    (ps cs : List Str)
    → All IsElement ps
    → All IsElement cs
    → (is_subpath (rooted_path ps) (rooted_path cs) ≡ true) ↔ IsBelow ps cs
is_subpath_iff [] cs h k = (
  λ _. (cs, refl),
  λ _. ground (arith, is_subpath-rooted [] cs h k, root_suffix, root_prefix (join slash cs)),
)
is_subpath_iff (p ∷ ps) cs h k = (there, back)
  where
    there : is_subpath (rooted_path (p ∷ ps)) (rooted_path cs) ≡ true → IsBelow (p ∷ ps) cs
    there x = elim (Bool-cases (rooted_path (p ∷ ps) == rooted_path cs)) [
      | inl e ↦ (
        [],
        sym (rooted_path_injective p ps cs h k (ground (arith, e))) ∙ sym (append-nil (p ∷ ps)),
      )
      | inr e ↦
          prefix-IsBelow p ps cs h k
            (ground (arith, x, e, is_subpath-rooted (p ∷ ps) cs h k, has_suffix-rooted p ps h))
    ]

    back : IsBelow (p ∷ ps) cs → is_subpath (rooted_path (p ∷ ps)) (rooted_path cs) ≡ true
    back ([], e) = ground (arith, is_subpath-rooted (p ∷ ps) cs h k, e, append-nil (p ∷ ps))
    back (r ∷ rs, e) = ground (
      arith,
      is_subpath-rooted (p ∷ ps) cs h k,
      has_suffix-rooted p ps h,
      ap (λ t. has_prefix (rooted_path t) (rooted_path (p ∷ ps) ++ (slash ∷ []))) e,
      append-prefix p ps r rs,
    )
