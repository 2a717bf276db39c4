-- ===== src/CfgPath/Split.antt =====
-- What `splitPath` of pkg/gomake/config.go makes of a path.
use gomake.Base.{
  ℕ, zero, suc, Str, true, false, List, [], ◌∷◌, ◌++◌, ◌==◌, str_eq, nat_eq, cut, cut_prefix, join,
  Option, none, some, length, length-append, ◌≡◌, ◌≢◌, refl, arith, ◌⊎◌, inl, inr, Bool-cases,
  Option-cases, ap, Lacks, cut_sound, cut-append, cut-eq-none, cut_prefix_sound, append_assoc, ◌<◌,
  All,
}
use gomake.CfgPath.{
  empty_path, unterminated, boundary, Result, ok, err, quote, dot, prepend, split_loop, split_path,
}

abbrev Total : Option (Result (List Str)) → Type 0
Total o = (r : Result (List Str)) × (o ≡ some r)

prepend-Total : (seg : Str) (o : Option (Result (List Str))) → Total o → Total (prepend seg o)
prepend-Total seg none (r, h) = absurd (cc)
prepend-Total seg (some (err e)) h = (err e, refl)
prepend-Total seg (some (ok segs)) h = (ok (seg ∷ segs), refl)

length-cut : (b : ℕ) (s x y : Str) → cut b s ≡ some (x, y) → length y < length s
length-cut b s x y h = rw ((cut_sound b s x y h).0, length-append x (b ∷ y)) (omega arith)

split_loop-Total : (n : ℕ) (path s : Str) → length s < n → Total (split_loop n path s)
unfolding split_loop
split_loop-Total zero path s h = absurd (omega (arith, h))
split_loop-Total (suc n) path s h = elim (Option-cases (cut_prefix s (quote ∷ []))) [
  | inl e ↦ elim (Option-cases (cut dot s)) [
    | inl c ↦ rw (split_loop, e, c) (ok (s ∷ []), refl)
    | inr ((seg, rest), c) ↦
        rw (split_loop, e, c)
          (prepend-Total seg (split_loop n path rest)
            (split_loop-Total n path rest (omega (arith, h, length-cut dot s seg rest c))))
  ]
  | inr (q, e) ↦ elim (Option-cases (cut quote q)) [
    | inl c ↦ rw (split_loop, e, c) (err (unterminated path), refl)
    | inr ((seg, behind), c) ↦
        rw (split_loop, e, c)
          (go seg behind
            (omega (
              arith,
              h,
              length-cut quote q seg behind c,
              ap length (cut_prefix_sound (quote ∷ []) s q e),
            ))
            (split_loop-Total n path))
  ]
]
  where
    go :
        (seg behind : Str)
        → length behind < suc n
        → ((t : Str) → length t < n → Total (split_loop n path t))
        → Total (elim behind [
          | [] ↦ some (ok (seg ∷ []))
          | c ∷ rest ↦ elim (c == dot) [
            | true ↦ prepend seg (split_loop n path rest)
            | false ↦ some (err (boundary path))
          ]
        ])
    go seg [] l ih = (ok (seg ∷ []), refl)
    go seg (c ∷ rest) l ih = elim (Bool-cases (c == dot)) [
      | inl e ↦ rw e (prepend-Total seg (split_loop n path rest) (ih rest (omega (arith, l))))
      | inr e ↦ rw e (err (boundary path), refl)
    ]

-- `splitPath` ends on every path, with the segments or an error.
pub split_path_total : (path : Str) → (r : Result (List Str)) × (split_path path ≡ some r)
unfolding split_path
split_path_total path = elim (Bool-cases (path == [])) [
  | inl e ↦ rw (split_path, e) (err empty_path, refl)
  | inr e ↦ rw (split_path, e) (split_loop-Total (suc (length path)) path path (omega arith))
]

-- A segment is written as it is, if it has no dot and does not start with a quote, or in quotes, if
-- it has none in it.
abbrev pub IsWritten : Str × Str → Type 0
IsWritten (w, seg) =
    (w ≡ seg) × Lacks dot seg × (cut_prefix seg (quote ∷ []) ≡ none)
    ⊎ (w ≡ quote ∷ (seg ++ (quote ∷ []))) × Lacks quote seg

abbrev pub written : List (Str × Str) → List Str
written [] = []
written ((w, seg) ∷ ps) = w ∷ written ps

abbrev pub meant : List (Str × Str) → List Str
meant [] = []
meant ((w, seg) ∷ ps) = seg ∷ meant ps

cut_prefix-cons : (s : Str) → cut_prefix (quote ∷ s) (quote ∷ []) ≡ some s
unfolding cut_prefix
cut_prefix-cons s = ground arith

cut_prefix-before_dot :
    (s t : Str) → cut_prefix s (quote ∷ []) ≡ none → cut_prefix (s ++ (dot ∷ t)) (quote ∷ []) ≡ none
unfolding cut_prefix
cut_prefix-before_dot [] t h = ground arith
cut_prefix-before_dot (c ∷ s) t h = ground arith

split_loop-last :
    (n : ℕ) (path w seg : Str)
    → IsWritten (w, seg)
    → split_loop (suc n) path w ≡ some (ok (seg ∷ []))
unfolding split_loop
split_loop-last n path w seg (inl (e, l, p)) = rw e (rw (split_loop, p, cut-eq-none dot seg l) refl)
split_loop-last n path w seg (inr (e, l)) =
    rw e (rw (split_loop, cut_prefix-cons, cut-append quote seg [] l) refl)

split_loop-more :
    (n : ℕ) (path w seg t : Str)
    → IsWritten (w, seg)
    → split_loop (suc n) path (w ++ (dot ∷ t)) ≡ prepend seg (split_loop n path t)
unfolding split_loop nat_eq
split_loop-more n path w seg t (inl (e, l, p)) =
    rw e (rw (split_loop, cut_prefix-before_dot seg t p, cut-append dot seg t l) refl)
split_loop-more n path w seg t (inr (e, l)) = rw e (
    rw
      (
        append_assoc seg (quote ∷ []) (dot ∷ t),
        split_loop,
        cut_prefix-cons (seg ++ (quote ∷ (dot ∷ t))),
        cut-append quote seg (dot ∷ t) l,
      )
      refl)

split_loop-join :
    (ps : List (Str × Str)) (n : ℕ) (path w seg : Str)
    → IsWritten (w, seg)
    → All IsWritten ps
    → length (join dot (w ∷ written ps)) < n
    → split_loop n path (join dot (w ∷ written ps)) ≡ some (ok (seg ∷ meant ps))
unfolding join
split_loop-join ps zero path w seg h hs l = absurd (omega (arith, l))
split_loop-join [] (suc n) path w seg h hs l = split_loop-last n path w seg h
split_loop-join ((w', seg') ∷ ps) (suc n) path w seg h (h', hs) l =
    let shorter = length-append w (dot ∷ join dot (w' ∷ written ps)) in
    rw
      (
        split_loop-more n path w seg (join dot (w' ∷ written ps)) h,
        split_loop-join ps n path w' seg' h' hs (omega (arith, l, shorter)),
      )
      refl

-- Written segments, joined by dots, are read back, when the path is not empty.
pub split_path-join :
    (w seg : Str) (ps : List (Str × Str))
    → All IsWritten ((w, seg) ∷ ps)
    → join dot (w ∷ written ps) ≢ []
    → split_path (join dot (w ∷ written ps)) ≡ some (ok (seg ∷ meant ps))
unfolding split_path
split_path-join w seg ps (h, hs) ne =
    rw
      (split_loop-join ps (suc (length (join dot (w ∷ written ps)))) (join dot (w ∷ written ps)) w
        seg h hs (omega arith))
      (ground arith)
