-- ===== src/Imports/Merge.antt =====
-- What `MergeImports` keeps of several files.
use gomake.Base.{
  Str, List, [], ◌∷◌, ◌++◌, str_eq, nat_eq, append_assoc, append-nil, some, ◌≡◌, refl, arith, ◌⊎◌,
  inl, inr, ap, sym, ◌∙◌, All, All-append, All-imp, Distinct, subst, All-append_left,
  All-append_right,
}
use gomake.Base.Dict
use gomake.Base.Dict.{Dict}
use gomake.Imports.{
  ImportEntry, ImportsConfig, Result, ok, err, MergeError, pkg_path, Merging, merge_files, and_then,
  encoded, merge_imports,
}
use gomake.Imports.Loop.{
  Agree, Fits, InSync, Ran, entries, first_of, first_of-append, merge_entries_lem, or_else,
  packages,
}

All-extend :
    (merged ents rest : List ImportEntry)
    → Fits merged ents
    → All (λ x. first_of (pkg_path x) (merged ++ (ents ++ rest)) ≡ some x) ents
All-extend merged ents rest a =
    All-imp (λ x. first_of (pkg_path x) (merged ++ ents) ≡ some x)
      (λ x. first_of (pkg_path x) (merged ++ (ents ++ rest)) ≡ some x)
      (λ x q.
        rw (← append_assoc merged ents rest, first_of-append (pkg_path x) (merged ++ ents) rest, q)
          refl)
      ents a

first_of-known :
    (k : Str) (merged merged' ents rest : List ImportEntry)
    → first_of k merged' ≡ first_of k (merged ++ ents)
    → first_of k (merged' ++ rest) ≡ first_of k (merged ++ (ents ++ rest))
first_of-known k merged merged' ents rest h =
    rw
      (
        first_of-append k merged' rest,
        h,
        ← append_assoc merged ents rest,
        first_of-append k (merged ++ ents) rest,
      )
      refl

first_of-head :
    (x : ImportEntry) (pre xs : List ImportEntry)
    → first_of (pkg_path x) (pre ++ (x ∷ xs)) ≡ or_else (first_of (pkg_path x) pre) (some x)
unfolding first_of
first_of-head x pre xs = ground (arith, first_of-append (pkg_path x) pre (x ∷ xs))

Fits-restrict :
    (ents merged rest : List ImportEntry) → Fits merged (ents ++ rest) → Fits merged ents
Fits-restrict ents merged rest a = go ents merged (All-append_left _ ents rest a)
  where
    go :
        (xs pre : List ImportEntry)
        → All (λ x. first_of (pkg_path x) (pre ++ (xs ++ rest)) ≡ some x) xs
        → Fits pre xs
    go [] pre h = tt
    go (x ∷ xs) pre (h, hs) = (
      first_of-head x pre xs ∙ sym (first_of-head x pre (xs ++ rest)) ∙ h,
      subst (λ m. All (λ y. first_of (pkg_path y) m ≡ some y) xs) (append_assoc pre (x ∷ []) xs)
          (go xs (pre ++ (x ∷ [])) (
            subst (λ m. All (λ y. first_of (pkg_path y) m ≡ some y) xs)
              (sym (append_assoc pre (x ∷ []) (xs ++ rest))) hs)),
    )

Ran-join :
    (merged merged' ents rest : List ImportEntry) (r : Result Merging)
    → ((k : Str) → first_of k merged' ≡ first_of k (merged ++ ents))
    → (Distinct (packages merged) → Distinct (packages merged'))
    → Fits merged ents
    → Ran merged' rest r
    → Ran merged (ents ++ rest) r
Ran-join merged merged' ents rest r f d a (inl (seen'', merged'', e, s, f', d', a')) = inl (
  seen'',
  merged'',
  e,
  s,
  λ k. f' k ∙ first_of-known k merged merged' ents rest (f k),
  λ x. d' (d x),
  All-append _ ents rest (All-extend merged ents rest a) (
      All-imp (λ x. first_of (pkg_path x) (merged' ++ rest) ≡ some x)
        (λ x. first_of (pkg_path x) (merged ++ (ents ++ rest)) ≡ some x)
        (λ x q. sym (first_of-known (pkg_path x) merged merged' ents rest (f (pkg_path x))) ∙ q)
        rest a'),
)
Ran-join merged merged' ents rest r f d a (inr (e, q, no_fit)) = inr (
  e,
  q,
  λ fit. no_fit (
      All-imp (λ x. first_of (pkg_path x) (merged ++ (ents ++ rest)) ≡ some x)
        (λ x. first_of (pkg_path x) (merged' ++ rest) ≡ some x)
        (λ x p. first_of-known (pkg_path x) merged merged' ents rest (f (pkg_path x)) ∙ p) rest
        (All-append_right _ ents rest fit)),
)

merge_files_lem :
    (files : List (Str × ImportsConfig)) (seen : Dict Str (ImportEntry × Str))
    (merged : List ImportEntry)
    → InSync seen merged
    → Ran merged (entries files) (merge_files files (seen, merged))
unfolding merge_files
merge_files_lem [] seen merged s =
    inl (seen, merged, refl, s, λ k. ap (first_of k) (sym (append-nil merged)), λ d. d, tt)
merge_files_lem ((src, cfg) ∷ files) seen merged s =
    elim (merge_entries_lem cfg.imports src seen merged s) [
      | inr (e, q, no_fit) ↦
          rw (merge_files, q)
            (inr (e, refl, λ fit. no_fit (Fits-restrict cfg.imports merged (entries files) fit)))
      | inl (seen', merged', q, s', f, d, a) ↦
          rw (merge_files, q)
            (Ran-join merged merged' cfg.imports (entries files) _ f d a
              (merge_files_lem files seen' merged' s'))
    ]

nothing-InSync : InSync [] []
unfolding Dict.lookup first_of
nothing-InSync k = refl

encoded-ok :
    (imports : List ImportEntry) (r : Result Str) (cfg : ImportsConfig)
    → encoded imports r ≡ ok cfg
    → (raw : Str) × (r ≡ ok raw) × (cfg ≡ record { imports = imports; raw = some raw })
encoded-ok imports (err e) cfg h = absurd (cc)
encoded-ok imports (ok raw) cfg h = (raw, refl, cc)

encoded-err :
    (imports : List ImportEntry) (r : Result Str) (e : MergeError)
    → encoded imports r ≡ err e
    → r ≡ err e
encoded-err imports (err e') e h = cc
encoded-err imports (ok raw) e h = absurd (cc)

-- When two files or more are merged, no entry differs from the first one of its package, and the
-- result has one entry for each package of the files, that first one, and its encoding.
pub merge_imports-ok :
    (encode : List ImportEntry → Result Str) (f g : Str × ImportsConfig)
    (files : List (Str × ImportsConfig)) (cfg : ImportsConfig)
    → merge_imports encode (f ∷ g ∷ files) ≡ ok cfg
    → Agree (entries (f ∷ g ∷ files))
      × Distinct (packages cfg.imports)
      × ((k : Str) → first_of k cfg.imports ≡ first_of k (entries (f ∷ g ∷ files)))
      × ((raw : Str) × (encode cfg.imports ≡ ok raw) × (cfg.raw ≡ some raw))
unfolding merge_imports
merge_imports-ok encode f g files cfg h =
    elim (merge_files_lem (f ∷ g ∷ files) [] [] nothing-InSync) [
      | inr (e, q, no_fit) ↦ absurd (ground arith)
      | inl (seen', merged', q, s, same, d, a) ↦
          let (raw, enc, is) =
            encoded-ok merged' (encode merged') cfg (
              sym (ap (λ r. and_then r (λ (seen, merged). encoded merged (encode merged))) q)
              ∙ h) in
          let imps : cfg.imports ≡ merged' = ap (λ c. c.imports) is in
          (a, rw imps (d tt), rw imps same, (raw, rw imps enc, ap (λ c. c.raw) is))
    ]

-- Merging two files or more fails only if two entries of one package differ, or the encoder fails.
pub merge_imports-err :
    (encode : List ImportEntry → Result Str) (f g : Str × ImportsConfig)
    (files : List (Str × ImportsConfig)) (e : MergeError)
    → merge_imports encode (f ∷ g ∷ files) ≡ err e
    → (¬ Agree (entries (f ∷ g ∷ files))) ⊎ (imports : List ImportEntry) × (encode imports ≡ err e)
unfolding merge_imports
merge_imports-err encode f g files e h =
    elim (merge_files_lem (f ∷ g ∷ files) [] [] nothing-InSync) [
      | inr (e, q, no_fit) ↦ inl no_fit
      | inl (seen', merged', q, s, same, d, a) ↦ inr (
        merged',
        encoded-err merged' (encode merged') e
            (sym (ap (λ r. and_then r (λ (seen, merged). encoded merged (encode merged))) q) ∙ h),
      )
    ]
