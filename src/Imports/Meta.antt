-- ===== src/Imports/Meta.antt =====
-- Duplicate paths, and what `applyExternalTargetMeta` leaves in the meta store.
use gomake.Base.{
  Str, true, false, List, [], ◌∷◌, ◌==◌, str_eq, nat_eq, map, Option, none, some, if◌then◌else◌,
  contains, ◌≡◌, ◌↔◌, refl, arith, inl, inr, Bool-cases, Option-cases, All, All-of_forall, Distinct,
  ==_iff, subst,
}
use gomake.Base.Dict
use gomake.Base.Dict.{Dict}
use gomake.Imports.{
  ImportEntry, ImportsConfig, PathLib, meta_key, dup_path, validate_no_dup_paths, apply_entries,
  apply_external_target_meta,
}

abbrev pub paths_of : List ImportEntry → List Str
paths_of = map (λ ent. ent.path)

-- None of the texts stands in `seen`.
abbrev Apart : List Str → List Str → Type 0
Apart seen ss = All (λ s. contains seen s ≡ false) ss

Apart-cons :
    (x : Str) (seen ss : List Str) → Apart (x ∷ seen) ss ↔ (contains ss x ≡ false) × Apart seen ss
unfolding contains
Apart-cons x seen [] = (λ h. (refl, tt), λ h. tt)
Apart-cons x seen (s ∷ ss) = (
  λ (h, hs). let (c, r) = (Apart-cons x seen ss).0 hs in (ground arith, (ground arith, r)),
  λ (c, (h, hs)). (ground arith, (Apart-cons x seen ss).1 (ground arith, hs)),
)

dup_path-none_iff :
    (ents : List ImportEntry) (seen : List Str)
    → (dup_path seen ents ≡ none) ↔ (Distinct (paths_of ents) × Apart seen (paths_of ents))
unfolding dup_path
dup_path-none_iff [] seen = (λ h. (tt, tt), λ h. refl)
dup_path-none_iff (ent ∷ ents) seen = elim (Bool-cases (contains seen ent.path)) [
  | inl e ↦ (λ h. absurd (ground arith), λ (d, a). absurd (ground arith))
  | inr e ↦
      let (to, from) = dup_path-none_iff ents (ent.path ∷ seen) in
      let (split, join) = Apart-cons ent.path seen (paths_of ents) in
      (
        λ h. let (d, a) = to (ground arith) in let (c, a') = split a in ((c, d), (e, a')),
        λ ((c, d), (e', a)). rw (dup_path, e) (from (d, join (c, a))),
      )
]

-- A targets file is accepted exactly when no import path occurs in it twice.
pub validate_no_dup_paths-none_iff :
    (ents : List ImportEntry) → (validate_no_dup_paths ents ≡ none) ↔ Distinct (paths_of ents)
unfolding validate_no_dup_paths contains
validate_no_dup_paths-none_iff ents = (
  λ h. ((dup_path-none_iff ents []).0 h).0,
  λ d. (dup_path-none_iff ents []).1 (d, All-of_forall _ (λ x. refl) (paths_of ents)),
)

-- The entries that have a configuration.
unfoldable pub keyed : List ImportEntry → List ImportEntry
keyed [] = []
keyed (ent ∷ ents) = if ent.config == [] then keyed ents else ent ∷ keyed ents

unfoldable pub meta_keys : PathLib → List ImportEntry → List Str
meta_keys lib = map (meta_key lib)

-- The configuration of the first entry with the key.
pub config_of : PathLib → Str → List ImportEntry → Option Str
config_of lib k [] = none
config_of lib k (ent ∷ ents) =
    if k == meta_key lib ent then some ent.config else config_of lib k ents

abbrev pub config_or : Option Str → Option Str → Option Str
config_or none o = o
config_or (some c) o = some c

abbrev Unseen : Dict Str Str → List Str → Type 0
Unseen seen ss = All (λ s. Dict.lookup s seen ≡ none) ss

Unseen-insert :
    (k v : Str) (seen : Dict Str Str) (ss : List Str)
    → Unseen (Dict.insert k v seen) ss ↔ (contains ss k ≡ false) × Unseen seen ss
unfolding contains
Unseen-insert k v seen [] = (λ h. (refl, tt), λ h. tt)
Unseen-insert k v seen (s ∷ ss) = (
  λ (h, hs).
      let (c, r) = (Unseen-insert k v seen ss).0 hs in
      let l = Dict.lookup-insert s k v seen in (ground arith, (ground arith, r)),
  λ (c, (h, hs)).
      let l = Dict.lookup-insert s k v seen in
      (ground arith, (Unseen-insert k v seen ss).1 (ground arith, hs)),
)

apply_entries-none_iff :
    (lib : PathLib) (ents : List ImportEntry) (seen meta : Dict Str Str)
    → ((apply_entries lib ents seen meta).0 ≡ none)
      ↔ (Distinct (meta_keys lib (keyed ents)) × Unseen seen (meta_keys lib (keyed ents)))
unfolding apply_entries keyed meta_keys
apply_entries-none_iff lib [] seen meta = (λ h. (tt, tt), λ h. refl)
apply_entries-none_iff lib (ent ∷ ents) seen meta = elim (Bool-cases (ent.config == [])) [
  | inl e ↦ rw (e) (apply_entries-none_iff lib ents seen meta)
  | inr e ↦ elim (Option-cases (Dict.lookup (meta_key lib ent) seen)) [
    | inr (prev, l) ↦ rw (e, l) (λ h. absurd (ground arith), λ (d, (a, r)). absurd (ground arith))
    | inl l ↦
        let (to, from) =
          apply_entries-none_iff lib ents (Dict.insert (meta_key lib ent) ent.path seen)
            (Dict.insert (meta_key lib ent) ent.config meta) in
        let (split, join) =
          Unseen-insert (meta_key lib ent) ent.path seen (meta_keys lib (keyed ents)) in
        rw (e, l)
          (
            λ h. let (d, a) = to h in let (c, a') = split a in ((c, d), (refl, a')),
            λ ((c, d), (l', a)). from (d, join (c, a)),
          )
  ]
]

config_of-seen :
    (lib : PathLib) (k : Str) (ents : List ImportEntry)
    → contains (meta_keys lib (keyed ents)) k ≡ false
    → config_of lib k (keyed ents) ≡ none
unfolding keyed meta_keys config_of contains
config_of-seen lib k [] h = refl
config_of-seen lib k (ent ∷ ents) h = elim (Bool-cases (ent.config == [])) [
  | inl e ↦ rw e (config_of-seen lib k ents (ground arith))
  | inr e ↦ rw e (ground (arith, config_of-seen lib k ents))
]

keyed-none :
    (ent : ImportEntry) (ents : List ImportEntry)
    → (ent.config == []) ≡ true
    → keyed (ent ∷ ents) ≡ keyed ents
unfolding keyed
keyed-none ent ents e = rw e refl

keyed-some :
    (ent : ImportEntry) (ents : List ImportEntry)
    → (ent.config == []) ≡ false
    → keyed (ent ∷ ents) ≡ ent ∷ keyed ents
unfolding keyed
keyed-some ent ents e = rw e refl

lookup-apply_entries :
    (lib : PathLib) (k : Str) (ents : List ImportEntry) (seen meta : Dict Str Str)
    → Distinct (meta_keys lib (keyed ents))
    → Unseen seen (meta_keys lib (keyed ents))
    → Dict.lookup k (apply_entries lib ents seen meta).1
      ≡ config_or (config_of lib k (keyed ents)) (Dict.lookup k meta)
unfolding apply_entries keyed meta_keys config_of
lookup-apply_entries lib k [] seen meta d u = refl
lookup-apply_entries lib k (ent ∷ ents) seen meta d u = elim (Bool-cases (ent.config == [])) [
  | inl e ↦
      let same = keyed-none ent ents e in
      rw e (
        lookup-apply_entries lib k ents seen meta (subst (λ l. Distinct (meta_keys lib l)) same d)
          (subst (λ l. Unseen seen (meta_keys lib l)) same u))
  | inr e ↦
      let key = meta_key lib ent in
      let same = keyed-some ent ents e in
      let (c, d') = subst (λ l. Distinct (meta_keys lib l)) same d in
      let (l, u') = subst (λ l. Unseen seen (meta_keys lib l)) same u in
      let ih =
        lookup-apply_entries lib k ents (Dict.insert key ent.path seen)
          (Dict.insert key ent.config meta) d'
          ((Unseen-insert key ent.path seen (meta_keys lib (keyed ents))).1 (c, u')) in
      rw (e, l, ih, Dict.lookup-insert k key ent.config meta)
        (elim (Bool-cases (k == key)) [
          | inl q ↦ rw (q, (==_iff k key).0 q, config_of-seen lib key ents c) refl
          | inr q ↦ rw q refl
        ])
]

-- When no two entries with a configuration have one key, nothing is reported, the meta store has
-- the configuration of every such entry under its key, and is as it was under
-- every other key.
pub apply_external_target_meta_lem :
    (lib : PathLib) (cfg : ImportsConfig) (meta : Dict Str Str) (k : Str)
    → Distinct (meta_keys lib (keyed cfg.imports))
    → ((apply_external_target_meta lib (some cfg) meta).0 ≡ none)
      × (Dict.lookup k (apply_external_target_meta lib (some cfg) meta).1
          ≡ config_or (config_of lib k (keyed cfg.imports)) (Dict.lookup k meta))
unfolding apply_external_target_meta
apply_external_target_meta_lem lib cfg meta k d =
    let unseen = All-of_forall _ (Dict.lookup-nil) (meta_keys lib (keyed cfg.imports)) in
    (
      (apply_entries-none_iff lib cfg.imports [] meta).1 (d, unseen),
      lookup-apply_entries lib k cfg.imports [] meta d unseen,
    )

-- No error is reported exactly when no two entries that have a configuration have one key.
pub apply_external_target_meta-none_iff :
    (lib : PathLib) (cfg : ImportsConfig) (meta : Dict Str Str)
    → ((apply_external_target_meta lib (some cfg) meta).0 ≡ none)
      ↔ Distinct (meta_keys lib (keyed cfg.imports))
unfolding apply_external_target_meta
apply_external_target_meta-none_iff lib cfg meta = (
  λ h. ((apply_entries-none_iff lib cfg.imports [] meta).0 h).0,
  λ d.
      (apply_entries-none_iff lib cfg.imports [] meta).1
        (d, All-of_forall _ (Dict.lookup-nil) (meta_keys lib (keyed cfg.imports))),
)
