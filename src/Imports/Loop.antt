-- ===== src/Imports/Loop.antt =====
-- What the inner loop of `MergeImports` keeps of one file.
use gomake.Base.{
  Str, true, false, List, [], ◌∷◌, ◌++◌, ◌==◌, str_eq, nat_eq, map, append_assoc, append-nil,
  Option, none, some, if◌then◌else◌, contains, ◌≡◌, ◌≢◌, refl, arith, ◌⊎◌, inl, inr, Bool-cases,
  Option-cases, ap, sym, ◌∙◌, All, All-imp, Distinct, Distinct-append_one, ==_iff, subst,
}
use gomake.Base.Dict
use gomake.Base.Dict.{Dict}
use gomake.Imports.{
  ImportEntry, ImportsConfig, Result, ok, err, MergeError, conflict_import, pkg_path, equal,
  Merging, merge_entries,
}

-- The first entry of a package.
unfoldable pub first_of : Str → List ImportEntry → Option ImportEntry
first_of k [] = none
first_of k (ent ∷ ents) = if k == pkg_path ent then some ent else first_of k ents

abbrev pub or_else : Option ImportEntry → Option ImportEntry → Option ImportEntry
or_else none o = o
or_else (some e) o = some e

abbrev entry_of : Option (ImportEntry × Str) → Option ImportEntry
entry_of none = none
entry_of (some (ent, src)) = some ent

-- No entry differs from the first one of its package.
abbrev pub Agree : List ImportEntry → Type 0
Agree ents = All (λ ent. first_of (pkg_path ent) ents ≡ some ent) ents

abbrev pub packages : List ImportEntry → List Str
packages = map pkg_path

abbrev pub entries : List (Str × ImportsConfig) → List ImportEntry
entries [] = []
entries ((src, cfg) ∷ files) = cfg.imports ++ entries files

equal-eq : (a b : ImportEntry) → equal a b ≡ true → a ≡ b
unfolding equal
equal-eq a b h =
    let p : a.path ≡ b.path = ground arith in
    let n : a.namespace ≡ b.namespace = ground arith in
    let c : a.config ≡ b.config = ground arith in cc

equal_refl : (a : ImportEntry) → equal a a ≡ true
unfolding equal
equal_refl a = ground arith

pub first_of-append :
    (k : Str) (xs ys : List ImportEntry)
    → first_of k (xs ++ ys) ≡ or_else (first_of k xs) (first_of k ys)
unfolding first_of
first_of-append k [] ys = refl
first_of-append k (x ∷ xs) ys = ground (arith, first_of-append k xs ys)

contains-packages :
    (k : Str) (xs : List ImportEntry) → first_of k xs ≡ none → contains (packages xs) k ≡ false
unfolding first_of contains
contains-packages k [] h = refl
contains-packages k (x ∷ xs) h = ground (arith, contains-packages k xs)

packages-append :
    (xs : List ImportEntry) (x : ImportEntry)
    → packages (xs ++ (x ∷ [])) ≡ packages xs ++ (pkg_path x ∷ [])
packages-append [] x = refl
packages-append (y ∷ xs) x = ap (λ r. pkg_path y ∷ r) (packages-append xs x)

abbrev pub InSync : Dict Str (ImportEntry × Str) → List ImportEntry → Type 0
InSync seen merged = (k : Str) → entry_of (Dict.lookup k seen) ≡ first_of k merged

pub differs : (prev ent : ImportEntry) → equal prev ent ≡ false → prev ≢ ent
differs prev ent h e = let same = equal_refl ent in ground arith

-- What a loop over `ents` does, behind the entries `merged`.
abbrev pub Fits : List ImportEntry → List ImportEntry → Type 0
Fits merged ents = All (λ ent. first_of (pkg_path ent) (merged ++ ents) ≡ some ent) ents

abbrev Kept : List ImportEntry → List ImportEntry → Result Merging → Type 0
Kept merged ents r =
    (seen' : Dict Str (ImportEntry × Str)) × (merged' : List ImportEntry) × (r
      ≡ ok (seen', merged'))
    × InSync seen' merged'
    × ((k : Str) → first_of k merged' ≡ first_of k (merged ++ ents))
    × (Distinct (packages merged) → Distinct (packages merged'))
    × Fits merged ents

abbrev pub Ran : List ImportEntry → List ImportEntry → Result Merging → Type 0
Ran merged ents r = Kept merged ents r ⊎ (e : MergeError) × (r ≡ err e) × (Fits merged ents → ⊥)

InSync-insert :
    (seen : Dict Str (ImportEntry × Str)) (merged : List ImportEntry) (ent : ImportEntry)
    (src : Str)
    → InSync seen merged
    → first_of (pkg_path ent) merged ≡ none
    → InSync (Dict.insert (pkg_path ent) (ent, src) seen) (merged ++ (ent ∷ []))
unfolding first_of
InSync-insert seen merged ent src s h k = ground (
  arith,
  Dict.lookup-insert k (pkg_path ent) (ent, src) seen,
  first_of-append k merged (ent ∷ []),
  s k,
)

Ran-new :
    (ents merged : List ImportEntry) (ent : ImportEntry) (r : Result Merging)
    → first_of (pkg_path ent) merged ≡ none
    → Ran (merged ++ (ent ∷ [])) ents r
    → Ran merged (ent ∷ ents) r
unfolding first_of
Ran-new ents merged ent r h (inl (seen', merged', e, s, f, d, a)) =
    let same = append_assoc merged (ent ∷ []) ents in
    inl (
      seen',
      merged',
      e,
      s,
      λ k. f k ∙ ap (first_of k) same,
      λ x. d (
          rw (packages-append merged ent) (
            Distinct-append_one (packages merged) (pkg_path ent)
              (contains-packages (pkg_path ent) merged h) x)),
      (
        ground (arith, first_of-append (pkg_path ent) merged (ent ∷ ents)),
        subst (λ m. All (λ x. first_of (pkg_path x) m ≡ some x) ents) same a,
      ),
    )
Ran-new ents merged ent r h (inr (e, q, no_fit)) = inr (
  e,
  q,
  λ fit. no_fit (
      subst (λ m. All (λ x. first_of (pkg_path x) m ≡ some x) ents)
        (sym (append_assoc merged (ent ∷ []) ents)) fit.1),
)

first_of-again :
    (k : Str) (ents merged : List ImportEntry) (ent : ImportEntry)
    → first_of (pkg_path ent) merged ≡ some ent
    → first_of k (merged ++ (ent ∷ ents)) ≡ first_of k (merged ++ ents)
unfolding first_of
first_of-again k ents merged ent h =
    rw (first_of-append k merged (ent ∷ ents), first_of-append k merged ents)
      (elim (Bool-cases (k == pkg_path ent)) [
        | inl e ↦ rw ((==_iff k (pkg_path ent)).0 e, h) refl
        | inr e ↦ rw e refl
      ])

Ran-same :
    (ents merged : List ImportEntry) (ent : ImportEntry) (r : Result Merging)
    → first_of (pkg_path ent) merged ≡ some ent
    → Ran merged ents r
    → Ran merged (ent ∷ ents) r
Ran-same ents merged ent r h (inl (seen', merged', e, s, f, d, a)) = inl (
  seen',
  merged',
  e,
  s,
  λ k. f k ∙ sym (first_of-again k ents merged ent h),
  d,
  (
    ground (arith, first_of-append (pkg_path ent) merged (ent ∷ ents)),
    All-imp (λ x. first_of (pkg_path x) (merged ++ ents) ≡ some x)
        (λ x. first_of (pkg_path x) (merged ++ (ent ∷ ents)) ≡ some x)
        (λ x q. first_of-again (pkg_path x) ents merged ent h ∙ q) ents a,
  ),
)
Ran-same ents merged ent r h (inr (e, q, no_fit)) = inr (
  e,
  q,
  λ fit. no_fit (
      All-imp (λ x. first_of (pkg_path x) (merged ++ (ent ∷ ents)) ≡ some x)
        (λ x. first_of (pkg_path x) (merged ++ ents) ≡ some x)
        (λ x p. sym (first_of-again (pkg_path x) ents merged ent h) ∙ p) ents fit.1),
)

pub merge_entries_lem :
    (ents : List ImportEntry) (src : Str) (seen : Dict Str (ImportEntry × Str))
    (merged : List ImportEntry)
    → InSync seen merged
    → Ran merged ents (merge_entries ents src (seen, merged))
unfolding merge_entries
merge_entries_lem [] src seen merged s =
    inl (seen, merged, refl, s, λ k. ap (first_of k) (sym (append-nil merged)), λ d. d, tt)
merge_entries_lem (ent ∷ ents) src seen merged s =
    elim (Option-cases (Dict.lookup (pkg_path ent) seen)) [
      | inl e ↦
          let fresh : first_of (pkg_path ent) merged ≡ none =
            sym (s (pkg_path ent)) ∙ ap entry_of e in
          rw (merge_entries, e)
            (Ran-new ents merged ent _ fresh (
              merge_entries_lem ents src (Dict.insert (pkg_path ent) (ent, src) seen)
                (merged ++ (ent ∷ [])) (InSync-insert seen merged ent src s fresh)))
      | inr ((prev, prev_src), e) ↦
          let first : first_of (pkg_path ent) merged ≡ some prev =
            sym (s (pkg_path ent)) ∙ ap entry_of e in
          elim (Bool-cases (equal prev ent)) [
            | inl q ↦
                rw (merge_entries, e, q)
                  (Ran-same ents merged ent _ (first ∙ ap some (equal-eq prev ent q))
                    (merge_entries_lem ents src seen merged s))
            | inr q ↦
                rw (merge_entries, e, q)
                  (inr (
                    conflict_import (pkg_path ent) prev_src src,
                    refl,
                    λ fit.
                        differs prev ent q (
                          ground
                            (arith, fit.0, first_of-append (pkg_path ent) merged (ent ∷ ents))),
                  ))
          ]
    ]
