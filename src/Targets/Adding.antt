-- ===== src/Targets/Adding.antt =====
-- `Add`: when it succeeds, and what it leaves.
use gomake.Base.{
  Str, false, List, [], ◌∷◌, ◌++◌, ◌||◌, str_eq, none, Distinct, contains, ◌≡◌, ◌≢◌, ◌↔◌, refl,
  arith, append_assoc, append-nil, Option-cases, contains-append, ◌⊎◌, inl, inr,
}
use gomake.Base.Dict
use gomake.Base.Dict.{Dict}
use gomake.Target.{Target}
use gomake.Targets.Valid.{
  names_in, IsValid, is_some-get, list-add_all, names_in-append, Fresh, contains-names_in-snoc,
  Distinct-snoc, add_all-IsValid,
}
use gomake.Targets.{Targets, is_some, get, check_batch, add}

-- The names that are taken: those of the collection, and those of the batch so far.
abbrev Taken : Targets → Dict Str Target → List Target → Type 0
Taken tgs batch seen =
    (n : Str) → contains (names_in seen) n ≡ (is_some (get tgs n) || is_some (Dict.lookup n batch))

Taken-snoc :
    (tgs : Targets) (batch : Dict Str Target) (seen : List Target) (t : Target)
    → Taken tgs batch seen
    → Taken tgs (Dict.insert t.name t batch) (seen ++ (t ∷ []))
Taken-snoc tgs batch seen t same n =
    ground (arith, same n, contains-names_in-snoc seen t n, Dict.lookup-insert n t.name t batch)

check_batch-Fresh :
    (tgs : Targets) (batch : Dict Str Target) (seen ts : List Target)
    → Taken tgs batch seen
    → check_batch tgs batch ts ≡ none
    → Fresh seen ts
unfolding check_batch
check_batch-Fresh tgs batch seen [] same h = tt
check_batch-Fresh tgs batch seen (t ∷ ts) same h = (
  ground (arith, same t.name),
  check_batch-Fresh tgs (Dict.insert t.name t batch) (seen ++ (t ∷ [])) ts
      (Taken-snoc tgs batch seen t same) (ground arith),
)

check_batch-eq-none :
    (tgs : Targets) (batch : Dict Str Target) (seen ts : List Target)
    → Taken tgs batch seen
    → Fresh seen ts
    → check_batch tgs batch ts ≡ none
unfolding check_batch
check_batch-eq-none tgs batch seen [] same f = refl
check_batch-eq-none tgs batch seen (t ∷ ts) same f = ground (
  arith,
  same t.name,
  check_batch-eq-none tgs (Dict.insert t.name t batch) (seen ++ (t ∷ [])) ts
      (Taken-snoc tgs batch seen t same) f.1,
)

Taken-nil : (tgs : Targets) → IsValid tgs → Taken tgs [] tgs.list
unfolding Dict.lookup
Taken-nil tgs v n = ground (arith, is_some-get tgs n v)

Fresh-Distinct :
    (seen ts : List Target)
    → Distinct (names_in seen)
    → Fresh seen ts
    → Distinct (names_in (seen ++ ts))
Fresh-Distinct seen [] d f = rw append-nil d
Fresh-Distinct seen (t ∷ ts) d f =
    rw (append_assoc seen (t ∷ []) ts) at
      (Fresh-Distinct (seen ++ (t ∷ [])) ts (Distinct-snoc seen t f.0 d) f.1)

Distinct-middle :
    (seen : List Target) (t : Target) (ts : List Target)
    → Distinct (names_in (seen ++ (t ∷ ts)))
    → contains (names_in seen) t.name ≡ false
unfolding contains
Distinct-middle [] t ts d = refl
Distinct-middle (x ∷ seen) t ts d = ground (
  arith,
  Distinct-middle seen t ts d.1,
  names_in-append seen (t ∷ ts),
  contains-append (names_in seen) (names_in (t ∷ ts)) x.name,
)

Distinct-Fresh : (seen ts : List Target) → Distinct (names_in (seen ++ ts)) → Fresh seen ts
Distinct-Fresh seen [] d = tt
Distinct-Fresh seen (t ∷ ts) d = (
  Distinct-middle seen t ts d,
  Distinct-Fresh (seen ++ (t ∷ [])) ts (rw (append_assoc seen (t ∷ []) ts) d),
)

-- On a valid collection `Add` succeeds exactly when no name is in the collection or repeats in the
-- batch.
pub add-eq-none_iff :
    (tgs : Targets) (ts : List Target)
    → IsValid tgs
    → ((add tgs ts).1 ≡ none) ↔ Distinct (names_in (tgs.list ++ ts))
unfolding add
add-eq-none_iff tgs ts v = (
  λ h.
      Fresh-Distinct tgs.list ts v.distinct
        (check_batch-Fresh tgs [] tgs.list ts (Taken-nil tgs v) (ground arith)),
  λ d. rw (
    check_batch-eq-none tgs [] tgs.list ts (Taken-nil tgs v) (Distinct-Fresh tgs.list ts d),
    add,
  ),
)

-- `Add` keeps a valid collection valid; it appends the whole batch, or reports an error and leaves
-- the collection as it was.
pub add_lem :
    (tgs : Targets) (ts : List Target)
    → IsValid tgs
    → IsValid (add tgs ts).0
      × (((add tgs ts).1 ≡ none) × ((add tgs ts).0.list ≡ tgs.list ++ ts)
          ⊎ ((add tgs ts).1 ≢ none) × ((add tgs ts).0 ≡ tgs))
unfolding add
add_lem tgs ts v = elim (Option-cases (check_batch tgs [] ts)) [
  | inl e ↦
      rw (e, add)
        (
          add_all-IsValid tgs ts v (check_batch-Fresh tgs [] tgs.list ts (Taken-nil tgs v) e),
          inl (refl, list-add_all tgs ts),
        )
  | inr (x, e) ↦ rw (e, add) (v, inr ((λ h. cc), refl))
]

-- After a successful `Add` to a valid collection the names that are found are those found before
-- and those of the batch.
pub is_some-get-add :
    (tgs : Targets) (ts : List Target) (n : Str)
    → IsValid tgs
    → (add tgs ts).1 ≡ none
    → is_some (get (add tgs ts).0 n) ≡ (is_some (get tgs n) || contains (names_in ts) n)
is_some-get-add tgs ts n v h =
    let (v', result) = add_lem tgs ts v in
    elim result [
      | inl (_, e) ↦ ground (
        arith,
        is_some-get (add tgs ts).0 n v',
        is_some-get tgs n v,
        e,
        names_in-append tgs.list ts,
        contains-append (names_in tgs.list) (names_in ts) n,
      )
      | inr (bad, _) ↦ absurd (bad h)
    ]
