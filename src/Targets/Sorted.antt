-- ===== src/Targets/Sorted.antt =====
-- `sort` and `List` of a collection.
use mathlib.Core.List.{Perm}
use mathlib.Core.List.Perm
use gomake.Base.{
  Str, true, false, List, [], ◌∷◌, ◌==◌, ◌||◌, str_eq, sort_by, insert_by, le_str,
  sort_by-IsSortedBy, sort_by-perm, IsSortedBy, Distinct, contains, ◌≡◌, refl, arith, ◌∙◌, sym,
  Bool-cases, inl, inr,
}
use gomake.Target.{Target}
use gomake.Targets.Valid.{names_in, IsValid}
use gomake.Targets.{Targets, name_of, sort, list}

contains-names_in-insert_by :
    (t : Target) (ts : List Target) (n : Str)
    → contains (names_in (insert_by name_of t ts)) n ≡ (n == t.name || contains (names_in ts) n)
unfolding insert_by contains
contains-names_in-insert_by t [] n = refl
contains-names_in-insert_by t (x ∷ ts) n = ground (arith, contains-names_in-insert_by t ts n)

contains-names_in-sort_by :
    (ts : List Target) (n : Str)
    → contains (names_in (sort_by name_of ts)) n ≡ contains (names_in ts) n
unfolding sort_by contains
contains-names_in-sort_by [] n = refl
contains-names_in-sort_by (t ∷ ts) n =
    ground
      (arith, contains-names_in-insert_by t (sort_by name_of ts) n, contains-names_in-sort_by ts n)

insert_by-Distinct :
    (t : Target) (ts : List Target)
    → contains (names_in ts) t.name ≡ false
    → Distinct (names_in ts)
    → Distinct (names_in (insert_by name_of t ts))
unfolding insert_by contains
insert_by-Distinct t [] h d = (refl, tt)
insert_by-Distinct t (x ∷ ts) h d = elim (Bool-cases (le_str t.name x.name)) [
  | inl e ↦ rw e (h, d)
  | inr e ↦ rw e (
    ground (arith, contains-names_in-insert_by t ts x.name),
    insert_by-Distinct t ts (ground arith) d.1,
  )
]

sort_by-Distinct :
    (ts : List Target) → Distinct (names_in ts) → Distinct (names_in (sort_by name_of ts))
unfolding sort_by
sort_by-Distinct [] d = tt
sort_by-Distinct (t ∷ ts) d =
    insert_by-Distinct t (sort_by name_of ts) (rw contains-names_in-sort_by d.0)
      (sort_by-Distinct ts d.1)

sort-IsValid : (tgs : Targets) → IsValid tgs → IsValid (sort tgs)
unfolding sort
sort-IsValid tgs v = record {
  distinct = sort_by-Distinct tgs.list v.distinct;
  unique_iff = λ n. v.unique_iff n ∙ sym (contains-names_in-sort_by tgs.list n);
  ordered = λ h. sort_by-IsSortedBy name_of tgs.list;
}

list_of_sorted : (tgs : Targets) → tgs.sorted ≡ true → list tgs ≡ (tgs, tgs.list)
unfolding list
list_of_sorted tgs h = ground arith

list_of_unsorted : (tgs : Targets) → tgs.sorted ≡ false → list tgs ≡ (sort tgs, (sort tgs).list)
unfolding list
list_of_unsorted tgs h = ground arith

-- `List` of a valid collection gives the targets in the order of their names, loses and invents
-- none, and leaves a valid collection with the same list.
pub list_lem :
    (tgs : Targets)
    → IsValid tgs
    → IsSortedBy name_of (list tgs).1
      × Perm (list tgs).1 tgs.list
      × IsValid (list tgs).0
      × ((list tgs).0.list ≡ (list tgs).1)
list_lem tgs v = elim (Bool-cases tgs.sorted) [
  | inl e ↦ rw (list_of_sorted tgs e) (v.ordered e, Perm.refl _, v, refl)
  | inr e ↦ rw (list_of_unsorted tgs e) (
      unfold sort in
      (
        sort_by-IsSortedBy name_of tgs.list,
        sort_by-perm name_of tgs.list,
        sort-IsValid tgs v,
        refl,
      ))
]
