-- ===== src/Targets/BuiltIn.antt =====
-- `Map` with `BuiltInCB`, internal/parser/targets.go.
use gomake.Base.{
  Str, true, false, List, [], ◌∷◌, ◌++◌, ◌||◌, str_eq, ◌≡◌, refl, arith, All, ◌∙◌, ap, codes,
  contains, Distinct, le_str, IsSortedBy,
}
use gomake.Base.Dict
use gomake.Target.{Target, is_core, starts_core}
use gomake.Targets.{Targets, Names, map_one, map_all, built_in_cb, name_of, is_some}
use gomake.Targets.Valid.{names_in, IsValid}

abbrev pub built_in : Target → Target
built_in t = record t { name = codes ":" ++ t.name; default = false }

pub built_ins : List Target → List Target
built_ins [] = []
built_ins (t ∷ ts) = built_in t ∷ built_ins ts

list-map_one : (ts : List Target) (u : Names) → (map_one built_in_cb u ts).1 ≡ built_ins ts
unfolding map_one built_in_cb built_ins
list-map_one [] u = refl
list-map_one (t ∷ ts) u = ap (λ r. built_in t ∷ r) (list-map_one ts _)

-- No name begins with a colon yet.
abbrev pub IsPlain : Target → Type 0
IsPlain t = is_core t ≡ false

-- The names done are behind a colon, so that no plain name is among them.
abbrev IsDone : List Str → Type 0
IsDone done = (n : Str) → starts_core n ≡ false → contains done n ≡ false

abbrev Holds : Names → List Str → List Target → Type 0
Holds u done ts =
    (n : Str) → is_some (Dict.lookup n u) ≡ (contains done n || contains (names_in ts) n)

Holds-built_in_cb :
    (u : Names) (done : List Str) (t : Target) (ts : List Target)
    → IsDone done
    → IsPlain t
    → Distinct (names_in (t ∷ ts))
    → Holds u done (t ∷ ts)
    → Holds (built_in_cb u t).0 ((codes ":" ++ t.name) ∷ done) ts
unfolding built_in_cb contains is_core
Holds-built_in_cb u done t ts plain p d same n = ground (
  arith,
  same n,
  plain t.name p,
  Dict.lookup-insert n (codes ":" ++ t.name) tt (Dict.erase t.name u),
  Dict.lookup-erase n t.name u,
)

Holds-map_one :
    (ts : List Target) (u : Names) (done : List Str)
    → IsDone done
    → All IsPlain ts
    → Distinct (names_in ts)
    → Holds u done ts
    → (n : Str)
    → is_some (Dict.lookup n (map_one built_in_cb u ts).0)
      ≡ (contains done n || contains (names_in (built_ins ts)) n)
unfolding map_one built_ins contains
Holds-map_one [] u done plain p d same n = same n
Holds-map_one (t ∷ ts) u done plain p d same n = ground (
  arith,
  Holds-map_one ts (built_in_cb u t).0 ((codes ":" ++ t.name) ∷ done)
      (λ m h. ground (arith, plain m h)) p.1 d.1 (Holds-built_in_cb u done t ts plain p.0 d same) n,
)

contains-built_ins :
    (ts : List Target) (s : Str)
    → contains (names_in (built_ins ts)) (codes ":" ++ s) ≡ contains (names_in ts) s
unfolding contains built_ins
contains-built_ins [] s = refl
contains-built_ins (t ∷ ts) s = ground (arith, contains-built_ins ts s)

Distinct-built_ins :
    (ts : List Target) → Distinct (names_in ts) → Distinct (names_in (built_ins ts))
unfolding built_ins
Distinct-built_ins [] d = tt
Distinct-built_ins (t ∷ ts) d = (contains-built_ins ts t.name ∙ d.0, Distinct-built_ins ts d.1)

All-built_ins :
    (s : Str) (ts : List Target)
    → All (λ t. le_str s t.name ≡ true) ts
    → All (λ t. le_str (codes ":" ++ s) t.name ≡ true) (built_ins ts)
unfolding built_ins le_str
All-built_ins s [] h = tt
All-built_ins s (t ∷ ts) h = (ground (arith, h.0), All-built_ins s ts h.1)

IsSortedBy-built_ins :
    (ts : List Target) → IsSortedBy name_of ts → IsSortedBy name_of (built_ins ts)
unfolding built_ins
IsSortedBy-built_ins [] h = tt
IsSortedBy-built_ins (t ∷ ts) h = (All-built_ins t.name ts h.0, IsSortedBy-built_ins ts h.1)

-- `Map(BuiltInCB)` on a valid collection with no colon names renames every target, clears its
-- default mark, and leaves a valid collection: the set follows the names, and the order is kept.
pub map_all-built_in_cb :
    (tgs : Targets)
    → IsValid tgs
    → All IsPlain tgs.list
    → IsValid (map_all tgs (built_in_cb ∷ []))
      × ((map_all tgs (built_in_cb ∷ [])).list ≡ built_ins tgs.list)
unfolding map_all
map_all-built_in_cb tgs v p = (
  record {
    distinct = rw list-map_one (Distinct-built_ins tgs.list v.distinct);
    unique_iff = λ n. rw list-map_one (
        unfold contains in
        Holds-map_one tgs.list tgs.unique [] (λ m h. refl) p v.distinct v.unique_iff n);
    ordered = λ h. rw list-map_one (IsSortedBy-built_ins tgs.list (v.ordered h));
  },
  list-map_one tgs.list tgs.unique,
)
