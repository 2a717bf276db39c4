-- ===== src/Targets/Default.antt =====
-- `markDefault`, internal/parser/targets.go.
use gomake.Base.{
  Str, Bool, true, false, List, [], ◌∷◌, ◌==◌, not, ◌&&◌, ◌||◌, str_eq, Option, none, some,
  if◌then◌else◌, ==_iff, ==_refl, ◌≡◌, ◌≢◌, refl, arith, All, Bool-cases, inl, inr, ap,
}
use mathlib.Core.Bool.{and-false}
use gomake.Target.{Target}
use gomake.Targets.{Targets, marks_here, mark_loop, mark_default}
use gomake.Targets.Valid.{names_in}

-- Whether a target is the one that a reference means: of the import, if one is given.
pub matches : Str → Str → Target → Bool
matches spec ref t = (spec == [] || t.imp_spec == spec) && t.def_ref == ref

pub first_match : Str → Str → List Target → Option Target
first_match spec ref [] = none
first_match spec ref (t ∷ ts) = if matches spec ref t then some t else first_match spec ref ts

pub defaults : List Target → List Target
defaults [] = []
defaults (t ∷ ts) = if t.default then t ∷ defaults ts else defaults ts

abbrev pub marked : Option Target → List Target
marked none = []
marked (some t) = record t { default = true } ∷ []

abbrev pub marked_name : Option Target → Str
marked_name none = []
marked_name (some t) = t.name

marks_here_found : (def spec ref : Str) (t : Target) → def ≢ [] → marks_here def spec ref t ≡ false
unfolding marks_here
marks_here_found def spec ref t h = elim (Bool-cases (def == [])) [
  | inl e ↦ absurd (h ((==_iff def []).0 e))
  | inr e ↦ rw e (and-false _)
]

either : (a b c : Bool) → (not (not a && not b) && (true && c)) ≡ ((a || b) && c)
either a b c = ground arith

marks_here-matches : (spec ref : Str) (t : Target) → marks_here [] spec ref t ≡ matches spec ref t
unfolding marks_here matches
marks_here-matches spec ref t =
    rw (==_refl {A = Str} []) (either (spec == []) (t.imp_spec == spec) (t.def_ref == ref))

mark_loop_found :
    (def spec ref : Str) (ts : List Target)
    → def ≢ []
    → (defaults (mark_loop def spec ref ts).0 ≡ []) × ((mark_loop def spec ref ts).1 ≡ def)
unfolding mark_loop defaults
mark_loop_found def spec ref [] h = (refl, refl)
mark_loop_found def spec ref (t ∷ ts) h =
    rw (marks_here_found def spec ref t h) (mark_loop_found def spec ref ts h)

mark_loop_lem :
    (spec ref : Str) (ts : List Target)
    → All (λ t. t.name ≢ []) ts
    → (defaults (mark_loop [] spec ref ts).0 ≡ marked (first_match spec ref ts))
      × ((mark_loop [] spec ref ts).1 ≡ marked_name (first_match spec ref ts))
unfolding mark_loop defaults first_match
mark_loop_lem spec ref [] h = (refl, refl)
mark_loop_lem spec ref (t ∷ ts) h = elim (Bool-cases (matches spec ref t)) [
  | inl e ↦
      let (none_left, same) = mark_loop_found t.name spec ref ts h.0 in
      rw (marks_here-matches, e) (ap (λ r. record t { default = true } ∷ r) none_left, same)
  | inr e ↦ rw (marks_here-matches, e) (mark_loop_lem spec ref ts h.1)
]

-- When every target has a name, the targets that `markDefault` leaves marked are the first one that
-- the reference means, or none, whatever was marked before; the name returned is that target's.
pub mark_default_lem :
    (tgs : Targets) (spec ref : Str)
    → All (λ t. t.name ≢ []) tgs.list
    → (defaults (mark_default tgs spec ref).0.list ≡ marked (first_match spec ref tgs.list))
      × ((mark_default tgs spec ref).1 ≡ marked_name (first_match spec ref tgs.list))
unfolding mark_default
mark_default_lem tgs spec ref h = mark_loop_lem spec ref tgs.list h

pub names_in-mark_loop :
    (ts : List Target) (def spec ref : Str) → names_in (mark_loop def spec ref ts).0 ≡ names_in ts
unfolding mark_loop
names_in-mark_loop [] def spec ref = refl
names_in-mark_loop (t ∷ ts) def spec ref = ap (λ r. t.name ∷ r) (names_in-mark_loop ts _ spec ref)
