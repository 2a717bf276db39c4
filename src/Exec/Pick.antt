-- ===== src/Exec/Pick.antt =====
-- The choice of a target from the arguments.
use gomake.Base.{
  Str, Bool, true, false, List, [], ◌∷◌, ◌++◌, ◌≡◌, refl, arith, Option, none, some, ◌⊎◌, inl, inr,
  ◌==◌, str_eq, if◌then◌else◌, All, Bool-cases, Option-cases, ap,
}
use gomake.Error.{Err, sentinel, Sentinel, is_err, sentinel_eq}
use gomake.Target.{Target}
use gomake.Exec.{Found, found, failed, unknown, find_target, default_target, pick_target, exit_code}

-- The target stands in the list, and those before it fail the test.
abbrev pub IsFirst : (Target → Bool) → List Target → Target → Type 0
IsFirst p tgs t =
    (before : List Target) × (after : List Target) × (tgs ≡ before ++ (t ∷ after))
    × (p t ≡ true)
    × All (λ x. p x ≡ false) before

abbrev pub named : Str → Target → Bool
named name t = t.name == name

abbrev pub is_default : Target → Bool
is_default t = t.default

abbrev pub AllFail : (Target → Bool) → List Target → Type 0
AllFail p = All (λ x. p x ≡ false)

find_first : (Target → Bool) → List Target → Option Target
find_first p [] = none
find_first p (t ∷ ts) = if p t then some t else find_first p ts

find_first-IsFirst :
    (p : Target → Bool) (ts : List Target) (u : Target) → find_first p ts ≡ some u → IsFirst p ts u
unfolding find_first
find_first-IsFirst p [] u h = absurd (cc)
find_first-IsFirst p (t ∷ ts) u h = elim (Bool-cases (p t)) [
  | inl e ↦ let same : t ≡ u = ground arith in ([], ts, ap (λ x. x ∷ ts) same, rw (← same) e, tt)
  | inr e ↦
      let (bs, rest, eq, pu, all) = find_first-IsFirst p ts u (ground arith) in
      ((t ∷ bs), rest, ap (λ r. t ∷ r) eq, pu, (e, all))
]

find_first-AllFail : (p : Target → Bool) (ts : List Target) → find_first p ts ≡ none → AllFail p ts
unfolding find_first
find_first-AllFail p [] h = tt
find_first-AllFail p (t ∷ ts) h = (ground arith, find_first-AllFail p ts (ground arith))

abbrev as_found : Err → Option Target → Found
as_found e none = failed e
as_found e (some t) = found t

find_target-find_first :
    (name : Str) (ts : List Target)
    → find_target name ts ≡ as_found (unknown name) (find_first (named name) ts)
unfolding find_target find_first
find_target-find_first name [] = refl
find_target-find_first name (t ∷ ts) = ground (arith, find_target-find_first name ts)

default_target-find_first :
    (ts : List Target)
    → default_target ts ≡ as_found (sentinel Sentinel.pick_target) (find_first is_default ts)
unfolding default_target find_first
default_target-find_first [] = refl
default_target-find_first (t ∷ ts) = ground (arith, default_target-find_first ts)

unknown_code : (name : Str) → exit_code (some (unknown name)) ≡ 127
unfolding exit_code is_err sentinel_eq
unknown_code name = refl

pick_code : exit_code (some (sentinel Sentinel.pick_target)) ≡ 126
unfolding exit_code is_err sentinel_eq
pick_code = refl

-- With no arguments the first default target is picked, and with none marked the run ends with exit
-- code 126.
pub pick_target-nil :
    (tgs : List Target)
    → ((t : Target) × (pick_target tgs [] ≡ (found t, [])) × IsFirst is_default tgs t)
      ⊎ ((e : Err) × (pick_target tgs [] ≡ (failed e, []))
          × (exit_code (some e) ≡ 126)
          × AllFail is_default tgs)
unfolding pick_target
pick_target-nil tgs = elim (Option-cases (find_first is_default tgs)) [
  | inl e ↦ inr (
    sentinel Sentinel.pick_target,
    rw (default_target-find_first tgs, e),
    pick_code,
    find_first-AllFail is_default tgs e,
  )
  | inr (t, e) ↦
      inl (t, rw (default_target-find_first tgs, e), find_first-IsFirst is_default tgs t e)
]

-- With a name the first target of that name is picked and the name is taken off the arguments; with
-- no such target the arguments stay, and the run ends with exit code 127.
pub pick_target-cons :
    (tgs : List Target) (name : Str) (args : List Str)
    → ((t : Target) × (pick_target tgs (name ∷ args) ≡ (found t, args))
        × IsFirst (named name) tgs t)
      ⊎ ((e : Err) × (pick_target tgs (name ∷ args) ≡ (failed e, name ∷ args))
          × (exit_code (some e) ≡ 127)
          × AllFail (named name) tgs)
unfolding pick_target
pick_target-cons tgs name args = elim (Option-cases (find_first (named name) tgs)) [
  | inl e ↦ inr (
    unknown name,
    rw (find_target-find_first name tgs, e),
    unknown_code name,
    find_first-AllFail (named name) tgs e,
  )
  | inr (t, e) ↦
      inl (t, rw (find_target-find_first name tgs, e), find_first-IsFirst (named name) tgs t e)
]
