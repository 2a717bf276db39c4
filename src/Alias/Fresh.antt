-- ===== src/Alias/Fresh.antt =====
-- The search of `uniqueImportAlias`, internal/parser/targets.go.
use Prim.Native.Nat.{zero, suc, ◌+◌, ◌≤◌, ◌<◌}
use gomake.Base.{
  ℕ, Str, true, false, List, [], ◌∷◌, ◌++◌, ◌==◌, str_eq, nat_eq, none, some, if◌then◌else◌, length,
  ◌≡◌, ◌≢◌, refl, arith, contains, Bool-cases, inl, inr, Option-cases, ==_iff,
}
use gomake.Base.Dict
use gomake.Base.Decimal.{decimal, decimal-injective}
use gomake.Alias.{Taken, is_free, next_alias, stem_of, trim_digits, unique_import_alias}

append-cancel : (s a b : Str) → s ++ a ≡ s ++ b → a ≡ b
append-cancel [] a b h = h
append-cancel (c ∷ s) a b h = append-cancel s a b (cc)

remove : Str → List Str → List Str
remove a [] = []
remove a (x ∷ xs) = if a == x then xs else x ∷ remove a xs

length-remove :
    (a : Str) (xs : List Str) → contains xs a ≡ true → suc (length (remove a xs)) ≡ length xs
unfolding remove contains
length-remove a [] h = cc
length-remove a (x ∷ xs) h = ground (arith, length-remove a xs)

contains-remove :
    (a b : Str) (xs : List Str) → a ≢ b → contains xs b ≡ true → contains (remove a xs) b ≡ true
unfolding remove contains
contains-remove a b [] n h = cc
contains-remove a b (x ∷ xs) n h = ground (arith, contains-remove a b xs n)

-- Candidates that are all taken are no more than the taken names.
covered :
    (fuel n : ℕ) (stem : Str) (names : List Str)
    → ((i : ℕ) → n ≤ i → i < n + fuel → contains names (stem ++ decimal i) ≡ true)
    → fuel ≤ length names
covered zero n stem names h = omega arith
covered (suc fuel) n stem names h =
    let here = stem ++ decimal n in
    omega (
      arith,
      length-remove here names (h n (omega arith) (omega arith)),
      covered fuel (n + 1) stem (remove here names) (λ i lo hi.
          contains-remove here (stem ++ decimal i) names
            (λ e.
              (omega (arith, decimal-injective n i (append-cancel stem (decimal n) (decimal i) e))))
            (h i (omega arith) (omega arith))),
    )

length-keys : (taken : Taken) → length (Dict.keys taken) ≡ length taken
unfolding Dict.keys
length-keys [] = refl
length-keys ((k, v) ∷ taken) = omega (arith, length-keys taken)

not_free-taken :
    (taken : Taken) (spec a : Str)
    → is_free taken spec a ≡ false
    → contains (Dict.keys taken) a ≡ true
unfolding is_free
not_free-taken taken spec a h = (Dict.contains-keys taken a).1 (λ e. ground arith)

next_alias-eq-none :
    (fuel n : ℕ) (stem : Str) (taken : Taken) (spec : Str)
    → next_alias fuel n stem taken spec ≡ none
    → (i : ℕ) → n ≤ i
    → i < n + fuel
    → contains (Dict.keys taken) (stem ++ decimal i) ≡ true
unfolding next_alias
next_alias-eq-none zero n stem taken spec h i lo hi = absurd (omega arith)
next_alias-eq-none (suc fuel) n stem taken spec h i lo hi = elim (Bool-cases (n == i)) [
  | inl e ↦ not_free-taken taken spec (stem ++ decimal i) (rw (← (==_iff n i).0 e) (ground arith))
  | inr e ↦
      next_alias-eq-none fuel (n + 1) stem taken spec (ground arith) i
        (grind (arith, λ (q : n ≡ i). (==_iff n i).1 q)) (omega arith)
]

next_alias_free :
    (fuel n : ℕ) (stem : Str) (taken : Taken) (spec a : Str)
    → next_alias fuel n stem taken spec ≡ some a
    → is_free taken spec a ≡ true
unfolding next_alias
next_alias_free zero n stem taken spec a h = cc
next_alias_free (suc fuel) n stem taken spec a h =
    ground (arith, next_alias_free fuel (n + 1) stem taken spec a)

next_alias_total :
    (n : ℕ) (stem : Str) (taken : Taken) (spec : Str)
    → next_alias (suc (length taken)) n stem taken spec ≢ none
next_alias_total n stem taken spec h = omega (
  arith,
  length-keys taken,
  covered (suc (length taken)) n stem (Dict.keys taken)
      (next_alias-eq-none (suc (length taken)) n stem taken spec h),
)

-- The search ends with an alias that no other import has, and the declared package name is kept
-- when it is free.
pub unique_import_alias_lem :
    (base : Str) (taken : Taken) (spec : Str)
    → (alias : Str) × (unique_import_alias base taken spec ≡ some alias)
      × (is_free taken spec alias ≡ true)
      × (is_free taken spec base ≡ true → alias ≡ base)
unfolding unique_import_alias
unique_import_alias_lem base taken spec = elim (Bool-cases (is_free taken spec base)) [
  | inl e ↦ (base, rw e, e, λ _. refl)
  | inr e ↦
      elim (Option-cases
        (next_alias (suc (length taken)) 2 (stem_of base (trim_digits base)) taken spec)) [
          | inl h ↦ absurd (next_alias_total 2 (stem_of base (trim_digits base)) taken spec h)
          | inr (a, h) ↦ (
            a,
            rw (e, h),
            next_alias_free (suc (length taken)) 2 (stem_of base (trim_digits base)) taken spec a h,
            λ f. ground arith,
          )
        ]
]
