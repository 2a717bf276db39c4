-- ===== src/Base/Order.antt =====
-- Go's order of strings, and the sorts that the program calls (`sort.Strings`, `sort.Slice` by name).
use mathlib.Core.Path.{◌≡◌, refl, ap₂, ◌∙◌}
use mathlib.Core.Logic.{inl, inr, ∥∥₁_elim}
use mathlib.Core.Bool.{Bool, true, false, ◌||◌}
use mathlib.Core.List.{List, [], ◌∷◌, Perm}
use mathlib.Core.List.Perm
use mathlib.Core.List.{Permᴰ}
use native.Mathlib.Omega.{arith}
use gomake.Base.Equality.{Str, Eq, ◌==◌, contains, Distinct, if◌then◌else◌, Bool-cases}
use gomake.Base.Lists.{All, All-imp}
use gomake.Base.Text.{ltb}

-- `s <= t`, byte by byte.
unfoldable pub le_str : Str → Str → Bool
le_str [] t = true
le_str (a ∷ s) [] = false
le_str (a ∷ s) (b ∷ t) =
    let rest = le_str s t in if ltb a b then true else if ltb b a then false else rest

pub le_str_refl : (s : Str) → le_str s s ≡ true
unfolding le_str
le_str_refl [] = refl
le_str_refl (a ∷ s) = ground (arith, le_str_refl s)

pub le_str_total : (s t : Str) → le_str s t ≡ false → le_str t s ≡ true
unfolding le_str
le_str_total [] t h = cc
le_str_total (a ∷ s) [] h = refl
le_str_total (a ∷ s) (b ∷ t) h = ground (arith, le_str_total s t)

pub le_str_trans : (s t u : Str) → le_str s t ≡ true → le_str t u ≡ true → le_str s u ≡ true
unfolding le_str
le_str_trans [] t u h k = refl
le_str_trans (a ∷ s) [] u h k = cc
le_str_trans (a ∷ s) (b ∷ t) [] h k = cc
le_str_trans (a ∷ s) (b ∷ t) (c ∷ u) h k = ground (arith, le_str_trans s t u)

module _ {ℓ} {A : Type ℓ} (key : A → Str) where
  unfoldable pub insert_by : A → List A → List A
  insert_by x [] = x ∷ []
  insert_by x (y ∷ ys) = if le_str (key x) (key y) then x ∷ y ∷ ys else y ∷ insert_by x ys

  unfoldable pub sort_by : List A → List A
  unfolding insert_by
  sort_by [] = []
  sort_by (x ∷ xs) = insert_by x (sort_by xs)

  -- No element is greater than a later one.
  abbrev pub IsSortedBy : List A → Type 0
  IsSortedBy [] = Unit
  IsSortedBy (x ∷ xs) = All (λ y. le_str (key x) (key y) ≡ true) xs × IsSortedBy xs

  insert_by-All : (P : A → Type 0) (x : A) (ys : List A) → P x → All P ys → All P (insert_by x ys)
  unfolding insert_by
  insert_by-All P x [] p h = (p, tt)
  insert_by-All P x (y ∷ ys) p h = elim (Bool-cases (le_str (key x) (key y))) [
    | inl e ↦ rw e (p, h)
    | inr e ↦ rw e (h.0, insert_by-All P x ys p h.1)
  ]

  insert_by-IsSortedBy : (x : A) (ys : List A) → IsSortedBy ys → IsSortedBy (insert_by x ys)
  unfolding insert_by
  insert_by-IsSortedBy x [] h = (tt, tt)
  insert_by-IsSortedBy x (y ∷ ys) h = elim (Bool-cases (le_str (key x) (key y))) [
    | inl e ↦ rw e ((e, All-imp _ _ (λ z. le_str_trans (key x) (key y) (key z) e) ys h.0), h)
    | inr e ↦ rw e (
      insert_by-All (λ z. le_str (key y) (key z) ≡ true) x ys (le_str_total (key x) (key y) e) h.0,
      insert_by-IsSortedBy x ys h.1,
    )
  ]

  pub sort_by-IsSortedBy : (xs : List A) → IsSortedBy (sort_by xs)
  unfolding sort_by
  sort_by-IsSortedBy [] = tt
  sort_by-IsSortedBy (x ∷ xs) = insert_by-IsSortedBy x (sort_by xs) (sort_by-IsSortedBy xs)

  pub sort_by-All : (P : A → Type 0) (xs : List A) → All P xs → All P (sort_by xs)
  unfolding sort_by
  sort_by-All P [] h = tt
  sort_by-All P (x ∷ xs) h = insert_by-All P x (sort_by xs) h.0 (sort_by-All P xs h.1)

  insert_by-perm : (x : A) (ys : List A) → Perm (insert_by x ys) (x ∷ ys)
  unfolding insert_by
  insert_by-perm x [] = Perm.refl _
  insert_by-perm x (y ∷ ys) = elim (Bool-cases (le_str (key x) (key y))) [
    | inl e ↦ rw e (Perm.refl _)
    | inr e ↦ rw e (Perm.trans (Perm.cons y (insert_by-perm x ys)) (Perm.swap _ _ _))
  ]

  pub sort_by-perm : (xs : List A) → Perm (sort_by xs) xs
  unfolding sort_by
  sort_by-perm [] = Perm.refl _
  sort_by-perm (x ∷ xs) = Perm.trans (insert_by-perm x (sort_by xs)) (Perm.cons x (sort_by-perm xs))

module _ {ℓ} {A : Type ℓ} ⦃e : Eq A⦄ (key : A → Str) where
  contains-insert_by :
      (x a : A) (ys : List A) → contains (insert_by key x ys) a ≡ (a == x || contains ys a)
  unfolding insert_by contains
  contains-insert_by x a [] = refl
  contains-insert_by x a (y ∷ ys) = ground (arith, contains-insert_by x a ys)

  pub contains-sort_by : (xs : List A) (a : A) → contains (sort_by key xs) a ≡ contains xs a
  unfolding sort_by contains
  contains-sort_by [] a = refl
  contains-sort_by (x ∷ xs) a =
      ground (arith, contains-insert_by x a (sort_by key xs), contains-sort_by xs a)

  insert_by-Distinct :
      (x : A) (ys : List A) → contains ys x ≡ false → Distinct ys → Distinct (insert_by key x ys)
  unfolding insert_by contains
  insert_by-Distinct x [] h d = (refl, tt)
  insert_by-Distinct x (y ∷ ys) h d =
      ground (arith, insert_by-Distinct x ys, contains-insert_by x y ys)

  pub sort_by-Distinct : (xs : List A) → Distinct xs → Distinct (sort_by key xs)
  unfolding sort_by contains
  sort_by-Distinct [] d = tt
  sort_by-Distinct (x ∷ xs) d =
      insert_by-Distinct x (sort_by key xs) (ground (arith, contains-sort_by xs x))
        (sort_by-Distinct xs d.1)

le_str_antisym : (s t : Str) → le_str s t ≡ true → le_str t s ≡ true → s ≡ t
unfolding le_str
le_str_antisym [] [] h k = refl
le_str_antisym [] (b ∷ t) h k = absurd (cc)
le_str_antisym (a ∷ s) [] h k = absurd (cc)
le_str_antisym (a ∷ s) (b ∷ t) h k = ground (arith, le_str_antisym s t)

-- Sorting texts gives one list for all orders of the same texts.
abbrev pub by_text : Str → Str
by_text s = s

insert_by_comm :
    (x y : Str) (l : List Str)
    → insert_by by_text x (insert_by by_text y l) ≡ insert_by by_text y (insert_by by_text x l)
unfolding insert_by
insert_by_comm x y [] = ground (arith, le_str_antisym x y, le_str_total x y, le_str_total y x)
insert_by_comm x y (z ∷ l) = ground (
  arith,
  insert_by_comm x y l,
  le_str_antisym x y,
  le_str_total x y,
  le_str_total y x,
  le_str_trans x y z,
  le_str_trans y x z,
)

sort_by-permd : {xs ys : List Str} → Permᴰ xs ys → sort_by by_text xs ≡ sort_by by_text ys
unfolding sort_by
sort_by-permd Permᴰ.nil = refl
sort_by-permd (Permᴰ.cons e p) = ap₂ (insert_by by_text) e (sort_by-permd p)
sort_by-permd (Permᴰ.swap {a = a} {b = b} {l = l} e f) =
    insert_by_comm a b (sort_by by_text l)
    ∙ ap₂ (λ x y. insert_by by_text x (insert_by by_text y (sort_by by_text l))) f e
sort_by-permd (Permᴰ.trans p q) = sort_by-permd p ∙ sort_by-permd q

pub sort_by-perm_eq : (xs ys : List Str) → Perm xs ys → sort_by by_text xs ≡ sort_by by_text ys
sort_by-perm_eq xs ys p = ∥∥₁_elim p (hlevel) sort_by-permd
