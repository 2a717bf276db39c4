-- ===== src/Base/Equality.antt =====
-- Go's `==` on strings and numbers, and the conditional.
use Prim.Native.Nat.{ℕ}
use mathlib.Core.Path.{◌≡◌, refl, ap₂}
use mathlib.Core.Logic.{dite, ◌⊎◌, inl, inr}
use mathlib.Core.Bool.{Bool, true, false, cond, ◌||◌}
use mathlib.Core.Option.{Option, none, some}
use mathlib.Core.List.{List, [], ◌∷◌, ◌++◌}
use native.Mathlib.Decide.{ℕ_discrete}
use native.Mathlib.Omega.{arith}

infix 1 if◌then◌else◌
abbrev pub if◌then◌else◌ {ℓ} : {A : Type ℓ} → Bool → A → A → A
if b then x else y = cond b x y

pub record Eq {ℓ} (A : Type ℓ) : Type ℓ where
  pub dec : Discrete A

infix 50 ◌==◌
abbrev pub ◌==◌ {ℓ} : {A : Type ℓ} ⦃e : Eq A⦄ → A → A → Bool
◌==◌ ⦃e⦄ a b = elim (e.dec a b) [ yes _ ↦ true | no _ ↦ false ]

-- A Go string is its bytes.
abbrev pub Str : Type 0
Str = List ℕ

pub cons_inj : {a b : ℕ} {s t : Str} → a ∷ s ≡ b ∷ t → (a ≡ b) × (s ≡ t)
cons_inj e = (cc, cc)

str_dec : Discrete Str
str_dec [] [] = yes refl
str_dec [] (b ∷ t) = no (λ e. cc)
str_dec (a ∷ s) [] = no (λ e. cc)
str_dec (a ∷ s) (b ∷ t) =
    dite (ℕ_discrete a b)
      (λ p. dite (str_dec s t) (λ q. yes (ap₂ ◌∷◌ p q)) (λ n. no (λ e. n (cons_inj e).1)))
      (λ n. no (λ e. n (cons_inj e).0))

-- Shut in proofs, where a split on `s == t` yields the equation or its negation.
instance unfoldable pub str_eq : Eq Str
unfolding str_dec ℕ_discrete
str_eq = record { dec = str_dec }

instance unfoldable pub nat_eq : Eq ℕ
unfolding ℕ_discrete
nat_eq = record { dec = ℕ_discrete }

-- To split on a computed value and keep the equation.
pub Bool-cases : (b : Bool) → (b ≡ true) ⊎ (b ≡ false)
Bool-cases true = inl refl
Bool-cases false = inr refl

pub Option-cases {ℓ} : {A : Type ℓ} (o : Option A) → (o ≡ none) ⊎ ((a : A) × (o ≡ some a))
Option-cases none = inl refl
Option-cases (some a) = inr (a, refl)

module _ {ℓ} {A : Type ℓ} ⦃e : Eq A⦄ where
  pub ==_iff : (a b : A) → ((a == b) ≡ true → a ≡ b) × (a ≡ b → (a == b) ≡ true)
  ==_iff a b = (λ h. ground arith, λ h. ground arith)

  pub ==_refl : (a : A) → (a == a) ≡ true
  ==_refl a = ground arith

  -- slices.Contains
  unfoldable pub contains : List A → A → Bool
  contains [] a = false
  contains (x ∷ xs) a = a == x || contains xs a

  -- No element occurs twice.
  abbrev pub Distinct : List A → Type 0
  Distinct [] = Unit
  Distinct (x ∷ xs) = (contains xs x ≡ false) × Distinct xs

  pub contains-append :
      (xs ys : List A) (a : A) → contains (xs ++ ys) a ≡ (contains xs a || contains ys a)
  unfolding contains
  contains-append [] ys a = refl
  contains-append (x ∷ xs) ys a = ground (arith, contains-append xs ys a)

  pub Distinct-append_one :
      (xs : List A) (a : A) → contains xs a ≡ false → Distinct xs → Distinct (xs ++ (a ∷ []))
  unfolding contains
  Distinct-append_one [] a h d = (refl, tt)
  Distinct-append_one (x ∷ xs) a h d =
      (ground (arith, contains-append xs (a ∷ []) x), Distinct-append_one xs a (ground arith) d.1)
