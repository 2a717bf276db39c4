-- ===== src/Base/Decimal.antt =====
-- Decimal numerals, as `strconv` and the verb `%d` write them.
use Prim.Native.Nat.{ℕ, zero, suc, ◌+◌, ◌-◌, ◌*◌, ◌/◌, ◌%◌, ◌≤◌, ◌<◌}
use mathlib.Core.Logic.{◌≢◌, ◌⊎◌, inl, inr}
use mathlib.Core.Path.{◌≡◌, refl}
use mathlib.Core.List.{[], ◌∷◌}
use native.Mathlib.Omega.{arith}
use gomake.Base.Equality.{Str, nat_eq, Bool-cases, if◌then◌else◌}
use gomake.Base.Text.{ltb}
use gomake.Base.Lists.{All}

-- The digits of `n`, last one first, in front of `out`; as many rounds as the fuel allows.
digits : ℕ → ℕ → Str → Str
digits zero n out = out
digits (suc fuel) n out =
    let rest = digits fuel (n / 10) ((b'0' + n % 10) ∷ out) in
    if ltb n 10 then (b'0' + n) ∷ out else rest

-- A number has no more digits than its own value and one.
unfoldable pub decimal : ℕ → Str
unfolding digits
decimal n = digits (suc n) n []

-- The number that a text of digits spells behind `n`.
unfoldable pub value : ℕ → Str → ℕ
value n [] = n
value n (c ∷ s) = value (n * 10 + (c - b'0')) s

value-digits : (fuel n : ℕ) (out : Str) → n < fuel → value 0 (digits fuel n out) ≡ value n out
unfolding digits value
value-digits zero n out h = elim h [ ]
value-digits (suc fuel) n out h =
    let m = n / 10 in
    let back : m * 10 + (b'0' + n % 10 - b'0') ≡ n = omega arith in
    ground (arith, value-digits fuel m ((b'0' + n % 10) ∷ out), back)

pub value-decimal : (n : ℕ) → value 0 (decimal n) ≡ n
unfolding decimal value
value-decimal n = value-digits (suc n) n [] (omega arith)

pub decimal-injective : (a b : ℕ) → decimal a ≡ decimal b → a ≡ b
decimal-injective a b h = cc (value-decimal a, value-decimal b)

abbrev pub IsDigit : ℕ → Type 0
IsDigit c = b'0' ≤ c × c ≤ b'9'

digits-All : (fuel n : ℕ) (out : Str) → All IsDigit out → All IsDigit (digits fuel n out)
unfolding digits
digits-All zero n out h = h
digits-All (suc fuel) n out h = elim (Bool-cases (ltb n 10)) [
  | inl e ↦ rw e ((omega arith, ground arith), h)
  | inr e ↦ rw e (digits-All fuel (n / 10) ((b'0' + n % 10) ∷ out) ((omega arith, omega arith), h))
]

pub decimal-All : (n : ℕ) → All IsDigit (decimal n)
unfolding decimal
decimal-All n = digits-All (suc n) n [] tt

digits-cons :
    (fuel n : ℕ) (out : Str)
    → n < fuel
    → (c : ℕ) × (s : Str) × (digits fuel n out ≡ c ∷ s) × ((c ≢ b'0') ⊎ (n ≡ 0) × (s ≡ out))
unfolding digits
digits-cons zero n out h = elim h [ ]
digits-cons (suc fuel) zero out h = (b'0', out, refl, inr (refl, refl))
digits-cons (suc fuel) (suc m) out h = elim (Bool-cases (ltb (suc m) 10)) [
  | inl e ↦ rw e ((b'0' + suc m), out, refl, inl (omega arith))
  | inr e ↦
      let (c, s, q, alt) =
        digits-cons fuel (suc m / 10) ((b'0' + suc m % 10) ∷ out) (omega arith) in
      rw e (c, s, q, elim alt [ inl ne ↦ inl ne | inr (z, same) ↦ absurd (ground arith) ])
]

-- A numeral has a digit, and starts with a zero only if it is that digit.
pub decimal-cons : (n : ℕ) → (c : ℕ) × (s : Str) × (decimal n ≡ c ∷ s) × ((c ≢ b'0') ⊎ (s ≡ []))
unfolding decimal
decimal-cons n =
    let (c, s, q, alt) = digits-cons (suc n) n [] (omega arith) in
    (c, s, q, elim alt [ inl ne ↦ inl ne | inr (z, same) ↦ inr same ])
