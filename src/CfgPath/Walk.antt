-- ===== src/CfgPath/Walk.antt =====
-- What a path leads to, and the spelling of array indexes.
use gomake.Base.{
  ℕ, Str, true, false, List, [], ◌∷◌, ◌++◌, str_eq, nat_eq, join, Option, none, some, ◌≡◌, ◌≢◌,
  refl, arith, ◌⊎◌, inl, inr, ◌<◌, All,
}
use gomake.Base.Decimal.{decimal, value-decimal, IsDigit, decimal-All, decimal-cons}
use gomake.Value.{Value, Fields, null, bool, num, text, arr, obj, lookup_field}
use gomake.CfgPath.{
  Result, ok, err, dot, walk, resolve, array_index, item_at, miss, all_digits, leading_zero,
  int_limit, data_of,
}
use gomake.CfgPath.Split.{IsWritten, written, meant, split_path-join}

abbrev pub continue_at : List Str → Str → Result Value → Result Value
continue_at segs path (err e) = err e
continue_at segs path (ok v) = walk segs path v

step :
    (o : Option Value) (xs ys : List Str) (path : Str)
    → ((v : Value) → walk (xs ++ ys) path v ≡ continue_at ys path (walk xs path v))
    → elim o [ none ↦ err (miss path) | some v ↦ walk (xs ++ ys) path v ]
      ≡ continue_at ys path (elim o [ none ↦ err (miss path) | some v ↦ walk xs path v ])
step none xs ys path ih = refl
step (some v) xs ys path ih = ih v

-- Segments are walked one after the other.
pub walk-append :
    (xs ys : List Str) (path : Str) (cur : Value)
    → walk (xs ++ ys) path cur ≡ continue_at ys path (walk xs path cur)
unfolding walk
walk-append [] ys path cur = refl
walk-append (x ∷ xs) ys path null = refl
walk-append (x ∷ xs) ys path (bool b) = refl
walk-append (x ∷ xs) ys path (num n) = refl
walk-append (x ∷ xs) ys path (text s) = refl
walk-append (x ∷ xs) ys path (arr vs) =
    step (item_at (array_index x) vs) xs ys path (λ v. walk-append xs ys path v)
walk-append (x ∷ xs) ys path (obj fs) =
    step (lookup_field x fs) xs ys path (λ v. walk-append xs ys path v)

-- A written path gives what its segments lead to, one after the other.
pub resolve-join :
    (cfg : Option Fields) (w seg : Str) (ps : List (Str × Str))
    → All IsWritten ((w, seg) ∷ ps)
    → join dot (w ∷ written ps) ≢ []
    → resolve cfg (join dot (w ∷ written ps))
      ≡ some (
          continue_at
            (meant ps)
            (join dot (w ∷ written ps))
            (walk (seg ∷ []) (join dot (w ∷ written ps)) (obj (data_of cfg))))
unfolding resolve
resolve-join cfg w seg ps h ne =
    rw
      (
        resolve,
        split_path-join w seg ps h ne,
        walk-append (seg ∷ []) (meant ps) (join dot (w ∷ written ps)) (obj (data_of cfg)),
      )
      refl

all_digits-All : (s : Str) → All IsDigit s → all_digits s ≡ true
unfolding all_digits
all_digits-All [] h = refl
all_digits-All (c ∷ s) (d, h) = ground (arith, all_digits-All s h)

leading_zero-eq-false : (c : ℕ) (s : Str) → (c ≢ b'0') ⊎ (s ≡ []) → leading_zero (c ∷ s) ≡ false
leading_zero-eq-false c [] h = refl
leading_zero-eq-false c (d ∷ s) (inl ne) = ground arith
leading_zero-eq-false c (d ∷ s) (inr e) = absurd (cc)

-- An index is read from its decimal digits, up to the largest number of an int.
pub array_index-decimal : (i : ℕ) → i < int_limit → array_index (decimal i) ≡ some i
unfolding array_index
array_index-decimal i h =
    let (c, s, q, alt) = decimal-cons i in
    let digits = all_digits-All (decimal i) (decimal-All i) in
    let plain : leading_zero (decimal i) ≡ false = rw q (leading_zero-eq-false c s alt) in
    rw (array_index, plain, digits, value-decimal i) (ground arith)
