-- ===== src/Base/Text.antt =====
-- The functions of Go's `strings` package that the program calls, over bytes.
use Prim.Native.Nat.{ℕ, compare, Ordering}
use Prim.Native.Char.{code}
use Prim.Native.String.{String}
use mathlib.Core.Path.{◌≡◌, refl, sym, ap, ◌∙◌}
use mathlib.Core.Logic.{◌≢◌, inl, inr}
use mathlib.Core.Bool.{Bool, true, false}
use mathlib.Core.Option.{Option, none, some}
use mathlib.Core.List.{List, [], ◌∷◌, ◌++◌, reverse, reverse-append, reverse-reverse, append_assoc}
use native.Mathlib.Omega.{arith}
use gomake.Base.Equality.{Str, ◌==◌, if◌then◌else◌, nat_eq, Option-cases}
use gomake.Base.Lists.{All}

-- The code points of a literal; these are its bytes when the text is ASCII.
abbrev pub codes : String → Str
codes String.[] = []
codes (String.◌∷◌ c s) = code c ∷ codes s

abbrev pub ltb : ℕ → ℕ → Bool
ltb a b = elim (compare a b) [ Ordering.lt ↦ true | _ ↦ false ]

abbrev pub leb : ℕ → ℕ → Bool
leb a b = elim (compare a b) [ Ordering.gt ↦ false | _ ↦ true ]

-- strings.CutPrefix: the rest behind the prefix.
unfoldable pub cut_prefix : Str → Str → Option Str
cut_prefix s [] = some s
cut_prefix [] (p ∷ ps) = none
cut_prefix (c ∷ s) (p ∷ ps) = let rest = cut_prefix s ps in if c == p then rest else none

unfoldable pub has_prefix : Str → Str → Bool
has_prefix s p = elim (cut_prefix s p) [ none ↦ false | some _ ↦ true ]

-- strings.CutSuffix.
unfoldable pub cut_suffix : Str → Str → Option Str
unfolding cut_prefix
cut_suffix s p = elim (cut_prefix (reverse s) (reverse p)) [
  | none ↦ none
  | some r ↦ some (reverse r)
]

unfoldable pub has_suffix : Str → Str → Bool
unfolding cut_suffix
has_suffix s p = elim (cut_suffix s p) [ none ↦ false | some _ ↦ true ]

-- strings.Contains and bytes.Contains.
unfoldable pub has_text : Str → Str → Bool
unfolding has_prefix
has_text [] p = has_prefix [] p
has_text (c ∷ s) p = let rest = has_text s p in if has_prefix (c ∷ s) p then true else rest

abbrev pub cons_left : ℕ → Option (Str × Str) → Option (Str × Str)
cons_left c none = none
cons_left c (some (a, b)) = some (c ∷ a, b)

-- strings.Cut at one byte: the part before its first occurrence and the part behind it.
unfoldable pub cut : ℕ → Str → Option (Str × Str)
cut sep [] = none
cut sep (c ∷ s) = let rest = cons_left c (cut sep s) in if c == sep then some ([], s) else rest

-- strings.Split at one byte: always at least one part.
abbrev pub cons_head : ℕ → List Str → List Str
cons_head c [] = (c ∷ []) ∷ []
cons_head c (p ∷ ps) = (c ∷ p) ∷ ps

unfoldable pub split : ℕ → Str → List Str
split sep [] = [] ∷ []
split sep (c ∷ s) = let rest = split sep s in if c == sep then [] ∷ rest else cons_head c rest

-- strings.Join with one separating byte.
unfoldable pub join : ℕ → List Str → Str
join sep [] = []
join sep (p ∷ []) = p
join sep (p ∷ q ∷ ps) = p ++ (sep ∷ join sep (q ∷ ps))

abbrev pub Lacks : ℕ → Str → Type 0
Lacks b = All (λ c. c ≢ b)

pub cut_prefix-append : (p s : Str) → cut_prefix (p ++ s) p ≡ some s
unfolding cut_prefix
cut_prefix-append [] s = refl
cut_prefix-append (c ∷ p) s = ground (arith, cut_prefix-append p s)

pub cut_prefix_sound : (p s r : Str) → cut_prefix s p ≡ some r → s ≡ p ++ r
unfolding cut_prefix
cut_prefix_sound [] s r h = cc
cut_prefix_sound (c ∷ p) [] r h = cc
cut_prefix_sound (c ∷ p) (d ∷ s) r h = ground (arith, cut_prefix_sound p s r)

-- A cut takes the text apart at a separator that does not occur before.
pub cut_sound :
    (sep : ℕ) (s a b : Str) → cut sep s ≡ some (a, b) → (s ≡ a ++ (sep ∷ b)) × Lacks sep a
unfolding cut
cut_sound sep [] a b h = absurd (cc)
cut_sound sep (c ∷ s) [] b h = ground (arith)
cut_sound sep (c ∷ s) (d ∷ a) b h = ground (arith, cut_sound sep s a b)

pub cut-append : (sep : ℕ) (a b : Str) → Lacks sep a → cut sep (a ++ (sep ∷ b)) ≡ some (a, b)
unfolding cut
cut-append sep [] b h = ground arith
cut-append sep (c ∷ a) b h = ground (arith, cut-append sep a b h.1)

pub cut-eq-none : (sep : ℕ) (s : Str) → Lacks sep s → cut sep s ≡ none
unfolding cut
cut-eq-none sep [] h = refl
cut-eq-none sep (c ∷ s) h = ground (arith, cut-eq-none sep s h.1)

pub split-eq-singleton : (sep : ℕ) (s : Str) → Lacks sep s → split sep s ≡ s ∷ []
unfolding split
split-eq-singleton sep [] h = refl
split-eq-singleton sep (c ∷ s) h = ground (arith, split-eq-singleton sep s h.1)

pub split-append :
    (sep : ℕ) (a s : Str) → Lacks sep a → split sep (a ++ (sep ∷ s)) ≡ a ∷ split sep s
unfolding split
split-append sep [] s h = ground arith
split-append sep (c ∷ a) s h = ground (arith, split-append sep a s h.1)

split-ne-nil : (sep : ℕ) (s : Str) → split sep s ≢ []
unfolding split
split-ne-nil sep [] h = cc
split-ne-nil sep (c ∷ s) h = ground arith

-- Splitting a join gives the parts back, if there is a part and none holds the separator.
pub split-join :
    (sep : ℕ) (p : Str) (ps : List Str)
    → All (Lacks sep) (p ∷ ps)
    → split sep (join sep (p ∷ ps)) ≡ p ∷ ps
unfolding join
split-join sep p [] h = split-eq-singleton sep p h.0
split-join sep p (q ∷ ps) h =
    split-append sep p (join sep (q ∷ ps)) h.0 ∙ ap (λ r. p ∷ r) (split-join sep q ps h.1)

join-cons_head : (sep c : ℕ) (ps : List Str) → ps ≢ [] → join sep (cons_head c ps) ≡ c ∷ join sep ps
unfolding join
join-cons_head sep c [] h = absurd (h refl)
join-cons_head sep c (p ∷ []) h = refl
join-cons_head sep c (p ∷ q ∷ ps) h = refl

join-nil : (sep : ℕ) (ps : List Str) → ps ≢ [] → join sep ([] ∷ ps) ≡ sep ∷ join sep ps
unfolding join
join-nil sep [] h = absurd (h refl)
join-nil sep (p ∷ ps) h = refl

-- Joining the parts of a split gives the text back, for every text.
pub join-split : (sep : ℕ) (s : Str) → join sep (split sep s) ≡ s
unfolding split
join-split sep [] = unfold join in refl
join-split sep (c ∷ s) = ground (
  arith,
  join-nil sep (split sep s) (split-ne-nil sep s),
  join-cons_head sep c (split sep s) (split-ne-nil sep s),
  join-split sep s,
)

cons_head-Lacks :
    (sep c : ℕ) (ps : List Str) → c ≢ sep → All (Lacks sep) ps → All (Lacks sep) (cons_head c ps)
cons_head-Lacks sep c [] h l = ((h, tt), tt)
cons_head-Lacks sep c (p ∷ ps) h l = ((h, l.0), l.1)

-- No part of a split holds the separator.
pub split-Lacks : (sep : ℕ) (s : Str) → All (Lacks sep) (split sep s)
unfolding split
split-Lacks sep [] = (tt, tt)
split-Lacks sep (c ∷ s) = ground (arith, split-Lacks sep s, cons_head-Lacks sep c (split sep s))

-- A text with a suffix, and what stands before it.
pub cut_suffix-append : (r p : Str) → cut_suffix (r ++ p) p ≡ some r
unfolding cut_suffix
cut_suffix-append r p =
    rw
      (cut_suffix, reverse-append r p, cut_prefix-append (reverse p) (reverse r), reverse-reverse r)
      refl

pub cut_suffix_sound : (s p r : Str) → cut_suffix s p ≡ some r → s ≡ r ++ p
unfolding cut_suffix
cut_suffix_sound s p r h = elim (Option-cases (cut_prefix (reverse s) (reverse p))) [
  | inl e ↦ absurd (ground (arith, e))
  | inr (t, e) ↦ ground (
    arith,
    cut_prefix_sound (reverse p) (reverse s) t e,
    reverse-reverse s,
    reverse-reverse p,
    reverse-append (reverse p) t,
  )
]

cons_head-append :
    (c : ℕ) (ps qs : List Str) → ps ≢ [] → cons_head c (ps ++ qs) ≡ cons_head c ps ++ qs
cons_head-append c [] qs h = absurd (h refl)
cons_head-append c (p ∷ ps) qs h = refl

-- Splitting at a separator splits both sides of it.
pub split-append_sep :
    (sep : ℕ) (a s : Str) → split sep (a ++ (sep ∷ s)) ≡ split sep a ++ split sep s
unfolding split
split-append_sep sep [] s = ground arith
split-append_sep sep (c ∷ a) s = ground (
  arith,
  split-append_sep sep a s,
  cons_head-append c (split sep a) (split sep s) (split-ne-nil sep a),
)

pub join-append :
    (sep : ℕ) (p q : Str) (ps qs : List Str)
    → join sep ((p ∷ ps) ++ (q ∷ qs)) ≡ join sep (p ∷ ps) ++ (sep ∷ join sep (q ∷ qs))
unfolding join
join-append sep p q [] qs = refl
join-append sep p q (r ∷ ps) qs =
    ap (λ t. p ++ (sep ∷ t)) (join-append sep r q ps qs)
    ∙ sym (append_assoc p (sep ∷ join sep (r ∷ ps)) (sep ∷ join sep (q ∷ qs)))
