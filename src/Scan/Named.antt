-- ===== src/Scan/Named.antt =====
-- Which types `qIdent` of internal/parser/helpers.go names.
use gomake.Base.{
  ℕ, Str, [], ◌∷◌, ◌++◌, codes, Lacks, split, split-append, split-eq-singleton, str_eq, nat_eq, ◌≡◌,
  ◌≢◌, ◌↔◌, refl, ap, sym, ◌∙◌, arith, length,
}
use gomake.Syntax.{Expr, ident, selector, star, array, struct_type, other_expr, q_ident}

abbrev dot : ℕ
dot = b'.'

-- The identifiers of a type have no dot, as those of Go.
abbrev pub IsNamed : Expr → Type 0
IsNamed (ident name) = Lacks dot name
IsNamed (selector x sel) = IsNamed x × Lacks dot sel
IsNamed (star x) = IsNamed x
IsNamed (array x) = IsNamed x
IsNamed struct_type = Unit
IsNamed other_expr = Unit

-- The type of a package, behind any number of stars.
abbrev pub IsOfPackage : Str → Str → Expr → Type 0
IsOfPackage p s (ident name) = ⊥
IsOfPackage p s (selector (ident x) sel) = (x ≡ p) × (sel ≡ s)
IsOfPackage p s (selector (selector x y) sel) = ⊥
IsOfPackage p s (selector (star x) sel) = ⊥
IsOfPackage p s (selector (array x) sel) = ⊥
IsOfPackage p s (selector struct_type sel) = ⊥
IsOfPackage p s (selector other_expr sel) = ⊥
IsOfPackage p s (star x) = IsOfPackage p s x
IsOfPackage p s (array x) = ⊥
IsOfPackage p s struct_type = ⊥
IsOfPackage p s other_expr = ⊥

-- A type with one name, behind any number of stars.
abbrev pub IsOne : Str → Expr → Type 0
IsOne n (ident name) = name ≡ n
IsOne n (selector x sel) = ⊥
IsOne n (star x) = IsOne n x
IsOne n (array x) = ⊥
IsOne n struct_type = ⊥
IsOne n other_expr = ⊥

parts :
    (x sel : Str) → Lacks dot x → Lacks dot sel → split dot (x ++ (codes "." ++ sel)) ≡ x ∷ sel ∷ []
parts x sel h k = split-append dot x sel h ∙ ap (λ r. x ∷ r) (split-eq-singleton dot sel k)

pair_inj : (a b c d : Str) → a ∷ b ∷ [] ≡ c ∷ d ∷ [] → (a ≡ c) × (b ≡ d)
pair_inj a b c d e = (cc, cc)

one-ne-pair : (a c d : Str) → a ∷ [] ≢ c ∷ d ∷ []
one-ne-pair a c d e = omega (arith, ap length e)

nil-ne-dotted : (p s : Str) → [] ≢ p ++ (codes "." ++ s)
nil-ne-dotted [] s e = cc
nil-ne-dotted (c ∷ p) s e = cc

-- A name of a package and one of its types, and one name; neither starts with a bracket.
module _ (c : ℕ) (p s : Str) (lp : Lacks dot (c ∷ p)) (ls : Lacks dot s) (nb : c ≢ b'[') where
  pub q_ident-IsOfPackage_iff :
      (x : Expr) → IsNamed x → (q_ident x ≡ (c ∷ p) ++ (codes "." ++ s)) ↔ IsOfPackage (c ∷ p) s x
  unfolding q_ident
  q_ident-IsOfPackage_iff (ident name) h = (
    λ e.
        one-ne-pair name (c ∷ p) s
          (sym (split-eq-singleton dot name h) ∙ ap (split dot) e ∙ parts (c ∷ p) s lp ls),
    λ e. absurd e,
  )
  q_ident-IsOfPackage_iff (selector (ident x) sel) (h, k) = (
    λ e.
        pair_inj x sel (c ∷ p) s (sym (parts x sel h k) ∙ ap (split dot) e ∙ parts (c ∷ p) s lp ls),
    λ (a, b). rw (a, b) refl,
  )
  q_ident-IsOfPackage_iff (selector (selector x y) sel) h =
      (λ e. nil-ne-dotted (c ∷ p) s e, λ e. absurd e)
  q_ident-IsOfPackage_iff (selector (star x) sel) h =
      (λ e. nil-ne-dotted (c ∷ p) s e, λ e. absurd e)
  q_ident-IsOfPackage_iff (selector (array x) sel) h =
      (λ e. nil-ne-dotted (c ∷ p) s e, λ e. absurd e)
  q_ident-IsOfPackage_iff (selector struct_type sel) h =
      (λ e. nil-ne-dotted (c ∷ p) s e, λ e. absurd e)
  q_ident-IsOfPackage_iff (selector other_expr sel) h =
      (λ e. nil-ne-dotted (c ∷ p) s e, λ e. absurd e)
  q_ident-IsOfPackage_iff (star x) h = q_ident-IsOfPackage_iff x h
  q_ident-IsOfPackage_iff (array x) h = (λ e. nb (cc), λ e. absurd e)
  q_ident-IsOfPackage_iff struct_type h = (λ e. nil-ne-dotted (c ∷ p) s e, λ e. absurd e)
  q_ident-IsOfPackage_iff other_expr h = (λ e. nil-ne-dotted (c ∷ p) s e, λ e. absurd e)

module _ (c : ℕ) (p : Str) (lp : Lacks dot (c ∷ p)) (nb : c ≢ b'[') where
  pub q_ident-IsOne_iff : (x : Expr) → IsNamed x → (q_ident x ≡ c ∷ p) ↔ IsOne (c ∷ p) x
  unfolding q_ident
  q_ident-IsOne_iff (ident name) h = (λ e. e, λ e. e)
  q_ident-IsOne_iff (selector (ident x) sel) (h, k) = (
    λ e.
        one-ne-pair (c ∷ p) x sel
          (sym (split-eq-singleton dot (c ∷ p) lp) ∙ ap (split dot) (sym e) ∙ parts x sel h k),
    λ e. absurd e,
  )
  q_ident-IsOne_iff (selector (selector x y) sel) h = (λ e. cc, λ e. absurd e)
  q_ident-IsOne_iff (selector (star x) sel) h = (λ e. cc, λ e. absurd e)
  q_ident-IsOne_iff (selector (array x) sel) h = (λ e. cc, λ e. absurd e)
  q_ident-IsOne_iff (selector struct_type sel) h = (λ e. cc, λ e. absurd e)
  q_ident-IsOne_iff (selector other_expr sel) h = (λ e. cc, λ e. absurd e)
  q_ident-IsOne_iff (star x) h = q_ident-IsOne_iff x h
  q_ident-IsOne_iff (array x) h = (λ e. nb (cc), λ e. absurd e)
  q_ident-IsOne_iff struct_type h = (λ e. cc, λ e. absurd e)
  q_ident-IsOne_iff other_expr h = (λ e. cc, λ e. absurd e)
