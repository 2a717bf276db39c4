-- ===== src/Syntax/Trail.antt =====
-- Breadcrumb trails of namespaces, `isNS` and `breadcrumbs` of internal/parser/helpers.go. An
-- identifier is resolved as go/parser does, to a type that the same file declares.
pub mod Exact
use mathlib.Core.List.{reverse}
use gomake.Base.{
  ℕ, zero, suc, Str, true, false, List, [], ◌∷◌, ◌++◌, codes, ◌==◌, str_eq, contains,
  contains-append, length, Option, none, some, if◌then◌else◌, ◌≡◌, ◌≢◌, ◌⊎◌, inl, inr, ◌<◌, ◌≤◌,
  refl, ap, ◌∙◌, append_assoc, arith, Bool-cases, Option-cases,
}
use gomake.Name.{root_crumb}
use gomake.Syntax.{
  Expr, ident, selector, star, array, struct_type, other_expr, TypeSpec, is_ns_root,
  is_builtin_type,
}

abbrev pub part_crumb : Str
part_crumb = codes "__!!!__"

-- The type of a name, among those of a file.
unfoldable pub resolve : List TypeSpec → Str → Option TypeSpec
resolve [] name = none
resolve (s ∷ scope) name = if s.name == name then some s else resolve scope name

module _ (scope : List TypeSpec) where
  -- `isNS`; the empty list is nil, and `none` means that the fuel ran out.
  unfoldable pub is_ns : ℕ → TypeSpec → List Str → Option (List Str)
  unfolding resolve
  is_ns zero spc prev = none
  is_ns (suc fuel) spc prev = if spc.generic then some [] else elim spc.type_expr [
    | selector x sel ↦ some []
    | star x ↦ some []
    | array x ↦ some []
    | other_expr ↦ some []
    | struct_type ↦ if is_ns_root spc then some (prev ++ (root_crumb ∷ [])) else some []
    | ident name ↦ elim (resolve scope name) [
      | some spc2 ↦
          let rest = is_ns fuel spc2 (prev ++ (spc2.name ∷ [])) in
          if contains prev spc2.name then some [] else rest
      | none ↦ if is_builtin_type name then some [] else some (prev ++ (name ∷ part_crumb ∷ []))
    ]
  ]

  abbrev reversed : Option (List Str) → Option (List Str)
  reversed none = none
  reversed (some pth) = some (reverse pth)

  -- `breadcrumbs` of a type that one spec declares: a round names a type of the file at least.
  unfoldable pub breadcrumbs : TypeSpec → Option (List Str)
  unfolding is_ns
  breadcrumbs spc = reversed (is_ns (suc (length scope)) spc (spc.name ∷ []))

  -- The types of the file that a trail does not name yet.
  pub unnamed_in : List TypeSpec → List Str → ℕ
  unnamed_in [] prev = 0
  unnamed_in (s ∷ ss) prev =
      let rest = unnamed_in ss prev in if contains prev s.name then rest else suc rest

  unnamed_in-le :
      (ss : List TypeSpec) (prev : List Str) (n : Str)
      → unnamed_in ss (prev ++ (n ∷ [])) ≤ unnamed_in ss prev
  unfolding unnamed_in contains
  unnamed_in-le [] prev n = omega arith
  unnamed_in-le (s ∷ ss) prev n =
      ground (arith, unnamed_in-le ss prev n, contains-append prev (n ∷ []) s.name)

  pub unnamed_in-lt :
      (ss : List TypeSpec) (prev : List Str) (name : Str) (s : TypeSpec)
      → resolve ss name ≡ some s
      → contains prev s.name ≡ false
      → unnamed_in ss (prev ++ (s.name ∷ [])) < unnamed_in ss prev
  unfolding unnamed_in contains resolve
  unnamed_in-lt [] prev name s h n = absurd (cc)
  unnamed_in-lt (t ∷ ss) prev name s h n = ground (
    arith,
    unnamed_in-lt ss prev name s,
    unnamed_in-le ss prev s.name,
    contains-append prev (s.name ∷ []) t.name,
  )

  pub is_ns_total :
      (fuel : ℕ) (spc : TypeSpec) (prev : List Str)
      → unnamed_in scope prev < fuel
      → is_ns fuel spc prev ≢ none
  unfolding is_ns
  is_ns_total zero spc prev l h = omega (arith, l)
  is_ns_total (suc fuel) spc prev l h = elim (Bool-cases spc.generic) [
    | inl g ↦ ground (arith, g, h)
    | inr g ↦ go spc.type_expr refl g (λ b. is_ns_total fuel b (prev ++ (b.name ∷ [])))
  ]
    where
      Next : Type 0
      Next =
          (b : TypeSpec)
          → unnamed_in scope (prev ++ (b.name ∷ [])) < fuel
          → is_ns fuel b (prev ++ (b.name ∷ [])) ≢ none

      go : (x : Expr) → spc.type_expr ≡ x → spc.generic ≡ false → Next → ⊥
      go (selector x sel) e g k = ground (arith, e, g, h)
      go (star x) e g k = ground (arith, e, g, h)
      go (array x) e g k = ground (arith, e, g, h)
      go struct_type e g k = ground (arith, e, g, h)
      go other_expr e g k = ground (arith, e, g, h)
      go (ident name) e g k = elim (Option-cases (resolve scope name)) [
        | inl r ↦ ground (arith, e, g, r, h)
        | inr (base, r) ↦ elim (Bool-cases (contains prev base.name)) [
          | inl c ↦ ground (arith, e, g, r, c, h)
          | inr c ↦
              k base (omega (arith, l, unnamed_in-lt scope prev name base r c))
                (ground (arith, e, g, r, c, h))
        ]
      ]

  pub unnamed_in-length : (ss : List TypeSpec) (prev : List Str) → unnamed_in ss prev ≤ length ss
  unfolding unnamed_in
  unnamed_in-length [] prev = omega arith
  unnamed_in-length (s ∷ ss) prev = ground (arith, unnamed_in-length ss prev)

  -- `breadcrumbs` ends for every type of every file, cyclic declarations included.
  pub breadcrumbs_total : (spc : TypeSpec) → (crumbs : List Str) × (breadcrumbs spc ≡ some crumbs)
  unfolding breadcrumbs
  breadcrumbs_total spc = elim (Option-cases (is_ns (suc (length scope)) spc (spc.name ∷ []))) [
    | inl n ↦ absurd (
        is_ns_total (suc (length scope)) spc (spc.name ∷ [])
          (omega (arith, unnamed_in-length scope (spc.name ∷ []))) n)
    | inr (crumbs, e) ↦ (reverse crumbs, rw (e) refl)
  ]
