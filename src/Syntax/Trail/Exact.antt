-- ===== src/Syntax/Trail/Exact.antt =====
-- What `breadcrumbs` of internal/parser/helpers.go gives, against the chain of declarations.
use mathlib.Core.List.{reverse}
use gomake.Base.{
  subst, ℕ, zero, suc, Str, true, false, List, [], ◌∷◌, ◌++◌, str_eq, contains, contains-append,
  length, some, none, ◌≡◌, ◌⊎◌, inl, inr, ◌<◌, ◌≤◌, refl, sym, ap, ◌∙◌, append_assoc, arith,
  Bool-cases, Option-cases,
}
use gomake.Name.{root_crumb}
use gomake.Syntax.{
  Expr, ident, selector, star, array, struct_type, other_expr, TypeSpec, is_ns_root,
  is_builtin_type,
}
use gomake.Syntax.Trail.{
  part_crumb, resolve, is_ns, breadcrumbs, unnamed_in, unnamed_in-lt, is_ns_total,
  unnamed_in-length,
}

module _ (scope : List TypeSpec) where
  -- A type is declared from the types that its trail names, one by one, down to a struct with the tag
  -- of a root, or to a type of another file. None of them has type parameters.
  pub data IsTrail : TypeSpec → List Str → Type 0 where
    root :
        (spc : TypeSpec)
        → spc.generic ≡ false
        → spc.type_expr ≡ struct_type
        → is_ns_root spc ≡ true
        → IsTrail spc (root_crumb ∷ [])
    part :
        (spc : TypeSpec) (name : Str)
        → spc.generic ≡ false
        → spc.type_expr ≡ ident name
        → resolve scope name ≡ none
        → is_builtin_type name ≡ false
        → IsTrail spc (name ∷ part_crumb ∷ [])
    step :
        (spc base : TypeSpec) (name : Str) (trail : List Str)
        → spc.generic ≡ false
        → spc.type_expr ≡ ident name
        → resolve scope name ≡ some base
        → IsTrail base trail
        → IsTrail spc (base.name ∷ trail)

  is_ns-IsTrail :
      (fuel : ℕ) (spc : TypeSpec) (prev crumbs : List Str)
      → is_ns scope fuel spc prev ≡ some crumbs
      → (crumbs ≡ []) ⊎ ((trail : List Str) × ((crumbs ≡ prev ++ trail) × IsTrail spc trail))
  unfolding is_ns
  is_ns-IsTrail zero spc prev crumbs h = absurd (cc)
  is_ns-IsTrail (suc fuel) spc prev crumbs h = elim (Bool-cases spc.generic) [
    | inl g ↦ inl (ground (arith, g, h))
    | inr g ↦ go spc.type_expr refl g (λ b. is_ns-IsTrail fuel b (prev ++ (b.name ∷ [])) crumbs)
  ]
    where
      Trailed : List Str → TypeSpec → Type 0
      Trailed before t =
          (crumbs ≡ []) ⊎ ((trail : List Str) × ((crumbs ≡ before ++ trail) × IsTrail t trail))

      go :
          (x : Expr)
          → spc.type_expr ≡ x
          → spc.generic ≡ false
          → ((b : TypeSpec)
              → is_ns scope fuel b (prev ++ (b.name ∷ [])) ≡ some crumbs
              → Trailed (prev ++ (b.name ∷ [])) b)
          → Trailed prev spc
      go (selector x sel) e g k = inl (ground (arith, e, g, h))
      go (star x) e g k = inl (ground (arith, e, g, h))
      go (array x) e g k = inl (ground (arith, e, g, h))
      go other_expr e g k = inl (ground (arith, e, g, h))
      go struct_type e g k = elim (Bool-cases (is_ns_root spc)) [
        | inl r ↦ inr (root_crumb ∷ [], (ground (arith, e, g, r, h), root spc g e r))
        | inr r ↦ inl (ground (arith, e, g, r, h))
      ]
      go (ident name) e g k = elim (Option-cases (resolve scope name)) [
        | inl r ↦ elim (Bool-cases (is_builtin_type name)) [
          | inl b ↦ inl (ground (arith, e, g, r, b, h))
          | inr b ↦
              inr (name ∷ part_crumb ∷ [], (ground (arith, e, g, r, b, h), part spc name g e r b))
        ]
        | inr (base, r) ↦ elim (Bool-cases (contains prev base.name)) [
          | inl c ↦ inl (ground (arith, e, g, r, c, h))
          | inr c ↦ elim (k base (ground (arith, e, g, r, c, h))) [
            | inl n ↦ inl n
            | inr (trail, (q, t)) ↦ inr (
              base.name ∷ trail,
              (q ∙ append_assoc prev (base.name ∷ []) trail, step spc base name trail g e r t),
            )
          ]
        ]
      ]

  resolve-name :
      (ss : List TypeSpec) (name : Str) (s : TypeSpec) → resolve ss name ≡ some s → s.name ≡ name
  unfolding resolve
  resolve-name [] name s h = absurd (cc)
  resolve-name (t ∷ ss) name s h = ground (arith, h, resolve-name ss name s)

  -- A type has one trail at most.
  IsTrail_unique : (spc : TypeSpec) (t u : List Str) → IsTrail spc t → IsTrail spc u → t ≡ u
  IsTrail_unique spc t u (root _ g e r) (root _ g' e' r') = refl
  IsTrail_unique spc t u (root _ g e r) (part _ name g' e' r' b') = absurd (cc (e, e'))
  IsTrail_unique spc t u (root _ g e r) (step _ base name trail g' e' r' i') = absurd (cc (e, e'))
  IsTrail_unique spc t u (part _ name g e r b) (root _ g' e' r') = absurd (cc (e, e'))
  IsTrail_unique spc t u (part _ name g e r b) (part _ name' g' e' r' b') = cc (e, e')
  IsTrail_unique spc t u (part _ name g e r b) (step _ base name' trail g' e' r' i') =
      absurd (cc (e, e', r, r'))
  IsTrail_unique spc t u (step _ base name trail g e r i) (root _ g' e' r') = absurd (cc (e, e'))
  IsTrail_unique spc t u (step _ base name trail g e r i) (part _ name' g' e' r' b') =
      absurd (cc (e, e', r, r'))
  IsTrail_unique spc t u (step _ base name trail g e r i) (step _ base' name' trail' g' e' r' i') =
      let same : base ≡ base' = cc (e, e', r, r') in
      ap (λ b. b.name ∷ trail) same
      ∙ ap (λ l. base'.name ∷ l)
          (IsTrail_unique base trail trail' i (subst (λ b. IsTrail b trail') (sym same) i'))

  -- Every name that was visited is that of a type with a trail that is as long at least.
  abbrev IsBehind : List Str → ℕ → Type 0
  IsBehind prev k =
      (n : Str)
      → contains prev n ≡ true
      → (s : TypeSpec) × (u : List Str) × (resolve scope n ≡ some s) × IsTrail s u × (k ≤ length u)

  IsBehind-new :
      (prev : List Str) (name : Str) (base : TypeSpec) (trail : List Str)
      → resolve scope name ≡ some base
      → IsTrail base trail
      → IsBehind prev (suc (length trail))
      → contains prev base.name ≡ false
  IsBehind-new prev name base trail r i b = elim (Bool-cases (contains prev base.name)) [
    | inr c ↦ c
    | inl c ↦
        (let (s, u, q, j, l) = b base.name c in
          let named = resolve-name scope name base r in
          let same : base ≡ s = cc (r, q, ap (λ n. resolve scope n) named) in
          let eq = IsTrail_unique base trail u i (subst (λ x. IsTrail x u) (sym same) j) in
          absurd (omega (arith, l, ap length eq)))
  ]

  IsBehind-append :
      (prev : List Str) (name : Str) (base : TypeSpec) (trail : List Str)
      → resolve scope name ≡ some base
      → IsTrail base trail
      → IsBehind prev (suc (length trail))
      → IsBehind (prev ++ (base.name ∷ [])) (length trail)
  unfolding contains
  IsBehind-append prev name base trail r i b n h = elim (Bool-cases (contains prev n)) [
    | inl c ↦ (let (s, u, q, j, l) = b n c in (s, u, q, j, omega (arith, l)))
    | inr c ↦
        (let own : base.name ≡ n = ground (arith, h, c, contains-append prev (base.name ∷ []) n) in
          (
            base,
            trail,
            ap (λ x. resolve scope x) (sym own ∙ resolve-name scope name base r) ∙ r,
            i,
            omega arith,
          ))
  ]

  is_ns_complete :
      (fuel : ℕ) (spc : TypeSpec) (prev trail : List Str)
      → IsTrail spc trail
      → IsBehind prev (length trail)
      → unnamed_in scope scope prev < fuel
      → is_ns scope fuel spc prev ≡ some (prev ++ trail)
  unfolding is_ns
  is_ns_complete zero spc prev trail i b l = absurd (omega (arith, l))
  is_ns_complete (suc fuel) spc prev trail (root _ g e r) b l = ground (arith, g, e, r)
  is_ns_complete (suc fuel) spc prev trail (part _ name g e r n) b l = ground (arith, g, e, r, n)
  is_ns_complete (suc fuel) spc prev trail (step _ base name rest g e r i) b l =
      let c = IsBehind-new prev name base rest r i b in
      rw (is_ns, g, e, r, c)
        (is_ns_complete fuel base (prev ++ (base.name ∷ [])) rest i
            (IsBehind-append prev name base rest r i b)
            (omega (arith, l, unnamed_in-lt scope scope prev name base r c))
          ∙ ap some (append_assoc prev (base.name ∷ []) rest))

  found-trail :
      (spc : TypeSpec) (trail : List Str)
      → resolve scope spc.name ≡ some spc
      → IsTrail spc trail
      → is_ns scope (suc (length scope)) spc (spc.name ∷ []) ≡ some (spc.name ∷ trail)
  unfolding contains
  found-trail spc trail d i =
      is_ns_complete (suc (length scope)) spc (spc.name ∷ []) trail i
        (λ n h.
          (let own : spc.name ≡ n = ground (arith, h) in
            (spc, trail, ap (λ x. resolve scope x) (sym own) ∙ d, i, omega arith)))
        (omega (arith, unnamed_in-length scope scope (spc.name ∷ [])))

  -- `breadcrumbs` ends for every type that its file declares, cyclic declarations included. If the
  -- type is declared from a chain of types without type parameters, down to a struct with the tag of a
  -- root or to a type of another file, it gives the marker that ends the chain and then the names of
  -- the chain, down to the type itself; if there is no such chain, it gives nil.
  pub breadcrumbs_lem :
      (spc : TypeSpec)
      → resolve scope spc.name ≡ some spc
      → (crumbs : List Str) × (breadcrumbs scope spc ≡ some crumbs)
        × (((trail : List Str) × IsTrail spc trail × (crumbs ≡ reverse (spc.name ∷ trail)))
            ⊎ ((crumbs ≡ []) × ¬ ((trail : List Str) × IsTrail spc trail)))
  unfolding breadcrumbs
  breadcrumbs_lem spc d =
      elim (Option-cases (is_ns scope (suc (length scope)) spc (spc.name ∷ []))) [
        | inl n ↦ absurd (
            is_ns_total scope (suc (length scope)) spc (spc.name ∷ [])
              (omega (arith, unnamed_in-length scope scope (spc.name ∷ []))) n)
        | inr (crumbs, e) ↦ (
          reverse crumbs,
          rw (e) refl,
          elim (is_ns-IsTrail (suc (length scope)) spc (spc.name ∷ []) crumbs e) [
            | inl n ↦
                inr (ap reverse n, λ (trail, i). absurd (cc (e, n, found-trail spc trail d i)))
            | inr (trail, (q, i)) ↦ inl (trail, i, ap reverse q)
          ],
        )
      ]
