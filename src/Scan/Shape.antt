-- ===== src/Scan/Shape.antt =====
-- Which functions are targets, `newTarget` of internal/parser/target.go.
use gomake.Scan.Named.{IsNamed, IsOfPackage, IsOne, q_ident-IsOfPackage_iff, q_ident-IsOne_iff}
use gomake.Base.{
  All, Lacks, contains, nat_eq, subst, Str, true, false, List, [], ◌∷◌, codes, Option-cases,
  Bool-cases, nat_eq, str_eq, ◌≡◌, ◌≤◌, ◌↔◌, arith, inl, inr, refl,
}
use gomake.Base.Dict.{Dict}
use gomake.Syntax.{Expr, star, q_ident, file_imports}
use gomake.Target.{Target}
use gomake.Scan.{
  GoDoc, Func, Field, Package, made, scan_target, check_params, check_results, import_of, ring_path,
  documented, bare_target,
}
use gomake.Name.{set_derived_fields}
use gomake.Scan.Checks.{HasParams, HasResults, check_params_iff, check_results_iff}

-- The first parameter is a context.Context, behind any number of stars, of the package context.
abbrev pub IsContext : Field → Dict Str Str → Type 0
IsContext a imports =
    IsOfPackage (codes "context") (codes "Context") a.type_expr
    × (import_of imports (codes "context") ≡ codes "context")
    × (a.names ≤ 1)

-- The second is a pointer to a ring.Ring, behind any number of further stars, of the package ring.
abbrev pub IsRing : Field → Dict Str Str → Type 0
IsRing b imports =
    (x : Expr) × (b.type_expr ≡ star x)
    × IsOfPackage (codes "ring") (codes "Ring") x
    × (import_of imports (codes "ring") ≡ ring_path)
    × (b.names ≤ 1)

abbrev pub IsParams : List Field → Dict Str Str → Type 0
IsParams params imports =
    (a : Field) × (b : Field) × (params ≡ a ∷ b ∷ []) × IsContext a imports × IsRing b imports

-- The one result is an error, behind any number of stars.
abbrev pub IsResults : List Field → Type 0
IsResults results =
    (r : Field) × (results ≡ r ∷ []) × IsOne (codes "error") r.type_expr × (r.names ≤ 1)

-- A field whose type is one of Go.
abbrev pub IsField : Field → Type 0
IsField f = IsNamed f.type_expr

not_dot : (s : Str) → contains s b'.' ≡ false → Lacks b'.' s
unfolding contains
not_dot [] h = tt
not_dot (c ∷ s) h = (ground (arith, h), not_dot s (ground (arith, h)))

context_iff :
    (x : Expr)
    → IsNamed x
    → (q_ident x ≡ codes "context.Context") ↔ IsOfPackage (codes "context") (codes "Context") x
unfolding contains nat_eq
context_iff x h =
    q_ident-IsOfPackage_iff b'c' (codes "ontext") (codes "Context") (not_dot (codes "context") refl)
      (not_dot (codes "Context") refl) (λ e. omega (arith, e)) x h

ring_iff :
    (x : Expr)
    → IsNamed x
    → (q_ident x ≡ codes "ring.Ring") ↔ IsOfPackage (codes "ring") (codes "Ring") x
unfolding contains nat_eq
ring_iff x h =
    q_ident-IsOfPackage_iff b'r' (codes "ing") (codes "Ring") (not_dot (codes "ring") refl)
      (not_dot (codes "Ring") refl) (λ e. omega (arith, e)) x h

error_iff : (x : Expr) → IsNamed x → (q_ident x ≡ codes "error") ↔ IsOne (codes "error") x
unfolding contains nat_eq
error_iff x h =
    q_ident-IsOne_iff b'e' (codes "rror") (not_dot (codes "error") refl) (λ e. omega (arith, e)) x h

HasParams-IsParams :
    (params : List Field) (imports : Dict Str Str)
    → All IsField params
    → HasParams params imports ↔ IsParams params imports
HasParams-IsParams params imports named = (
  λ (a, b, e, (q, i, n), (x, t, r, j, m)).
      (let (na, (nb, _)) = subst (All IsField) e named in
        (
          a,
          b,
          e,
          ((context_iff a.type_expr na).0 q, i, n),
          (x, t, (ring_iff x (subst IsNamed t nb)).0 r, j, m),
        )),
  λ (a, b, e, (q, i, n), (x, t, r, j, m)).
      (let (na, (nb, _)) = subst (All IsField) e named in
        (
          a,
          b,
          e,
          ((context_iff a.type_expr na).1 q, i, n),
          (x, t, (ring_iff x (subst IsNamed t nb)).1 r, j, m),
        )),
)

HasResults-IsResults :
    (results : List Field) → All IsField results → HasResults results ↔ IsResults results
HasResults-IsResults results named = (
  λ (r, e, q, n). (r, e, (error_iff r.type_expr (subst (All IsField) e named).0).0 q, n),
  λ (r, e, q, n). (r, e, (error_iff r.type_expr (subst (All IsField) e named).0).1 q, n),
)

module _ (go : GoDoc) (pkg : Package) (fn : Func) where
  scan_target-read_iff :
      (crumbs : List Str)
      → ((t : Target) × (scan_target go pkg fn crumbs ≡ made t)) ↔ (
          (go.exported fn.name ≡ true)
          × (fn.generic ≡ false)
          × HasParams fn.params (file_imports pkg.files fn.pos)
          × HasResults fn.results)
  unfolding scan_target
  scan_target-read_iff crumbs = (there, back)
    where
      imports : Dict Str Str
      imports = file_imports pkg.files fn.pos

      Accepted : Type 0
      Accepted =
          (go.exported fn.name ≡ true)
          × (fn.generic ≡ false)
          × HasParams fn.params imports
          × HasResults fn.results

      there : (t : Target) × (scan_target go pkg fn crumbs ≡ made t) → Accepted
      there (t, h) = elim (Bool-cases (go.exported fn.name)) [
        | inr e ↦ absurd (ground (arith, e, h))
        | inl e ↦ elim (Bool-cases fn.generic) [
          | inl g ↦ absurd (ground (arith, e, g, h))
          | inr g ↦ elim (Option-cases (check_params fn.params imports)) [
            | inr (r, p) ↦ absurd (ground (arith, e, g, p, h))
            | inl p ↦ elim (Option-cases (check_results fn.results)) [
              | inr (r, q) ↦ absurd (ground (arith, e, g, p, q, h))
              | inl q ↦ (
                e,
                g,
                (check_params_iff fn.params imports).0 p,
                (check_results_iff fn.results).0 q,
              )
            ]
          ]
        ]
      ]

      back : Accepted → (t : Target) × (scan_target go pkg fn crumbs ≡ made t)
      back (e, g, p, r) = (
        set_derived_fields go.lower go.synopsis (documented (bare_target pkg fn crumbs) fn),
        rw
            (
              scan_target,
              e,
              g,
              (check_params_iff fn.params imports).1 p,
              (check_results_iff fn.results).1 r,
            )
            refl,
      )

  -- A function whose types are named as Go allows is a target exactly when its name is exported, it
  -- has no type parameters, its two parameters are a context.Context, behind any number of stars, and
  -- a ring.Ring, behind one star at least, each with one name at most and from its own package, and
  -- its only result is an error, behind any number of stars.
  pub scan_target_iff :
      (crumbs : List Str)
      → All IsField fn.params
      → All IsField fn.results
      → ((t : Target) × (scan_target go pkg fn crumbs ≡ made t)) ↔ (
          (go.exported fn.name ≡ true)
          × (fn.generic ≡ false)
          × IsParams fn.params (file_imports pkg.files fn.pos)
          × IsResults fn.results)
  scan_target_iff crumbs np nr =
      let read = scan_target-read_iff crumbs in
      let params = HasParams-IsParams fn.params (file_imports pkg.files fn.pos) np in
      let results = HasResults-IsResults fn.results nr in
      (
        λ m. (let (e, g, p, r) = read.0 m in (e, g, params.0 p, results.0 r)),
        λ (e, g, p, r). read.1 (e, g, params.1 p, results.1 r),
      )
