-- ===== src/Scan/Checks.antt =====
-- The checks of parameters and results as `qIdent` reads types, `checkParams` and `checkResults` of
-- internal/parser/target.go.
use gomake.Base.{
  nat_eq, Str, Bool, true, List, [], ◌∷◌, codes, length, Option, none, some, if◌then◌else◌, not,
  ◌||◌, ◌==◌, ==_iff, nat_eq, str_eq, ◌≡◌, ◌≢◌, ◌≤◌, ◌↔◌, arith, refl, ap, ◌∙◌, sym,
}
use gomake.Base.Dict.{Dict}
use gomake.Syntax.{Expr, ident, selector, star, array, struct_type, other_expr, q_ident}
use gomake.Scan.{
  Field, Refusal, check_params, check_results, num_fields, import_of, ring_path, aliased_or_inv,
  or_names, imported_as, check_ring, inv_arg,
}

-- The parameters and the result as the code reads them, by `qIdent`.
abbrev pub HasContext : Field → Dict Str Str → Type 0
HasContext a imports =
    (q_ident a.type_expr ≡ codes "context.Context")
    × (import_of imports (codes "context") ≡ codes "context")
    × (a.names ≤ 1)

abbrev pub HasRing : Field → Dict Str Str → Type 0
HasRing b imports =
    (x : Expr) × (b.type_expr ≡ star x)
    × (q_ident x ≡ codes "ring.Ring")
    × (import_of imports (codes "ring") ≡ ring_path)
    × (b.names ≤ 1)

abbrev pub HasParams : List Field → Dict Str Str → Type 0
HasParams params imports =
    (a : Field) × (b : Field) × (params ≡ a ∷ b ∷ []) × HasContext a imports × HasRing b imports

abbrev pub HasResults : List Field → Type 0
HasResults results =
    (r : Field) × (results ≡ r ∷ []) × (q_ident r.type_expr ≡ codes "error") × (r.names ≤ 1)

num_fields-le : (fs : List Field) → length fs ≤ num_fields fs
unfolding num_fields
num_fields-le [] = omega arith
num_fields-le (f ∷ fs) = ground (arith, num_fields-le fs)

cons_fields : (a b a' b' : Field) → a ∷ b ∷ [] ≡ a' ∷ b' ∷ [] → (a ≡ a') × (b ≡ b')
cons_fields a b a' b' e = (cc, cc)

pub check_results_iff : (results : List Field) → (check_results results ≡ none) ↔ HasResults results
unfolding check_results num_fields
check_results_iff [] = (λ h. absurd (cc), λ h. absurd (ground arith))
check_results_iff (f ∷ []) =
    (λ h. (f, refl, ground (arith, h), ground (arith, h)), λ h. ground (arith, h))
check_results_iff (f ∷ g ∷ fs) =
    (λ h. absurd (ground (arith, h, num_fields-le fs)), λ (r, e, _, _). absurd (two f g fs r e))
  where
    two : (f g : Field) (fs : List Field) (r : Field) → f ∷ g ∷ fs ≡ r ∷ [] → ⊥
    two f g fs r e = omega (arith, ap length e)

-- The tests of `check_params`, for any answers.
abbrev tests : Bool → Bool → Bool → Bool → Bool → Bool → Field → Field → Option Refusal
tests p q z r s w a b =
    if not p || not q
    then aliased_or_inv z
    else or_names (if not r || not s then aliased_or_inv w else none) a b

tests_iff :
    (p q z r s w : Bool) (a b : Field)
    → (tests p q z r s w a b ≡ none)
      ↔ ((p ≡ true) × (q ≡ true) × (r ≡ true) × (s ≡ true) × (a.names ≤ 1) × (b.names ≤ 1))
tests_iff p q z r s w a b = (
  λ h. (
    ground (arith, h),
    ground (arith, h),
    ground (arith, h),
    ground (arith, h),
    ground (arith, h),
    ground (arith, h),
  ),
  λ h. ground (arith, h),
)

refused-ne-none :
    (c z : Bool) (r : Option Refusal) (a b : Field)
    → r ≡ some inv_arg
    → (if c then aliased_or_inv z else or_names r a b) ≢ none
refused-ne-none c z r a b e h = ground (arith, e, h)

pub check_params_iff :
    (params : List Field) (imports : Dict Str Str)
    → (check_params params imports ≡ none) ↔ HasParams params imports
unfolding check_params
check_params_iff [] imports =
    (λ h. absurd (cc), λ (a, b, e, _, _). absurd (omega (arith, ap length e)))
check_params_iff (a ∷ []) imports =
    (λ h. absurd (cc), λ (a', b, e, _, _). absurd (omega (arith, ap length e)))
check_params_iff (a ∷ b ∷ c ∷ more) imports =
    (λ h. absurd (cc), λ (a', b', e, _, _). absurd (omega (arith, ap length e)))
check_params_iff (a ∷ b ∷ []) imports =
    (there b.type_expr refl, λ (a', b', e, i, r). back a' b' (cons_fields a b a' b' e) i r)
  where
    star-eq :
        (x : Expr)
        → b.type_expr ≡ star x
        → check_params (a ∷ b ∷ []) imports
          ≡ tests
              (q_ident a.type_expr == codes "context.Context")
              (import_of imports (codes "context") == codes "context")
              (imported_as a.type_expr imports (codes "context") (codes "Context"))
              (q_ident x == codes "ring.Ring")
              (import_of imports (codes "ring") == ring_path)
              (imported_as x imports ring_path (codes "Ring"))
              a
              b
    star-eq x e = rw (check_params, e) refl

    other :
        (x : Expr)
        → b.type_expr ≡ x
        → check_ring x imports ≡ some inv_arg
        → check_params (a ∷ b ∷ []) imports ≢ none
    other x e r h =
        refused-ne-none
          (not (q_ident a.type_expr == codes "context.Context")
            || not (import_of imports (codes "context") == codes "context"))
          (imported_as a.type_expr imports (codes "context") (codes "Context"))
          (check_ring b.type_expr imports) a b (ap (λ y. check_ring y imports) e ∙ r) h

    there :
        (x : Expr)
        → b.type_expr ≡ x
        → check_params (a ∷ b ∷ []) imports ≡ none
        → HasParams (a ∷ b ∷ []) imports
    there (star x) e h =
        let (p, q, r, s, m, n) =
          (tests_iff _ _ (imported_as a.type_expr imports (codes "context") (codes "Context")) _ _
              (imported_as x imports ring_path (codes "Ring")) a b).0
            (sym (star-eq x e) ∙ h) in
        (
          a,
          b,
          refl,
          ((==_iff _ _).0 p, (==_iff _ _).0 q, m),
          (x, e, (==_iff _ _).0 r, (==_iff _ _).0 s, n),
        )
    there (ident x) e h = absurd (other (ident x) e refl h)
    there (selector x s) e h = absurd (other (selector x s) e refl h)
    there (array x) e h = absurd (other (array x) e refl h)
    there struct_type e h = absurd (other struct_type e refl h)
    there other_expr e h = absurd (other other_expr e refl h)

    back :
        (a' b' : Field)
        → (a ≡ a') × (b ≡ b')
        → HasContext a' imports
        → HasRing b' imports
        → check_params (a ∷ b ∷ []) imports ≡ none
    back a' b' (ea, eb) (p, q, m) (x, e, r, s, n) =
        star-eq x (ap (λ f. f.type_expr) eb ∙ e)
        ∙ (tests_iff _ _ (imported_as a.type_expr imports (codes "context") (codes "Context")) _ _
              (imported_as x imports ring_path (codes "Ring")) a b).1
            (
              (==_iff _ _).1 (ap (λ f. q_ident f.type_expr) ea ∙ p),
              (==_iff _ _).1 q,
              (==_iff _ _).1 r,
              (==_iff _ _).1 s,
              omega (arith, m, ap (λ f. f.names) ea),
              omega (arith, n, ap (λ f. f.names) eb),
            )
