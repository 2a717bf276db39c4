-- ===== src/Scan/Sound.antt =====
-- The collection stays valid while a package is scanned, internal/parser/targets.go.
use gomake.Base.{
  ℕ, zero, suc, Str, List, [], ◌∷◌, ◌++◌, length, Option, none, some, Option-cases, if◌then◌else◌,
  ◌≡◌, ◌≤◌, arith, inl, inr, refl, ap, Bool-cases, ◌==◌, nat_eq, str_eq,
}
use gomake.Base.Dict
use gomake.Syntax.{TypeSpec}
use gomake.Syntax.Trail.{part_crumb, breadcrumbs, breadcrumbs_total}
use gomake.Targets.{Targets, AddError, note_skip}
use gomake.Targets.Valid.{IsValid}
use gomake.Targets.Adding.{add_lem}
use gomake.Scan.{
  GoDoc, Func, DocType, Package, Made, made, refused, aliased, not_exported, generic, inv_arg,
  inv_result, take, scan_target, add_methods, add_func, ns_reachable,
}
use gomake.Scan.Types.{
  State, Outcome, Waiting, Incomplete, settle, first_round, first_loop, settle_all, round, rounds,
  add_type, and_rounds, crumbs_of,
}

note_skip-IsValid : (tgs : Targets) (name : Str) → IsValid tgs → IsValid (note_skip tgs name)
unfolding note_skip
note_skip-IsValid tgs name v = record {
  distinct = v.distinct;
  unique_iff = v.unique_iff;
  ordered = v.ordered;
}

-- The next step follows unless there is an error.
next-IsValid :
    (r : Targets × Option AddError) (k : Targets → Targets × Option AddError)
    → IsValid r.0
    → ((t : Targets) → IsValid t → IsValid (k t).0)
    → IsValid
        (elim r.1 as (λ _. Targets × Option AddError) [ some x ↦ (r.0, some x) | none ↦ k r.0 ]).0
next-IsValid (t, some x) k v f = v
next-IsValid (t, none) k v f = f t v

next_state-IsValid :
    (r : Outcome) (k : State → Outcome)
    → IsValid r.0.targets
    → ((s : State) → IsValid s.targets → IsValid (k s).0.targets)
    → IsValid (elim r.1 as (λ _. Outcome) [ some x ↦ (r.0, some x) | none ↦ k r.0 ]).0.targets
next_state-IsValid (s, some x) k v f = v
next_state-IsValid (s, none) k v f = f s v

module _ (go : GoDoc) where
  take-IsValid : (tgs : Targets) (fn : Func) (m : Made) → IsValid tgs → IsValid (take go tgs fn m).0
  take-IsValid tgs fn (made t) v = (add_lem tgs (t ∷ []) v).0
  take-IsValid tgs fn (refused aliased) v = note_skip-IsValid tgs fn.name v
  take-IsValid tgs fn (refused not_exported) v = v
  take-IsValid tgs fn (refused generic) v = v
  take-IsValid tgs fn (refused inv_arg) v = v
  take-IsValid tgs fn (refused inv_result) v = v

  pub add_methods-IsValid :
      (pkg : Package) (nsp : List Str) (fns : List Func) (tgs : Targets)
      → IsValid tgs
      → IsValid (add_methods go pkg nsp fns tgs).0
  unfolding add_methods
  add_methods-IsValid pkg nsp [] tgs v = v
  add_methods-IsValid pkg nsp (fn ∷ fns) tgs v =
      next-IsValid (take go tgs fn (scan_target go pkg fn nsp)) (add_methods go pkg nsp fns)
        (take-IsValid tgs fn (scan_target go pkg fn nsp) v) (add_methods-IsValid pkg nsp fns)

  pub add_func-IsValid :
      (pkg : Package) (fns : List Func) (tgs : Targets)
      → IsValid tgs
      → IsValid (add_func go pkg fns tgs).0
  unfolding add_func
  add_func-IsValid pkg fns tgs v = add_methods-IsValid pkg [] fns tgs v

  module _ (pkg : Package) where
    settle-IsValid :
        (s : State) (typ : DocType) (nsp : List Str)
        → IsValid s.targets
        → IsValid (settle go pkg s typ nsp).0.targets
    settle-IsValid s typ nsp v = elim (Bool-cases (ns_reachable go pkg typ)) [
      | inl e ↦ rw (e) (add_methods-IsValid pkg nsp typ.methods s.targets v)
      | inr e ↦ rw (e) v
    ]

    first_round-IsValid :
        (s : State) (typ : DocType) (nsp : List Str)
        → IsValid s.targets
        → IsValid (first_round go pkg s typ nsp).0.targets
    first_round-IsValid s typ [] v = v
    first_round-IsValid s typ (c ∷ []) v = settle-IsValid s typ (c ∷ []) v
    first_round-IsValid s typ (c ∷ rel ∷ rest) v = elim (Bool-cases (c == part_crumb)) [
      | inl e ↦ rw (e) v
      | inr e ↦ rw (e) (settle-IsValid s typ (c ∷ rel ∷ rest) v)
    ]

    settle_all-IsValid :
        (parent : List Str) (ws : Waiting) (s : State)
        → IsValid s.targets
        → IsValid (settle_all go pkg parent ws s).0.targets
    unfolding settle_all
    settle_all-IsValid parent [] s v = v
    settle_all-IsValid parent ((typ, rest) ∷ ws) s v =
        next_state-IsValid (settle go pkg s typ (parent ++ rest)) (settle_all go pkg parent ws)
          (settle-IsValid s typ (parent ++ rest) v) (settle_all-IsValid parent ws)

    -- One round leaves a valid collection, and no more incomplete types than there were.
    round-IsValid :
        (inc : Incomplete) (s : State)
        → IsValid s.targets
        → IsValid (round go pkg inc s).1.0.targets × (length (round go pkg inc s).0 ≤ length inc)
    unfolding round
    round-IsValid [] s v = (v, omega arith)
    round-IsValid ((rcv, ws) ∷ inc) s v = elim (Option-cases (Dict.lookup rcv s.complete)) [
      | inl e ↦ rw (round, e) (let (v', l) = round-IsValid inc s v in (v', omega (arith, l)))
      | inr (parent, e) ↦
          rw (round, e)
            (settled (settle_all go pkg parent ws s) (settle_all-IsValid parent ws s v)
              (round-IsValid inc))
    ]
      where
        Ends : Incomplete × Outcome → Type 0
        Ends r = IsValid r.1.0.targets × (length r.0 ≤ suc (length inc))

        settled :
            (r : Outcome)
            → IsValid r.0.targets
            → ((t : State)
                → IsValid t.targets
                → IsValid (round go pkg inc t).1.0.targets
                  × (length (round go pkg inc t).0 ≤ length inc))
            → Ends (elim r.1 as (λ _. Incomplete × Outcome) [
              | some x ↦ (inc, (r.0, some x))
              | none ↦ round go pkg inc r.0
            ])
        settled (t, some x) w f = (w, omega arith)
        settled (t, none) w f = let (v', l) = f t w in (v', omega (arith, l))

    -- A loop ends with a valid collection.
    abbrev Ends : Option Outcome → Type 0
    Ends o = (out : Outcome) × ((o ≡ some out) × IsValid out.0.targets)

    next-Ends :
        (r : Outcome) (k : State → Option Outcome)
        → IsValid r.0.targets
        → ((t : State) → IsValid t.targets → Ends (k t))
        → Ends (elim r.1 as (λ _. Option Outcome) [ some x ↦ some (r.0, some x) | none ↦ k r.0 ])
    next-Ends (t, some x) k v f = ((t, some x), (refl, v))
    next-Ends (t, none) k v f = f t v

    crumbs_of_total : (typ : DocType) → (nsp : List Str) × (crumbs_of typ ≡ some nsp)
    crumbs_of_total typ = by_spec typ.spec
      where
        by_spec :
            (o : Option TypeSpec)
            → (nsp : List Str) × ((elim o as (λ _. Option (List Str)) [
              | none ↦ some []
              | some spc ↦ breadcrumbs typ.scope spc
            ])
                ≡ some nsp)
        by_spec none = ([], refl)
        by_spec (some spc) = breadcrumbs_total typ.scope spc

    first_loop-Ends :
        (s : State) (tps : List DocType) → IsValid s.targets → Ends (first_loop go pkg s tps)
    unfolding first_loop
    first_loop-Ends s [] v = ((s, none), (refl, v))
    first_loop-Ends s (typ ∷ tps) v =
        let (nsp, e) = crumbs_of_total typ in
        rw (first_loop, e)
          (next-Ends (first_round go pkg s typ nsp) (λ t. first_loop go pkg t tps)
            (first_round-IsValid s typ nsp v) (λ t w. first_loop-Ends t tps w))

    rounds-Ends :
        (fuel : ℕ) (s : State)
        → IsValid s.targets
        → length s.inc ≤ fuel
        → Ends (rounds go pkg fuel s)
    unfolding rounds
    rounds-Ends zero s v l = by_inc s.inc refl
      where
        by_inc : (i : Incomplete) → s.inc ≡ i → Ends (rounds go pkg zero s)
        by_inc [] e = rw (rounds, e) ((s, none), (refl, v))
        by_inc (i ∷ inc) e = absurd (omega (arith, l, ap length e))
    rounds-Ends (suc fuel) s v l = by_inc s.inc refl (rounds-Ends fuel)
      where
        Next : Type 0
        Next = (t : State) → IsValid t.targets → length t.inc ≤ fuel → Ends (rounds go pkg fuel t)

        more :
            (n : ℕ) (r : Incomplete × Outcome)
            → n ≤ suc fuel
            → IsValid r.1.0.targets
            → length r.0 ≤ n
            → Next
            → Ends (elim r.1.1 as (λ _. Option Outcome) [
              | some x ↦ some (r.1.0, some x)
              | none ↦
                  if length r.0 == n
                  then some (r.1.0, none)
                  else rounds go pkg fuel (record r.1.0 { inc = r.0 })
            ])
        more n (left, (t, some x)) b w h k = ((t, some x), (refl, w))
        more n (left, (t, none)) b w h k = elim (Bool-cases (length left == n)) [
          | inl e ↦ rw (e) ((t, none), (refl, w))
          | inr e ↦ rw (e) (k (record t { inc = left }) w (ground (arith, e, b, h)))
        ]

        by_inc : (i : Incomplete) → s.inc ≡ i → Next → Ends (rounds go pkg (suc fuel) s)
        by_inc [] e k = rw (rounds, e) ((s, none), (refl, v))
        by_inc (i ∷ inc) e k =
            let (w, h) = round-IsValid (i ∷ inc) s v in
            rw (rounds, e)
              (more (suc (length inc)) (round go pkg (i ∷ inc) s) (omega (arith, l, ap length e)) w
                h k)

    -- `addType` ends for every list of types, and leaves a valid collection, whether it reports an
    -- error or not.
    pub add_type-IsValid :
        (tps : List DocType) (tgs : Targets)
        → IsValid tgs
        → (out : Targets × Option AddError) × ((add_type go pkg tps tgs ≡ some out) × IsValid out.0)
    unfolding add_type
    add_type-IsValid tps tgs v =
        let (out, (e, w)) = first_loop-Ends start tps v in
        let (out', (e', w')) = after out w in
        ((out'.0.targets, out'.1), (rw (add_type, e, e') refl, w'))
      where
        start : State
        start = record { inc = []; complete = []; targets = tgs }

        after : (out : Outcome) → IsValid out.0.targets → Ends (and_rounds go pkg (some out))
        after (s, some x) w = ((s, some x), (refl, w))
        after (s, none) w = rounds-Ends (length s.inc) s w (omega arith)
