-- ===== src/Scan/Types.antt =====
-- `addType` of internal/parser/targets.go: the methods of namespaces, also of those that extend a
-- type of another file.
use gomake.Base.{
  ℕ, zero, suc, Str, List, [], ◌∷◌, ◌++◌, ◌==◌, str_eq, nat_eq, length, Option, none, some,
  if◌then◌else◌,
}
use gomake.Base.Dict
use gomake.Base.Dict.{Dict}
use gomake.Syntax.Trail.{breadcrumbs, part_crumb}
use gomake.Targets.{Targets, AddError}
use gomake.Scan.{GoDoc, DocType, Package, add_methods, ns_reachable}

-- A type whose trail is not complete, with the names behind the type that it extends.
abbrev pub Waiting : Type 0
Waiting = List (DocType × List Str)

-- The maps `inc` and `pth`, by the name of the type that is extended, and the map `complete`.
abbrev pub Incomplete : Type 0
Incomplete = Dict Str Waiting

pub record State : Type 0 where
  pub inc : Incomplete
  pub complete : Dict Str (List Str)
  pub targets : Targets

-- The state, and the error of `Add`.
abbrev pub Outcome : Type 0
Outcome = State × Option AddError

abbrev or_no_one : Option Waiting → Waiting
or_no_one none = []
or_no_one (some w) = w

-- `inc[rel] = append(inc[rel], typ)`
abbrev wait : Str → DocType × List Str → Incomplete → Incomplete
wait rel w inc = Dict.insert rel (or_no_one (Dict.lookup rel inc) ++ (w ∷ [])) inc

abbrev pub crumbs_of : DocType → Option (List Str)
crumbs_of typ = elim (typ.spec) [ none ↦ some [] | some spc ↦ breadcrumbs typ.scope spc ]

module _ (go : GoDoc) (pkg : Package) where
  abbrev with_targets : State → Targets × Option AddError → Outcome
  with_targets s (tgs, e) = (record s { targets = tgs }, e)

  -- The trail of a type is known: its methods are added if it can be reached.
  abbrev pub settle : State → DocType → List Str → Outcome
  settle s typ nsp =
      let s' = record s { complete = Dict.insert typ.name nsp s.complete } in
      if ns_reachable go pkg typ
      then with_targets s' (add_methods go pkg nsp typ.methods s.targets)
      else (s', none)

  -- One round of the first loop; the trail is nil, incomplete or complete.
  abbrev pub first_round : State → DocType → List Str → Outcome
  first_round s typ [] = (s, none)
  first_round s typ (c ∷ []) = settle s typ (c ∷ [])
  first_round s typ (c ∷ rel ∷ rest) =
      if c == part_crumb
      then (record s { inc = wait rel (typ, rest) s.inc }, none)
      else settle s typ (c ∷ rel ∷ rest)

  -- The first loop; `none` means that the fuel of `breadcrumbs` ran out.
  unfoldable pub first_loop : State → List DocType → Option Outcome
  unfolding breadcrumbs add_methods
  first_loop s [] = some (s, none)
  first_loop s (typ ∷ tps) = elim (crumbs_of typ) [
    | none ↦ none
    | some nsp ↦
        let (s', e) = first_round s typ nsp in
        elim e [ some x ↦ some (s', some x) | none ↦ first_loop s' tps ]
  ]

  -- The types that extend a type whose trail is complete.
  unfoldable pub settle_all : List Str → Waiting → State → Outcome
  unfolding add_methods
  settle_all parent [] s = (s, none)
  settle_all parent ((typ, rest) ∷ ws) s =
      let (s', e) = settle s typ (parent ++ rest) in
      elim e [ some x ↦ (s', some x) | none ↦ settle_all parent ws s' ]

  -- One round over `inc`, in the order of the list: what it leaves, and the state.
  unfoldable pub round : Incomplete → State → Incomplete × Outcome
  unfolding settle_all
  round [] s = ([], (s, none))
  round ((rcv, ws) ∷ inc) s = elim (Dict.lookup rcv s.complete) [
    | none ↦ let (left, out) = round inc s in ((rcv, ws) ∷ left, out)
    | some parent ↦
        let (s', e) = settle_all parent ws s in
        elim e [ some x ↦ (inc, (s', some x)) | none ↦ round inc s' ]
  ]

  -- The second loop, which ends with the first round that settles no type.
  unfoldable pub rounds : ℕ → State → Option Outcome
  unfolding round
  rounds zero s = elim (s.inc) [ [] ↦ some (s, none) | i ∷ inc ↦ none ]
  rounds (suc fuel) s = elim (s.inc) [
    | [] ↦ some (s, none)
    | i ∷ inc ↦
        let (left, (s', e)) = round (i ∷ inc) s in
        let rest = rounds fuel (record s' { inc = left }) in
        elim e [
          | some x ↦ some (s', some x)
          | none ↦ if length left == length (i ∷ inc) then some (s', none) else rest
        ]
  ]

  -- `addType`: the collection, and the error of `Add`.
  abbrev outcome : Option Outcome → Option (Targets × Option AddError)
  outcome none = none
  outcome (some (s, e)) = some (s.targets, e)

  abbrev pub and_rounds : Option Outcome → Option Outcome
  and_rounds none = none
  and_rounds (some (s, some x)) = some (s, some x)
  and_rounds (some (s, none)) = rounds (length s.inc) s

  unfoldable pub add_type : List DocType → Targets → Option (Targets × Option AddError)
  unfolding first_loop rounds
  add_type tps tgs =
      outcome (and_rounds (first_loop (record { inc = []; complete = []; targets = tgs }) tps))
