-- ===== src/Targets.antt =====
-- The collection of unique targets, internal/parser/targets.go.
pub mod Valid
pub mod Adding
pub mod Sorted
pub mod Default
pub mod BuiltIn
use gomake.Base.{
  ℕ, Str, Bool, true, false, List, [], ◌∷◌, ◌++◌, map, codes, ◌==◌, not, ◌&&◌, ◌||◌, str_eq, nat_eq,
  Option, none, some, if◌then◌else◌, sort_by,
}
use gomake.Base.Dict
use gomake.Base.Dict.{Dict}
use gomake.Target.{Target}

abbrev pub Names : Type 0
Names = Dict Str (Unit {0})

-- `Targets`: the set of names, the list, whether the list is sorted, the functions skipped because
-- of an alias, and the identifiers of the main package.
pub record Targets : Type 0 where
  pub unique : Names
  pub list : List Target
  pub sorted : Bool
  pub skips : List Str
  pub reserved : List Str

-- `NewTargets`
abbrev pub new_targets : Targets
new_targets = record { unique = []; list = []; sorted = false; skips = []; reserved = [] }

abbrev pub name_of : Target → Str
name_of t = t.name

abbrev pub is_some {ℓ} : {A : Type ℓ} → Option A → Bool
is_some none = false
is_some (some _) = true

-- The first target of a list with the name.
unfoldable pub find_name : Str → List Target → Option Target
find_name name [] = none
find_name name (t ∷ ts) = if t.name == name then some t else find_name name ts

-- `Targets.Len`
unfoldable pub len : Targets → ℕ
len tgs = gomake.Base.length tgs.list

-- `Targets.has`
unfoldable pub has : Targets → Str → Bool
has tgs name = is_some (Dict.lookup name tgs.unique)

-- `Targets.Get`
unfoldable pub get : Targets → Str → Option Target
unfolding find_name
get tgs name = elim (Dict.lookup name tgs.unique) [ none ↦ none | some _ ↦ find_name name tgs.list ]

-- `ErrDupTarget` with the references of the two targets.
pub data AddError : Type 0 where
  dup_target : Str → Str → AddError

abbrev first_of_both : Option Target → Option Target → Option Target
first_of_both (some t) o = some t
first_of_both none o = o

-- The first loop of `Add`: no name may be in the collection or earlier in the batch.
unfoldable pub check_batch : Targets → Dict Str Target → List Target → Option AddError
check_batch tgs batch [] = none
check_batch tgs batch (t ∷ ts) = elim (first_of_both (get tgs t.name) (Dict.lookup t.name batch)) [
  | some got ↦ some (dup_target got.def_ref t.def_ref)
  | none ↦ check_batch tgs (Dict.insert t.name t batch) ts
]

-- The second loop of `Add`.
unfoldable pub add_all : Targets → List Target → Targets
add_all tgs [] = tgs
add_all tgs (t ∷ ts) =
    add_all
      (record tgs {
        unique = Dict.insert t.name tt tgs.unique;
        list = tgs.list ++ (t ∷ []);
        sorted = false;
      })
      ts

-- `Targets.Add`: the new collection and the error.
unfoldable pub add : Targets → List Target → Targets × Option AddError
add tgs ts = elim (check_batch tgs [] ts) [ some e ↦ (tgs, some e) | none ↦ (add_all tgs ts, none) ]

-- `TargetsFromList`
unfoldable pub targets_from_list : List Target → Targets × Option AddError
targets_from_list ts = add new_targets ts

first_pkg_name : Str → List Target → Str
first_pkg_name spec [] = []
first_pkg_name spec (t ∷ ts) =
    if t.imp_spec == spec && not (t.pkg_name == []) then t.pkg_name else first_pkg_name spec ts

-- `pkgNameForImp`
unfoldable pub pkg_name_for_imp : Targets → Str → Str
unfolding first_pkg_name
pkg_name_for_imp tgs spec = first_pkg_name spec tgs.list

-- `noteSkip`
unfoldable pub note_skip : Targets → Str → Targets
note_skip tgs name = record tgs { skips = tgs.skips ++ (name ∷ []) }

-- `reserve`
unfoldable pub reserve : Targets → List Str → Targets
reserve tgs names = record tgs { reserved = tgs.reserved ++ names }

-- `reportSkips`: the lines written to the error stream of a ring.
unfoldable pub report_skips : Targets → List Str
report_skips tgs =
    map
      (λ name. codes "gomake: skipping " ++ (name ++ codes ": aliased context or ring parameter\n"))
      tgs.skips

-- `sort`
unfoldable pub sort : Targets → Targets
sort tgs = record tgs { list = sort_by name_of tgs.list; sorted = true }

-- `List`: the collection that is left behind, and the copy of its list.
unfoldable pub list : Targets → Targets × List Target
unfolding sort
list tgs = let tgs' = if tgs.sorted then tgs else sort tgs in (tgs', tgs'.list)

-- `Names`
unfoldable pub names : Targets → Targets × List Str
unfolding list
names tgs = let (tgs', ts) = list tgs in (tgs', map name_of ts)

-- Whether the loop of `markDefault` marks the target; `def` is the name found so far.
unfoldable pub marks_here : Str → Str → Str → Target → Bool
marks_here def spec ref t =
    not (not (spec == []) && not (t.imp_spec == spec)) && (def == [] && t.def_ref == ref)

-- The loop of `markDefault`.
unfoldable pub mark_loop : Str → Str → Str → List Target → List Target × Str
mark_loop def spec ref [] = ([], def)
mark_loop def spec ref (t ∷ ts) =
    let here = marks_here def spec ref t in
    let (ts', def') = mark_loop (if here then t.name else def) spec ref ts in
    (record t { default = here } ∷ ts', def')

-- `Targets.markDefault`
unfoldable pub mark_default : Targets → Str → Str → Targets × Str
unfolding mark_loop marks_here
mark_default tgs spec ref =
    let (ts, def) = mark_loop [] spec ref tgs.list in (record tgs { list = ts }, def)

-- A `TgsMapCB`, over what the callbacks of the program change: the set of names and the target.
abbrev pub TgsMapCb : Type 0
TgsMapCb = Names → Target → Names × Target

-- `BuiltInCB`
unfoldable pub built_in_cb : TgsMapCb
built_in_cb unique t =
    let name = codes ":" ++ t.name in
    (Dict.insert name tt (Dict.erase t.name unique), record t { name = name; default = false })

-- The inner loop of `Map`.
unfoldable pub map_one : TgsMapCb → Names → List Target → Names × List Target
map_one fn unique [] = (unique, [])
map_one fn unique (t ∷ ts) =
    let (unique', t') = fn unique t in
    let (unique'', ts') = map_one fn unique' ts in (unique'', t' ∷ ts')

-- `Targets.Map`
unfoldable pub map_all : Targets → List TgsMapCb → Targets
map_all tgs [] = tgs
map_all tgs (fn ∷ fns) =
    let (unique, ts) = map_one fn tgs.unique tgs.list in
    map_all (record tgs { unique = unique; list = ts }) fns
