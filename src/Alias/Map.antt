-- ===== src/Alias/Map.antt =====
-- The map that `importAliasMap` of internal/parser/targets.go builds.
use gomake.Base.{
  Str, Bool, true, false, List, [], ◌∷◌, ◌++◌, ◌==◌, str_eq, none, some, if◌then◌else◌, ◌≡◌, ◌≢◌,
  refl, arith, contains, inl, ◌||◌, sort_by, contains-sort_by, not, ◌∙◌, ◌⊎◌, All,
}
use gomake.Base.Dict
use gomake.Base.Dict.{Dict}
use gomake.Target.{Target}
use gomake.Targets.{Targets, list}
use gomake.Alias.{
  Taken, is_free, pkg_by_spec, reserved, seeds, take_names, or_empty, assign, import_alias_map,
  main_name,
}
use gomake.Alias.Fresh.{unique_import_alias_lem}

-- The alias of an import is taken by that import.
abbrev Owns : Taken → Dict Str Str → Type 0
Owns taken out = (s a : Str) → Dict.lookup s out ≡ some a → Dict.lookup a taken ≡ some s

Owns-insert :
    (taken : Taken) (out : Dict Str Str) (spec alias : Str)
    → is_free taken spec alias ≡ true
    → Owns taken out
    → Owns (Dict.insert alias spec taken) (Dict.insert spec alias out)
unfolding is_free
Owns-insert taken out spec alias f o s a h =
    ground
      (arith, Dict.lookup-insert s spec alias out, Dict.lookup-insert a alias spec taken, o s a)

assign-Owns :
    (specs : List Str) (pkgs : Dict Str Str) (taken : Taken) (out result : Dict Str Str)
    → Owns taken out
    → assign specs pkgs taken out ≡ some result
    → (final : Taken) × Owns final result
unfolding assign
assign-Owns [] pkgs taken out result o h = (taken, λ s a e. o s a (ground arith))
assign-Owns (spec ∷ specs) pkgs taken out result o h =
    let (alias, e, f, _) = unique_import_alias_lem (or_empty (Dict.lookup spec pkgs)) taken spec in
    assign-Owns specs pkgs (Dict.insert alias spec taken) (Dict.insert spec alias out) result
      (Owns-insert taken out spec alias f o) (rw (e, assign) at h)

assign_total :
    (specs : List Str) (pkgs : Dict Str Str) (taken : Taken) (out : Dict Str Str)
    → (result : Dict Str Str) × (assign specs pkgs taken out ≡ some result)
unfolding assign
assign_total [] pkgs taken out = (out, refl)
assign_total (spec ∷ specs) pkgs taken out =
    let (alias, e, _, _) = unique_import_alias_lem (or_empty (Dict.lookup spec pkgs)) taken spec in
    let (result, h) =
      assign_total specs pkgs (Dict.insert alias spec taken) (Dict.insert spec alias out) in
    (result, rw (e, assign) h)

-- The names that stay with their owner: the owner is no import of the list.
assign-keeps :
    (specs : List Str) (pkgs : Dict Str Str) (taken : Taken) (out result : Dict Str Str)
    (name owner : Str)
    → contains specs owner ≡ false
    → Dict.lookup name taken ≡ some owner
    → ((s : Str) → Dict.lookup s out ≢ some name)
    → assign specs pkgs taken out ≡ some result
    → (s : Str) → Dict.lookup s result ≢ some name
unfolding assign contains
assign-keeps [] pkgs taken out result name owner n t o h = λ s e. o s (ground arith)
assign-keeps (spec ∷ specs) pkgs taken out result name owner n t o h =
    let (alias, e, f, _) = unique_import_alias_lem (or_empty (Dict.lookup spec pkgs)) taken spec in
    let differ : alias ≢ name = λ p. unfold is_free in ground (arith, p) in
    assign-keeps specs pkgs (Dict.insert alias spec taken) (Dict.insert spec alias out) result name
      owner (ground arith) (ground (arith, Dict.lookup-insert name alias spec taken))
      (λ s. ground (arith, o s, Dict.lookup-insert s spec alias out)) (rw (e, assign) at h)

lookup-assign :
    (specs : List Str) (pkgs : Dict Str Str) (taken : Taken) (out result : Dict Str Str) (s : Str)
    → (contains specs s ≡ true) ⊎ (Dict.lookup s out ≢ none)
    → assign specs pkgs taken out ≡ some result
    → Dict.lookup s result ≢ none
unfolding assign contains
lookup-assign [] pkgs taken out result s o h = ground arith
lookup-assign (spec ∷ specs) pkgs taken out result s o h =
    let (alias, e, _, _) = unique_import_alias_lem (or_empty (Dict.lookup spec pkgs)) taken spec in
    lookup-assign specs pkgs (Dict.insert alias spec taken) (Dict.insert spec alias out) result s
      (ground (arith, Dict.lookup-insert s spec alias out)) (rw (e, assign) at h)

-- The targets whose package is imported.
abbrev pub is_imported : Target → Bool
is_imported t = not (t.pkg_name == main_name || t.imp_spec == [])

lookup-pkg_by_spec_keeps :
    (d : Dict Str Str) (ts : List Target) (s : Str)
    → Dict.lookup s d ≢ none
    → Dict.lookup s (pkg_by_spec d ts) ≢ none
unfolding pkg_by_spec
lookup-pkg_by_spec_keeps d [] s h = h
lookup-pkg_by_spec_keeps d (t ∷ ts) s h = ground (
  arith,
  lookup-pkg_by_spec_keeps d ts s h,
  lookup-pkg_by_spec_keeps (Dict.insert t.imp_spec t.pkg_name d) ts s,
  Dict.lookup-insert s t.imp_spec t.pkg_name d,
)

lookup-pkg_by_spec :
    (d : Dict Str Str) (xs ys : List Target) (t : Target)
    → is_imported t ≡ true
    → Dict.lookup t.imp_spec (pkg_by_spec d (xs ++ (t ∷ ys))) ≢ none
unfolding pkg_by_spec
lookup-pkg_by_spec d [] ys t h = ground (
  arith,
  lookup-pkg_by_spec_keeps d ys t.imp_spec,
  lookup-pkg_by_spec_keeps (Dict.insert t.imp_spec t.pkg_name d) ys t.imp_spec,
  Dict.lookup-insert t.imp_spec t.imp_spec t.pkg_name d,
)
lookup-pkg_by_spec d (x ∷ xs) ys t h = ground (
  arith,
  lookup-pkg_by_spec d xs ys t h,
  lookup-pkg_by_spec (Dict.insert x.imp_spec x.pkg_name d) xs ys t h,
)

pkg_by_spec_absent :
    (d : Dict Str Str) (ts : List Target) (s : Str)
    → All (λ t. t.imp_spec ≢ s) ts
    → Dict.lookup s (pkg_by_spec d ts) ≡ Dict.lookup s d
unfolding pkg_by_spec
pkg_by_spec_absent d [] s h = refl
pkg_by_spec_absent d (t ∷ ts) s h = ground (
  arith,
  pkg_by_spec_absent d ts s h.1,
  pkg_by_spec_absent (Dict.insert t.imp_spec t.pkg_name d) ts s h.1,
  Dict.lookup-insert s t.imp_spec t.pkg_name d,
)

taken_start : Targets → Taken
taken_start tgs = take_names tgs.reserved (take_names seeds [])

lookup-take_names :
    (names : List Str) (taken : Taken) (name : Str)
    → Dict.lookup name (take_names names taken)
      ≡ (if contains names name then some reserved else Dict.lookup name taken)
unfolding take_names contains
lookup-take_names [] taken name = refl
lookup-take_names (n ∷ names) taken name = ground (
  arith,
  lookup-take_names names (Dict.insert n reserved taken) name,
  Dict.lookup-insert name n reserved taken,
)

-- `importAliasMap` ends, whatever the targets.
pub import_alias_map_total :
    (tgs : Targets) → (out : Dict Str Str) × (import_alias_map tgs ≡ some out)
unfolding import_alias_map taken_start
import_alias_map_total tgs =
    let pkgs = pkg_by_spec [] (list tgs).1 in
    assign_total (sort_by (λ s. s) (Dict.keys pkgs)) pkgs (taken_start tgs) []

-- Two imports never share an alias.
pub import_alias_map_injective :
    (tgs : Targets) (out : Dict Str Str) (s t alias : Str)
    → import_alias_map tgs ≡ some out
    → Dict.lookup s out ≡ some alias
    → Dict.lookup t out ≡ some alias
    → s ≡ t
unfolding import_alias_map taken_start
import_alias_map_injective tgs out s t alias h hs ht =
    let pkgs = pkg_by_spec [] (list tgs).1 in
    let (final, owns) =
      assign-Owns (sort_by (λ s. s) (Dict.keys pkgs)) pkgs (taken_start tgs) [] out
        (λ s a e. unfold Dict.lookup in cc) h in
    cc (owns s alias hs, owns t alias ht)

-- An alias is neither an identifier of the main package nor a name of the generated code, unless an
-- import path is the text `reserved` itself.
pub import_alias_map_reserved :
    (tgs : Targets) (out : Dict Str Str) (name s : Str)
    → (contains tgs.reserved name || contains seeds name) ≡ true
    → All (λ t. t.imp_spec ≢ reserved) (list tgs).1
    → import_alias_map tgs ≡ some out
    → Dict.lookup s out ≢ some name
unfolding import_alias_map taken_start
import_alias_map_reserved tgs out name s hn hr h =
    let pkgs = pkg_by_spec [] (list tgs).1 in
    assign-keeps (sort_by (λ s. s) (Dict.keys pkgs)) pkgs (taken_start tgs) [] out name reserved
      (contains-sort_by (λ s. s) (Dict.keys pkgs) reserved
        ∙ ground (
          arith,
          Dict.lookup-nil {V = Str} reserved,
          Dict.contains-keys pkgs reserved,
          pkg_by_spec_absent [] (list tgs).1 reserved hr,
        ))
      (ground (
        arith,
        lookup-take_names tgs.reserved (take_names seeds []) name,
        lookup-take_names seeds [] name,
      ))
      (λ s. unfold Dict.lookup in cc) h s

-- Every target of an imported package finds an alias for its import path.
pub lookup-import_alias_map :
    (tgs : Targets) (xs ys : List Target) (t : Target) (out : Dict Str Str)
    → (list tgs).1 ≡ xs ++ (t ∷ ys)
    → is_imported t ≡ true
    → import_alias_map tgs ≡ some out
    → Dict.lookup t.imp_spec out ≢ none
unfolding import_alias_map taken_start
lookup-import_alias_map tgs xs ys t out e i h =
    let pkgs = pkg_by_spec [] (list tgs).1 in
    lookup-assign (sort_by (λ s. s) (Dict.keys pkgs)) pkgs (taken_start tgs) [] out t.imp_spec
      (inl (
        contains-sort_by (λ s. s) (Dict.keys pkgs) t.imp_spec
        ∙ (Dict.contains-keys pkgs t.imp_spec).1 (rw e (lookup-pkg_by_spec [] xs ys t i))))
      h
