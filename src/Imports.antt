-- ===== src/Imports.antt =====
-- External targets: internal/cli/imports_config.go, and `applyExternalTargetMeta` of
-- internal/cli/main.go. The YAML encoder and Go's `path` package are parameters.
pub mod Merge
pub mod Loop
pub mod Meta
use gomake.Base.{
  ℕ, Str, Bool, true, false, List, [], ◌∷◌, ◌++◌, ◌==◌, str_eq, nat_eq, not, ◌||◌, ◌&&◌, cut, map,
  codes, Option, none, some, if◌then◌else◌, leb, contains,
}
use gomake.Base.Dict
use gomake.Base.Dict.{Dict}

-- `ImportEntry`; the configuration is JSON, and empty if there is none.
pub record ImportEntry : Type 0 where
  pub path : Str
  pub namespace : Str
  pub config : Str

-- `PkgPath`
unfoldable pub pkg_path : ImportEntry → Str
pkg_path ent = elim (cut b'@' ent.path) [ none ↦ ent.path | some (pkg, version) ↦ pkg ]

-- `equal`
unfoldable pub equal : ImportEntry → ImportEntry → Bool
equal ent other =
    ent.path == other.path && (ent.namespace == other.namespace && ent.config == other.config)

pub all_digits : Str → Bool
all_digits [] = true
all_digits (c ∷ s) = let rest = all_digits s in leb b'0' c && leb c b'9' && rest

-- `isMajorVersion`
unfoldable pub is_major_version : Str → Bool
unfolding all_digits
is_major_version [] = false
is_major_version (c ∷ []) = false
is_major_version (c ∷ d ∷ s) = c == b'v' && all_digits (d ∷ s)

-- `path.Base` and `path.Dir`
pub record PathLib : Type 0 where
  pub base : Str → Str
  pub dir : Str → Str

-- `MetaKey`
unfoldable pub meta_key : PathLib → ImportEntry → Str
meta_key lib ent =
    let p = pkg_path ent in
    if not (ent.namespace == [])
    then ent.namespace
    else if is_major_version (lib.base p)
    then lib.base (lib.dir p)
    else lib.base p

-- `ImportsConfig`
pub record ImportsConfig : Type 0 where
  pub imports : List ImportEntry
  pub raw : Option Str

-- `Paths`
unfoldable pub paths : ImportsConfig → List Str
paths cfg = map (λ ent. ent.path) cfg.imports

-- `importLines`
unfoldable pub import_lines : ImportsConfig → List Str
import_lines cfg = map (λ ent. codes "adding external target " ++ ent.path) cfg.imports

-- The errors of merging: the package and the two files, or what the encoder reports.
pub data MergeError : Type 0 where
  conflict_import : Str → Str → Str → MergeError
  encode_failed : Str → MergeError

pub data Result {ℓ} (A : Type ℓ) : Type ℓ where
  ok : A → Result A
  err : MergeError → Result A

-- The map `seen` with an entry and its file for each package, and the imports of `merged`.
abbrev pub Merging : Type 0
Merging = Dict Str (ImportEntry × Str) × List ImportEntry

-- The inner loop of `MergeImports`.
unfoldable pub merge_entries : List ImportEntry → Str → Merging → Result Merging
merge_entries [] src st = ok st
merge_entries (ent ∷ ents) src (seen, merged) =
    let next_new =
      merge_entries ents src (Dict.insert (pkg_path ent) (ent, src) seen, merged ++ (ent ∷ [])) in
    let next_same = merge_entries ents src (seen, merged) in
    elim (Dict.lookup (pkg_path ent) seen) [
      | none ↦ next_new
      | some (prev, prev_src) ↦
          if not (equal prev ent)
          then err (conflict_import (pkg_path ent) prev_src src)
          else next_same
    ]

abbrev pub and_then {ℓ κ} : {A : Type ℓ} {B : Type κ} → Result A → (A → Result B) → Result B
and_then (err e) f = err e
and_then (ok a) f = f a

-- The outer loop; a file's name stands beside its configuration.
unfoldable pub merge_files : List (Str × ImportsConfig) → Merging → Result Merging
merge_files [] st = ok st
merge_files ((src, cfg) ∷ files) st =
    and_then (merge_entries cfg.imports src st) (λ st'. merge_files files st')

abbrev pub encoded : List ImportEntry → Result Str → Result ImportsConfig
encoded imports (err e) = err e
encoded imports (ok raw) = ok (record { imports = imports; raw = some raw })

-- `MergeImports`; `encode` is the method of that name, on the imports.
unfoldable pub merge_imports :
    (List ImportEntry → Result Str) → List (Str × ImportsConfig) → Result ImportsConfig
unfolding merge_files merge_entries
merge_imports encode ((src, cfg) ∷ []) = ok cfg
merge_imports encode [] = encoded [] (encode [])
merge_imports encode (f ∷ g ∷ files) =
    and_then (merge_files (f ∷ g ∷ files) ([], []))
      (λ (seen, merged). encoded merged (encode merged))

-- The loop of `validateNoDupPaths`: the path that occurs twice, if there is one.
unfoldable pub dup_path : List Str → List ImportEntry → Option Str
dup_path seen [] = none
dup_path seen (ent ∷ ents) =
    if contains seen ent.path then some ent.path else dup_path (ent.path ∷ seen) ents

-- `validateNoDupPaths`
unfoldable pub validate_no_dup_paths : List ImportEntry → Option Str
unfolding dup_path
validate_no_dup_paths ents = dup_path [] ents

-- `errDupMetaKey`, with the key and the two import paths.
pub data MetaError : Type 0 where
  dup_meta_key : Str → Str → Str → MetaError

-- The loop of `applyExternalTargetMeta`: the map `seen`, and the meta store of the ring.
unfoldable pub apply_entries :
    PathLib → List ImportEntry → Dict Str Str → Dict Str Str → Option MetaError × Dict Str Str
apply_entries lib [] seen meta = (none, meta)
apply_entries lib (ent ∷ ents) seen meta =
    let key = meta_key lib ent in
    let skipped = apply_entries lib ents seen meta in
    let applied =
      apply_entries lib ents (Dict.insert key ent.path seen) (Dict.insert key ent.config meta) in
    if ent.config == [] then skipped else elim (Dict.lookup key seen) [
      | some prev ↦ (some (dup_meta_key key prev ent.path), meta)
      | none ↦ applied
    ]

-- `applyExternalTargetMeta`: no configuration stands for a load that has failed.
unfoldable pub apply_external_target_meta :
    PathLib → Option ImportsConfig → Dict Str Str → Option MetaError × Dict Str Str
unfolding apply_entries
apply_external_target_meta lib none meta = (none, meta)
apply_external_target_meta lib (some cfg) meta = apply_entries lib cfg.imports [] meta
