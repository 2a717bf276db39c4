-- ===== src/Sources.antt =====
-- The makefiles that are compiled, internal/cli/helpers.go: their names, and their build tags.
pub mod Names
pub mod Tags
use gomake.Base.{
  Str, Bool, true, false, List, [], ◌∷◌, codes, ◌==◌, str_eq, ◌||◌, ◌&&◌, cut_prefix, cut_suffix,
  split, has_prefix, Option, none, some, if◌then◌else◌,
}
use gomake.Osarch.{is_goos, is_goarch}

-- mkf.MakefileMain
abbrev pub makefile_main : Str
makefile_main = codes "makefile.go"

abbrev pub underscore : Prim.Native.Nat.ℕ
underscore = b'_'

-- The switch of `validMakefileName` on the parts between the underscores.
pub valid_parts : List Str → Bool
valid_parts [] = false
valid_parts (a ∷ []) = is_goos a || is_goarch a
valid_parts (a ∷ b ∷ []) = is_goos a && is_goarch b
valid_parts (a ∷ b ∷ c ∷ more) = false

-- `validMakefileName`
unfoldable pub valid_makefile_name : Str → Bool
unfolding valid_parts
valid_makefile_name name =
    if name == makefile_main then true else elim (cut_prefix name (codes "makefile_")) [
      | none ↦ false
      | some mid ↦ elim (cut_suffix mid (codes ".go")) [
        | none ↦ false
        | some mid ↦ valid_parts (split underscore mid)
      ]
    ]

-- A name that looks like that of a makefile.
abbrev pub looks_like_makefile : Str → Bool
looks_like_makefile name =
    has_prefix name (codes "makefile.") || has_prefix name (codes "makefile_")

-- `selectMakefiles`; `base` is filepath.Base.
unfoldable pub select_makefiles : (Str → Str) → List Str → List Str × List Str
select_makefiles base [] = ([], [])
select_makefiles base (fil ∷ files) =
    let name = base fil in
    let rest = select_makefiles base files in
    if valid_makefile_name name
    then (fil ∷ rest.0, rest.1)
    else if looks_like_makefile name
    then (rest.0, name ∷ rest.1)
    else rest
