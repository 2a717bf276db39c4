-- ===== src/Version.antt =====
-- The version of a binary, internal/version/version.go. The variable that the linker sets and the
-- build information of the toolchain are parameters.
use gomake.Base.{
  Str, [], ◌++◌, codes, ◌==◌, str_eq, not, ◌||◌, ◌&&◌, Option, none, some, if◌then◌else◌, ◌≡◌, ◌≢◌,
  inl, inr, refl, arith, Bool-cases,
}

abbrev pub devel : Str
devel = codes "(devel)"

-- `pick`
unfoldable pub pick : Str → Str → Str
pick stamped built =
    if not (stamped == [])
    then stamped
    else if not (built == []) && not (built == devel)
    then built
    else devel

abbrev main_version : Option Str → Str
main_version none = []
main_version (some v) = v

-- `revision`, of the stamp and of the version in the build information.
unfoldable pub revision : Str → Option Str → Str
unfolding pick
revision stamp info = pick stamp (main_version info)

-- `Line`
unfoldable line : Str → Str → Option Str → Str
unfolding revision
line cmd stamp info = cmd ++ (codes " " ++ revision stamp info)

abbrev import_path : Str
import_path = codes "github.com/ctx42/gomake/internal/version"

-- `LDFlags`, with the name of the variable.
unfoldable pub ld_flags : Str → Str → Str
ld_flags var ver =
    if ver == [] || ver == devel
    then []
    else codes "-X " ++ (import_path ++ (codes "." ++ (var ++ (codes "=" ++ ver))))

-- A binary that is stamped by the flags for the version of another one has that version.
ld_flags-revision :
    (var ver : Str) (info : Option Str) → ld_flags var ver ≢ [] → revision ver info ≡ ver
unfolding ld_flags revision
ld_flags-revision var ver info h = elim (Bool-cases (ver == [])) [
  | inl x ↦ absurd (h (ground (arith, x)))
  | inr x ↦ rw (x) refl
]
