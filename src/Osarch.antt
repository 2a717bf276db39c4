-- ===== src/Osarch.antt =====
-- The platforms that Go supports, internal/osarch/osarch.go and internal/osarch/versions_gen.go.
use gomake.Base.{Str, Bool, List, [], ◌∷◌, codes, contains, str_eq}

unfoldable pub goos : List Str
goos =
    codes "aix"
    ∷ codes "android"
    ∷ codes "darwin"
    ∷ codes "dragonfly"
    ∷ codes "freebsd"
    ∷ codes "illumos"
    ∷ codes "ios"
    ∷ codes "js"
    ∷ codes "linux"
    ∷ codes "netbsd"
    ∷ codes "openbsd"
    ∷ codes "plan9"
    ∷ codes "solaris"
    ∷ codes "wasip1"
    ∷ codes "windows"
    ∷ []

unfoldable pub goarch : List Str
goarch =
    codes "386"
    ∷ codes "amd64"
    ∷ codes "arm"
    ∷ codes "arm64"
    ∷ codes "loong64"
    ∷ codes "mips"
    ∷ codes "mips64"
    ∷ codes "mips64le"
    ∷ codes "mipsle"
    ∷ codes "ppc64"
    ∷ codes "ppc64le"
    ∷ codes "riscv64"
    ∷ codes "s390x"
    ∷ codes "wasm"
    ∷ []

-- `IsGOOS`
unfoldable pub is_goos : Str → Bool
is_goos s = contains goos s

-- `IsGOARCH`
unfoldable pub is_goarch : Str → Bool
is_goarch s = contains goarch s
