-- ===== src/Tests/Naming.antt =====
-- Names of targets.
use gomake.Base.{Str, [], ◌∷◌, codes, ◌≡◌, refl, All, str_eq, nat_eq}
use gomake.Name.{to_kebab_case, target_name, root_crumb}
use gomake.Name.Kebab.{to_kebab_case_idempotent}
use gomake.Name.Parts.{NotRoot}

abbrev mixed : Str
mixed = codes "HTTPServer2Go"

kebab : to_kebab_case mixed ≡ codes "http-server2-go"
unfolding to_kebab_case
kebab = refl

to_kebab_case_idempotent_example : to_kebab_case (to_kebab_case mixed) ≡ to_kebab_case mixed
to_kebab_case_idempotent_example = to_kebab_case_idempotent mixed

abbrev same : Str → Str
same s = s

go-NotRoot : All NotRoot (codes "Go" ∷ [])
go-NotRoot = ((λ e. cc), tt)

named :
    target_name same (codes "x") (root_crumb ∷ codes "Go" ∷ []) (codes "LintAll")
    ≡ codes "x:go:lint-all"
unfolding target_name str_eq nat_eq to_kebab_case
named = refl
