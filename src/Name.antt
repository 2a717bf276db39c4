-- ===== src/Name.antt =====
-- Names of targets: `toKebabCase` and `targetSynopsis` of internal/parser/helpers.go, `targetName`
-- and `setDerivedFields` of internal/parser/target.go. A byte of a rune outside ASCII is neither a
-- letter nor a digit here, as such a rune is not in the code, so that bytes stand for runes.
-- `strings.ToLower`, which also maps runes outside ASCII, and `Synopsis` of the package `go/doc` are
-- parameters.
pub mod Kebab
pub mod Parts
use mathlib.Core.List.{reverse}
use gomake.Base.{
  ℕ, zero, suc, Str, Bool, true, false, List, [], ◌∷◌, ◌++◌, ◌==◌, str_eq, nat_eq, not, ◌||◌, ◌&&◌,
  codes, if◌then◌else◌, leb, ltb, length, ◌+◌, Eq,
}
use gomake.Target.{Target}
use gomake.Alias.{main_name}

-- The character types of `toKebabCase`.
pub data Kind : Type 0 where
  unk lc uc num : Kind

unfoldable pub kind_of : ℕ → Kind
kind_of v =
    if leb b'A' v && leb v b'Z'
    then uc
    else if leb b'a' v && leb v b'z'
    then lc
    else if leb b'0' v && leb v b'9'
    then num
    else unk

-- The byte that is written: `unicode.ToLower` of an uppercase letter.
abbrev pub lowered : Kind → ℕ → ℕ
lowered uc v = v + 32
lowered lc v = v
lowered num v = v
lowered unk v = v

abbrev pub dash : ℕ
dash = b'-'

-- `b.Truncate(b.Len() - 1)`; the last byte of the buffer comes first.
abbrev pub truncated : Str → Str
truncated [] = []
truncated (v ∷ b) = b

-- Behind two uppercase letters the last one is moved behind a dash.
abbrev pub moved : Kind → ℕ → Str → Str
moved uc pv b = pv ∷ dash ∷ truncated b
moved lc pv b = b
moved num pv b = b
moved unk pv b = b

-- The cases of the switch: what the buffer is before the character is written. The last two types
-- come first, and the last byte written.
abbrev pub broken : Kind → Kind → Kind → ℕ → Str → Str
broken ppt num lc pv b = dash ∷ b
broken ppt num uc pv b = dash ∷ b
broken ppt lc uc pv b = dash ∷ b
broken ppt uc lc pv b = moved ppt pv b
broken ppt pt t pv b = b

-- The loop, with the buffer, the two types before and the last byte.
unfoldable pub kebab_loop : Str → Str → Kind → Kind → ℕ → Str
kebab_loop [] b ppt pt pv = reverse b
kebab_loop (v ∷ s) b ppt pt pv =
    let t = kind_of v in kebab_loop s (lowered t v ∷ broken ppt pt t pv b) pt t (lowered t v)

-- `toKebabCase`
unfoldable pub to_kebab_case : Str → Str
unfolding kebab_loop kind_of
to_kebab_case camel = kebab_loop camel [] unk unk 0

-- `rootCrumb`
abbrev pub root_crumb : Str
root_crumb = codes "__root__"

abbrev pub colon_text : Str
colon_text = codes ":"

abbrev behind : List Str → Str
behind [] = []
behind (c ∷ cs) = colon_text

-- The loop of `targetName` over the breadcrumbs.
unfoldable pub crumb_names : (Str → Str) → List Str → Str
crumb_names lower [] = []
crumb_names lower (ns ∷ crumbs) =
    let rest = crumb_names lower crumbs in
    if ns == root_crumb then rest else lower (to_kebab_case ns) ++ (behind crumbs ++ rest)

-- `targetName`
unfoldable pub target_name : (Str → Str) → Str → List Str → Str → Str
unfolding crumb_names
target_name lower pkg_ns crumbs func_name =
    let name = if not (pkg_ns == []) then pkg_ns ++ colon_text else [] in
    if leb 2 (length crumbs)
    then name
      ++ (crumb_names lower crumbs
          ++ (if not (func_name == codes "Default")
              then colon_text ++ to_kebab_case func_name
              else []))
    else name ++ to_kebab_case func_name

-- `strings.TrimRight(s, ".")`
pub trim_dots : Str → Str
trim_dots [] = []
trim_dots (c ∷ s) = elim (trim_dots s) [ [] ↦ if c == b'.' then [] else c ∷ [] | d ∷ r ↦ c ∷ d ∷ r ]

-- `targetSynopsis`
unfoldable pub target_synopsis : (Str → Str) → Str → Str
unfolding trim_dots
target_synopsis synopsis doc = trim_dots (synopsis doc)

-- `setDerivedFields`
unfoldable pub set_derived_fields : (Str → Str) → (Str → Str) → Target → Target
unfolding target_name target_synopsis
set_derived_fields lower synopsis t =
    let ref = if not (t.pkg_name == main_name) then t.pkg_name ++ codes "." else [] in
    let method = leb 2 (length t.breadcrumbs) in
    let var = codes "_v" ++ (t.pkg_name ++ t.receiver) in
    record t {
      name = target_name lower t.pkg_ns t.breadcrumbs t.func_name;
      var_name = if method then var else t.var_name;
      code_ref = if method then var ++ (codes "." ++ t.func_name) else ref ++ t.func_name;
      def_ref = (if method then ref ++ (t.receiver ++ codes ".") else ref) ++ t.func_name;
      synopsis = target_synopsis synopsis t.doc;
    }
