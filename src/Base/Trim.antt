-- ===== src/Base/Trim.antt =====
-- strings.TrimSpace and bytes.TrimSpace, over bytes.
use Prim.Native.Nat.{ℕ, zero, suc}
use mathlib.Core.Path.{◌≡◌, refl}
use mathlib.Core.Option.{Option, none, some}
use mathlib.Core.List.{List, [], ◌∷◌, reverse, map}
use gomake.Base.Equality.{Str, nat_eq}
use gomake.Base.Lists.{length}
use gomake.Base.Text.{cut_prefix}

-- The encodings of the characters that unicode.IsSpace accepts.
abbrev pub spaces : List Str
spaces =
    (0x09 ∷ [])
    ∷ (0x0a ∷ [])
    ∷ (0x0b ∷ [])
    ∷ (0x0c ∷ [])
    ∷ (0x0d ∷ [])
    ∷ (0x20 ∷ [])
    ∷ (0xc2 ∷ 0x85 ∷ [])
    ∷ (0xc2 ∷ 0xa0 ∷ [])
    ∷ (0xe1 ∷ 0x9a ∷ 0x80 ∷ [])
    ∷ (0xe2 ∷ 0x80 ∷ 0x80 ∷ [])
    ∷ (0xe2 ∷ 0x80 ∷ 0x81 ∷ [])
    ∷ (0xe2 ∷ 0x80 ∷ 0x82 ∷ [])
    ∷ (0xe2 ∷ 0x80 ∷ 0x83 ∷ [])
    ∷ (0xe2 ∷ 0x80 ∷ 0x84 ∷ [])
    ∷ (0xe2 ∷ 0x80 ∷ 0x85 ∷ [])
    ∷ (0xe2 ∷ 0x80 ∷ 0x86 ∷ [])
    ∷ (0xe2 ∷ 0x80 ∷ 0x87 ∷ [])
    ∷ (0xe2 ∷ 0x80 ∷ 0x88 ∷ [])
    ∷ (0xe2 ∷ 0x80 ∷ 0x89 ∷ [])
    ∷ (0xe2 ∷ 0x80 ∷ 0x8a ∷ [])
    ∷ (0xe2 ∷ 0x80 ∷ 0xa8 ∷ [])
    ∷ (0xe2 ∷ 0x80 ∷ 0xa9 ∷ [])
    ∷ (0xe2 ∷ 0x80 ∷ 0xaf ∷ [])
    ∷ (0xe2 ∷ 0x81 ∷ 0x9f ∷ [])
    ∷ (0xe3 ∷ 0x80 ∷ 0x80 ∷ [])
    ∷ []

-- The rest behind the first of the prefixes that a text has.
unfoldable pub cut_any : List Str → Str → Option Str
unfolding cut_prefix
cut_any [] s = none
cut_any (p ∷ ps) s = elim (cut_prefix s p) [ some r ↦ some r | none ↦ cut_any ps s ]

-- A round takes a byte at least, so that the length of the text is enough fuel.
unfoldable pub trim_with : List Str → ℕ → Str → Str
unfolding cut_any
trim_with ps zero s = s
trim_with ps (suc fuel) s = elim (cut_any ps s) [ none ↦ s | some r ↦ trim_with ps fuel r ]

unfoldable pub trim_left : Str → Str
unfolding trim_with
trim_left s = trim_with spaces (length s) s

unfoldable pub trim_right : Str → Str
unfolding trim_with
trim_right s = reverse (trim_with (map reverse spaces) (length s) (reverse s))

unfoldable pub trim_space : Str → Str
unfolding trim_left trim_right
trim_space s = trim_right (trim_left s)

spaced : trim_space (0x20 ∷ 0x61 ∷ 0x20 ∷ 0x62 ∷ 0xc2 ∷ 0xa0 ∷ 0x0d ∷ []) ≡ 0x61 ∷ 0x20 ∷ 0x62 ∷ []
unfolding trim_space nat_eq
spaced = refl

-- strings.Fields: the parts between runs of white space. The bytes of the current part come in
-- reverse.
abbrev pub flush : Str → List Str → List Str
flush [] fs = fs
flush (c ∷ cur) fs = reverse (c ∷ cur) ∷ fs

unfoldable pub fields_from : ℕ → Str → Str → List Str
unfolding cut_any
fields_from zero cur s = flush cur []
fields_from (suc fuel) cur [] = flush cur []
fields_from (suc fuel) cur (c ∷ s) = elim (cut_any spaces (c ∷ s)) [
  | none ↦ fields_from fuel (c ∷ cur) s
  | some r ↦ flush cur (fields_from fuel [] r)
]

unfoldable pub fields : Str → List Str
unfolding fields_from
fields s = fields_from (suc (length s)) [] s

fields_two : fields (0x61 ∷ 0x62 ∷ 0x20 ∷ 0x20 ∷ 0x63 ∷ []) ≡ (0x61 ∷ 0x62 ∷ []) ∷ (0x63 ∷ []) ∷ []
unfolding fields nat_eq
fields_two = refl
