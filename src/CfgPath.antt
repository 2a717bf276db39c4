-- ===== src/CfgPath.antt =====
-- Paths into a target's configuration: `splitPath`, `arrayIndex` and `resolve` of
-- pkg/gomake/config.go. A block is the decoded JSON object, a `Value`.
pub mod Split
pub mod Walk
use gomake.Base.{
  ℕ, zero, suc, Str, Bool, true, false, List, [], ◌∷◌, ◌==◌, str_eq, nat_eq, not, ◌||◌, ◌&&◌, cut,
  cut_prefix, Option, none, some, if◌then◌else◌, ltb, leb, length,
}
use gomake.Base.Decimal.{value}
use gomake.Value.{Value, Fields, Items, null, bool, num, text, arr, obj, lookup_field, item, end}

abbrev pub dot : ℕ
dot = b'.'

abbrev pub quote : ℕ
quote = b'\''

-- `ErrMiss`, `ErrPath` with its three messages, and `ErrType`, each with the path.
pub data CfgError : Type 0 where
  miss : Str → CfgError
  empty_path : CfgError
  unterminated : Str → CfgError
  boundary : Str → CfgError
  wrong_type : Str → CfgError

pub data Result {ℓ} (A : Type ℓ) : Type ℓ where
  ok : A → Result A
  err : CfgError → Result A

abbrev pub prepend : Str → Option (Result (List Str)) → Option (Result (List Str))
prepend seg none = none
prepend seg (some (err e)) = some (err e)
prepend seg (some (ok segs)) = some (ok (seg ∷ segs))

-- The loop of `splitPath` on what is left of the path, with fuel: `none` if it has not ended.
unfoldable pub split_loop : ℕ → Str → Str → Option (Result (List Str))
split_loop zero path s = none
split_loop (suc n) path s = elim (cut_prefix s (quote ∷ [])) [
  | some quoted ↦ elim (cut quote quoted) [
    | none ↦ some (err (unterminated path))
    | some (seg, behind) ↦ elim behind [
      | [] ↦ some (ok (seg ∷ []))
      | c ∷ rest ↦ elim (c == dot) [
        | true ↦ prepend seg (split_loop n path rest)
        | false ↦ some (err (boundary path))
      ]
    ]
  ]
  | none ↦ elim (cut dot s) [
    | none ↦ some (ok (s ∷ []))
    | some (seg, rest) ↦ prepend seg (split_loop n path rest)
  ]
]

-- `splitPath`. Each round takes a byte at least, so one round more than there are bytes is enough.
unfoldable pub split_path : Str → Option (Result (List Str))
split_path path =
    if path == [] then some (err empty_path) else split_loop (suc (length path)) path path

pub all_digits : Str → Bool
all_digits [] = true
all_digits (c ∷ s) = let rest = all_digits s in leb b'0' c && leb c b'9' && rest

abbrev leading_zero : Str → Bool
leading_zero [] = false
leading_zero (c ∷ []) = false
leading_zero (c ∷ d ∷ s) = c == b'0'

-- The numbers of an `int` of 64 bits end here.
abbrev pub int_limit : ℕ
int_limit = 9223372036854775808

-- `arrayIndex`
unfoldable pub array_index : Str → Option ℕ
unfolding all_digits
array_index seg =
    if seg == [] || leading_zero seg
    then none
    else if not (all_digits seg)
    then none
    else if ltb (value 0 seg) int_limit
    then some (value 0 seg)
    else none

abbrev item_at : Option ℕ → Items → Option Value
item_at none vs = none
item_at (some i) vs = item vs i

-- The loop of `resolve`.
unfoldable pub walk : List Str → Str → Value → Result Value
walk [] path cur = ok cur
walk (seg ∷ segs) path (obj fs) = elim (lookup_field seg fs) [
  | none ↦ err (miss path)
  | some v ↦ walk segs path v
]
walk (seg ∷ segs) path (arr vs) = elim (item_at (array_index seg) vs) [
  | none ↦ err (miss path)
  | some v ↦ walk segs path v
]
walk (seg ∷ segs) path null = err (wrong_type path)
walk (seg ∷ segs) path (bool b) = err (wrong_type path)
walk (seg ∷ segs) path (num n) = err (wrong_type path)
walk (seg ∷ segs) path (text s) = err (wrong_type path)

-- The data of a `*Config`; a nil one is an empty block.
abbrev pub data_of : Option Fields → Fields
data_of none = end
data_of (some fs) = fs

-- `Config.resolve`
unfoldable pub resolve : Option Fields → Str → Option (Result Value)
unfolding walk split_path
resolve cfg path = elim (split_path path) [
  | none ↦ none
  | some (err e) ↦ some (err e)
  | some (ok segs) ↦ some (walk segs path (obj (data_of cfg)))
]

abbrev is_ok : Option (Result Value) → Bool
is_ok none = false
is_ok (some (err e)) = false
is_ok (some (ok v)) = true

-- `Config.Has`
unfoldable pub has : Option Fields → Str → Bool
has cfg path = is_ok (resolve cfg path)
