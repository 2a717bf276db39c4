-- ===== src/Value.antt =====
-- The values that the YAML and JSON decoders give: Go's `any` with nil, a bool, a number (as it is
-- written), a string, a slice or a map.
use gomake.Base.{
  Str, Bool, true, false, Option, none, some, ◌==◌, str_eq, if◌then◌else◌, ℕ, zero, suc,
}

mutual
  pub data Value : Type 0 where
    null : Value
    bool : Bool → Value
    num : Str → Value
    text : Str → Value
    arr : Items → Value
    obj : Fields → Value

  pub data Items : Type 0 where
    nil : Items
    cons : Value → Items → Items

  -- A map, with one entry for each key.
  pub data Fields : Type 0 where
    end : Fields
    field : Str → Value → Fields → Fields

-- `m[key]`, with the two results of Go.
unfoldable pub lookup_field : Str → Fields → Option Value
lookup_field k end = none
lookup_field k (field j v fs) = if k == j then some v else lookup_field k fs

-- `v.(map[string]any)`
abbrev pub as_map : Value → Option Fields
as_map null = none
as_map (bool b) = none
as_map (num n) = none
as_map (text s) = none
as_map (arr xs) = none
as_map (obj fs) = some fs

abbrev map_of : Option Value → Option Fields
map_of none = none
map_of (some v) = as_map v

-- `m[key].(map[string]any)`
unfoldable pub child : Str → Fields → Option Fields
unfolding lookup_field
child k fs = map_of (lookup_field k fs)

abbrev pub is_empty : Fields → Bool
is_empty end = true
is_empty (field k v fs) = false

pub size : Items → ℕ
size nil = 0
size (cons v vs) = suc (size vs)

-- `a[i]`
unfoldable pub item : Items → ℕ → Option Value
item nil i = none
item (cons v vs) zero = some v
item (cons v vs) (suc i) = item vs i
