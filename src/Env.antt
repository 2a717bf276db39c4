-- ===== src/Env.antt =====
-- Environment lists, pkg/gomake/env.go and the lookups of pkg/gomake/os.go. An environment is a
-- list of `key=value` texts; a Go map is a `Dict`.
pub mod Split
pub mod Join
use gomake.Base.{
  Str, codes, cut, Bool, true, false, Option, none, some, List, [], ◌∷◌, ◌++◌, ◌==◌, str_eq, ◌||◌,
  if◌then◌else◌, sort_by, not,
}
use gomake.Base.Dict
use gomake.Base.Dict.{Dict}

abbrev pub equals : Str
equals = codes "="

abbrev pub eq_sign : Prim.Native.Nat.ℕ
eq_sign = b'='

-- `strings.SplitN(s, "=", 2)` with both guards of the loop: the entries that are read.
pub entry : Str → Option (Str × Str)
entry s = elim (cut eq_sign s) [
  | none ↦ none
  | some (name, value) ↦ if name == [] then none else some (name, value)
]

abbrev pub Parsed : Type 0
Parsed = Dict Str Str × List Str

-- One round of the loop of `EnvSplitOrdered`.
pub split_step : Parsed → Option (Str × Str) → Parsed
split_step (m, k) none = (m, k)
split_step (m, k) (some (key, value)) = elim (Dict.lookup key m) [
  | none ↦ (Dict.insert key value m, k ++ (key ∷ []))
  | some _ ↦ (Dict.insert key value m, k)
]

pub split_from : Parsed → List Str → Parsed
split_from p [] = p
split_from p (s ∷ env) = split_from (split_step p (entry s)) env

-- `EnvSplitOrdered`
unfoldable pub env_split_ordered : List Str → Parsed
unfolding split_from split_step entry
env_split_ordered env = split_from ([], []) env

-- `EnvSplit`
unfoldable pub env_split : List Str → Dict Str Str
env_split env = (env_split_ordered env).0

abbrev pub or_empty : Option Str → Str
or_empty none = []
or_empty (some v) = v

-- `Expander`: a missing key gives the empty text.
unfoldable pub expander : List Str → Str → Str
expander env key = or_empty (Dict.lookup key (env_split env))

-- One round of the loop of `LookupEnv`.
pub lookup_step : Str → Str × Bool → Str → Str × Bool
lookup_step key (value, exists) s = elim (cut eq_sign s) [
  | none ↦ (value, exists)
  | some (name, v) ↦ if name == [] || not (name == key) then (value, exists) else (v, true)
]

pub lookup_from : Str → Str × Bool → List Str → Str × Bool
lookup_from key r [] = r
lookup_from key r (s ∷ env) = lookup_from key (lookup_step key r s) env

-- `LookupEnv`
unfoldable pub lookup_env : List Str → Str → Str × Bool
unfolding lookup_from lookup_step
lookup_env env key = lookup_from key ([], false) env

-- `Getenv`
unfoldable pub getenv : List Str → Str → Str
getenv env key = (lookup_env env key).0

-- `GetGOOS` and `GetGOARCH`; the platform's own value is `runtime.GOOS`, `runtime.GOARCH`.
unfoldable pub get_goos : Str → List Str → Str
get_goos runtime env =
    let val = (lookup_env env (codes "GOOS")).0 in if val == [] then runtime else val

unfoldable pub get_goarch : Str → List Str → Str
get_goarch runtime env =
    let val = (lookup_env env (codes "GOARCH")).0 in if val == [] then runtime else val

abbrev pub value_of : Dict Str Str → Str → Str
value_of env key = or_empty (Dict.lookup key env)

pub join_entries : Dict Str Str → List Str → List Str
join_entries env [] = []
join_entries env (key ∷ ks) = (key ++ (equals ++ value_of env key)) ∷ join_entries env ks

-- `EnvJoin`
unfoldable pub env_join : Dict Str Str → List Str
unfolding join_entries
env_join env = join_entries env (sort_by (λ k. k) (Dict.keys env))
