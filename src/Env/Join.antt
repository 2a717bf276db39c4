-- ===== src/Env/Join.antt =====
-- `EnvJoin` against `EnvSplit`, pkg/gomake/env.go.
use gomake.Base.{
  Str, some, List, [], ◌∷◌, ◌++◌, str_eq, if◌then◌else◌, ◌≡◌, refl, arith, contains, cut-append,
  All, sort_by, sort_by-All, contains-sort_by,
}
use gomake.Base.Dict
use gomake.Base.Dict.{Dict}
use gomake.Env.{
  entry, split_step, split_from, env_split_ordered, env_split, eq_sign, Parsed, equals, value_of,
  join_entries, env_join,
}
use gomake.Env.Split.{IsName, lookup-split_step}

entry-equals : (key v : Str) → IsName key → entry (key ++ (equals ++ v)) ≡ some (key, v)
unfolding entry
entry-equals key v (h, l) = rw (cut-append eq_sign key v l, entry) (ground arith)

lookup-join_entries :
    (m : Dict Str Str) (key : Str) (ks : List Str) (p : Parsed)
    → All IsName ks
    → Dict.lookup key (split_from p (join_entries m ks)).0
      ≡ (if contains ks key then some (value_of m key) else Dict.lookup key p.0)
unfolding split_from join_entries contains
lookup-join_entries m key [] p h = refl
lookup-join_entries m key (k ∷ ks) p (hk, h) =
    rw (entry-equals k (value_of m k) hk, split_from)
      (ground (
        arith,
        lookup-split_step key k (value_of m k) p,
        lookup-join_entries m key ks (split_step p (some (k, value_of m k))) h,
      ))

-- Splitting a joined map gives back the value of every key, if the map's keys are names.
pub env_split-env_join :
    (m : Dict Str Str) (key : Str)
    → All IsName (Dict.keys m)
    → Dict.lookup key (env_split (env_join m)) ≡ Dict.lookup key m
unfolding env_split env_split_ordered env_join Dict.lookup
env_split-env_join m key h = ground (
  arith,
  lookup-join_entries m key (sort_by (λ k. k) (Dict.keys m)) ([], [])
      (sort_by-All _ _ (Dict.keys m) h),
  contains-sort_by (λ k. k) (Dict.keys m) key,
  Dict.contains-keys m key,
)
