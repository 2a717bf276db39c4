-- ===== src/Env/Split.antt =====
-- The readers of an environment, in pkg/gomake/env.go and pkg/gomake/os.go.
use gomake.Base.{
  Str, cut, Bool, true, false, Option, none, some, List, [], ◌∷◌, ◌++◌, ◌==◌, str_eq, if◌then◌else◌,
  not, ◌≡◌, ◌≢◌, refl, arith, ◌∙◌, ap, sym, contains, contains-append, Distinct,
  Distinct-append_one, Lacks, cut-append,
}
use gomake.Base.Dict
use gomake.Base.Dict.{Dict}
use gomake.Env.{
  entry, split_step, split_from, env_split_ordered, env_split, or_empty, expander, lookup_step,
  lookup_from, lookup_env, getenv, eq_sign, equals, Parsed,
}

-- A name that an environment can hold: not empty and with no `=` inside.
abbrev pub IsName : Str → Type 0
IsName key = (key ≢ []) × Lacks eq_sign key

abbrev is_none : Option Str → Bool
is_none none = true
is_none (some v) = false

abbrev pub as_pair : Option Str → Str × Bool
as_pair none = ([], false)
as_pair (some v) = (v, true)

split_step-none : (p : Parsed) → split_step p none ≡ p
unfolding split_step
split_step-none (m, k) = refl

pub lookup-split_step :
    (key n v : Str) (p : Parsed)
    → Dict.lookup key (split_step p (some (n, v))).0
      ≡ (if key == n then some v else Dict.lookup key p.0)
unfolding split_step
lookup-split_step key n v (m, k) = ground (arith, Dict.lookup-insert key n v m)

lookup_step-split_step :
    (key s : Str) (p : Parsed)
    → as_pair (Dict.lookup key (split_step p (entry s)).0)
      ≡ lookup_step key (as_pair (Dict.lookup key p.0)) s
unfolding entry lookup_step
lookup_step-split_step key s p = go (cut eq_sign s) refl
  where
    go :
        (o : Option (Str × Str))
        → cut eq_sign s ≡ o
        → as_pair (Dict.lookup key (split_step p (entry s)).0)
          ≡ lookup_step key (as_pair (Dict.lookup key p.0)) s
    go none e = rw (e, entry, lookup_step) (rw split_step-none)
    go (some (n, v)) e =
        rw (e, entry, lookup_step) (ground (arith, split_step-none p, lookup-split_step key n v p))

lookup_from-split_from :
    (key : Str) (env : List Str) (p : Parsed)
    → as_pair (Dict.lookup key (split_from p env).0)
      ≡ lookup_from key (as_pair (Dict.lookup key p.0)) env
unfolding split_from lookup_from
lookup_from-split_from key [] p = refl
lookup_from-split_from key (s ∷ env) p =
    lookup_from-split_from key env (split_step p (entry s))
    ∙ ap (λ r. lookup_from key r env) (lookup_step-split_step key s p)

-- `LookupEnv` finds in a list exactly what `EnvSplit` maps the key to, the empty key included.
pub lookup_env-env_split :
    (env : List Str) (key : Str) → lookup_env env key ≡ as_pair (Dict.lookup key (env_split env))
unfolding lookup_env env_split env_split_ordered Dict.lookup
lookup_env-env_split env key = sym (lookup_from-split_from key env ([], []))

or_empty-as_pair : (o : Option Str) → or_empty o ≡ (as_pair o).0
or_empty-as_pair none = refl
or_empty-as_pair (some v) = refl

-- The mapping function that `Expander` returns is `Getenv`.
pub expander-getenv : (env : List Str) (key : Str) → expander env key ≡ getenv env key
unfolding expander getenv
expander-getenv env key =
    or_empty-as_pair (Dict.lookup key (env_split env))
    ∙ sym (ap (λ r. r.0) (lookup_env-env_split env key))

-- The order list against the map: no key twice, and the same keys.
abbrev pub IsOrdered : Parsed → Type 0
IsOrdered p = Distinct p.1 × ((key : Str) → contains p.1 key ≡ not (is_none (Dict.lookup key p.0)))

split_step-IsOrdered :
    (p : Parsed) (o : Option (Str × Str)) → IsOrdered p → IsOrdered (split_step p o)
unfolding split_step contains
split_step-IsOrdered (m, k) none h = h
split_step-IsOrdered (m, k) (some (n, v)) h = go (Dict.lookup n m) refl
  where
    go : (o : Option Str) → Dict.lookup n m ≡ o → IsOrdered (split_step (m, k) (some (n, v)))
    go none e =
        rw (e, split_step)
          (
            Distinct-append_one k n (ground (arith, h.1 n)) h.0,
            λ key.
                ground
                  (arith, h.1 key, contains-append k (n ∷ []) key, Dict.lookup-insert key n v m),
          )
    go (some w) e =
        rw (e, split_step) (h.0, λ key. ground (arith, h.1 key, Dict.lookup-insert key n v m))

split_from-IsOrdered : (p : Parsed) (env : List Str) → IsOrdered p → IsOrdered (split_from p env)
unfolding split_from
split_from-IsOrdered p [] h = h
split_from-IsOrdered p (s ∷ env) h =
    split_from-IsOrdered (split_step p (entry s)) env (split_step-IsOrdered p (entry s) h)

-- The order list of `EnvSplitOrdered` holds every key of the map, once, and no other.
pub env_split_ordered-IsOrdered : (env : List Str) → IsOrdered (env_split_ordered env)
unfolding env_split_ordered
env_split_ordered-IsOrdered env =
    split_from-IsOrdered ([], []) env (unfold Dict.lookup contains in (tt, λ key. refl))

lookup_from-append :
    (key : Str) (r : Str × Bool) (xs ys : List Str)
    → lookup_from key r (xs ++ ys) ≡ lookup_from key (lookup_from key r xs) ys
unfolding lookup_from
lookup_from-append key r [] ys = refl
lookup_from-append key r (x ∷ xs) ys = lookup_from-append key (lookup_step key r x) xs ys

-- An entry at the end of the list, for a name that is not empty and has no equals sign, decides the
-- value of its name, and of no other.
pub lookup_env-append :
    (env : List Str) (name v key : Str)
    → IsName name
    → lookup_env (env ++ ((name ++ (equals ++ v)) ∷ [])) key
      ≡ (if name == key then (v, true) else lookup_env env key)
unfolding lookup_env lookup_from lookup_step
lookup_env-append env name v key (h, l) =
    lookup_from-append key ([], false) env _
    ∙ rw (cut-append eq_sign name v l, lookup_step) (ground arith)
