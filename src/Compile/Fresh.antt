-- ===== src/Compile/Fresh.antt =====
-- Which binary runs, `Execute` of internal/cli/cli.go.
use gomake.Base.{
  Str, true, false, codes, Option, List, [], ◌∷◌, ◌++◌, none, some, ◌≡◌, ◌⊎◌, inl, inr, refl, arith,
  Bool-cases, Option-cases,
}
use gomake.Compile.{Runner, GoMake, Step, compiled, stored, ran, execute, cached, run_args, store}
use gomake.Error.{Err}
use gomake.Workspace.{Result, ok, err}

-- A binary runs with the configuration of the target as its first argument, if there is one.
abbrev pub passed : Option Str → List Str → List Str
passed none args = args
passed (some text) args = (codes "--gomake-config=" ++ text) ∷ args

module _ (r : Runner) (gmk : GoMake) (args : List Str) where
  -- The cache has the binary.
  abbrev pub IsHit : Str → Type 0
  IsHit pth = (r.cache ≡ ok pth) × (r.exists pth ≡ true)

  -- The cache has no place for it, and then nothing is stored, or the place is empty, and then a copy
  -- of the new binary is stored there.
  abbrev pub IsMiss : List Step → Type 0
  IsMiss copies =
      ((e : Err) × (r.cache ≡ err e) × (copies ≡ []))
      ⊎ ((pth : Str) × (r.cache ≡ ok pth)
          × (r.exists pth ≡ false)
          × (copies ≡ stored gmk.cu.main_bin pth ∷ []))

  cached-IsHit :
      (c : Result Str) (pth : Str) → cached r c ≡ some pth → (c ≡ ok pth) × (r.exists pth ≡ true)
  cached-IsHit (err e) pth h = absurd (cc)
  cached-IsHit (ok p) pth h = elim (Bool-cases (r.exists p)) [
    | inl x ↦ (ground (arith, x, h), ground (arith, x, h))
    | inr x ↦ absurd (ground (arith, x, h))
  ]

  store-IsMiss :
      (c : Result Str) → r.cache ≡ c → cached r c ≡ none → IsMiss (store r gmk.cu.main_bin c)
  store-IsMiss (err e) q h = inl (e, q, refl)
  store-IsMiss (ok p) q h = elim (Bool-cases (r.exists p)) [
    | inl x ↦ absurd (ground (arith, x, h))
    | inr x ↦ inr (p, q, x, refl)
  ]

  passed-eq : (o : Option Str) → run_args r o args ≡ passed o args
  passed-eq none = refl
  passed-eq (some text) = refl

  -- `Execute` runs the binary of the cache, and does nothing else, exactly when the cache has it.
  -- Otherwise it compiles first; if that fails it ends with its error and runs nothing, and if it
  -- succeeds the new binary is copied to its place in the cache, if there is one, and then runs. The
  -- result is that of the run. A binary gets the configuration of the target, if there is one, as its
  -- first argument and then the arguments.
  pub execute_lem :
      ((pth : Str) × IsHit pth
        × (execute r gmk args ≡ (ran pth (passed r.config args) ∷ [], r.run)))
      ⊎ ((copies : List Step) × IsMiss copies
          × (((r.compile ≡ none)
                × (execute r gmk args ≡ (
                  compiled gmk.cu.main_bin
                      ∷ (copies ++ (ran gmk.cu.main_bin (passed r.config args) ∷ [])),
                  r.run,
                )))
              ⊎ ((e : Err) × (r.compile ≡ some e)
                  × (execute r gmk args ≡ (compiled gmk.cu.main_bin ∷ [], some e)))))
  unfolding execute
  execute_lem = elim (Option-cases (cached r r.cache)) [
    | inr (pth, h) ↦ inl (pth, cached-IsHit r.cache pth h, rw (execute, h, passed-eq r.config) refl)
    | inl h ↦ inr (
      store r gmk.cu.main_bin r.cache,
      store-IsMiss r.cache refl h,
      elim (Option-cases r.compile) [
        | inl q ↦ inl (q, rw (execute, h, q, passed-eq r.config) refl)
        | inr (e, q) ↦ inr (e, q, rw (execute, h, q) refl)
      ],
    )
  ]
