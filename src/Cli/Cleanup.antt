-- ===== src/Cli/Cleanup.antt =====
-- Build directories in the trace of `Main`, internal/cli/main.go.
use gomake.Base.{
  zero, suc, false, List, ◌∷◌, ◌++◌, str_eq, nat_eq, All, ◌≡◌, arith, Bool-cases, ◌⊎◌, codes,
}
use gomake.Error.{Err}
use gomake.Cli.Trace.{Event, analyzed, analyze_panicked, remove_build_dir, Step, panicked}
use gomake.Cli.Only.{Only, builds}
use gomake.Cli.Calls.{GoMake}

abbrev NoBuild : Event → Type 0
NoBuild ev = builds ev ≡ false

-- A build directory is made once and removed once after it.
abbrev pub IsRemoved : List Event → Type 0
IsRemoved t =
    (before : List Event) × (middle : List Event) × (behind : List Event) × (t
      ≡ before ++ (analyzed ∷ (middle ++ (remove_build_dir ∷ behind))))
    × All NoBuild before
    × All NoBuild middle
    × All NoBuild behind

-- newGoMake panics, and nothing removes what it may have made.
abbrev pub IsLeft : Step GoMake → List Event → Type 0
IsLeft s t =
    (e : Err) × (before : List Event) × (behind : List Event) × (s ≡ panicked e)
    × (t ≡ before ++ (analyze_panicked ∷ behind))
    × All NoBuild before
    × All NoBuild behind

-- What becomes of a build directory, of what newGoMake gives: there is none, or it is removed, or
-- newGoMake panics.
abbrev pub IsCleanedUp : Step GoMake → List Event → Type 0
IsCleanedUp s t = All NoBuild t ⊎ IsRemoved t ⊎ IsLeft s t
