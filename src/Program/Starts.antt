-- ===== src/Program/Starts.antt =====
-- Which target a program starts, `NewMakefile` and `Execute` of internal/mkf/makefile.go.
use gomake.Base.{
  Str, Bool, true, false, List, [], ◌∷◌, ◌==◌, str_eq, Option, some, ◌≡◌, ◌⊎◌, ◌||◌, if◌then◌else◌,
}
use gomake.Base.Int.{ℤ}
use gomake.Error.{Err}
use gomake.Exec.{found, failed, pick_target, run_target, exit_code}
use gomake.Program.{
  Flags, Calls, Settings, World, Action, started, printed_help, printed_version, printed_list,
  deadline,
}
use gomake.Target.{Target}

-- The targets that start, with their arguments, directory and timeout.
abbrev pub Start : Type 0
Start = Target × List Str × Str × Option ℤ

abbrev pub starts : List Action → List Start
starts [] = []
starts (printed_help s ∷ t) = starts t
starts (printed_version s ∷ t) = starts t
starts (printed_list s ∷ t) = starts t
starts (started tgt args wd d ∷ t) = (tgt, args, wd, d) ∷ starts t

module _ (c : Calls) (w : World) (tgs : List Target) (s : Settings) where
  -- The directory of a run: that of the flag, or the one of the process.
  abbrev pub wd_of : Str → Flags → Str
  wd_of wd f = if f.wd == [] then wd else f.wd

  -- A flag asks for a text in place of a run.
  abbrev pub is_meta : Flags → Bool
  is_meta f = f.help || (f.version || f.list)

  -- What `Execute` does with the flags of the program.
  abbrev pub IsRun : Str → Flags → List Action × Option Err → Type 0
  IsRun wd f r =
      ((is_meta f ≡ true) × (starts r.0 ≡ []))
      ⊎ ((is_meta f ≡ false)
          × (((t : Target) × (args : List Str) × (pick_target tgs f.left ≡ (found t, args))
                × (starts r.0 ≡ (t, args, wd_of wd f, deadline f.timeout) ∷ [])
                × (r.1
                    ≡ run_target (w.context t (deadline f.timeout))
                        (w.wake t (deadline f.timeout))))
              ⊎ ((e : Err) × (rest : List Str) × (pick_target tgs f.left ≡ (failed e, rest))
                  × (r ≡ ([], some e))
                  × ((exit_code (some e) ≡ 126) ⊎ (exit_code (some e) ≡ 127)))))
