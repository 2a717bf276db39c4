-- ===== src/Exec/Codes.antt =====
-- Which error gives which exit code.
use gomake.Base.{ℕ, Str, false, ◌≡◌, ◌≢◌, ◌↔◌, refl, arith, Option, none, some, ◌⊎◌, ◌≤◌, ◌<◌}
use gomake.Error.{
  Sentinel, Err, signaled, wraps, interrupted, compile_failed, exit_error, nil, cons, is_err,
  as_interrupted, as_status, as_exit, is_compile, first,
}
use mathlib.Core.Bool.{or-false}
use gomake.Exec.{exit_code, compile_exit, exit_status, has_run}

-- Success is the exit code of no error alone.
pub exit_code-zero_iff : (e : Option Err) → (exit_code e ≡ 0) ↔ (e ≡ none)
unfolding exit_code
exit_code-zero_iff none = (λ h. refl, λ h. refl)
exit_code-zero_iff (some e) = ground arith

first-none {ℓ} : {A : Type ℓ} (o : Option A) → first o none ≡ o
first-none none = refl
first-none (some a) = refl

-- Wrapping an error by `%w` changes none of its exit codes.
pub exit_code-wraps :
    (m : Str) (e : Err)
    → (exit_code (some (wraps m (cons e nil))) ≡ exit_code (some e))
      × (exit_status (some (wraps m (cons e nil))) ≡ exit_status (some e))
      × (has_run (some (wraps m (cons e nil))) ≡ has_run (some e))
unfolding exit_code exit_status has_run is_err as_interrupted as_status as_exit
exit_code-wraps m e = simp (or-false, first-none) (refl, refl, refl)

interrupted_ne_compile : (e : Err) → exit_code (some e) ≢ 124
unfolding exit_code
interrupted_ne_compile e = ground arith

-- A failed build exits with 124, unless the build was canceled or ran out of time; `ExitCode` gives
-- no error a code from 2 to 124.
pub compile_exit_iff :
    (e : Err) (out err : Str)
    → ((compile_exit (compile_failed e out err) ≡ 124)
        ↔ ((is_err Sentinel.deadline_exceeded e ≡ false) × (is_err Sentinel.canceled e ≡ false)))
      × ((exit_code (some e) ≤ 1) ⊎ (124 < exit_code (some e)))
unfolding compile_exit is_err is_compile exit_code
compile_exit_iff e out err = (ground arith, ground arith)

-- A process killed by a signal and a target interrupted by it are reported by one number.
pub exit_status-signaled :
    (m : Str) (n : ℕ)
    → exit_status (some (wraps m (cons (exit_error (signaled n)) nil)))
      ≡ exit_code (some (wraps m (cons (interrupted (some n)) nil)))
unfolding exit_status exit_code is_err as_interrupted as_status as_exit
exit_status-signaled m n = refl
