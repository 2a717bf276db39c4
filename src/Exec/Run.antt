-- ===== src/Exec/Run.antt =====
-- One run of a target: what the goroutine leaves, and what the select reports.
use gomake.Base.{
  ℕ, Str, true, false, ◌≡◌, ◌≢◌, ◌↔◌, refl, arith, Option, none, some, ◌⊎◌, inl, inr, str_eq, ◌+◌,
}
use gomake.Error.{Err, Sentinel, is_err, sentinel_eq, is, as_interrupted}
use gomake.Exec.{
  Outcome, returned, Process, target_routine, Done, empty, sent, closed, Wake, signal, ctx_done,
  finished, closed_early, Context, run_target, exit_code,
}

-- Whatever the target does, returning, panicking or ending its goroutine, the working directory is
-- the old one when the result is sent, if the process can change back to it behind the target.
pub target_routine-cwd :
    (fn : Process → Outcome × Process) (wd : Str) (p : Process)
    → (fn (record p { cwd = wd })).1.chdir p.cwd ≡ none
    → (target_routine fn wd p).1.cwd ≡ p.cwd
unfolding target_routine
target_routine-cwd fn wd p back = ground arith

-- The error that is sent is nil exactly when the directory can be read and entered, the target
-- returns nil, and the old directory can be entered again.
pub target_routine-none_iff :
    (fn : Process → Outcome × Process) (wd : Str) (p : Process)
    → let ran = fn (record p { cwd = wd }) in
      ((target_routine fn wd p).0 ≡ none) ↔ (
        (p.getwd ≡ none)
        × (p.chdir wd ≡ none)
        × (ran.0 ≡ returned none)
        × (ran.1.chdir p.cwd ≡ none))
unfolding target_routine
target_routine-none_iff fn wd p =
    (λ h. (ground arith, ground arith, ground arith, ground arith), λ h. ground arith)

-- What the target has sent by the moment at which a branch of the select fires.
abbrev pub own_result : Wake → Option (Option Err)
own_result (signal sig empty) = none
own_result (signal sig (sent e)) = some e
own_result (signal sig closed) = none
own_result (ctx_done empty) = none
own_result (ctx_done (sent e)) = some e
own_result (ctx_done closed) = none
own_result (finished e) = some e
own_result closed_early = none

-- If a canceled context reports an error, a run is reported as a success exactly when nil has been
-- sent by the moment at which a branch of the select fires, or is what fires it. A channel that is
-- empty or closed then is no success, whatever comes in the wait behind a signal.
pub run_target-none_iff :
    (ctx : Context) (w : Wake)
    → ctx.err ≢ none
    → (run_target ctx w ≡ none) ↔ (own_result w ≡ some none)
unfolding run_target
run_target-none_iff ctx (signal sig empty) h = ground arith
run_target-none_iff ctx (signal sig (sent e)) h = ground arith
run_target-none_iff ctx (signal sig closed) h = ground arith
run_target-none_iff ctx (ctx_done empty) h = ground arith
run_target-none_iff ctx (ctx_done (sent e)) h = ground arith
run_target-none_iff ctx (ctx_done closed) h = ground arith
run_target-none_iff ctx (finished e) h = ground arith
run_target-none_iff ctx closed_early h = ground arith

-- An interrupted run exits with 128 and the signal's number, when the target has no result yet or
-- only reports that its context was canceled.
pub exit_code-signal :
    (ctx : Context) (n : ℕ) (done : Done)
    → (done ≡ empty) ⊎ (e : Err) × (done ≡ sent (some e)) × (is_err Sentinel.canceled e ≡ true)
    → exit_code (run_target ctx (signal (some n) done)) ≡ 128 + n
unfolding exit_code run_target is_err as_interrupted
exit_code-signal ctx n empty h = refl
exit_code-signal ctx n closed (inl e) = cc
exit_code-signal ctx n closed (inr (e, q, c)) = cc
exit_code-signal ctx n (sent none) (inl e) = cc
exit_code-signal ctx n (sent none) (inr (e, q, c)) = cc
exit_code-signal ctx n (sent (some x)) (inl e) = cc
exit_code-signal ctx n (sent (some x)) (inr (e, q, c)) =
    let same : x ≡ e = cc in rw same (rw (c, exit_code) refl)

-- When a target has ended with an error that is not already the timeout of the makefile, the exit
-- code is 125 exactly when the error reports a deadline and the deadline was the one of `--timeout`.
pub exit_code-deadline_iff :
    (ctx : Context) (e : Err)
    → is_err Sentinel.timeout e ≡ false
    → (exit_code (run_target ctx (finished (some e))) ≡ 125)
      ↔ ((is_err Sentinel.deadline_exceeded e ≡ true) × (is ctx.cause Sentinel.timeout ≡ true))
unfolding exit_code run_target is_err sentinel_eq
exit_code-deadline_iff ctx e h = (λ k. (ground arith, ground arith), λ (p, q). ground arith)
