-- ===== src/Exec.antt =====
-- The runtime of a makefile, internal/mkf/helpers.go: exit codes, the choice of a target, and one
-- run of a target against signals and deadlines.
pub mod Codes
pub mod Pick
pub mod Run
use gomake.Base.{
  ℕ, Str, Bool, true, false, List, [], ◌∷◌, ◌++◌, ◌==◌, str_eq, Option, none, some, not, ◌||◌, ◌&&◌,
  if◌then◌else◌, codes, ◌+◌,
}
use gomake.Error.{
  Sentinel, Err, Errs, ProcessState, exited, signaled, other, sentinel, message, wraps, interrupted,
  nil, cons, is_err, is, as_interrupted, as_status, as_exit, is_compile,
}
use gomake.Target.{Target}

abbrev pub exit_code_ok : ℕ
exit_code_ok = 0

abbrev pub exit_code_err : ℕ
exit_code_err = 1

abbrev pub exit_code_compile : ℕ
exit_code_compile = 124

abbrev pub exit_code_deadline : ℕ
exit_code_deadline = 125

abbrev pub exit_code_pick_target : ℕ
exit_code_pick_target = 126

abbrev pub exit_code_unk_target : ℕ
exit_code_unk_target = 127

abbrev pub exit_code_signal : ℕ
exit_code_signal = 128

-- `interruptedError.ExitCode`
abbrev pub interrupted_code : Option ℕ → ℕ
interrupted_code none = exit_code_err
interrupted_code (some n) = exit_code_signal + n

abbrev code_of_interrupt : Option (Option ℕ) → ℕ
code_of_interrupt none = exit_code_err
code_of_interrupt (some sig) = interrupted_code sig

-- `ExitCode`
unfoldable pub exit_code : Option Err → ℕ
exit_code none = exit_code_ok
exit_code (some e) =
    if is_err Sentinel.timeout e
    then exit_code_deadline
    else if is_err Sentinel.pick_target e
    then exit_code_pick_target
    else if is_err Sentinel.unk_target e
    then exit_code_unk_target
    else code_of_interrupt (as_interrupted e)

-- `compileExit` of internal/cli/main.go
unfoldable pub compile_exit : Err → ℕ
unfolding exit_code
compile_exit e =
    if is_err Sentinel.deadline_exceeded e || is_err Sentinel.canceled e
    then exit_code (some e)
    else if is_compile e
    then exit_code_compile
    else exit_code (some e)

-- `ExitStatus` of pkg/gomake/os.go, on the state of an ended process.
abbrev pub process_status : ProcessState → ℕ
process_status (exited n) = n
process_status (signaled n) = 128 + n
process_status (other none) = 1
process_status (other (some n)) = n

abbrev status_of_process : Option ProcessState → ℕ
status_of_process none = 1
status_of_process (some p) = process_status p

abbrev status_of : Option (Option ℕ) → ℕ → ℕ
status_of none rest = rest
status_of (some none) rest = 1
status_of (some (some n)) rest = n

-- `ExitStatus`
unfoldable pub exit_status : Option Err → ℕ
exit_status none = 0
exit_status (some e) = status_of (as_status e) (status_of_process (as_exit e))

abbrev is_exit : Option ProcessState → Bool
is_exit none = false
is_exit (some p) = true

-- `HasRun`
unfoldable pub has_run : Option Err → Bool
has_run none = true
has_run (some e) = is_err Sentinel.wait_delay e || is_exit (as_exit e)

-- A pair (target, error).
pub data Found : Type 0 where
  found : Target → Found
  failed : Err → Found

abbrev pub unknown : Str → Err
unknown name = wraps name (cons (sentinel Sentinel.unk_target) nil)

-- `FindTarget`
unfoldable pub find_target : Str → List Target → Found
find_target name [] = failed (unknown name)
find_target name (t ∷ ts) = if t.name == name then found t else find_target name ts

-- `defaultTarget`
unfoldable pub default_target : List Target → Found
default_target [] = failed (sentinel Sentinel.pick_target)
default_target (t ∷ ts) = if t.default then found t else default_target ts

abbrev drop_name : Found → Str → List Str → Found × List Str
drop_name (failed e) name args = (failed e, name ∷ args)
drop_name (found t) name args = (found t, args)

-- `pickTarget`: the target, and the arguments that are left.
unfoldable pub pick_target : List Target → List Str → Found × List Str
unfolding find_target default_target
pick_target tgs [] = (default_target tgs, [])
pick_target tgs (name ∷ args) = drop_name (find_target name tgs) name args

-- What a call of a target does: it returns, it panics with an error, or it ends its goroutine.
pub data Outcome : Type 0 where
  returned : Option Err → Outcome
  panicked : Err → Outcome
  exited_goroutine : Outcome

-- The process as the target's goroutine sees it. `getwd` may fail, and so may a change of directory.
pub record Process : Type 0 where
  pub cwd : Str
  pub getwd : Option Err
  pub chdir : Str → Option Err

-- `os.Chdir`
unfoldable pub change_dir : Process → Str → Option Err × Process
change_dir p dir = elim (p.chdir dir) [
  | none ↦ (none, record p { cwd = dir })
  | some e ↦ (some e, p)
]

-- What the deferred function makes of the outcome.
abbrev pub outcome_error : Outcome → Option Err
outcome_error (returned e) = e
outcome_error (panicked e) = some (wraps (codes "target panicked with: ") (cons e nil))
outcome_error exited_goroutine = some (message (codes "target exited without returning"))

abbrev restore_error : Option Err → Option Err → Option Err
restore_error none tgt_err = tgt_err
restore_error (some e) none = some (wraps (codes "restore cwd: ") (cons e nil))
restore_error (some e) (some t) = some (wraps (codes "restore cwd: ") (cons t (cons e nil)))

-- The deferred function: it changes back and sends its error.
unfoldable pub restore : Str → Option Err → Process → Option Err × Process
unfolding change_dir
restore cwd tgt_err p = let (e, p') = change_dir p cwd in (restore_error e tgt_err, p')

-- The goroutine of `runTarget`: the error that it sends, and the process that it leaves. The target
-- is a function of the process, and may change directory itself.
unfoldable pub target_routine : (Process → Outcome × Process) → Str → Process → Option Err × Process
unfolding restore change_dir
target_routine fn wd p = elim (p.getwd) [
  | some e ↦ (some (wraps (codes "working directory: ") (cons e nil)), p)
  | none ↦ elim (p.chdir wd) [
    | some e ↦ restore p.cwd (some e) p
    | none ↦ let (out, p') = fn (record p { cwd = wd }) in restore p.cwd (outcome_error out) p'
  ]
]

-- The channel `done` at one moment: nothing yet, a result, or closed with no result.
pub data Done : Type 0 where
  empty : Done
  sent : Option Err → Done
  closed : Done

-- The branch of the `select` that fires, with the channel as it is then; the signal has a number
-- or not. A result is drained first (`drainDone`), which keeps it as it is.
pub data Wake : Type 0 where
  signal : Option ℕ → Done → Wake
  ctx_done : Done → Wake
  finished : Option Err → Wake
  closed_early : Wake

-- A canceled context: `ctx.Err()` and `context.Cause(ctx)`.
pub record Context : Type 0 where
  pub err : Option Err
  pub cause : Option Err

-- `recvDone`
unfoldable pub recv_done : Done → Option (Option Err)
recv_done empty = none
recv_done (sent e) = some e
recv_done closed = some (some (sentinel Sentinel.no_result))

-- `timedOut`
unfoldable pub timed_out : Context → Option Err → Option Err
timed_out ctx none = none
timed_out ctx (some e) =
    if not (is_err Sentinel.deadline_exceeded e) || not (is ctx.cause Sentinel.timeout)
    then some e
    else some (wraps (codes ": ") (cons (sentinel Sentinel.timeout) (cons e nil)))

-- What may end the wait of `awaitDone`.
pub data Await : Type 0 where
  value done_closed second_signal timer : Await

-- `awaitDone`: the events that are left when the wait ends.
unfoldable pub await_done : List Await → List Await
await_done [] = []
await_done (value ∷ es) = await_done es
await_done (done_closed ∷ es) = es
await_done (second_signal ∷ es) = es
await_done (timer ∷ es) = es

after_signal : Option ℕ → Option (Option Err) → Option Err
after_signal sig none = some (interrupted sig)
after_signal sig (some none) = none
after_signal sig (some (some e)) =
    if not (is_err Sentinel.canceled e) then some e else some (interrupted sig)

after_cancel : Context → Option (Option Err) → Option Err
after_cancel ctx none = timed_out ctx ctx.err
after_cancel ctx (some e) = timed_out ctx e

-- The `select` of `runTarget`.
unfoldable pub run_target : Context → Wake → Option Err
unfolding after_signal after_cancel timed_out recv_done
run_target ctx (signal sig done) = after_signal sig (recv_done done)
run_target ctx (ctx_done done) = after_cancel ctx (recv_done done)
run_target ctx (finished e) = timed_out ctx e
run_target ctx closed_early = some (sentinel Sentinel.no_result)
