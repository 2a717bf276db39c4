-- ===== src/Error.antt =====
-- Go errors: the program's sentinel values, and the trees that `fmt.Errorf` with `%w`, the compile
-- error and the errors of `os/exec` build. `errors.Is` and `errors.AsType` walk such a tree.
use gomake.Base.{ℕ, Str, Bool, true, false, Option, none, some, ◌||◌, Eq, ◌==◌}

-- The error values that the modelled code compares with.
pub data Sentinel : Type 0 where
  inv_timeout unk_target pick_target timeout no_result : Sentinel
  deadline_exceeded canceled wait_delay : Sentinel
  no_makefile no_targets no_go_mod not_exist ast_empty ast_parse ast_multi_pkg : Sentinel
  cfg_parse cfg_version cfg_version_new not_abs bin_exists go_work_edit go_mod_edit : Sentinel

Sentinel-discrete : Discrete Sentinel
Sentinel-discrete = hlevel

instance unfoldable pub sentinel_eq : Eq Sentinel
unfolding Sentinel-discrete
sentinel_eq = record { dec = Sentinel-discrete }

-- How a process ended: an exit code, a signal on Unix, or neither, with what `Sys()` then says.
pub data ProcessState : Type 0 where
  exited : ℕ → ProcessState
  signaled : ℕ → ProcessState
  other : Option ℕ → ProcessState

mutual
  pub data Err : Type 0 where
    sentinel : Sentinel → Err
    message : Str → Err
    wraps : Str → Errs → Err
    -- interruptedError: the number of its signal, if it has one
    interrupted : Option ℕ → Err
    -- errCompile: the build error, and the output of the toolchain
    compile_failed : Err → Str → Str → Err
    -- *exec.ExitError
    exit_error : ProcessState → Err
    -- an error with a method ExitStatus; none stands for a negative status
    status_error : Option ℕ → Err

  pub data Errs : Type 0 where
    nil : Errs
    cons : Err → Errs → Errs

abbrev is_sentinel : Sentinel → Sentinel → Bool
is_sentinel s t = s == t

-- `errors.Is`
unfoldable mutual
  pub is_err : Sentinel → Err → Bool
  is_err s (sentinel t) = is_sentinel s t
  is_err s (message m) = false
  is_err s (wraps m es) = is_errs s es
  is_err s (interrupted n) = false
  is_err s (compile_failed e out err) = is_err s e
  is_err s (exit_error p) = false
  is_err s (status_error n) = false

  pub is_errs : Sentinel → Errs → Bool
  is_errs s nil = false
  is_errs s (cons e es) = is_err s e || is_errs s es

-- `errors.Is` of an error that may be nil.
abbrev pub is : Option Err → Sentinel → Bool
is none s = false
is (some e) s = is_err s e

abbrev pub first {ℓ} : {A : Type ℓ} → Option A → Option A → Option A
first none o = o
first (some a) o = some a

-- `errors.AsType[interruptedError]`
unfoldable mutual
  pub as_interrupted : Err → Option (Option ℕ)
  as_interrupted (sentinel t) = none
  as_interrupted (message m) = none
  as_interrupted (wraps m es) = any_interrupted es
  as_interrupted (interrupted n) = some n
  as_interrupted (compile_failed e out err) = as_interrupted e
  as_interrupted (exit_error p) = none
  as_interrupted (status_error n) = none

  pub any_interrupted : Errs → Option (Option ℕ)
  any_interrupted nil = none
  any_interrupted (cons e es) = first (as_interrupted e) (any_interrupted es)

-- `errors.AsType[*errCompile]`
unfoldable mutual
  pub is_compile : Err → Bool
  is_compile (sentinel t) = false
  is_compile (message m) = false
  is_compile (wraps m es) = any_compile es
  is_compile (interrupted n) = false
  is_compile (compile_failed e out err) = true
  is_compile (exit_error p) = false
  is_compile (status_error n) = false

  pub any_compile : Errs → Bool
  any_compile nil = false
  any_compile (cons e es) = is_compile e || any_compile es

-- `errors.As` with a `*exec.ExitError`
unfoldable mutual
  pub as_exit : Err → Option ProcessState
  as_exit (sentinel t) = none
  as_exit (message m) = none
  as_exit (wraps m es) = any_exit es
  as_exit (interrupted n) = none
  as_exit (compile_failed e out err) = as_exit e
  as_exit (exit_error p) = some p
  as_exit (status_error n) = none

  pub any_exit : Errs → Option ProcessState
  any_exit nil = none
  any_exit (cons e es) = first (as_exit e) (any_exit es)

-- `errors.As` with the interface that has `ExitStatus() int`
unfoldable mutual
  pub as_status : Err → Option (Option ℕ)
  as_status (sentinel t) = none
  as_status (message m) = none
  as_status (wraps m es) = any_status es
  as_status (interrupted n) = none
  as_status (compile_failed e out err) = as_status e
  as_status (exit_error p) = none
  as_status (status_error n) = some n

  pub any_status : Errs → Option (Option ℕ)
  any_status nil = none
  any_status (cons e es) = first (as_status e) (any_status es)
