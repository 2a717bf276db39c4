-- ===== src/Cli/Trace.antt =====
-- A run of the command as the trace of what it does, for internal/cli/main.go: it goes on with a
-- value, returns an exit code early, or panics.
use gomake.Base.{ℕ, Str, Bool, true, false, List, [], ◌∷◌, ◌++◌, Option}
use gomake.Error.{Err}
use gomake.Target.{Target}

pub data Event : Type 0 where
  write_out : Str → Event
  write_err : Str → Event
  parse_args : Event
  -- writeErr
  report : Err → Event
  set_env : Str → Str → Event
  set_meta : Str → Str → Event
  make_tmp : Event
  install_completion : Event
  check_config : Event
  discover : Event
  format_usage : Event
  pre_run : ℕ → Event
  apply_meta : Event
  deliver : Option Target → Event
  run_built_in : Event
  -- a call of newGoMake that fails, one that panics and may leave a build directory, and one that
  -- succeeds and leaves one
  analyze_failed : Event
  analyze_panicked : Event
  analyzed : Event
  compile_bin : Event
  execute : Event
  remove_build_dir : Event
  reraise : Err → Event
  recovered : Err → Event

pub data Ended {ℓ} (A : Type ℓ) : Type ℓ where
  value : A → Ended A
  exit : ℕ → Ended A
  panic : Err → Ended A

abbrev pub Run {ℓ} : Type ℓ → Type ℓ
Run A = List Event × Ended A

infixl 5 ◌>>=◌ ◌>>◌
abbrev after {ℓ κ} : {A : Type ℓ} {B : Type κ} → List Event → Ended A → (A → Run B) → Run B
after t (value a) f = (t ++ (f a).0, (f a).1)
after t (exit code) f = (t, exit code)
after t (panic e) f = (t, panic e)

abbrev pub ◌>>=◌ {ℓ κ} : {A : Type ℓ} {B : Type κ} → Run A → (A → Run B) → Run B
m >>= f = after m.0 m.1 f

abbrev pub ◌>>◌ {ℓ} : {B : Type ℓ} → Run (Unit {0}) → Run B → Run B
m >> k = m >>= λ _. k

abbrev pub tell : List Event → Run (Unit {0})
tell t = (t, value tt)

abbrev pub stop {ℓ} : {A : Type ℓ} → ℕ → Run A
stop code = ([], exit code)

abbrev pub done {ℓ} : {A : Type ℓ} → A → Run A
done a = ([], value a)

-- `fail`
abbrev pub fail {ℓ} : {A : Type ℓ} → Err → ℕ → Run A
fail e code = (report e ∷ [], exit code)

abbrev pub when : Bool → Run (Unit {0}) → Run (Unit {0})
when true m = m
when false m = done tt

-- What a call that is not modelled here does: a value, an error or a panic.
pub data Step {ℓ} (A : Type ℓ) : Type ℓ where
  ok : A → Step A
  failed : Err → Step A
  panicked : Err → Step A

-- The call, with what to do about an error.
abbrev pub attempt {ℓ} : {A : Type ℓ} → Event → Step A → (Err → Run A) → Run A
attempt ev (ok a) on_error = (ev ∷ [], value a)
attempt ev (failed e) on_error = tell (ev ∷ []) >> on_error e
attempt ev (panicked e) on_error = (ev ∷ [], panic e)

-- The steps one after the other, up to the first that ends the run.
unfoldable pub seq : List (Run (Unit {0})) → Run (Unit {0})
seq [] = done tt
seq (m ∷ ms) = m >> seq ms
