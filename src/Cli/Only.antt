-- ===== src/Cli/Only.antt =====
-- Traces whose events all have one property, and runs that stop.
use gomake.Base.{
  Bool, true, false, List, [], ◌∷◌, str_eq, ◌||◌, All, All-append, ◌≡◌, refl, arith, Bool-cases,
  inl, inr,
}
use gomake.Error.{Err}
use gomake.Cli.Trace.{
  Event, pre_run, run_built_in, compile_bin, execute, analyzed, analyze_panicked, remove_build_dir,
  value, exit, panic, Run, ◌>>=◌, when, Step, ok, failed, panicked, attempt, seq,
}

abbrev pub Only : (Event → Type 0) → {A : Type 0} → Run A → Type 0
Only P m = All P m.0

module _ (P : Event → Type 0) {A B : Type 0} where
  pub Only-bind :
      (m : Run A) (f : A → Run B) → Only P m → ((a : A) → Only P (f a)) → Only P (m >>= f)
  Only-bind (t, value a) f h k = All-append P t (f a).0 h (k a)
  Only-bind (t, exit c) f h k = h
  Only-bind (t, panic e) f h k = h

module _ (P : Event → Type 0) {A : Type 0} where
  pub Only-attempt :
      (ev : Event) (s : Step A) (on_error : Err → Run A)
      → P ev
      → ((e : Err) → Only P (on_error e))
      → Only P (attempt ev s on_error)
  Only-attempt ev (ok a) on_error p k = (p, tt)
  Only-attempt ev (failed e) on_error p k = (p, k e)
  Only-attempt ev (panicked e) on_error p k = (p, tt)

pub Only-when :
    (P : Event → Type 0) (b : Bool) (m : Run (Unit {0})) → (b ≡ true → Only P m) → Only P (when b m)
Only-when P true m h = h refl
Only-when P false m h = tt

-- Whether an event runs something of the project or its targets.
abbrev pub runs : Event → Bool
runs (pre_run i) = true
runs run_built_in = true
runs compile_bin = true
runs execute = true
runs _ = false

-- Whether an event makes or removes a build directory, or may make one.
abbrev pub builds : Event → Bool
builds analyzed = true
builds analyze_panicked = true
builds remove_build_dir = true
builds _ = false

abbrev pub IsPlain : Event → Type 0
IsPlain ev = (runs ev ≡ false) × (builds ev ≡ false)

module _ (P : Event → Type 0) where
  pub Only-seq : (ms : List (Run (Unit {0}))) → All (Only P) ms → Only P (seq ms)
  unfolding seq
  Only-seq [] h = tt
  Only-seq (m ∷ ms) (h, hs) = Only-bind P m (λ _. seq ms) h (λ _. Only-seq ms hs)

unfoldable pub stops {ℓ} : {A : Type ℓ} → Run A → Bool
stops (t, value a) = false
stops (t, exit c) = true
stops (t, panic e) = true

pub stops-bind :
    {A B : Type 0} (m : Run A) (f : A → Run B)
    → ((a : A) → stops (f a) ≡ true)
    → stops (m >>= f) ≡ true
unfolding stops
stops-bind (t, value a) f h = h a
stops-bind (t, exit c) f h = refl
stops-bind (t, panic e) f h = refl

pub stops-bind_left :
    {A B : Type 0} (m : Run A) (f : A → Run B) → stops m ≡ true → stops (m >>= f) ≡ true
unfolding stops
stops-bind_left (t, value a) f h = absurd (cc)
stops-bind_left (t, exit c) f h = refl
stops-bind_left (t, panic e) f h = refl

unfoldable pub any_stops : List (Run (Unit {0})) → Bool
any_stops [] = false
any_stops (m ∷ ms) = stops m || any_stops ms

pub stops-seq : (ms : List (Run (Unit {0}))) → any_stops ms ≡ true → stops (seq ms) ≡ true
unfolding any_stops seq
stops-seq [] h = absurd (cc)
stops-seq (m ∷ ms) h = elim (Bool-cases (stops m)) [
  | inl e ↦ stops-bind_left m (λ _. seq ms) e
  | inr e ↦ stops-bind m (λ _. seq ms) (λ _. stops-seq ms (ground arith))
]

pub Only-bind_stops :
    {A B : Type 0} (P : Event → Type 0) (m : Run A) (f : A → Run B)
    → Only P m
    → stops m ≡ true
    → Only P (m >>= f)
unfolding stops
Only-bind_stops P (t, value a) f h e = absurd (cc)
Only-bind_stops P (t, exit c) f h e = h
Only-bind_stops P (t, panic x) f h e = h

pub stops-when : (b : Bool) (m : Run (Unit {0})) → stops m ≡ true → stops (when b m) ≡ b
unfolding stops
stops-when true m h = h
stops-when false m h = refl
