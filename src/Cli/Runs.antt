-- ===== src/Cli/Runs.antt =====
-- What a trace of `Main` runs: hooks, targets and the compiler, stage by stage.
use gomake.Base.{
  ℕ, zero, suc, true, false, List, [], ◌∷◌, ◌++◌, str_eq, nat_eq, Option, none, some, if◌then◌else◌,
  append-nil, All, ◌≡◌, refl, arith, Bool-cases, inl, inr, ◌⊎◌, ◌+◌, ◌≤◌, ap, length,
}
use gomake.Error.{Err}
use gomake.Target.{Target}
use gomake.Cli.Trace.{
  Event, apply_meta, deliver, pre_run, run_built_in, compile_bin, execute, value, exit, panic, Run,
  ◌>>=◌, ◌>>◌, tell, done, fail, Step, ok, failed, panicked, attempt, seq,
}
use gomake.Cli.Only.{Only, Only-attempt, runs, stops, any_stops, stops-bind, stops-seq}
use gomake.Cli.{
  run_pre_runs, run_without_compile, built_in_target, built_in_steps, direct_run, reported,
  direct_reraised, reraised,
}
use gomake.Cli.Calls.{World}

-- The events of a trace that run something.
unfoldable pub run_part : List Event → List Event
run_part [] = []
run_part (ev ∷ t) = if runs ev then ev ∷ run_part t else run_part t

-- So many hooks, from the one with the number.
unfoldable pub hooks : ℕ → ℕ → List Event
hooks i zero = []
hooks i (suc k) = pre_run i ∷ hooks (i + 1) k

-- Of `n` hooks, some have run, and nothing else; or all of them, and behind them a target, built in
-- or of the makefile; or nothing but the compiler of a binary.
abbrev pub IsOrdered : ℕ → List Event → Type 0
IsOrdered n r =
    ((k : ℕ) × (k ≤ n) × (r ≡ hooks 0 k))
    ⊎ ((r ≡ hooks 0 n ++ (run_built_in ∷ []))
        ⊎ ((r ≡ hooks 0 n ++ (execute ∷ [])) ⊎ (r ≡ compile_bin ∷ [])))

abbrev pub NoRun : Event → Type 0
NoRun ev = runs ev ≡ false

pub run_part-append : (t u : List Event) → run_part (t ++ u) ≡ run_part t ++ run_part u
unfolding run_part
run_part-append [] u = refl
run_part-append (ev ∷ t) u = elim (Bool-cases (runs ev)) [
  | inl e ↦ rw e (ap (λ r. ev ∷ r) (run_part-append t u))
  | inr e ↦ rw e (run_part-append t u)
]

pub run_part-NoRun : (t : List Event) → All NoRun t → run_part t ≡ []
unfolding run_part
run_part-NoRun [] h = refl
run_part-NoRun (ev ∷ t) (h, hs) = rw h (run_part-NoRun t hs)

-- At most the one run, and it is the last event of its kind.
abbrev pub AtMost : Event → {A : Type 0} → Run A → Type 0
AtMost last m = (run_part m.0 ≡ []) ⊎ (run_part m.0 ≡ last ∷ [])

module _ {A B : Type 0} (last : Event) where
  pub AtMost-bind :
      (m : Run A) (f : A → Run B)
      → Only NoRun m
      → ((a : A) → AtMost last (f a))
      → AtMost last (m >>= f)
  AtMost-bind (t, value a) f h k =
      let split = run_part-append t (f a).0 in
      let quiet = run_part-NoRun t h in
      elim (k a) [
        | inl e ↦ inl (rw (split, quiet, e) refl)
        | inr e ↦ inr (rw (split, quiet, e) refl)
      ]
  AtMost-bind (t, exit c) f h k = inl (run_part-NoRun t h)
  AtMost-bind (t, panic x) f h k = inl (run_part-NoRun t h)

  pub AtMost-bind_quiet :
      (m : Run A) (f : A → Run B)
      → AtMost last m
      → ((a : A) → Only NoRun (f a))
      → AtMost last (m >>= f)
  AtMost-bind_quiet (t, value a) f h k =
      let split = run_part-append t (f a).0 in
      let quiet = run_part-NoRun (f a).0 (k a) in
      elim h [ inl e ↦ inl (rw (split, quiet, e) refl) | inr e ↦ inr (rw (split, quiet, e) refl) ]
  AtMost-bind_quiet (t, exit c) f h k = h
  AtMost-bind_quiet (t, panic x) f h k = h

pub attempt_lem :
    {A : Type 0} (ev : Event) (s : Step A) (code : Err → ℕ)
    → NoRun ev
    → Only NoRun (attempt ev s (λ e. fail e (code e)))
attempt_lem ev s code p = Only-attempt NoRun ev s (λ e. fail e (code e)) p (λ e. (refl, tt))

-- The hooks: all of them, or some of them and the end of the run.
abbrev Hooked : ℕ → ℕ → Run (Unit {0}) → Type 0
Hooked i n m =
    (run_part m.0 ≡ hooks i n) ⊎ (stops m ≡ true) × ((k : ℕ) × (k ≤ n) × (run_part m.0 ≡ hooks i k))

pub run_pre_runs_lem :
    (ss : List (Step (Unit {0}))) (i : ℕ) → Hooked i (length ss) (run_pre_runs ss i)
unfolding run_pre_runs run_part hooks stops
run_pre_runs_lem [] i = inl refl
run_pre_runs_lem (failed e ∷ ss) i = inr (refl, (1, omega arith, refl))
run_pre_runs_lem (panicked e ∷ ss) i = inr (refl, (1, omega arith, refl))
run_pre_runs_lem (ok u ∷ ss) i = elim (run_pre_runs_lem ss (i + 1)) [
  | inl e ↦ inl (ap (λ r. pre_run i ∷ r) e)
  | inr (s, (k, le, e)) ↦ inr (
    stops-bind (tell (pre_run i ∷ [])) (λ _. run_pre_runs ss (i + 1)) (λ _. s),
    (suc k, omega (arith, le), ap (λ r. pre_run i ∷ r) e),
  )
]

abbrev pub Before : Event → ℕ → List Event → Type 0
Before last n r = ((k : ℕ) × (k ≤ n) × (r ≡ hooks 0 k)) ⊎ (r ≡ hooks 0 n ++ (last ∷ []))

pub Hooked-bind :
    (last : Event) (n : ℕ) (m : Run (Unit {0})) (f : Unit {0} → Run (Unit {0}))
    → Hooked 0 n m
    → AtMost last (f tt)
    → Before last n (run_part (m >>= f).0)
unfolding stops
Hooked-bind last n (t, value u) f (inl e) (inl a) =
    inl (n, omega arith, rw (run_part-append t (f u).0, e, a) (append-nil (hooks 0 n)))
Hooked-bind last n (t, value u) f (inl e) (inr a) = inr (rw (run_part-append t (f u).0, e, a) refl)
Hooked-bind last n (t, value u) f (inr (s, h)) a = absurd (cc)
Hooked-bind last n (t, exit c) f (inl e) a = inl (n, omega arith, e)
Hooked-bind last n (t, exit c) f (inr (s, h)) a = inl h
Hooked-bind last n (t, panic x) f (inl e) a = inl (n, omega arith, e)
Hooked-bind last n (t, panic x) f (inr (s, h)) a = inl h

pub direct : (e : Option Err) (s : Step (Unit {0})) → AtMost run_built_in (run_without_compile e s)
unfolding run_part
direct (some e) s = inl refl
direct none (ok u) = inr refl
direct none (failed e) = inr refl
direct none (panicked e) = inr refl

reported_lem :
    (code : ℕ) (e : Option Err) → Only NoRun (reported code e) × (stops (reported code e) ≡ true)
unfolding stops
reported_lem code none = (tt, refl)
reported_lem code (some e) = ((refl, tt), refl)

reraised_lem : (code : ℕ) (e : Option Err) → Only NoRun (reraised code e)
reraised_lem code none = tt
reraised_lem code (some e) = (refl, (refl, tt))

direct_run_lem : (w : World) → AtMost run_built_in (direct_run w) × (stops (direct_run w) ≡ true)
direct_run_lem w =
    let m = run_without_compile w.new_makefile w.run_direct in
    (
      AtMost-bind_quiet run_built_in m (λ (code, e). reported code e)
          (direct w.new_makefile w.run_direct) (λ (code, e). (reported_lem code e).0),
      stops-bind m (λ (code, e). reported code e) (λ (code, e). (reported_lem code e).1),
    )

pub direct_reraised_lem : (w : World) → AtMost run_built_in (direct_reraised w)
direct_reraised_lem w =
    AtMost-bind_quiet run_built_in (run_without_compile w.new_makefile w.run_direct)
      (λ (code, e). reraised code e) (direct w.new_makefile w.run_direct)
      (λ (code, e). reraised_lem code e)

-- Configuration is delivered between the hooks and the target.
pub delivered_lem :
    (last : Event) (w : World) (tgt : Option Target) (m : Run (Unit {0}))
    → AtMost last m
    → AtMost last (
        seq (
          attempt apply_meta w.apply_external (λ e. fail e 1)
          ∷ attempt (deliver tgt) (w.deliver_config tgt) (λ e. fail e 1)
          ∷ m
          ∷ []))
unfolding seq
delivered_lem last w tgt m h =
    let meta = attempt apply_meta w.apply_external (λ e. fail e 1) in
    let conf = attempt (deliver tgt) (w.deliver_config tgt) (λ e. fail e 1) in
    let end = done {A = Unit {0}} tt in
    AtMost-bind last meta (λ _. conf >> (m >> end))
      (attempt_lem apply_meta w.apply_external (λ e. 1) refl)
      (λ _.
        AtMost-bind last conf (λ _. m >> end)
          (attempt_lem (deliver tgt) (w.deliver_config tgt) (λ e. 1) refl)
          (λ _. AtMost-bind_quiet last m (λ _. end) h (λ _. tt)))

abbrev pub hook_count : World → ℕ
hook_count w = length w.pre_runs

pub built_in_target_lem :
    (w : World) (t : Target)
    → Before run_built_in (hook_count w) (run_part (built_in_target w t).0)
      × (stops (built_in_target w t) ≡ true)
unfolding built_in_target seq any_stops
built_in_target_lem w t =
    let conf = λ (u : Unit {0}). seq (
      attempt apply_meta w.apply_external (λ e. fail e 1)
      ∷ attempt (deliver (some t)) (w.deliver_config (some t)) (λ e. fail e 1)
      ∷ direct_run w
      ∷ []) in
    let ends = (direct_run_lem w).1 in
    (
      Hooked-bind run_built_in (hook_count w) (run_pre_runs w.pre_runs 0) conf
          (run_pre_runs_lem w.pre_runs 0)
          (delivered_lem run_built_in w (some t) (direct_run w) (direct_run_lem w).0),
      stops-seq (built_in_steps w t) (ground arith),
    )
