-- ===== src/Cli/Order.antt =====
-- The order of hooks and targets in a run of `Main`, internal/cli/main.go.
use gomake.Base.{
  ℕ, Str, Bool, true, false, List, [], ◌∷◌, ◌++◌, ◌==◌, str_eq, nat_eq, not, ◌||◌, ◌&&◌, some,
  if◌then◌else◌, append-nil, All, All-imp, ◌≡◌, refl, arith, inl, inr, map, ap, length,
}
use gomake.Error.{Err, Sentinel, sentinel, is_err, is_compile}
use gomake.Exec.{
  exit_code, compile_exit, exit_status, has_run, Found, found, find_target, exit_code_unk_target,
}
use gomake.Cli.Trace.{
  Event, write_err, report, apply_meta, deliver, run_built_in, compile_bin, execute, analyzed,
  analyze_failed, analyze_panicked, remove_build_dir, recovered, parse_args, value, exit, panic,
  Run, ◌>>=◌, ◌>>◌, tell, stop, done, fail, when, Step, ok, failed, panicked, attempt, seq,
}
use gomake.Cli.Quiet.{Only-meta, stages}
use gomake.Cli.Only.{Only, Only-bind, Only-when, IsPlain, stops, stops-bind}
use gomake.Cli.{
  run_pre_runs, built_in_target, built_in_found, built_in_stage, direct_reraised, no_makefile,
  with_makefile, bin_run, executed, invoked_target, makefile_stage, clean_up, dispatch, body,
  finish, main, meta_commands, announce,
}
use gomake.Cli.Calls.{CliConfig, World, GoMake}
use gomake.Cli.Runs.{
  AtMost, AtMost-bind, AtMost-bind_quiet, Before, Hooked-bind, IsOrdered, NoRun, attempt_lem,
  built_in_target_lem, delivered_lem, direct_reraised_lem, hook_count, hooks, run_part,
  run_part-NoRun, run_part-append, run_pre_runs_lem,
}

from_built_in : (n : ℕ) (r : List Event) → Before run_built_in n r → IsOrdered n r
from_built_in n r (inl h) = inl h
from_built_in n r (inr h) = inr (inl h)

from_execute : (n : ℕ) (r : List Event) → Before execute n r → IsOrdered n r
from_execute n r (inl h) = inl h
from_execute n r (inr h) = inr (inr (inl h))

from_bin : (n : ℕ) (m : Run (Unit {0})) → AtMost compile_bin m → IsOrdered n (run_part m.0)
unfolding hooks
from_bin n m (inl e) = inl (0, omega arith, e)
from_bin n m (inr e) = inr (inr (inr e))

module _ {A : Type 0} where
  trace-stops : (m : Run A) (f : A → Run (Unit {0})) → stops m ≡ true → (m >>= f).0 ≡ m.0
  unfolding stops
  trace-stops (t, value a) f h = absurd (cc)
  trace-stops (t, exit c) f h = refl
  trace-stops (t, panic e) f h = refl

  IsOrdered-bind :
      (n : ℕ) (m : Run A) (f : A → Run (Unit {0}))
      → Only NoRun m
      → ((a : A) → IsOrdered n (run_part (f a).0))
      → IsOrdered n (run_part (m >>= f).0)
  unfolding hooks
  IsOrdered-bind n (t, value a) f h k = rw (run_part-append t (f a).0, run_part-NoRun t h) (k a)
  IsOrdered-bind n (t, exit c) f h k = inl (0, omega arith, run_part-NoRun t h)
  IsOrdered-bind n (t, panic e) f h k = inl (0, omega arith, run_part-NoRun t h)

if_lem :
    {A : Type 0} (P : Event → Type 0) (b : Bool) (m n : Run A)
    → Only P m
    → Only P n
    → Only P (if b then m else n)
if_lem P true m n h k = h
if_lem P false m n h k = k

executed_lem : (s : Step (Unit {0})) → AtMost execute (executed s)
unfolding run_part
executed_lem (ok u) = inr refl
executed_lem (panicked e) = inr refl
executed_lem (failed e) =
    let behind =
      if is_compile e
      then fail {A = Unit {0}} e (compile_exit e)
      else (when (not (has_run (some e))) (tell (report e ∷ [])) >> stop (exit_status (some e))) in
    let quiet =
      if_lem NoRun (is_compile e) (fail {A = Unit {0}} e (compile_exit e)) _ (refl, tt)
        (Only-bind NoRun (when (not (has_run (some e))) (tell (report e ∷ [])))
          (λ _. stop {A = Unit {0}} (exit_status (some e)))
          (Only-when NoRun (not (has_run (some e))) (tell (report e ∷ [])) (λ _. (refl, tt)))
          (λ _. tt)) in
    inr (ap (λ r. execute ∷ r) (run_part-NoRun behind.0 quiet))

compile_lem :
    (s : Step (Unit {0}))
    → AtMost compile_bin (attempt compile_bin s (λ e. fail e (compile_exit e)))
unfolding run_part
compile_lem (ok u) = inr refl
compile_lem (failed e) = inr refl
compile_lem (panicked e) = inr refl

bin_run_lem :
    (w : World) (gmk : GoMake) → AtMost compile_bin (bin_run w gmk) × (stops (bin_run w gmk) ≡ true)
bin_run_lem w gmk =
    let none_left =
      when (length gmk.targets.list == 0)
        (fail (sentinel Sentinel.no_targets) (exit_code (some (sentinel Sentinel.no_targets)))) in
    let built = attempt compile_bin w.compile (λ e. fail e (compile_exit e)) in
    let end = stop {A = Unit {0}} 0 in
    (
      AtMost-bind compile_bin none_left (λ _. built >> end)
          (Only-when NoRun (length gmk.targets.list == 0) _ (λ _. (refl, tt)))
          (λ _. AtMost-bind_quiet compile_bin built (λ _. end) (compile_lem w.compile) (λ _. tt)),
      stops-bind none_left (λ _. built >> end)
          (λ _. stops-bind built (λ _. end) (λ _. unfold stops in refl)),
    )

warnings_lem : (f : Str → Str) (ns : List Str) → All NoRun (map (λ n. write_err (f n)) ns)
warnings_lem f [] = tt
warnings_lem f (n ∷ ns) = (refl, warnings_lem f ns)

bin_or_rest :
    (w : World) (gmk : GoMake) (b : Bool) (rest : Run (Unit {0}))
    → IsOrdered (hook_count w) (run_part rest.0)
    → IsOrdered (hook_count w) (run_part (when b (bin_run w gmk) >> rest).0)
bin_or_rest w gmk false rest h = h
bin_or_rest w gmk true rest h =
    let (once, ends) = bin_run_lem w gmk in
    rw (trace-stops (bin_run w gmk) (λ _. rest) ends) (from_bin (hook_count w) (bin_run w gmk) once)

with_makefile_lem :
    (w : World) (cfg : CliConfig) (gmk : GoMake)
    → IsOrdered (hook_count w) (run_part (with_makefile w cfg gmk).0)
unfolding with_makefile seq
with_makefile_lem w cfg gmk =
    let tgt = invoked_target cfg gmk.targets in
    let conf = seq (
      attempt apply_meta w.apply_external (λ e. fail e 1)
      ∷ attempt (deliver tgt) (w.deliver_config tgt) (λ e. fail e 1)
      ∷ executed w.execute_makefile
      ∷ []) in
    let rest = run_pre_runs w.pre_runs 0 >> conf in
    IsOrdered-bind (hook_count w) (tell (map (λ n. write_err (w.ignore_warning n)) gmk.ignored))
      (λ _. when (not (cfg.bin == [])) (bin_run w gmk) >> rest)
      (warnings_lem w.ignore_warning gmk.ignored)
      (λ _. bin_or_rest w gmk (not (cfg.bin == [])) rest (
        from_execute (hook_count w) (run_part rest.0) (
          Hooked-bind execute (hook_count w) (run_pre_runs w.pre_runs 0) (λ _. conf)
            (run_pre_runs_lem w.pre_runs 0)
            (delivered_lem execute w tgt (executed w.execute_makefile)
              (executed_lem w.execute_makefile)))))

IsOrdered-quiet : (n : ℕ) (t : List Event) → All NoRun t → IsOrdered n (run_part t)
unfolding hooks
IsOrdered-quiet n t h = inl (0, omega arith, run_part-NoRun t h)

if_IsOrdered :
    (n : ℕ) (b : Bool) (e : Err) (code : ℕ) (m : Run (Unit {0}))
    → IsOrdered n (run_part m.0)
    → IsOrdered n (run_part (if b then fail e code else m).0)
if_IsOrdered n true e code m h = IsOrdered-quiet n (report e ∷ []) (refl, tt)
if_IsOrdered n false e code m h = h

no_makefile_lem :
    (w : World) (cfg : CliConfig) (e : Err)
    → IsOrdered (hook_count w) (run_part (no_makefile w cfg e).0)
unfolding no_makefile seq
no_makefile_lem w cfg e =
    let n = hook_count w in
    let rest = direct_reraised w >> done {A = Unit {0}} tt in
    let direct = run_pre_runs w.pre_runs 0 >> rest in
    let hooked = from_built_in n (run_part direct.0) (
      Hooked-bind run_built_in n (run_pre_runs w.pre_runs 0) (λ _. rest)
        (run_pre_runs_lem w.pre_runs 0)
        (AtMost-bind_quiet run_built_in (direct_reraised w) (λ _. done tt) (direct_reraised_lem w)
          (λ _. tt))) in
    if_IsOrdered n (not (is_err Sentinel.no_makefile e || is_err Sentinel.no_go_mod e)) e
      (exit_code (some e)) _
      (if_IsOrdered n (is_err Sentinel.no_go_mod e && not (cfg.target == [])) e (exit_code (some e))
        _
        (if_IsOrdered n (not (cfg.target == [])) (sentinel Sentinel.unk_target) exit_code_unk_target
          _ (if_IsOrdered n (not (cfg.bin == [])) e (exit_code (some e)) direct hooked)))

IsOrdered-append :
    (n : ℕ) (t u : List Event)
    → IsOrdered n (run_part t)
    → All NoRun u
    → IsOrdered n (run_part (t ++ u))
IsOrdered-append n t u h q = rw (run_part-append t u, run_part-NoRun u q, append-nil (run_part t)) h

makefile_stage_lem :
    (w : World) (cfg : CliConfig) (s : Step GoMake)
    → IsOrdered (hook_count w) (run_part (makefile_stage w cfg s).0)
makefile_stage_lem w cfg (ok gmk) =
    IsOrdered-bind (hook_count w) (tell (analyzed ∷ [])) (λ _. clean_up (with_makefile w cfg gmk))
      (refl, tt)
      (λ _.
        IsOrdered-append (hook_count w) (with_makefile w cfg gmk).0 (remove_build_dir ∷ [])
          (with_makefile_lem w cfg gmk) (refl, tt))
makefile_stage_lem w cfg (failed e) =
    IsOrdered-bind (hook_count w) (tell (analyze_failed ∷ [])) (λ _. no_makefile w cfg e) (refl, tt)
      (λ _. no_makefile_lem w cfg e)
makefile_stage_lem w cfg (panicked e) =
    IsOrdered-quiet (hook_count w) (analyze_panicked ∷ []) (refl, tt)

built_in_or_rest :
    (w : World) (b : Bool) (f : Found) (rest : Run (Unit {0}))
    → IsOrdered (hook_count w) (run_part rest.0)
    → IsOrdered (hook_count w) (run_part (when b (built_in_found w f) >> rest).0)
built_in_or_rest w false f rest h = h
built_in_or_rest w true (Found.failed e) rest h = h
built_in_or_rest w true (found t) rest h =
    let (before, ends) = built_in_target_lem w t in
    rw (trace-stops (built_in_target w t) (λ _. rest) ends)
      (from_built_in (hook_count w) (run_part (built_in_target w t).0) before)

dispatch_lem :
    (ver : Str) (w : World) (cfg : CliConfig)
    → IsOrdered (hook_count w) (run_part (dispatch ver w cfg).0)
unfolding dispatch built_in_stage
dispatch_lem ver w cfg =
    let plain =
      All-imp IsPlain NoRun (λ ev p. p.0) (seq (meta_commands ver w cfg)).0 (Only-meta ver w cfg) in
    IsOrdered-bind (hook_count w) (tell (announce ver cfg))
      (λ _. seq (meta_commands ver w cfg) >> stages w cfg) (refl, (refl, (refl, (refl, tt))))
      (λ _.
        IsOrdered-bind (hook_count w) (seq (meta_commands ver w cfg)) (λ _. stages w cfg) plain
          (λ _.
            built_in_or_rest w (cfg.bin == [] && not (cfg.target == []))
              (find_target cfg.target w.built_ins) (makefile_stage w cfg w.new_go_make)
              (makefile_stage_lem w cfg w.new_go_make)))

finish_lem :
    (n : ℕ) (m : Run (Unit {0})) → IsOrdered n (run_part m.0) → IsOrdered n (run_part (finish m).0)
finish_lem n (t, value u) h = h
finish_lem n (t, exit c) h = h
finish_lem n (t, panic e) h = IsOrdered-append n t (recovered e ∷ []) h (refl, tt)

-- In every run the hooks come first and in their order, each of them once at most; a target runs
-- once at most, only behind all the hooks, and is either built in or of the makefile, where `execute` stands
-- for Execute with its own compilation; the binary of `--bin` is compiled with no hook and no target.
pub main-IsOrdered : (ver : Str) (w : World) → IsOrdered (hook_count w) (run_part (main ver w).0)
unfolding main body
main-IsOrdered ver w = finish_lem (hook_count w) (body ver w) (
    IsOrdered-bind (hook_count w) (attempt parse_args w.new_config (λ e. fail e 1)) (dispatch ver w)
      (attempt_lem parse_args w.new_config (λ e. 1) refl) (dispatch_lem ver w))
