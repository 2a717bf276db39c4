-- ===== src/Tests/Runtime.antt =====
-- Environment lists and runs of a target.
use gomake.Base.{
  Str, true, false, List, [], ◌∷◌, str_eq, none, some, codes, cut, nat_eq, ◌≡◌, ◌↔◌, refl, arith,
  All,
}
use gomake.Base.Dict
use gomake.Base.Dict.{Dict}
use gomake.Error.{Err, sentinel, Sentinel, message, is_err, exit_error, signaled, sentinel_eq}
use gomake.Target.{Target, new_target}
use gomake.Env.{lookup_env, env_split, env_split_ordered, env_join}
use gomake.Env.Split.{IsName}
use gomake.Env.Join.{env_split-env_join}
use gomake.Exec.{Outcome, returned, Process, target_routine, sent, signal, Context, run_target}
use gomake.Exec.Run.{target_routine-none_iff, run_target-none_iff, own_result}

abbrev environment : List Str
environment = codes "A=1" ∷ codes "B=2" ∷ codes "A=3" ∷ codes "=x" ∷ []

last_wins : lookup_env environment (codes "A") ≡ (codes "3", true)
unfolding lookup_env str_eq cut nat_eq
last_wins = refl

in_order : (env_split_ordered environment).1 ≡ codes "A" ∷ codes "B" ∷ []
unfolding env_split_ordered str_eq Dict.lookup Dict.insert cut nat_eq
in_order = refl

b-IsName : IsName (codes "B")
b-IsName = (λ e. cc, (omega arith, tt))

abbrev two_values : Dict Str Str
two_values = (codes "B", codes "x=y") ∷ (codes "A", codes "1") ∷ []

two_names : All IsName (Dict.keys two_values)
unfolding Dict.keys
two_names = (b-IsName, ((λ e. cc, (omega arith, tt)), tt))

env_split-env_join_example :
    Dict.lookup (codes "B") (env_split (env_join two_values)) ≡ Dict.lookup (codes "B") two_values
env_split-env_join_example = env_split-env_join two_values (codes "B") two_names

abbrev process : Process
process = record { cwd = codes "/home"; getwd = none; chdir = λ dir. none }

-- A target that changes the directory and fails.
abbrev wandering : Process → Outcome × Process
wandering p = (returned (some (message (codes "failed"))), record p { cwd = codes "/tmp" })

target_routine-none_iff_example : ((target_routine wandering (codes "/src") process).0 ≡ none) ↔ (
    (process.getwd ≡ none)
    × (process.chdir (codes "/src") ≡ none)
    × ((wandering (record process { cwd = codes "/src" })).0 ≡ returned none)
    × ((wandering (record process { cwd = codes "/src" })).1.chdir process.cwd ≡ none))
target_routine-none_iff_example = target_routine-none_iff wandering (codes "/src") process

abbrev timed : Context
timed = record {
  err = some (sentinel Sentinel.deadline_exceeded);
  cause = some (sentinel Sentinel.timeout);
}

run_target-none_iff_example :
    (run_target timed (signal (some 2) (sent none)) ≡ none)
    ↔ (own_result (signal (some 2) (sent none)) ≡ some none)
run_target-none_iff_example = run_target-none_iff timed (signal (some 2) (sent none)) (λ e. cc)

late : is_err Sentinel.timeout (sentinel Sentinel.deadline_exceeded) ≡ false
unfolding is_err sentinel_eq
late = refl

abbrev killed : Err
killed = exit_error (signaled 9)

abbrev build : Target
build = record new_target { name = codes "build" }

abbrev lint : Target
lint = record new_target { name = codes "lint"; default = true }
