-- ===== src/Server/Mutex/Tests.antt =====
-- Two calls for one exchange.
use x402b.Prelude.{ℕ, ◌≤◌, true, ◌≡◌, refl, arith, put}
use x402b.Server.Mutex.{
  running, ended, Mutex, create_keyed_mutex, run_exclusive, move, is_over, Step, Reachable,
}
use x402b.Server.Mutex.Exclusive.{Reachable-in_turn, Reachable-progress, Ready}

abbrev two_calls : Mutex
two_calls = run_exclusive "5" (run_exclusive "5" create_keyed_mutex)

abbrev first_runs : Mutex
first_runs = move 0 running two_calls

abbrev second_runs : Mutex
second_runs = move 1 running (move 0 ended first_runs)

two_calls-Reachable : Reachable two_calls
two_calls-Reachable =
    Reachable.stepped (Reachable.stepped Reachable.created (Step.call "5")) (Step.call "5")

first_runs-Reachable : Reachable first_runs
unfolding run_exclusive
first_runs-Reachable = Reachable.stepped two_calls-Reachable (Step.start 0 (omega arith) refl refl)

second_runs-Reachable : Reachable second_runs
unfolding run_exclusive put
second_runs-Reachable =
    Reachable.stepped (Reachable.stepped first_runs-Reachable (Step.end_task 0 (omega arith) refl))
      (Step.start 1 (omega arith) refl refl)

Reachable-in_turn_example : is_over (second_runs.phases 0) ≡ true
unfolding run_exclusive
Reachable-in_turn_example =
    Reachable-in_turn second_runs 0 1 second_runs-Reachable (omega arith) (omega arith) refl
      (λ w. cc w)

Reachable-progress_example :
    (i : ℕ) × (i ≤ 1) × (first_runs.keys i ≡ first_runs.keys 1) × Ready first_runs i
unfolding run_exclusive
Reachable-progress_example = Reachable-progress first_runs 1 first_runs-Reachable (omega arith) refl
