-- ===== src/TaskExecutor/Tests.antt =====
-- Runs of `run_bounded_tasks` at concrete tasks.
use lunar_terrain_builder.Base.{
  ℕ, zero, suc, ◌≤◌, ◌≡◌, refl, arith, min, false, none, some, List, [], ◌∷◌, ◌++◌, replicate,
  length, get_or, All,
}
use lunar_terrain_builder.Error.{ErrorCode, make_error, Result, success, failure}
use lunar_terrain_builder.TaskExecutor.{
  Outcome, Event, turn, cancel, error_of, after_call, bump, advance, place, happen, run_events,
  start, has_left, all_left, first_error, report, run_bounded_tasks, cancelled_error,
}
use lunar_terrain_builder.TaskExecutor.Report.InOrder.{run_in_order}
use lunar_terrain_builder.TaskExecutor.Report.{
  called_at_most_once, success_complete, parallel-in_order,
}
use lunar_terrain_builder.TaskExecutor.Termination.{IsRound, flatten, run_finishes}
use mathlib.Core.List.Memᴰ.{head, tail}

abbrev rounds : ℕ → List Event
rounds zero = []
rounds (suc n) = turn 0 ∷ turn 1 ∷ rounds n

-- The second and the third task fail, and the third is done first.
abbrev failing : List Outcome
failing =
    Outcome.returned_value
    ∷ Outcome.returned_error (make_error ErrorCode.io_error "second")
    ∷ Outcome.threw_exception "third"
    ∷ []

abbrev third_first : List Event
third_first =
    turn 1
    ∷ turn 1
    ∷ turn 1
    ∷ turn 1
    ∷ turn 1
    ∷ turn 0
    ∷ turn 0
    ∷ turn 1
    ∷ turn 1
    ∷ turn 1
    ∷ rounds 8

third_first_run :
    run_bounded_tasks failing 2 false third_first
    ≡ some (failure (make_error ErrorCode.io_error "second"))
unfolding run_bounded_tasks run_events happen advance error_of after_call bump place start has_left
    all_left first_error report
third_first_run = refl

third_first_in_order : failure (make_error ErrorCode.io_error "second") ≡ run_in_order failing
third_first_in_order =
    parallel-in_order failing 2 third_first (failure (make_error ErrorCode.io_error "second"))
      (omega arith) refl third_first_run

called_at_most_once_example : (run_events failing 2 third_first (start failing)).shared.calls 1 ≤ 1
called_at_most_once_example = called_at_most_once failing 2 third_first 1

abbrev fine : List Outcome
fine = replicate 3 Outcome.returned_value

fine_run : run_bounded_tasks fine 2 false (rounds 12) ≡ some (success tt)
unfolding run_bounded_tasks run_events happen advance error_of after_call bump place start has_left
    all_left first_error report
fine_run = refl

success_complete_example :
    ((run_events fine (min 2 (length fine)) (rounds 12) (start fine)).shared.calls 2 ≡ 1)
    × (error_of (get_or fine 2 Outcome.returned_value) ≡ none)
success_complete_example =
    success_complete fine 2 (rounds 12) (omega arith) fine_run 2 (omega arith)

-- A stop request between two turns.
cancel_run :
    run_bounded_tasks fine 2 false (rounds 2 ++ (cancel ∷ rounds 8))
    ≡ some (failure (make_error ErrorCode.cancelled "terrain build was cancelled"))
unfolding run_bounded_tasks run_events happen advance error_of after_call bump place start has_left
    all_left first_error report cancelled_error
cancel_run = refl

abbrev both : List Event
both = turn 0 ∷ turn 1 ∷ []

both-IsRound : IsRound 2 both
unfolding IsRound
both-IsRound zero h = head refl
both-IsRound (suc zero) h = tail (head refl)
both-IsRound (suc (suc j)) h = absurd (omega arith)

replicate-IsRound : (n : ℕ) → All (IsRound 2) (replicate n both)
replicate-IsRound zero = tt
replicate-IsRound (suc n) = (both-IsRound, replicate-IsRound n)

run_finishes_example :
    (result : Result (Unit {0})) × (run_bounded_tasks fine 2 false (flatten (replicate 28 both))
      ≡ some result)
run_finishes_example =
    run_finishes fine 2 false (replicate 28 both) (replicate-IsRound 28) (omega arith)
