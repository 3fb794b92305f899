-- ===== src/TaskExecutor.antt =====
-- `run_bounded_tasks` of src/builder/task_executor.cpp. The workers interleave: each access to a
-- shared variable is one turn of one worker, and the stop token of the caller may be set between
-- any two turns. What a task does when it is called is given by its number.
pub mod Invariant
pub mod Report
pub mod Termination
mod Tests
use lunar_terrain_builder.Base.{
  ℕ, zero, suc, ◌+◌, ◌==◌, ◌&&◌, Bool, true, false, Option, none, some, List, [], ◌∷◌, length,
  get_or, set, replicate, min, ltb, if◌then◌else◌,
}
use Prim.Native.String.{String, ◌++◌}
use lunar_terrain_builder.Error.{ErrorCode, Error, make_error, Result, success, failure}

-- How the call of a `BuilderTask` ends.
pub data Outcome : Type 0 where
  returned_value : Outcome
  returned_error : Error → Outcome
  threw_exception : (what : String) → Outcome
  threw_other : Outcome

pub cancelled_error : Error
cancelled_error = make_error ErrorCode.cancelled "terrain build was cancelled"

-- The error that a worker records for a call that ends so.
pub error_of : Outcome → Option Error
error_of returned_value = none
error_of (returned_error e) = some e
error_of (threw_exception what) =
    some (make_error ErrorCode.internal_error ("builder tile task threw an exception: " ++ what))
error_of threw_other =
    some (make_error ErrorCode.internal_error "builder tile task threw a non-standard exception")

-- Where a worker stands in the body of its thread.
pub data Worker : Type 0 where
  -- before `failure_stop.stop_requested()`
  looping : Worker
  -- before `next_task.fetch_add(1)`
  fetching : Worker
  -- before `cancellation.stop_requested()`, and before the call of the task
  polling : (index : ℕ) → Worker
  calling : (index : ℕ) → Worker
  -- before `failures[index] = …`, and before `failure_stop.request_stop()`
  recording : (index : ℕ) → Error → Worker
  stopping : Worker
  left : Worker

-- The variables that the workers share. `calls` counts the calls of each task, which the source
-- does not keep. `next_task` is a number without a bound; the wrap of the source's
-- counter at 2 ^ 64 is not modelled.
pub record Shared : Type 0 where
  pub next_task : ℕ
  pub failure_stop : Bool
  pub cancelled : Bool
  pub failures : List (Option Error)
  pub calls : ℕ → ℕ

pub bump : (ℕ → ℕ) → ℕ → ℕ → ℕ
bump calls index i = if index == i then calls i + 1 else calls i

-- What follows the call: back to the loop, or to the record of the failure.
pub after_call : ℕ → Option Error → Worker
after_call index none = looping
after_call index (some e) = recording index e

-- One turn of a worker.
pub advance : List Outcome → Worker → Shared → Worker × Shared
unfolding error_of after_call bump
advance tasks looping s = (if s.failure_stop then left else fetching, s)
advance tasks fetching s = (
  if ltb s.next_task (length tasks) then polling s.next_task else left,
  record s { next_task = s.next_task + 1 },
)
advance tasks (polling index) s =
    (if s.cancelled then recording index cancelled_error else calling index, s)
advance tasks (calling index) s = (
  after_call index (error_of (get_or tasks index returned_value)),
  record s { calls = bump s.calls index },
)
advance tasks (recording index e) s =
    (stopping, record s { failures = set s.failures index (some e) })
advance tasks stopping s = (left, record s { failure_stop = true })
advance tasks left s = (left, s)

-- The workers by number, and what they share.
pub record Run : Type 0 where
  pub workers : ℕ → Worker
  pub shared : Shared

pub place : (ℕ → Worker) → ℕ → Worker → ℕ → Worker
place workers j w k = if j == k then w else workers k

pub data Event : Type 0 where
  turn : (worker : ℕ) → Event
  cancel : Event

-- What happens to the workers with the numbers below `count`.
pub happen : List Outcome → ℕ → Event → Run → Run
unfolding advance place
happen tasks count (turn j) r =
    if ltb j count
    then (let (w, s) = advance tasks (r.workers j) r.shared in
        record { workers = place r.workers j w; shared = s })
    else r
happen tasks count cancel r = record r { shared = record r.shared { cancelled = true } }

pub run_events : List Outcome → ℕ → List Event → Run → Run
unfolding happen
run_events tasks count [] r = r
run_events tasks count (e ∷ events) r = run_events tasks count events (happen tasks count e r)

pub start : List Outcome → Run
start tasks = record {
  workers = λ j. looping;
  shared = record {
    next_task = 0;
    failure_stop = false;
    cancelled = false;
    failures = replicate (length tasks) none;
    calls = λ i. 0;
  };
}

pub has_left : Worker → Bool
has_left left = true
has_left _ = false

-- `workers.clear()` joins the threads: all workers have left.
pub all_left : ℕ → (ℕ → Worker) → Bool
unfolding has_left
all_left zero workers = true
all_left (suc n) workers = has_left (workers n) && all_left n workers

-- The loop over the failures.
pub first_error : List (Option Error) → Option Error
first_error [] = none
first_error (none ∷ rest) = first_error rest
first_error (some e ∷ rest) = some e

pub report : Shared → Result (Unit {0})
unfolding first_error
report s = elim (first_error s.failures) [
  | some e ↦ failure e
  | none ↦ if s.cancelled then failure cancelled_error else success tt
]

-- The whole call, with the events that happen while the workers run; `none` where a worker has not
-- left after them.
pub run_bounded_tasks : List Outcome → ℕ → Bool → List Event → Option (Result (Unit {0}))
unfolding run_events start all_left report
run_bounded_tasks tasks max_parallelism cancelled events =
    if max_parallelism == 0
    then some (
        failure (make_error ErrorCode.invalid_argument "bounded task parallelism must be positive"))
    else if cancelled
    then some (failure cancelled_error)
    else if length tasks == 0
    then some (success tt)
    else (let count = min max_parallelism (length tasks) in
        let r = run_events tasks count events (start tasks) in
        if all_left count r.workers then some (report r.shared) else none)
