-- ===== src/TaskExecutor/Report.antt =====
-- What the call reports when the workers have left, for every interleaving of their turns.
pub mod InOrder
use lunar_terrain_builder.Base.{
  ℕ, zero, suc, ◌≤◌, ◌<◌, ◌==◌, ◌≡◌, ◌⊎◌, inl, inr, ◌∙◌, refl, sym, ap, subst, arith, Bool, true,
  false, Option, none, some, List, [], ◌∷◌, length, get_or, min, ltb, Bool-cases, if◌then◌else◌,
}
use lunar_terrain_builder.Error.{Error, Result, success, failure}
use lunar_terrain_builder.TaskExecutor.{
  Outcome, Worker, Shared, Run, Event, turn, cancel, cancelled_error, error_of, run_events, happen,
  advance, start, has_left, all_left, first_error, report, run_bounded_tasks,
}
use lunar_terrain_builder.TaskExecutor.Invariant.{
  index_of, slot, Failed, outcome, Settled, Claim, Inv,
}
use lunar_terrain_builder.TaskExecutor.Invariant.Kept.{start-Inv, run_events-Inv}
use lunar_terrain_builder.TaskExecutor.Report.InOrder.{
  run_in_order, asks, all_left→, run_events-cancelled, first_error-run_in_order, report_cases,
  first_error-none,
}

-- The workers have left: every task that was taken is settled, and if one was not, a failure is recorded.
module _ (tasks : List Outcome) (count : ℕ) (r : Run) (v : Inv tasks count r)
    (some_worker : 0 < count) (all : all_left count r.workers ≡ true) where
  pub settled : (i : ℕ) → i < r.shared.next_task → i < length tasks → Settled tasks r.shared i
  settled i h t = elim (v.accounted i h t) [
    | inl done ↦ done
    | inr (j, below, held) ↦
        absurd (idle (ap index_of (sym (all_left→ count r.workers all j below)) ∙ held))
  ]
    where
      idle : none ≡ some i → ⊥
      idle q = cc

  pub enough : (length tasks ≤ r.shared.next_task) ⊎ Failed r.shared
  enough =
      elim (subst (Claim tasks r.shared) (all_left→ count r.workers all 0 some_worker)
        (v.claims 0)) [ inl asked ↦ inr (v.sound.stopped asked) | inr past ↦ inl past ]

  -- Success: every task is called and has returned a value.
  pub success-all :
      success tt ≡ report r.shared
      → (i : ℕ) → i < length tasks
      → (r.shared.calls i ≡ 1) × (outcome tasks i ≡ none)
  success-all same i t = elim (report_cases r.shared (success tt) same) [
    | inl (x, found, wrong) ↦ cc
    | inr (clean, fine) ↦
        let empty = first_error-none r.shared.failures clean in
        let taken : length tasks ≤ r.shared.next_task = elim enough [
          | inl past ↦ past
          | inr (k, x, before, failed) ↦ cc (empty k, failed)
        ] in
        elim (settled i (omega arith) t) [
          | inl (called, recorded) ↦ (called, sym recorded ∙ empty i)
          | inr (asked, recorded) ↦ cc (empty i, recorded)
        ]
  ]

  -- No stop request: the report is that of the tasks in order.
  pub report-in_order : r.shared.cancelled ≡ false → report r.shared ≡ run_in_order tasks
  unfolding report
  report-in_order going =
      let agree : (i : ℕ)
          → i < r.shared.next_task
          → i < length tasks
          → slot r.shared i ≡ outcome tasks i =
        λ i h t. elim (settled i h t) [
          | inl (called, recorded) ↦ recorded
          | inr (asked, recorded) ↦ cc (asked, going)
        ] in
      rw going (
        first_error-run_in_order r.shared.failures tasks r.shared.next_task v.sound.sized agree
          enough)

start-cancelled : (tasks : List Outcome) → (start tasks).shared.cancelled ≡ false
unfolding start
start-cancelled tasks = refl

abbrev final : List Outcome → ℕ → List Event → Run
final tasks max_parallelism events =
    run_events tasks (min max_parallelism (length tasks)) events (start tasks)

final-Inv :
    (tasks : List Outcome) (p : ℕ) (events : List Event)
    → Inv tasks (min p (length tasks)) (final tasks p events)
final-Inv tasks p events =
    run_events-Inv tasks (min p (length tasks)) events (start tasks)
      (start-Inv tasks (min p (length tasks)))

-- Where the call returns, the workers have left, or there was no task.
run_bounded_tasks-some :
    (tasks : List Outcome) (p : ℕ) (events : List Event) (result : Result (Unit {0}))
    → 0 < p
    → run_bounded_tasks tasks p false events ≡ some result
    → (length tasks ≡ 0) × (result ≡ success tt)
      ⊎ (0 < min p (length tasks))
        × (all_left (min p (length tasks)) (final tasks p events).workers ≡ true)
        × (result ≡ report (final tasks p events).shared)
unfolding run_bounded_tasks
run_bounded_tasks-some tasks p events result h e = ground arith

-- However the turns of the workers interleave, a task is called at most once.
pub called_at_most_once :
    (tasks : List Outcome) (count : ℕ) (events : List Event) (i : ℕ)
    → (run_events tasks count events (start tasks)).shared.calls i ≤ 1
called_at_most_once tasks count events =
    (run_events-Inv tasks count events (start tasks) (start-Inv tasks count)).sound.counted

-- Where the call returns success, every task was called exactly once and returned a value, whether
-- or not the caller asked to stop.
pub success_complete :
    (tasks : List Outcome) (max_parallelism : ℕ) (events : List Event)
    → 0 < max_parallelism
    → run_bounded_tasks tasks max_parallelism false events ≡ some (success tt)
    → (i : ℕ) → i < length tasks
    → ((run_events tasks (min max_parallelism (length tasks)) events (start tasks)).shared.calls i
        ≡ 1)
      × (error_of (get_or tasks i Outcome.returned_value) ≡ none)
success_complete tasks p events h e i t =
    elim (run_bounded_tasks-some tasks p events (success tt) h e) [
      | inl (empty, fine) ↦ absurd (omega arith)
      | inr (some_worker, all, same) ↦
          success-all tasks (min p (length tasks)) (final tasks p events) (final-Inv tasks p events)
            some_worker all same i t
    ]

-- Without a stop request of the caller, what the call returns does not depend on the number of
-- workers or on the order of their turns: it is what running the tasks one after another returns,
-- up to the first that fails.
pub parallel-in_order :
    (tasks : List Outcome) (max_parallelism : ℕ) (events : List Event) (result : Result (Unit {0}))
    → 0 < max_parallelism
    → asks events ≡ false
    → run_bounded_tasks tasks max_parallelism false events ≡ some result
    → result ≡ run_in_order tasks
parallel-in_order tasks p events result h quiet e =
    elim (run_bounded_tasks-some tasks p events result h e) [
      | inl (empty, fine) ↦ fine ∙ sym (no_tasks tasks empty)
      | inr (some_worker, all, same) ↦
          let r = final tasks p events in
          let going =
            run_events-cancelled tasks (min p (length tasks)) events (start tasks) quiet
            ∙ start-cancelled tasks in
          same
          ∙ report-in_order tasks (min p (length tasks)) r (final-Inv tasks p events) some_worker
              all going
    ]
  where
    no_tasks : (ts : List Outcome) → length ts ≡ 0 → run_in_order ts ≡ success tt
    no_tasks [] q = refl
    no_tasks (t ∷ ts) q = absurd (omega arith)
