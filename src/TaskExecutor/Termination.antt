-- ===== src/TaskExecutor/Termination.antt =====
-- Schedules in which the workers keep taking turns, and the return of the call.
mod Measure
use lunar_terrain_builder.Base.{
  ℕ, zero, suc, ◌+◌, ◌*◌, ◌≤◌, ◌<◌, ◌==◌, ◌≡◌, ◌≢◌, inl, inr, ◌∙◌, refl, ap, subst, arith, Bool,
  true, false, some, List, [], ◌∷◌, ◌++◌, length, min, ltb, All, Bool-cases,
}
use native.Mathlib.Decide.{ℕ_discrete}
use mathlib.Core.List.{Memᴰ}
use mathlib.Core.List.Memᴰ.{head, tail}
use lunar_terrain_builder.Error.{Result}
use lunar_terrain_builder.TaskExecutor.{
  Outcome, Worker, Run, Event, turn, cancel, place, advance, happen, run_events, start, all_left,
  run_bounded_tasks,
}
use lunar_terrain_builder.TaskExecutor.Termination.Measure.{
  rank, total, measure, happen-decreases, happen-measure, all_left-cases, run_events-append,
  run_events-measure, start-measure,
}

-- In these events each of the workers with the numbers below `count` has a turn.
unfoldable pub IsRound : ℕ → List Event → Type 0
IsRound count events = (j : ℕ) → j < count → Memᴰ (turn j) events

-- The events of the rounds, in order.
unfoldable pub flatten : List (List Event) → List Event
flatten [] = []
flatten (round ∷ rounds) = round ++ flatten rounds

-- A worker that has left stays away.
happen-left :
    (tasks : List Outcome) (count : ℕ) (e : Event) (r : Run) (j : ℕ)
    → r.workers j ≡ Worker.left
    → (happen tasks count e r).workers j ≡ Worker.left
unfolding happen place advance
happen-left tasks count cancel r j h = h
happen-left tasks count (turn i) r j h = elim (Bool-cases (ltb i count)) [
  | inr absent ↦ rw absent h
  | inl exists' ↦ elim (Bool-cases (i == j)) [
    | inr other ↦ rw (exists', other) h
    | inl same ↦
        let e : r.workers i ≡ Worker.left = ap r.workers (equal i j same) ∙ h in
        rw (exists', same, e) refl
  ]
]
  where
    equal : (a b : ℕ) → (a == b) ≡ true → a ≡ b
    equal a b h = ground arith

run_events-left :
    (tasks : List Outcome) (count : ℕ) (events : List Event) (r : Run) (j : ℕ)
    → r.workers j ≡ Worker.left
    → (run_events tasks count events r).workers j ≡ Worker.left
unfolding run_events
run_events-left tasks count [] r j h = h
run_events-left tasks count (e ∷ events) r j h =
    run_events-left tasks count events (happen tasks count e r) j (happen-left tasks count e r j h)

-- A turn of a worker that has not left by the end of the events has brought the run closer.
turn-decreases :
    (tasks : List Outcome) (count j : ℕ) (events : List Event) (r : Run)
    → j < count
    → Memᴰ (turn j) events
    → (run_events tasks count events r).workers j ≢ Worker.left
    → measure tasks count (run_events tasks count events r) < measure tasks count r
unfolding run_events
turn-decreases tasks count j [] r below m awake = elim m [ ]
turn-decreases tasks count j (e ∷ events) r below (head same) awake =
    let awake' : r.workers j ≢ Worker.left =
      λ gone. awake (run_events-left tasks count (e ∷ events) r j gone) in
    let closer : measure tasks count (happen tasks count e r) < measure tasks count r =
      subst (λ d. measure tasks count (happen tasks count d r) < measure tasks count r) same
        (happen-decreases tasks count j r below awake') in
    omega (arith, closer, run_events-measure tasks count events (happen tasks count e r))
turn-decreases tasks count j (e ∷ events) r below (tail m) awake = omega (
  arith,
  turn-decreases tasks count j events (happen tasks count e r) below m awake,
  happen-measure tasks count e r,
)

-- As long as a worker has not left, each round has brought the run closer.
rounds-decrease :
    (tasks : List Outcome) (count j : ℕ) (rounds : List (List Event)) (r : Run)
    → j < count
    → All (IsRound count) rounds
    → (run_events tasks count (flatten rounds) r).workers j ≢ Worker.left
    → measure tasks count (run_events tasks count (flatten rounds) r) + length rounds
      ≤ measure tasks count r
unfolding run_events flatten IsRound
rounds-decrease tasks count j [] r below all awake = omega arith
rounds-decrease tasks count j (round ∷ rounds) r below (now, later) awake =
    let next = run_events tasks count round r in
    let split = run_events-append tasks count round (flatten rounds) r in
    let awake' : (run_events tasks count (flatten rounds) next).workers j ≢ Worker.left =
      λ gone. awake (ap (λ (q : Run). q.workers j) split ∙ gone) in
    omega (
      arith,
      ap (measure tasks count) split,
      rounds-decrease tasks count j rounds next below later awake',
      turn-decreases tasks count j round r below (now j below)
          (λ gone. awake' (run_events-left tasks count (flatten rounds) next j gone)),
    )

rank-awake : (w : Worker) → w ≢ Worker.left → 0 < rank w
rank-awake Worker.left h = absurd (h refl)
rank-awake Worker.looping h = omega arith
rank-awake Worker.fetching h = omega arith
rank-awake (Worker.polling i) h = omega arith
rank-awake (Worker.calling i) h = omega arith
rank-awake (Worker.recording i e) h = omega arith
rank-awake Worker.stopping h = omega arith

total-rank : (n j : ℕ) (workers : ℕ → Worker) → j < n → rank (workers j) ≤ total n workers
total-rank zero j workers h = absurd (omega arith)
total-rank (suc n) j workers h = elim (ℕ_discrete j n) [
  | yes same ↦ omega (arith, ap (λ k. rank (workers k)) same)
  | no other ↦ omega (arith, total-rank n j workers (omega arith))
]

rounds-all_left :
    (tasks : List Outcome) (count : ℕ) (rounds : List (List Event))
    → All (IsRound count) rounds
    → 2 * count + 8 * length tasks ≤ length rounds
    → all_left count (run_events tasks count (flatten rounds) (start tasks)).workers ≡ true
rounds-all_left tasks count rounds all enough =
    let r = run_events tasks count (flatten rounds) (start tasks) in
    elim (all_left-cases count r.workers) [
      | inl gone ↦ gone
      | inr (j, below, awake) ↦ absurd (
          omega (
            arith,
            enough,
            rounds-decrease tasks count j rounds (start tasks) below all awake,
            start-measure tasks count,
            rank-awake (r.workers j) awake,
            total-rank count j r.workers below,
          ))
    ]

run_bounded_tasks-returns :
    (tasks : List Outcome) (p : ℕ) (cancelled : Bool) (events : List Event)
    → all_left
        (min p (length tasks))
        (run_events tasks (min p (length tasks)) events (start tasks)).workers
      ≡ true
    → (result : Result (Unit {0})) × (run_bounded_tasks tasks p cancelled events ≡ some result)
unfolding run_bounded_tasks
run_bounded_tasks-returns tasks p cancelled events all = elim (Bool-cases (p == 0)) [
  | inl none_allowed ↦ rw none_allowed (_, refl)
  | inr allowed ↦ elim (Bool-cases cancelled) [
    | inl stopped ↦ rw (allowed, stopped) (_, refl)
    | inr going ↦ elim (Bool-cases (length tasks == 0)) [
      | inl empty ↦ rw (allowed, going, empty) (_, refl)
      | inr some_task ↦ rw (allowed, going, some_task, all) (_, refl)
    ]
  ]
]

-- Where the events go through rounds, in each of which every worker has a turn among any other turns
-- and stop requests, the call has returned after two rounds for each worker and eight for each task,
-- whether a stop was ever requested or not.
pub run_finishes :
    (tasks : List Outcome) (max_parallelism : ℕ) (cancelled : Bool) (rounds : List (List Event))
    → All (IsRound (min max_parallelism (length tasks))) rounds
    → 2 * min max_parallelism (length tasks) + 8 * length tasks ≤ length rounds
    → (result : Result (Unit {0})) × (run_bounded_tasks tasks max_parallelism cancelled
          (flatten rounds)
        ≡ some result)
run_finishes tasks p cancelled rounds all enough =
    run_bounded_tasks-returns tasks p cancelled (flatten rounds)
      (rounds-all_left tasks (min p (length tasks)) rounds all enough)
