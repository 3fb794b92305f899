-- ===== src/TaskExecutor/Termination/Measure.antt =====
-- How far a run is from its end.
use lunar_terrain_builder.Base.{
  ℕ, zero, suc, ◌+◌, ◌-◌, ◌*◌, ◌≤◌, ◌<◌, ◌≡◌, ◌≢◌, ◌⊎◌, inl, inr, refl, arith, true, List, [], ◌∷◌,
  ◌++◌, length, ltb, Bool-cases, Option-cases,
}
use lunar_terrain_builder.TaskExecutor.{
  Outcome, Worker, Shared, Run, Event, turn, cancel, place, after_call, advance, happen, run_events,
  start, has_left, all_left,
}
use lunar_terrain_builder.TaskExecutor.Invariant.{outcome}
use native.Mathlib.Decide.{ℕ_discrete}

abbrev pub rank : Worker → ℕ
rank Worker.looping = 2
rank Worker.fetching = 1
rank (Worker.polling i) = 7
rank (Worker.calling i) = 6
rank (Worker.recording i e) = 4
rank Worker.stopping = 3
rank Worker.left = 0

abbrev pub total : ℕ → (ℕ → Worker) → ℕ
total zero workers = 0
total (suc n) workers = rank (workers n) + total n workers

abbrev pub measure : List Outcome → ℕ → Run → ℕ
measure tasks count r = total count r.workers + 8 * (length tasks - r.shared.next_task)

advance-decreases :
    (tasks : List Outcome) (w : Worker) (s : Shared)
    → w ≢ Worker.left
    → rank (advance tasks w s).0 + 8 * (length tasks - (advance tasks w s).1.next_task)
      < rank w + 8 * (length tasks - s.next_task)
unfolding advance
advance-decreases tasks Worker.looping s h = ground arith
advance-decreases tasks Worker.fetching s h = ground arith
advance-decreases tasks (Worker.polling i) s h = ground arith
advance-decreases tasks (Worker.calling i) s h = elim (Option-cases (outcome tasks i)) [
  | inl fine ↦ rw (fine, after_call) (omega arith)
  | inr (e, failed) ↦ rw (failed, after_call) (omega arith)
]
advance-decreases tasks (Worker.recording i e) s h = omega arith
advance-decreases tasks Worker.stopping s h = omega arith
advance-decreases tasks Worker.left s h = absurd (h refl)

total-above :
    (n j : ℕ) (workers : ℕ → Worker) (w : Worker)
    → n ≤ j
    → total n (place workers j w) ≡ total n workers
unfolding place
total-above zero j workers w h = refl
total-above (suc n) j workers w h = ground (arith, total-above n j workers w (omega arith))

total-place :
    (n j : ℕ) (workers : ℕ → Worker) (w : Worker)
    → j < n
    → total n (place workers j w) + rank (workers j) ≡ total n workers + rank w
unfolding place
total-place zero j workers w h = absurd (omega arith)
total-place (suc n) j workers w h = elim (ℕ_discrete j n) [
  | yes same ↦ rw same (ground (arith, total-above n n workers w (omega arith)))
  | no other ↦ ground (arith, total-place n j workers w (omega arith))
]

pub happen-decreases :
    (tasks : List Outcome) (count j : ℕ) (r : Run)
    → j < count
    → r.workers j ≢ Worker.left
    → measure tasks count (happen tasks count (turn j) r) < measure tasks count r
unfolding happen
happen-decreases tasks count j r below awake =
    let exists' : ltb j count ≡ true = ground arith in
    rw exists' (
      omega (
        arith,
        total-place count j r.workers (advance tasks (r.workers j) r.shared).0 below,
        advance-decreases tasks (r.workers j) r.shared awake,
      ))

-- A worker that has not left, where there is one.
pub all_left-cases :
    (n : ℕ) (workers : ℕ → Worker)
    → (all_left n workers ≡ true) ⊎ ((j : ℕ) × (j < n) × (workers j ≢ Worker.left))
unfolding all_left has_left
all_left-cases zero workers = inl refl
all_left-cases (suc n) workers = elim (Bool-cases (has_left (workers n))) [
  | inr awake ↦ inr (n, omega arith, λ e. cc)
  | inl gone ↦ elim (all_left-cases n workers) [
    | inl all ↦ inl (ground arith)
    | inr (j, below, awake) ↦ inr (j, omega arith, awake)
  ]
]

pub run_events-append :
    (tasks : List Outcome) (count : ℕ) (events more : List Event) (r : Run)
    → run_events tasks count (events ++ more) r
      ≡ run_events tasks count more (run_events tasks count events r)
unfolding run_events
run_events-append tasks count [] more r = refl
run_events-append tasks count (e ∷ events) more r =
    run_events-append tasks count events more (happen tasks count e r)

-- One turn does not lead away from the end.
advance-rank :
    (tasks : List Outcome) (w : Worker) (s : Shared)
    → rank (advance tasks w s).0 + 8 * (length tasks - (advance tasks w s).1.next_task)
      ≤ rank w + 8 * (length tasks - s.next_task)
unfolding advance
advance-rank tasks Worker.left s = omega arith
advance-rank tasks Worker.looping s =
    omega (arith, advance-decreases tasks Worker.looping s (λ e. cc))
advance-rank tasks Worker.fetching s =
    omega (arith, advance-decreases tasks Worker.fetching s (λ e. cc))
advance-rank tasks (Worker.polling i) s =
    omega (arith, advance-decreases tasks (Worker.polling i) s (λ e. cc))
advance-rank tasks (Worker.calling i) s =
    omega (arith, advance-decreases tasks (Worker.calling i) s (λ e. cc))
advance-rank tasks (Worker.recording i x) s =
    omega (arith, advance-decreases tasks (Worker.recording i x) s (λ e. cc))
advance-rank tasks Worker.stopping s =
    omega (arith, advance-decreases tasks Worker.stopping s (λ e. cc))

pub happen-measure :
    (tasks : List Outcome) (count : ℕ) (e : Event) (r : Run)
    → measure tasks count (happen tasks count e r) ≤ measure tasks count r
unfolding happen
happen-measure tasks count cancel r = omega arith
happen-measure tasks count (turn j) r = elim (Bool-cases (ltb j count)) [
  | inr absent ↦ rw absent (omega arith)
  | inl exists' ↦
      let below : j < count = ground arith in
      rw exists' (
        omega (
          arith,
          total-place count j r.workers (advance tasks (r.workers j) r.shared).0 below,
          advance-rank tasks (r.workers j) r.shared,
        ))
]

pub run_events-measure :
    (tasks : List Outcome) (count : ℕ) (events : List Event) (r : Run)
    → measure tasks count (run_events tasks count events r) ≤ measure tasks count r
unfolding run_events
run_events-measure tasks count [] r = omega arith
run_events-measure tasks count (e ∷ events) r = omega (
  arith,
  run_events-measure tasks count events (happen tasks count e r),
  happen-measure tasks count e r,
)

pub start-measure :
    (tasks : List Outcome) (count : ℕ)
    → measure tasks count (start tasks) ≡ 2 * count + 8 * length tasks
unfolding start
start-measure tasks count = omega (arith, looping-total count)
  where
    looping-total : (n : ℕ) → total n (λ j. Worker.looping) ≡ 2 * n
    looping-total zero = refl
    looping-total (suc n) = omega (arith, looping-total n)
