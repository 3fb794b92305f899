-- ===== src/TaskExecutor/Report/InOrder.antt =====
-- The tasks one after the other, and the report of the failures against that.
use lunar_terrain_builder.Base.{
  ℕ, zero, suc, ◌≤◌, ◌<◌, ◌==◌, ◌≡◌, ◌⊎◌, inl, inr, ◌∙◌, refl, sym, ap, arith, Bool, true, false,
  Option, none, some, List, [], ◌∷◌, length, get_or, ltb, Bool-cases, if◌then◌else◌,
}
use lunar_terrain_builder.Error.{Error, Result, success, failure}
use lunar_terrain_builder.TaskExecutor.{
  Outcome, Worker, Shared, Run, Event, turn, cancel, cancelled_error, error_of, run_events, happen,
  advance, has_left, all_left, first_error, report,
}
use lunar_terrain_builder.TaskExecutor.Invariant.{outcome}

-- The tasks one after the other, up to the first that fails.
abbrev pub run_in_order : List Outcome → Result (Unit {0})
run_in_order [] = success tt
run_in_order (t ∷ tasks) = elim (error_of t) [ none ↦ run_in_order tasks | some e ↦ failure e ]

-- The caller asks the workers to stop.
abbrev pub asks : List Event → Bool
asks [] = false
asks (turn j ∷ events) = asks events
asks (cancel ∷ events) = true

has_left→ : (w : Worker) → has_left w ≡ true → w ≡ Worker.left
unfolding has_left
has_left→ Worker.left h = refl
has_left→ Worker.looping h = cc
has_left→ Worker.fetching h = cc
has_left→ (Worker.polling i) h = cc
has_left→ (Worker.calling i) h = cc
has_left→ (Worker.recording i e) h = cc
has_left→ Worker.stopping h = cc

pub all_left→ :
    (n : ℕ) (workers : ℕ → Worker)
    → all_left n workers ≡ true
    → (j : ℕ) → j < n
    → workers j ≡ Worker.left
unfolding all_left
all_left→ zero workers h j below = absurd (omega arith)
all_left→ (suc n) workers h j below = elim (Bool-cases (j == n)) [
  | inl same ↦ let e : j ≡ n = ground arith in ap workers e ∙ has_left→ (workers n) (ground arith)
  | inr other ↦ all_left→ n workers (ground arith) j (ground arith)
]

-- A turn does not touch the stop token of the caller.
pub advance-cancelled :
    (tasks : List Outcome) (w : Worker) (s : Shared) → (advance tasks w s).1.cancelled ≡ s.cancelled
unfolding advance
advance-cancelled tasks Worker.looping s = refl
advance-cancelled tasks Worker.fetching s = refl
advance-cancelled tasks (Worker.polling i) s = refl
advance-cancelled tasks (Worker.calling i) s = refl
advance-cancelled tasks (Worker.recording i e) s = refl
advance-cancelled tasks Worker.stopping s = refl
advance-cancelled tasks Worker.left s = refl

pub happen-cancelled :
    (tasks : List Outcome) (count j : ℕ) (r : Run)
    → (happen tasks count (turn j) r).shared.cancelled ≡ r.shared.cancelled
unfolding happen
happen-cancelled tasks count j r = elim (Bool-cases (ltb j count)) [
  | inl exists' ↦ rw exists' (advance-cancelled tasks (r.workers j) r.shared)
  | inr absent ↦ rw absent refl
]

pub run_events-cancelled :
    (tasks : List Outcome) (count : ℕ) (events : List Event) (r : Run)
    → asks events ≡ false
    → (run_events tasks count events r).shared.cancelled ≡ r.shared.cancelled
unfolding run_events
run_events-cancelled tasks count [] r h = refl
run_events-cancelled tasks count (turn j ∷ events) r h =
    run_events-cancelled tasks count events (happen tasks count (turn j) r) h
    ∙ happen-cancelled tasks count j r
run_events-cancelled tasks count (cancel ∷ events) r h = cc

-- Where the failures agree with what the tasks return up to a failure, the first error is the same.
pub first_error-run_in_order :
    (failures : List (Option Error)) (tasks : List Outcome) (next : ℕ)
    → length failures ≡ length tasks
    → ((i : ℕ) → i < next → i < length tasks → get_or failures i none ≡ outcome tasks i)
    → (length tasks ≤ next)
      ⊎ ((k : ℕ) × (e : Error) × (k < next) × (get_or failures k none ≡ some e))
    → elim (first_error failures) [ some e ↦ failure e | none ↦ success tt ] ≡ run_in_order tasks
unfolding first_error error_of
first_error-run_in_order [] [] next l agree enough = refl
first_error-run_in_order [] (t ∷ tasks) next l agree enough = absurd (omega arith)
first_error-run_in_order (f ∷ failures) [] next l agree enough = absurd (omega arith)
first_error-run_in_order (f ∷ failures) (t ∷ tasks) zero l agree (inl past) = absurd (omega arith)
first_error-run_in_order (f ∷ failures) (t ∷ tasks) zero l agree (inr (k, e, before, failed)) =
    absurd (omega arith)
first_error-run_in_order (some e ∷ failures) (t ∷ tasks) (suc next) l agree enough =
    let failed : error_of t ≡ some e = sym (agree 0 (omega arith) (omega arith)) in
    rw (failed, run_in_order) refl
first_error-run_in_order (none ∷ failures) (t ∷ tasks) (suc next) l agree enough =
    let fine : error_of t ≡ none = sym (agree 0 (omega arith) (omega arith)) in
    rw (fine, run_in_order)
      (first_error-run_in_order failures tasks next (omega arith)
        (λ i h t. agree (suc i) (omega arith) (omega arith)) (shifted enough))
  where
    shifted :
        (suc (length tasks) ≤ suc next)
          ⊎ ((k : ℕ) × (e : Error) × (k < suc next) × (get_or (none ∷ failures) k none ≡ some e))
        → (length tasks ≤ next)
          ⊎ ((k : ℕ) × (e : Error) × (k < next) × (get_or failures k none ≡ some e))
    shifted (inl past) = inl (omega arith)
    shifted (inr (zero, e, before, failed)) = absurd (none-some e failed)
      where
        none-some : (e : Error) → none ≡ some e → ⊥
        none-some e h = cc
    shifted (inr (suc k, e, before, failed)) = inr (k, e, omega arith, failed)

pub report_cases :
    (s : Shared) (result : Result (Unit {0}))
    → result ≡ report s
    → ((e : Error) × (first_error s.failures ≡ some e) × (result ≡ failure e))
      ⊎ (first_error s.failures ≡ none)
        × (result ≡ (if s.cancelled then failure cancelled_error else success tt))
unfolding report
report_cases s result h = ground arith

pub first_error-none :
    (failures : List (Option Error))
    → first_error failures ≡ none
    → (i : ℕ) → get_or failures i none ≡ none
unfolding first_error
first_error-none [] h i = refl
first_error-none (some e ∷ failures) h i = cc
first_error-none (none ∷ failures) h zero = refl
first_error-none (none ∷ failures) h (suc i) = first_error-none failures h i
