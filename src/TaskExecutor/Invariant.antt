-- ===== src/TaskExecutor/Invariant.antt =====
-- What holds of the workers and their shared variables between any two turns.
pub mod Frame
pub mod Turn
pub mod Kept
use lunar_terrain_builder.Base.{
  ℕ, zero, suc, ◌+◌, ◌≤◌, ◌<◌, ◌≡◌, ◌≢◌, ◌⊎◌, inl, inr, Bool, true, false, Option, none, some, List,
  length, get_or,
}
use lunar_terrain_builder.Error.{Error}
use lunar_terrain_builder.TaskExecutor.{Outcome, Worker, Shared, Run, cancelled_error, error_of}

-- The task that a worker has taken and not finished with.
abbrev pub index_of : Worker → Option ℕ
index_of (Worker.polling i) = some i
index_of (Worker.calling i) = some i
index_of (Worker.recording i e) = some i
index_of _ = none

abbrev pub slot : Shared → ℕ → Option Error
slot s i = get_or s.failures i none

-- A failure is recorded.
abbrev pub Failed : Shared → Type 0
Failed s = (k : ℕ) × (e : Error) × (k < s.next_task) × (slot s k ≡ some e)

module _ (tasks : List Outcome) where
  abbrev pub outcome : ℕ → Option Error
  outcome i = error_of (get_or tasks i Outcome.returned_value)

  -- The task is taken and not called.
  pub record Pending (s : Shared) (i : ℕ) : Type 0 where
    pub before : i < s.next_task
    pub task : i < length tasks
    pub uncalled : s.calls i ≡ 0
    pub empty : slot s i ≡ none

  -- The error is the one to record for the task.
  abbrev pub Cause : Shared → ℕ → Error → Type 0
  Cause s i e =
      (s.calls i ≡ 1) × (outcome i ≡ some e) ⊎ (s.cancelled ≡ true) × (e ≡ cancelled_error)

  pub record Caught (s : Shared) (i : ℕ) (e : Error) : Type 0 where
    pub before : i < s.next_task
    pub task : i < length tasks
    pub empty : slot s i ≡ none
    pub cause : Cause s i e

  -- The task is called and its error recorded, or the call was given up.
  abbrev pub Settled : Shared → ℕ → Type 0
  Settled s i =
      (s.calls i ≡ 1) × (slot s i ≡ outcome i)
      ⊎ (s.cancelled ≡ true) × (slot s i ≡ some cancelled_error)

  -- What a worker relies on where it stands.
  abbrev pub Claim : Shared → Worker → Type 0
  Claim s Worker.looping = Unit
  Claim s Worker.fetching = Unit
  Claim s (Worker.polling i) = Pending s i
  Claim s (Worker.calling i) = Pending s i
  Claim s (Worker.recording i e) = Caught s i e
  Claim s Worker.stopping = Failed s
  Claim s Worker.left = (s.failure_stop ≡ true) ⊎ (length tasks ≤ s.next_task)

  -- The shared variables, on their own.
  pub record IsSound (s : Shared) : Type 0 where
    pub counted : (i : ℕ) → s.calls i ≤ 1
    pub fresh : (i : ℕ) → s.next_task ≤ i → (s.calls i ≡ 0) × (slot s i ≡ none)
    pub sized : length s.failures ≡ length tasks
    pub stopped : s.failure_stop ≡ true → Failed s

  pub record Inv (count : ℕ) (r : Run) : Type 0 where
    pub sound : IsSound r.shared
    pub claims : (j : ℕ) → Claim r.shared (r.workers j)
    pub exclusive :
        (j k i : ℕ) → index_of (r.workers j) ≡ some i → index_of (r.workers k) ≡ some i → j ≡ k
    pub accounted :
        (i : ℕ)
        → i < r.shared.next_task
        → i < length tasks
        → Settled r.shared i ⊎ ((j : ℕ) × (j < count) × (index_of (r.workers j) ≡ some i))
