-- ===== src/TaskExecutor/Invariant/Kept.antt =====
-- The invariant at the start and over every event.
use lunar_terrain_builder.Base.{
  ℕ, zero, suc, ◌<◌, ◌≡◌, ◌≢◌, ◌⊎◌, inl, inr, ◌∙◌, refl, sym, ap, subst, arith, true, Option, none,
  some, List, [], ◌∷◌, length, get_or, replicate, length-replicate, ltb, ltb→lt, Bool-cases,
  some-injective,
}
use lunar_terrain_builder.Error.{Error}
use lunar_terrain_builder.TaskExecutor.{
  Outcome, Worker, Shared, Run, Event, turn, cancel, advance, place, happen, run_events, start,
}
use lunar_terrain_builder.TaskExecutor.Invariant.{index_of, Settled, Claim, Inv}
use lunar_terrain_builder.TaskExecutor.Invariant.Frame.{
  Frame, advance-Frame, held-empty, keep-Claim,
}
use lunar_terrain_builder.TaskExecutor.Invariant.Turn.{
  advance-Claim, advance-index, advance-Settled, advance-takes, advance-IsSound,
}
use native.Mathlib.Decide.{ℕ_discrete}

place_self : (workers : ℕ → Worker) (j : ℕ) (w : Worker) → place workers j w j ≡ w
unfolding place
place_self workers j w = ground arith

place_other :
    (workers : ℕ → Worker) (j k : ℕ) (w : Worker) → j ≢ k → place workers j w k ≡ workers k
unfolding place
place_other workers j k w ne = ground arith

owned : (o : Option ℕ) (i : ℕ) → (o ≡ some i) ⊎ (o ≢ some i)
owned none i = inr (λ q. cc)
owned (some k) i = elim (ℕ_discrete k i) [
  | yes same ↦ inl (ap some same)
  | no other ↦ inr (λ q. other (some-injective k i q))
]

module _ (tasks : List Outcome) (count : ℕ) (r : Run) (v : Inv tasks count r) (j : ℕ)
    (exists' : j < count) where
  abbrev w : Worker
  w = r.workers j

  abbrev w' : Worker
  w' = (advance tasks w r.shared).0

  abbrev s' : Shared
  s' = (advance tasks w r.shared).1

  abbrev after : Run
  after = record { workers = place r.workers j w'; shared = s' }

  frame : Frame w r.shared s'
  frame = advance-Frame tasks r.shared v.sound w (v.claims j)

  apart : (k : ℕ) → j ≢ k → (i : ℕ) → index_of (r.workers k) ≡ some i → index_of w ≢ some i
  apart k ne i held own = ne (v.exclusive j k i own held)

  Claim-after : (k : ℕ) → Claim tasks s' (place r.workers j w' k)
  Claim-after k = elim (ℕ_discrete j k) [
    | yes same ↦
        subst (λ n. Claim tasks s' (place r.workers j w' n)) same
          (subst (Claim tasks s') (sym (place_self r.workers j w'))
            (advance-Claim tasks r.shared v.sound w (v.claims j)))
    | no other ↦ subst (Claim tasks s') (sym (place_other r.workers j k w' other)) (
        keep-Claim tasks r.shared v.sound w (r.workers k) (v.claims j) (apart k other) (v.claims k))
  ]

  -- What a worker holds after the turn of `j` it held before, or `j` has just taken it.
  holder_before :
      (k i : ℕ)
      → index_of (place r.workers j w' k) ≡ some i
      → (index_of (r.workers k) ≡ some i) ⊎ (j ≡ k) × (i ≡ r.shared.next_task)
  holder_before k i e = elim (ℕ_discrete j k) [
    | no other ↦ inl (ap index_of (sym (place_other r.workers j k w' other)) ∙ e)
    | yes same ↦
        let own : index_of w' ≡ some i =
          ap index_of (sym (place_self r.workers j w'))
          ∙ ap (λ n. index_of (place r.workers j w' n)) same
          ∙ e in
        elim (advance-index tasks r.shared v.sound w i own) [
          | inl held ↦ inl (ap (λ n. index_of (r.workers n)) (sym same) ∙ held)
          | inr (idle, next) ↦ inr (same, next)
        ]
  ]

  exclusive_after :
      (k l i : ℕ)
      → index_of (place r.workers j w' k) ≡ some i
      → index_of (place r.workers j w' l) ≡ some i
      → k ≡ l
  exclusive_after k l i e f = elim (holder_before k i e) [
    | inl held ↦ elim (holder_before l i f) [
      | inl held' ↦ v.exclusive k l i held held'
      | inr (same, next) ↦
          absurd
            (omega (arith, (held-empty tasks r.shared v.sound (r.workers k) i (v.claims k) held).1))
    ]
    | inr (same, next) ↦ elim (holder_before l i f) [
      | inl held' ↦
          absurd (
            omega (arith, (held-empty tasks r.shared v.sound (r.workers l) i (v.claims l) held').1))
      | inr (same', next') ↦ sym same ∙ same'
    ]
  ]

  Settled-after : (i : ℕ) → index_of w ≢ some i → Settled tasks r.shared i → Settled tasks s' i
  Settled-after i ne (inl (called, recorded)) =
      inl ((frame.elsewhere i ne).0 ∙ called, (frame.elsewhere i ne).1 ∙ recorded)
  Settled-after i ne (inr (asked, recorded)) =
      inr (frame.cancel_grows asked, (frame.elsewhere i ne).1 ∙ recorded)

  holds_after : (i : ℕ) → index_of w' ≡ some i → index_of (place r.workers j w' j) ≡ some i
  holds_after i e = ap index_of (place_self r.workers j w') ∙ e

  accounted_after :
      (i : ℕ)
      → i < s'.next_task
      → i < length tasks
      → Settled tasks s' i ⊎ ((k : ℕ) × (k < count) × (index_of (place r.workers j w' k) ≡ some i))
  accounted_after i h t = elim (advance-takes tasks r.shared v.sound w i h t) [
    | inr taken ↦ inr (j, exists', holds_after i taken)
    | inl before ↦ elim (owned (index_of w) i) [
      | inl own ↦ elim (advance-Settled tasks r.shared v.sound w i (v.claims j) own) [
        | inl settled ↦ inl settled
        | inr held ↦ inr (j, exists', holds_after i held)
      ]
      | inr ne ↦ elim (v.accounted i before t) [
        | inl settled ↦ inl (Settled-after i ne settled)
        | inr (k, below, held) ↦
            let other : j ≢ k = λ same. ne (ap (λ n. index_of (r.workers n)) same ∙ held) in
            inr (k, below, ap index_of (place_other r.workers j k w' other) ∙ held)
      ]
    ]
  ]

  turn-Inv : Inv tasks count after
  turn-Inv = record {
    sound = advance-IsSound tasks r.shared v.sound w (v.claims j);
    claims = Claim-after;
    exclusive = exclusive_after;
    accounted = accounted_after;
  }

-- The caller's stop request keeps what the workers rely on.
cancel-Claim :
    (tasks : List Outcome) (s : Shared) (w : Worker)
    → Claim tasks s w
    → Claim tasks (record s { cancelled = true }) w
cancel-Claim tasks s Worker.looping c = tt
cancel-Claim tasks s Worker.fetching c = tt
cancel-Claim tasks s (Worker.polling i) c = record {
  before = c.before;
  task = c.task;
  uncalled = c.uncalled;
  empty = c.empty;
}
cancel-Claim tasks s (Worker.calling i) c = record {
  before = c.before;
  task = c.task;
  uncalled = c.uncalled;
  empty = c.empty;
}
cancel-Claim tasks s (Worker.recording i e) c = record {
  before = c.before;
  task = c.task;
  empty = c.empty;
  cause = elim c.cause [ inl failed ↦ inl failed | inr (asked, same) ↦ inr (refl, same) ];
}
cancel-Claim tasks s Worker.stopping c = c
cancel-Claim tasks s Worker.left c = c

cancel-Inv :
    (tasks : List Outcome) (count : ℕ) (r : Run)
    → Inv tasks count r
    → Inv tasks count (record r { shared = record r.shared { cancelled = true } })
cancel-Inv tasks count r v = record {
  sound = record {
    counted = v.sound.counted;
    fresh = v.sound.fresh;
    sized = v.sound.sized;
    stopped = v.sound.stopped;
  };
  claims = λ j. cancel-Claim tasks r.shared (r.workers j) (v.claims j);
  exclusive = v.exclusive;
  accounted = λ i h t. elim (v.accounted i h t) [
    | inl (inl called) ↦ inl (inl called)
    | inl (inr (asked, recorded)) ↦ inl (inr (refl, recorded))
    | inr held ↦ inr held
  ];
}

pub happen-Inv :
    (tasks : List Outcome) (count : ℕ) (e : Event) (r : Run)
    → Inv tasks count r
    → Inv tasks count (happen tasks count e r)
unfolding happen
happen-Inv tasks count (turn j) r v = elim (Bool-cases (ltb j count)) [
  | inl exists' ↦ rw exists' (turn-Inv tasks count r v j (ltb→lt j count exists'))
  | inr absent ↦ rw absent v
]
happen-Inv tasks count cancel r v = cancel-Inv tasks count r v

get_or-replicate : (n i : ℕ) → ◌≡◌ {A = Option Error} (get_or (replicate n none) i none) none
get_or-replicate zero i = refl
get_or-replicate (suc n) zero = refl
get_or-replicate (suc n) (suc i) = get_or-replicate n i

pub start-Inv : (tasks : List Outcome) (count : ℕ) → Inv tasks count (start tasks)
unfolding start
start-Inv tasks count = record {
  sound = record {
    counted = λ i. omega arith;
    fresh = λ i h. (refl, get_or-replicate (length tasks) i);
    sized = length-replicate (length tasks) none;
    stopped = λ h. cc;
  };
  claims = λ j. tt;
  exclusive = λ j k i e f. cc;
  accounted = λ i h t. absurd (omega arith);
}

-- Whatever happens, in whatever order.
pub run_events-Inv :
    (tasks : List Outcome) (count : ℕ) (events : List Event) (r : Run)
    → Inv tasks count r
    → Inv tasks count (run_events tasks count events r)
unfolding run_events
run_events-Inv tasks count [] r v = v
run_events-Inv tasks count (e ∷ events) r v =
    run_events-Inv tasks count events (happen tasks count e r) (happen-Inv tasks count e r v)
