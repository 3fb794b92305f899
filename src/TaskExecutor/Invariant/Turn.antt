-- ===== src/TaskExecutor/Invariant/Turn.antt =====
-- One turn of one worker: what it changes, and what it may rely on afterwards.
use lunar_terrain_builder.Base.{
  ℕ, ◌<◌, ◌≡◌, ◌⊎◌, inl, inr, ◌∙◌, refl, sym, ap, subst, arith, none, some, List, length,
  length-set, ltb, ltb→lt, Bool-cases, Option-cases, some-injective, if◌then◌else◌,
}
use lunar_terrain_builder.TaskExecutor.{
  Outcome, Worker, Shared, cancelled_error, after_call, advance,
}
use lunar_terrain_builder.TaskExecutor.Invariant.{index_of, outcome, Settled, Claim, IsSound}
use native.Mathlib.Decide.{ℕ_discrete}
use lunar_terrain_builder.TaskExecutor.Invariant.Frame.{
  set-slot, set-slot_self, bump_other, bump_self, keep-Failed,
}

module _ (tasks : List Outcome) (s : Shared) (v : IsSound tasks s) where
  -- The worker itself relies on what it needs in its new place.
  pub advance-Claim :
      (w : Worker) → Claim tasks s w → Claim tasks (advance tasks w s).1 (advance tasks w s).0
  unfolding advance
  advance-Claim Worker.looping c = elim (Bool-cases s.failure_stop) [
    | inl asked ↦ rw asked (inl refl)
    | inr going ↦ rw going tt
  ]
  advance-Claim Worker.fetching c = elim (Bool-cases (ltb s.next_task (length tasks))) [
    | inl more ↦ rw more (record {
      before = omega arith;
      task = ltb→lt _ _ more;
      uncalled = (v.fresh s.next_task (omega arith)).0;
      empty = (v.fresh s.next_task (omega arith)).1;
    })
    | inr none_left ↦ rw none_left (inr (ground arith))
  ]
  advance-Claim (Worker.polling i) c = elim (Bool-cases s.cancelled) [
    | inl asked ↦
        rw asked
          (record { before = c.before; task = c.task; empty = c.empty; cause = inr (refl, refl) })
    | inr going ↦
        let e : (if s.cancelled then Worker.recording i cancelled_error else Worker.calling i)
            ≡ Worker.calling i =
          rw going refl in
        subst (Claim tasks s) (sym e) c
  ]
  advance-Claim (Worker.calling i) c = elim (Option-cases (outcome tasks i)) [
    | inl fine ↦ rw (fine, after_call) tt
    | inr (e, failed) ↦
        rw (failed, after_call)
          (record {
            before = c.before;
            task = c.task;
            empty = c.empty;
            cause = inl (omega (arith, bump_self s.calls i, c.uncalled), failed);
          })
  ]
  advance-Claim (Worker.recording i e) c =
      (i, e, c.before, set-slot_self s i (some e) (omega (arith, c.task, v.sized)))
  advance-Claim Worker.stopping c = inl refl
  advance-Claim Worker.left c = c

  -- The task that the worker holds afterwards is the one from before, or the next one.
  pub advance-index :
      (w : Worker) (i : ℕ)
      → index_of (advance tasks w s).0 ≡ some i
      → (index_of w ≡ some i) ⊎ (index_of w ≡ none) × (i ≡ s.next_task)
  unfolding advance
  advance-index Worker.looping i e = absurd (ground arith)
  advance-index Worker.fetching i e = ground arith
  advance-index (Worker.polling k) i e = ground arith
  advance-index (Worker.calling k) i e = elim (Option-cases (outcome tasks k)) [
    | inl fine ↦ absurd (none-some (rw (fine, after_call) at e))
    | inr (x, failed) ↦ inl (rw (failed, after_call) at e)
  ]
    where
      none-some : none ≡ some i → ⊥
      none-some h = cc
  advance-index (Worker.recording k x) i e = cc
  advance-index Worker.stopping i e = cc
  advance-index Worker.left i e = cc

  -- The task that the worker held is held still, or settled.
  pub advance-Settled :
      (w : Worker) (i : ℕ)
      → Claim tasks s w
      → index_of w ≡ some i
      → Settled tasks (advance tasks w s).1 i ⊎ (index_of (advance tasks w s).0 ≡ some i)
  unfolding advance
  advance-Settled Worker.looping i c e = cc
  advance-Settled Worker.fetching i c e = cc
  advance-Settled (Worker.polling k) i c e = inr (ground arith)
  advance-Settled (Worker.calling k) i c e = elim (Option-cases (outcome tasks k)) [
    | inl fine ↦
        let same = some-injective k i e in
        inl (rw (← same) (inl (omega (arith, bump_self s.calls k, c.uncalled), c.empty ∙ sym fine)))
    | inr (x, failed) ↦ inr (rw (failed, after_call) e)
  ]
  advance-Settled (Worker.recording k x) i c e =
      let same = some-injective k i e in
      let written = set-slot_self s k (some x) (omega (arith, c.task, v.sized)) in
      inl (
        rw (← same) (elim c.cause [
          | inl (called, failed) ↦ inl (called, written ∙ sym failed)
          | inr (asked, given_up) ↦ inr (asked, written ∙ ap some given_up)
        ]))
  advance-Settled Worker.stopping i c e = cc
  advance-Settled Worker.left i c e = cc

  -- A task that the worker takes is held by it.
  pub advance-takes :
      (w : Worker) (i : ℕ)
      → i < (advance tasks w s).1.next_task
      → i < length tasks
      → (i < s.next_task) ⊎ (index_of (advance tasks w s).0 ≡ some i)
  unfolding advance
  advance-takes Worker.looping i h t = inl h
  advance-takes Worker.fetching i h t = ground arith
  advance-takes (Worker.polling k) i h t = inl h
  advance-takes (Worker.calling k) i h t = inl h
  advance-takes (Worker.recording k x) i h t = inl h
  advance-takes Worker.stopping i h t = inl h
  advance-takes Worker.left i h t = inl h

  -- The shared variables stay sound.
  pub advance-IsSound : (w : Worker) → Claim tasks s w → IsSound tasks (advance tasks w s).1
  unfolding advance
  advance-IsSound Worker.looping c = v
  advance-IsSound Worker.fetching c = record {
    counted = v.counted;
    fresh = λ i h. v.fresh i (omega arith);
    sized = v.sized;
    stopped = λ h. let (k, e, before, caught) = v.stopped h in (k, e, omega arith, caught);
  }
  advance-IsSound (Worker.polling i) c = v
  advance-IsSound (Worker.calling i) c = record {
    counted = λ k. elim (ℕ_discrete i k) [
      | yes same ↦ rw (← same) (omega (arith, bump_self s.calls i, c.uncalled))
      | no other ↦ rw (bump_other s.calls i k other) (v.counted k)
    ];
    fresh = λ k h.
        (bump_other s.calls i k (λ q. omega (arith, c.before)) ∙ (v.fresh k h).0, (v.fresh k h).1);
    sized = v.sized;
    stopped = v.stopped;
  }
  advance-IsSound (Worker.recording i e) c = record {
    counted = v.counted;
    fresh = λ k h. (
      (v.fresh k h).0,
      set-slot s i (some e) k (omega (arith, c.task, v.sized)) (λ q. omega (arith, c.before))
          ∙ (v.fresh k h).1,
    );
    sized = omega (arith, v.sized, length-set {0} s.failures i (some e));
    stopped = λ h.
        keep-Failed tasks s v (Worker.recording i e) Worker.looping c
          (λ k q. absurd (none-some k q)) (v.stopped h);
  }
    where
      none-some : (k : ℕ) → none ≡ some k → ⊥
      none-some k h = cc
  advance-IsSound Worker.stopping c = record {
    counted = v.counted;
    fresh = v.fresh;
    sized = v.sized;
    stopped = λ h. c;
  }
  advance-IsSound Worker.left c = v
