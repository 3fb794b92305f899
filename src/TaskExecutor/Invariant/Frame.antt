-- ===== src/TaskExecutor/Invariant/Frame.antt =====
-- What one turn of one worker leaves alone, and so what the other workers may still rely on.
use lunar_terrain_builder.Base.{
  ℕ, ◌+◌, ◌≤◌, ◌<◌, ◌≡◌, ◌≢◌, inl, inr, ◌∙◌, refl, sym, ap, arith, true, Option, none, some, List,
  length, get_or, set, get_or-set, some-injective,
}
use lunar_terrain_builder.Error.{Error}
use lunar_terrain_builder.TaskExecutor.{Outcome, Worker, Shared, bump, advance}
use lunar_terrain_builder.TaskExecutor.Invariant.{
  index_of, slot, Failed, Pending, Caught, Claim, IsSound,
}

-- What a turn of `w` leaves alone.
pub record Frame (w : Worker) (s s' : Shared) : Type 0 where
  pub next_grows : s.next_task ≤ s'.next_task
  pub stop_grows : s.failure_stop ≡ true → s'.failure_stop ≡ true
  pub cancel_grows : s.cancelled ≡ true → s'.cancelled ≡ true
  pub elsewhere : (i : ℕ) → index_of w ≢ some i → (s'.calls i ≡ s.calls i) × (slot s' i ≡ slot s i)

pub set-slot :
    (s : Shared) (i : ℕ) (v : Option Error) (k : ℕ)
    → i < length s.failures
    → i ≢ k
    → get_or (set s.failures i v) k none ≡ slot s k
set-slot s i v k h ne = ground (arith, get_or-set s.failures i k v none h)

pub set-slot_self :
    (s : Shared) (i : ℕ) (v : Option Error)
    → i < length s.failures
    → get_or (set s.failures i v) i none ≡ v
set-slot_self s i v h = ground (arith, get_or-set s.failures i i v none h)

pub bump_other : (calls : ℕ → ℕ) (i k : ℕ) → i ≢ k → bump calls i k ≡ calls k
unfolding bump
bump_other calls i k ne = ground arith

pub bump_self : (calls : ℕ → ℕ) (i : ℕ) → bump calls i i ≡ calls i + 1
unfolding bump
bump_self calls i = ground arith

module _ (tasks : List Outcome) (s : Shared) (v : IsSound tasks s) where
  pub advance-Frame : (w : Worker) → Claim tasks s w → Frame w s (advance tasks w s).1
  unfolding advance
  advance-Frame Worker.looping c = record {
    next_grows = omega arith;
    stop_grows = λ h. h;
    cancel_grows = λ h. h;
    elsewhere = λ i ne. (refl, refl);
  }
  advance-Frame Worker.fetching c = record {
    next_grows = omega arith;
    stop_grows = λ h. h;
    cancel_grows = λ h. h;
    elsewhere = λ i ne. (refl, refl);
  }
  advance-Frame (Worker.polling i) c = record {
    next_grows = omega arith;
    stop_grows = λ h. h;
    cancel_grows = λ h. h;
    elsewhere = λ i ne. (refl, refl);
  }
  advance-Frame (Worker.calling i) c = record {
    next_grows = omega arith;
    stop_grows = λ h. h;
    cancel_grows = λ h. h;
    elsewhere = λ k ne. (bump_other s.calls i k (λ e. ne (ap some e)), refl);
  }
  advance-Frame (Worker.recording i e) c = record {
    next_grows = omega arith;
    stop_grows = λ h. h;
    cancel_grows = λ h. h;
    elsewhere = λ k ne.
        (refl, set-slot s i (some e) k (omega (arith, c.task, v.sized)) (λ q. ne (ap some q)));
  }
  advance-Frame Worker.stopping c = record {
    next_grows = omega arith;
    stop_grows = λ h. refl;
    cancel_grows = λ h. h;
    elsewhere = λ i ne. (refl, refl);
  }
  advance-Frame Worker.left c = record {
    next_grows = omega arith;
    stop_grows = λ h. h;
    cancel_grows = λ h. h;
    elsewhere = λ i ne. (refl, refl);
  }

  -- The slot of the task that a worker holds is empty.
  pub held-empty :
      (w : Worker) (i : ℕ)
      → Claim tasks s w
      → index_of w ≡ some i
      → (slot s i ≡ none) × (i < s.next_task)
  held-empty (Worker.polling i) k c e =
      let q = some-injective i k e in (ap (slot s) (sym q) ∙ c.empty, omega (arith, c.before))
  held-empty (Worker.calling i) k c e =
      let q = some-injective i k e in (ap (slot s) (sym q) ∙ c.empty, omega (arith, c.before))
  held-empty (Worker.recording i x) k c e =
      let q = some-injective i k e in (ap (slot s) (sym q) ∙ c.empty, omega (arith, c.before))
  held-empty Worker.looping k c e = cc
  held-empty Worker.fetching k c e = cc
  held-empty Worker.stopping k c e = cc
  held-empty Worker.left k c e = cc

  -- A turn keeps what the other workers rely on.
  module _ (w v' : Worker) (c : Claim tasks s w)
      (apart : (i : ℕ) → index_of v' ≡ some i → index_of w ≢ some i) where
    frame : Frame w s (advance tasks w s).1
    frame = advance-Frame w c

    pub keep-Failed : Failed s → Failed (advance tasks w s).1
    keep-Failed (k, e, before, caught) =
        let other : index_of w ≢ some k = λ q. cc (caught, (held-empty w k c q).0) in
        (k, e, omega (arith, before, frame.next_grows), (frame.elsewhere k other).1 ∙ caught)

    keep-Pending :
        (i : ℕ) → index_of v' ≡ some i → Pending tasks s i → Pending tasks (advance tasks w s).1 i
    keep-Pending i e p = record {
      before = omega (arith, p.before, frame.next_grows);
      task = p.task;
      uncalled = (frame.elsewhere i (apart i e)).0 ∙ p.uncalled;
      empty = (frame.elsewhere i (apart i e)).1 ∙ p.empty;
    }

    keep-Caught :
        (i : ℕ) (x : Error)
        → index_of v' ≡ some i
        → Caught tasks s i x
        → Caught tasks (advance tasks w s).1 i x
    keep-Caught i x e p = record {
      before = omega (arith, p.before, frame.next_grows);
      task = p.task;
      empty = (frame.elsewhere i (apart i e)).1 ∙ p.empty;
      cause = elim p.cause [
        | inl (called, failed) ↦ inl ((frame.elsewhere i (apart i e)).0 ∙ called, failed)
        | inr (asked, same) ↦ inr (frame.cancel_grows asked, same)
      ];
    }

  pub keep-Claim :
      (w v' : Worker)
      → Claim tasks s w
      → ((i : ℕ) → index_of v' ≡ some i → index_of w ≢ some i)
      → Claim tasks s v'
      → Claim tasks (advance tasks w s).1 v'
  keep-Claim w Worker.looping c apart d = tt
  keep-Claim w Worker.fetching c apart d = tt
  keep-Claim w (Worker.polling i) c apart d = keep-Pending w (Worker.polling i) c apart i refl d
  keep-Claim w (Worker.calling i) c apart d = keep-Pending w (Worker.calling i) c apart i refl d
  keep-Claim w (Worker.recording i e) c apart d =
      keep-Caught w (Worker.recording i e) c apart i e refl d
  keep-Claim w Worker.stopping c apart d = keep-Failed w Worker.stopping c apart d
  keep-Claim w Worker.left c apart (inl asked) = inl ((advance-Frame w c).stop_grows asked)
  keep-Claim w Worker.left c apart (inr past) =
      inr (omega (arith, past, (advance-Frame w c).next_grows))
