-- ===== src/Executor/Finish.antt =====
-- What `run_until_future` leaves when its future is done.
use asgire.Prelude.{
  ℕ, zero, suc, ◌<◌, List, [], ◌∷◌, Bool, true, false, ◌≡◌, ◌≢◌, refl, sym, ap, subst, ◌∙◌, arith,
  length, All, =ℕ_iff, if◌then◌else◌,
}
use asgire.Executor.{
  Executor, World, WorkItem, Outcome, FutureState, pending, cancelled, notified, finished, done,
  start_run, Ended, finishes, after_run, loop, run_until_future, mark_done,
}

-- Only a pending or a cancelled future may be run.
abbrev pub Startable : FutureState → Type 0
Startable pending = Unit {0}
Startable cancelled = Unit {0}
Startable _ = ⊥

-- A pending future gets the outcome of its call, a cancelled one is told so.
abbrev pub Settled : FutureState → FutureState → Type 0
Settled pending st = (o : Outcome) × (st ≡ finished o)
Settled cancelled st = st ≡ notified
Settled _ st = ⊥

abbrev pub is_pending : FutureState → Bool
is_pending pending = true
is_pending _ = false

module _ {S : Type 0} where
  -- The user's state after the calls of the items that were not cancelled, in order.
  abbrev pub calls : (ℕ → FutureState) → List (WorkItem S) → S → S
  calls fs [] s = s
  calls fs (x ∷ xs) s = calls fs xs (if is_pending (fs x.future) then (x.fn s).1 else s)

  abbrev pub Apart : ℕ → List (WorkItem S) → Type 0
  Apart f = All (λ y. y.future ≢ f)

  abbrev pub Distinct : List (WorkItem S) → Type 0
  Distinct [] = Unit {0}
  Distinct (x ∷ xs) = Apart x.future xs × Distinct xs

  record Ran1 (st : FutureState) (x : WorkItem S) (w : World S) : Type 0 where
    w' : World S
    ran : start_run st x w ≡ done w'
    settled : Settled st (w'.futures x.future)
    user : w'.user ≡ (if is_pending st then (x.fn w.user).1 else w.user)
    others : (f : ℕ) → x.future ≢ f → w'.futures f ≡ w.futures f

  start_run-Ran1 : (st : FutureState) (x : WorkItem S) (w : World S) → Startable st → Ran1 st x w
  unfolding start_run
  start_run-Ran1 pending x w h = record {
    w' = _;
    ran = refl;
    settled = ((x.fn w.user).0, ground arith);
    user = refl;
    others = λ f ne. ground arith;
  }
  start_run-Ran1 cancelled x w h = record {
    w' = _;
    ran = refl;
    settled = ground arith;
    user = refl;
    others = λ f ne. ground arith;
  }
  start_run-Ran1 _ x w h = absurd h

  abbrev pub quitting : ℕ → List (WorkItem S) → Executor (WorkItem S)
  quitting thread xs = record { work_thread = thread; work_items = xs; is_broken = true }

  -- The loop ends with an empty queue; `fs` gives the futures' states at its beginning.
  pub record Settles (fs : ℕ → FutureState) (thread : ℕ) (xs : List (WorkItem S)) (w : World S)
      (r : Ended S) : Type 0 where
    pub w' : World S
    pub ended : r ≡ finishes (quitting thread []) w'
    pub settled : All (λ y. Settled (fs y.future) (w'.futures y.future)) xs
    pub user : w'.user ≡ calls fs xs w.user
    pub others : (f : ℕ) → Apart f xs → w'.futures f ≡ w.futures f

  abbrev Agree : (ℕ → FutureState) → World S → List (WorkItem S) → Type 0
  Agree fs w = All (λ y. w.futures y.future ≡ fs y.future)

  Agree-others :
      (fs : ℕ → FutureState) (f : ℕ) (w w1 : World S) (xs : List (WorkItem S))
      → ((g : ℕ) → f ≢ g → w1.futures g ≡ w.futures g)
      → Apart f xs
      → Agree fs w xs
      → Agree fs w1 xs
  Agree-others fs f w w1 [] same a h = tt
  Agree-others fs f w w1 (x ∷ xs) same a h =
      (same x.future (λ q. a.0 (sym q)) ∙ h.0, Agree-others fs f w w1 xs same a.1 h.1)

  loop-done :
      (thread fuel : ℕ) (x : WorkItem S) (xs : List (WorkItem S)) (w w1 : World S)
      → start_run (w.futures x.future) x w ≡ done w1
      → loop (suc fuel) (quitting thread (x ∷ xs)) w ≡ loop fuel (quitting thread xs) w1
  unfolding loop
  loop-done thread fuel x xs w w1 h = ap (after_run (loop fuel) (quitting thread xs)) h

  loop-Settles :
      (fs : ℕ → FutureState) (thread : ℕ) (xs : List (WorkItem S)) (fuel : ℕ) (w : World S)
      → length xs < fuel
      → Distinct xs
      → All (λ y. Startable (fs y.future)) xs
      → Agree fs w xs
      → Settles fs thread xs w (loop fuel (quitting thread xs) w)
  loop-Settles fs thread xs zero w lt d st ag = absurd (omega arith)
  loop-Settles fs thread [] (suc fuel) w lt d st ag = record {
    w' = w;
    ended = unfold loop in refl;
    settled = tt;
    user = refl;
    others = λ f a. refl;
  }
  loop-Settles fs thread (x ∷ xs) (suc fuel) w lt d st ag =
      let r1 = start_run-Ran1 (fs x.future) x w st.0 in
      let rest =
        loop-Settles fs thread xs fuel r1.w' (omega arith) d.1 st.1
          (Agree-others fs x.future w r1.w' xs r1.others d.0 ag.1) in
      record {
        w' = rest.w';
        ended =
            loop-done thread fuel x xs w r1.w'
              (subst (λ st'. start_run st' x w ≡ done r1.w') (sym ag.0) r1.ran)
            ∙ rest.ended;
        settled = (
          subst (Settled (fs x.future)) (sym (rest.others x.future d.0)) r1.settled,
          rest.settled,
        );
        user = rest.user ∙ ap (calls fs xs) r1.user;
        others = λ f a. rest.others f a.1 ∙ r1.others f a.0;
      }

  Agree-refl : (w : World S) (xs : List (WorkItem S)) → Agree w.futures w xs
  Agree-refl w [] = tt
  Agree-refl w (x ∷ xs) = (refl, Agree-refl w xs)

  -- On its own thread, with the future done and no other thread at work, `run_until_future` ends
  -- within one round more than there are items, if the items' futures are distinct and each is
  -- pending or cancelled. The queue is then empty; each pending future has an outcome and each
  -- cancelled one is notified; the calls are those of the pending items, in order; no other
  -- future changes.
  pub run_until_future-Settles :
      (thread fuel : ℕ) (e : Executor (WorkItem S)) (w : World S)
      → thread ≡ e.work_thread
      → length e.work_items < fuel
      → Distinct e.work_items
      → All (λ y. Startable (w.futures y.future)) e.work_items
      → Settles w.futures e.work_thread e.work_items w (run_until_future fuel thread true e w)
  unfolding run_until_future mark_done
  run_until_future-Settles thread fuel e w own lt d st =
      rw ((=ℕ_iff thread e.work_thread).1 own) (
        loop-Settles w.futures e.work_thread e.work_items fuel w lt d st
          (Agree-refl w e.work_items))
