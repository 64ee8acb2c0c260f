-- ===== src/Executor/Concurrent.antt =====
-- `run_until_future` on its thread, while other threads submit and the awaited future completes.
-- Each step is one region under the executor's lock, or the run of one item outside of it.
use asgire.Prelude.{
  List, [], ◌∷◌, ◌++◌, true, none, some, ◌≡◌, refl, arith, append_assoc, append-nil, ℕ,
}
use asgire.Executor.{Executor, quits, takes, accept, mark_done, poll, init}

-- Where the waiting thread is.
pub data Runner (A : Type 0) : Type 0 where
  at_lock : Runner A
  at_item : A → Runner A
  returned : Runner A

-- `accepted` and `ran` are the histories of what was put in the queue and of what was run.
pub record System (A : Type 0) : Type 0 where
  pub executor : Executor A
  pub runner : Runner A
  pub accepted : List A
  pub ran : List A

pub data Step {A : Type 0} (s t : System A) : Type 0 where
  submits :
      (x : A) (e : Executor A)
      → accept s.executor x ≡ some e
      → t ≡ record s { executor = e; accepted = s.accepted ++ x ∷ [] }
      → Step s t
  completes : t ≡ record s { executor = mark_done s.executor } → Step s t
  polls :
      (x : A) (e : Executor A)
      → s.runner ≡ at_lock
      → poll s.executor ≡ takes x e
      → t ≡ record s { executor = e; runner = at_item x }
      → Step s t
  runs :
      (x : A)
      → s.runner ≡ at_item x
      → t ≡ record s { runner = at_lock; ran = s.ran ++ x ∷ [] }
      → Step s t
  leaves :
      s.runner ≡ at_lock → poll s.executor ≡ quits → t ≡ record s { runner = returned } → Step s t

pub data Reach {A : Type 0} (s : System A) : System A → Type 0 where
  here : Reach s s
  next : {t u : System A} → Reach s t → Step t u → Reach s u

abbrev pub in_hand : {A : Type 0} → Runner A → List A
in_hand at_lock = []
in_hand (at_item x) = x ∷ []
in_hand returned = []

module _ {A : Type 0} where
  abbrev pub start : ℕ → System A
  start thread = record { executor = init thread; runner = at_lock; accepted = []; ran = [] }

  -- Accepted work is what ran, what is running and what waits, in this order; once the thread has
  -- left, its executor refuses work and has none.
  pub record Inv (s : System A) : Type 0 where
    pub in_order : s.accepted ≡ s.ran ++ (in_hand s.runner ++ s.executor.work_items)
    pub closed : s.runner ≡ returned → (s.executor.is_broken ≡ true) × (s.executor.work_items ≡ [])

  snoc_three : (a b c : List A) (x : A) → (a ++ (b ++ c)) ++ x ∷ [] ≡ a ++ (b ++ (c ++ x ∷ []))
  snoc_three a b c x = simp append_assoc

  submits-Inv :
      (s : System A) (x : A) (e : Executor A)
      → accept s.executor x ≡ some e
      → Inv s
      → Inv (record s { executor = e; accepted = s.accepted ++ x ∷ [] })
  unfolding accept
  submits-Inv s x e h v = record {
    in_order =
        ground (arith, snoc_three s.ran (in_hand s.runner) s.executor.work_items x, v.in_order);
    closed = λ r. ground (arith, v.closed r);
  }

  polls-Inv :
      (s : System A) (x : A) (e : Executor A)
      → s.runner ≡ at_lock
      → poll s.executor ≡ takes x e
      → Inv s
      → Inv (record s { executor = e; runner = at_item x })
  unfolding poll
  polls-Inv s x e r h v = record { in_order = ground (arith, v.in_order); closed = λ q. cc }

  runs-Inv :
      (s : System A) (x : A)
      → s.runner ≡ at_item x
      → Inv s
      → Inv (record s { runner = at_lock; ran = s.ran ++ x ∷ [] })
  runs-Inv s x r v = record {
    in_order = ground (arith, append_assoc s.ran (x ∷ []) s.executor.work_items, v.in_order);
    closed = λ q. cc;
  }

  leaves-Inv :
      (s : System A)
      → s.runner ≡ at_lock
      → poll s.executor ≡ quits
      → Inv s
      → Inv (record s { runner = returned })
  unfolding poll
  leaves-Inv s r h v = record { in_order = ground (arith, v.in_order); closed = λ q. ground arith }

  pub Step-Inv : {s t : System A} → Step s t → Inv s → Inv t
  Step-Inv {s} (submits x e a q) v = rw q (submits-Inv s x e a v)
  Step-Inv {s} (completes q) v =
      rw q
        (unfold mark_done in record { in_order = v.in_order; closed = λ r. (refl, (v.closed r).1) })
  Step-Inv {s} (polls x e r p q) v = rw q (polls-Inv s x e r p v)
  Step-Inv {s} (runs x r q) v = rw q (runs-Inv s x r v)
  Step-Inv {s} (leaves r p q) v = rw q (leaves-Inv s r p v)

  pub start-Inv : (thread : ℕ) → Inv (start thread)
  unfolding init
  start-Inv thread = record { in_order = refl; closed = λ r. cc }

  pub Reach-Inv : {s t : System A} → Reach s t → Inv s → Inv t
  Reach-Inv here v = v
  Reach-Inv (next r st) v = Step-Inv st (Reach-Inv r v)

  -- Whatever other threads do, at every moment the accepted work items are those that ran, in the
  -- order of acceptance, then the one that is running, then those that wait.
  accepted_in_order :
      (thread : ℕ) {t : System A}
      → Reach (start thread) t
      → t.accepted ≡ t.ran ++ (in_hand t.runner ++ t.executor.work_items)
  accepted_in_order thread r = (Reach-Inv r (start-Inv thread)).in_order

  returned-accept :
      {t : System A} → Inv t → t.runner ≡ returned → (x : A) → accept t.executor x ≡ none
  unfolding accept
  returned-accept v r x = ground (arith, v.closed r)

  -- When `run_until_future` has returned, whatever other threads did, every accepted work item has
  -- run, once and in order of acceptance, and no further one is accepted.
  returned_ran_all :
      (thread : ℕ) {t : System A}
      → Reach (start thread) t
      → t.runner ≡ returned
      → (t.ran ≡ t.accepted) × ((x : A) → accept t.executor x ≡ none)
  returned_ran_all thread {t} h r =
      let v = Reach-Inv h (start-Inv thread) in
      (ground (arith, v.in_order, v.closed r, append-nil t.ran), returned-accept v r)
