-- ===== src/Executor/Progress.antt =====
-- The waiting thread's own steps once the awaited future of `run_until_future` is done, while other
-- threads go on.
use asgire.Prelude.{List, [], ◌∷◌, true, ◌≡◌, refl, arith, ℕ, ◌+◌, ◌*◌, ◌≤◌, length}
use asgire.Executor.{accept, mark_done, poll}
use asgire.Executor.Concurrent.{
  Runner, at_lock, at_item, returned, System, Step, submits, completes, polls, runs, leaves, Reach,
  here, next,
}

-- The steps of the waiting thread count, those of the others do not.
abbrev pub own : {A : Type 0} → {s t : System A} → Step s t → ℕ
own (submits x e a q) = 0
own (completes q) = 0
own (polls x e r p q) = 1
own (runs x r q) = 1
own (leaves r p q) = 1

abbrev pub own_steps : {A : Type 0} → {s t : System A} → Reach s t → ℕ
own_steps here = 0
own_steps (next r st) = own_steps r + own st

-- How many steps the thread has left: two for each item, and one to leave.
abbrev pub left_at : {A : Type 0} → Runner A → ℕ
left_at at_lock = 1
left_at (at_item x) = 2
left_at returned = 0

abbrev pub left : {A : Type 0} → System A → ℕ
left s = 2 * length s.executor.work_items + left_at s.runner

-- The thread can take a step of its own.
pub data CanStep {A : Type 0} (s : System A) : Type 0 where
  can : (t : System A) (st : Step s t) → own st ≡ 1 → CanStep s

-- The thread has left, or can take a step of its own.
pub data CanGoOn {A : Type 0} (s : System A) : Type 0 where
  has_returned : s.runner ≡ returned → CanGoOn s
  goes_on : CanStep s → CanGoOn s

module _ {A : Type 0} where
  Step-left :
      {s t : System A} (st : Step s t)
      → s.executor.is_broken ≡ true
      → (t.executor.is_broken ≡ true) × (own st + left t ≤ left s)
  unfolding accept poll mark_done
  Step-left {s} (submits x e a q) b = absurd (ground arith)
  Step-left {s} (completes q) b = rw q (refl, omega arith)
  Step-left {s} (polls x e r p q) b = rw q (ground arith, ground arith)
  Step-left {s} (runs x r q) b = rw q (b, ground arith)
  Step-left {s} (leaves r p q) b = rw q (b, ground arith)

  Reach-left :
      {s t : System A} (r : Reach s t)
      → s.executor.is_broken ≡ true
      → (t.executor.is_broken ≡ true) × (own_steps r + left t ≤ left s)
  Reach-left here b = (b, omega arith)
  Reach-left (next r st) b =
      let (c, h) = Reach-left r b in let (d, g) = Step-left st c in (d, omega (arith, h, g))

  pub polls_next :
      (s : System A) (x : A) (rest : List A)
      → s.runner ≡ at_lock
      → s.executor.work_items ≡ x ∷ rest
      → CanStep s
  unfolding poll
  polls_next s x rest q h =
      can _ (polls x (record s.executor { work_items = rest }) q (rw h refl) refl) refl

  pub runs_next : (s : System A) (x : A) → s.runner ≡ at_item x → CanStep s
  runs_next s x q = can _ (runs x q refl) refl

  can_poll :
      (s : System A) (items : List A)
      → s.runner ≡ at_lock
      → s.executor.work_items ≡ items
      → s.executor.is_broken ≡ true
      → CanStep s
  can_poll s [] q h b = can _ (leaves q (unfold poll in rw (h, b) refl) refl) refl
  can_poll s (x ∷ rest) q h b = polls_next s x rest q h

  can_go_on : (s : System A) (r : Runner A) → s.runner ≡ r → s.executor.is_broken ≡ true → CanGoOn s
  can_go_on s at_lock q b = goes_on (can_poll s s.executor.work_items q refl b)
  can_go_on s (at_item x) q b = goes_on (runs_next s x q)
  can_go_on s returned q b = has_returned q

  left_at_max : (r : Runner A) → left_at r ≤ 2
  left_at_max at_lock = omega arith
  left_at_max (at_item x) = omega arith
  left_at_max returned = omega arith

  -- Once the awaited future is done, whatever other threads do: the waiting thread takes at most
  -- two steps for each item that is in the queue and two more, and until it has returned it can
  -- take one.
  pub returns_in_time :
      {s t : System A} (r : Reach s t)
      → s.executor.is_broken ≡ true
      → (own_steps r ≤ 2 * length s.executor.work_items + 2) × CanGoOn t
  returns_in_time {s} {t} r b =
      let (c, h) = Reach-left r b in
      (omega (arith, h, left_at_max s.runner), can_go_on t t.runner refl c)
