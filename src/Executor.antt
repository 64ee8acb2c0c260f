-- ===== src/Executor.antt =====
-- asgiref/current_thread_executor.py: work items, the executor and its stack of older executors.
-- A chain of executors is the list of an executor, its `_old_executor`, and so on. What is done
-- under an executor's lock is one function: `accept`, `poll`, `mark_done`.
pub mod Submit
pub mod Concurrent
pub mod Finish
pub mod Progress
pub mod Waiting
pub mod Thread
mod Tests
use asgire.Prelude.{
  ℕ, zero, suc, List, [], ◌∷◌, ◌++◌, Bool, true, false, Option, none, some, map, ◌=ℕ◌,
  if◌then◌else◌,
}

-- What a call comes to: Python objects are known by a number.
pub data Outcome : Type 0 where
  returns : ℕ → Outcome
  raises : ℕ → Outcome

-- The states of a `concurrent.futures.Future`.
pub data FutureState : Type 0 where
  pending running cancelled notified : FutureState
  finished : Outcome → FutureState

pub record World (S : Type 0) : Type 0 where
  pub futures : ℕ → FutureState
  pub user : S

-- The call `fn(*args, **kwargs)` acts on the user's part of the world.
pub record WorkItem (S : Type 0) : Type 0 where
  pub future : ℕ
  pub fn : S → Outcome × S

-- A run that was cancelled in time only notifies; a future in any other state than pending is
-- the `RuntimeError` of `set_running_or_notify_cancel`.
pub data Ran (S : Type 0) : Type 0 where
  done : World S → Ran S
  unexpected : World S → Ran S

module _ {S : Type 0} where
  abbrev pub set_future : ℕ → FutureState → World S → World S
  set_future f st w = record w { futures = λ g. if f =ℕ g then st else w.futures g }

  call_fn : WorkItem S → World S → World S
  call_fn item w =
      let (o, s) = item.fn w.user in
      set_future item.future (finished o) (record (set_future item.future running w) { user = s })

  start_run : FutureState → WorkItem S → World S → Ran S
  unfolding call_fn
  start_run pending item w = done (call_fn item w)
  start_run cancelled item w = done (set_future item.future notified w)
  start_run running item w = unexpected w
  start_run notified item w = unexpected w
  start_run (finished o) item w = unexpected w

  pub run : WorkItem S → World S → Ran S
  unfolding start_run
  run item w = start_run (w.futures item.future) item w

-- The executor's own fields. The items are the deque, oldest first.
pub record Executor (A : Type 0) : Type 0 where
  pub work_thread : ℕ
  pub work_items : List A
  pub is_broken : Bool

pub data Submitted (A : Type 0) : Type 0 where
  submitted : List (Executor A) → Submitted A
  own_thread : Submitted A
  all_broken : Submitted A

-- What the waiting thread finds under the lock.
pub data Poll (A : Type 0) : Type 0 where
  waits : Poll A
  quits : Poll A
  takes : A → Executor A → Poll A

module _ {A : Type 0} where
  unfoldable pub init : ℕ → Executor A
  init thread = record { work_thread = thread; work_items = []; is_broken = false }

  unfoldable pub accept : Executor A → A → Option (Executor A)
  accept e x = if e.is_broken then none else some (record e { work_items = e.work_items ++ x ∷ [] })

  abbrev pub pushed : Executor A → Submitted A → Submitted A
  pushed e (submitted chain) = submitted (e ∷ chain)
  pushed e own_thread = own_thread
  pushed e all_broken = all_broken

  unfoldable pub walk : List (Executor A) → A → Submitted A
  unfolding accept
  walk [] x = all_broken
  walk (e ∷ olds) x =
      let up = pushed e (walk olds x) in
      elim (accept e x) [ some e' ↦ submitted (e' ∷ olds) | none ↦ up ]

  unfoldable pub submit : ℕ → Executor A → List (Executor A) → A → Submitted A
  submit thread e olds x = if thread =ℕ e.work_thread then own_thread else walk (e ∷ olds) x

  -- The callback that `run_until_future` hangs on its future.
  unfoldable pub mark_done : Executor A → Executor A
  mark_done e = record e { is_broken = true }

  poll_items : List A → Executor A → Poll A
  poll_items [] e = if e.is_broken then quits else waits
  poll_items (x ∷ rest) e = takes x (record e { work_items = rest })

  unfoldable pub poll : Executor A → Poll A
  unfolding poll_items
  poll e = poll_items e.work_items e

-- How `run_until_future` ends, with the executor and the world that it leaves.
pub data Ended (S : Type 0) : Type 0 where
  finishes : Executor (WorkItem S) → World S → Ended S
  wrong_thread : Ended S
  fails : Executor (WorkItem S) → World S → Ended S
  blocks : Executor (WorkItem S) → World S → Ended S
  out_of_fuel : Ended S

module _ {S : Type 0} where
  after_run : (Executor (WorkItem S) → World S → Ended S) → Executor (WorkItem S) → Ran S → Ended S
  after_run again e (done w) = again e w
  after_run again e (unexpected w) = fails e w

  -- The loop, with no other thread at work: a wait that nobody ends blocks.
  pub loop : ℕ → Executor (WorkItem S) → World S → Ended S
  unfolding after_run poll run
  loop zero e w = out_of_fuel
  loop (suc fuel) e w = elim (poll e) [
    | waits ↦ blocks e w
    | quits ↦ finishes e w
    | takes x e' ↦ after_run (loop fuel) e' (run x w)
  ]

  -- The thread check, then the loop; `future_done` says whether the future was done on entry,
  -- when `add_done_callback` calls at once.
  pub run_until_future : ℕ → ℕ → Bool → Executor (WorkItem S) → World S → Ended S
  unfolding loop
  run_until_future fuel thread future_done e w =
      if thread =ℕ e.work_thread
      then loop fuel (if future_done then mark_done e else e) w
      else wrong_thread
