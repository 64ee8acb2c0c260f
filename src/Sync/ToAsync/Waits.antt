-- ===== src/Sync/ToAsync/Waits.antt =====
-- How the wait of a SyncToAsync call ends, with and without a cancellation.
use asgire.Prelude.{ℕ, List, [], ◌∷◌, true, false, Bool, ◌≡◌, refl, sym, subst}
use asgire.Prelude.Result.{ok}
use asgire.Local.{CValue, Context}
use asgire.Sync.Wrap.{cancelled_error, index_error, other, Outcome, returned, raised}
use asgire.Sync.ToAsync.{
  Run, task, worker_future, End, run_child, wait, wait_by, after_inner, cancel_inner, take_task,
}

module _ {V : Type 0} (is_local : ℕ → Bool) (same : CValue V → CValue V → Bool) (run : Run V)
    (context : Context V) where
  -- The function's own outcome and context.
  abbrev Own : End V → Type 0
  Own e =
      (e.outcome ≡ (run_child is_local same run context).0)
      × (e.context ≡ (run_child is_local same run context).1)

  -- After a first task that returns, by whether the caller is cancelled again.
  abbrev pub OfReturn : ℕ → Bool → End V → Type 0
  OfReturn t false e = Own e × (e.log ≡ task t ∷ [])
  OfReturn t true e = (e.outcome ≡ raised cancelled_error) × (e.log ≡ task t ∷ worker_future ∷ [])

  -- How a wait ends that is interrupted before the worker is done, by how the first inner task
  -- ends when it is cancelled.
  abbrev pub OfTask : ℕ → Outcome → End V → Type 0
  OfTask t (returned v) e = OfReturn t run.is_interrupted_again e
  OfTask t (raised (other x)) e = (e.outcome ≡ raised (other x)) × (e.log ≡ task t ∷ [])
  OfTask t (raised cancelled_error) e =
      (e.outcome ≡ raised cancelled_error) × (e.log ≡ task t ∷ worker_future ∷ [])
  OfTask t (raised index_error) e =
      (e.outcome ≡ raised cancelled_error) × (e.log ≡ task t ∷ worker_future ∷ [])

  abbrev pub OfTasks : List ℕ → End V → Type 0
  OfTasks [] e = (e.outcome ≡ raised cancelled_error) × (e.log ≡ worker_future ∷ [])
  OfTasks (t ∷ ts) e = OfTask t (run.task_end t) e

  abbrev pub Ended : Bool → End V → Type 0
  Ended false e = Own e × (e.log ≡ [])
  Ended true e = OfTasks run.tasks e

  after_return-OfReturn :
      (t : ℕ) (again : Bool)
      → run.is_interrupted_again ≡ again
      → OfReturn t again (after_inner is_local same false run context (task t ∷ [], ok false))
  unfolding after_inner
  after_return-OfReturn t false h = rw h ((refl, refl), refl)
  after_return-OfReturn t true h = rw h (refl, refl)

  after_task-OfTask :
      (t : ℕ) (o : Outcome)
      → OfTask t o (after_inner is_local same false run context (task t ∷ [], take_task o))
  unfolding after_inner take_task
  after_task-OfTask t (returned v) = after_return-OfReturn t run.is_interrupted_again refl
  after_task-OfTask t (raised cancelled_error) = (refl, refl)
  after_task-OfTask t (raised index_error) = (refl, refl)
  after_task-OfTask t (raised (other x)) = (refl, refl)

  after_inner-OfTasks :
      (ts : List ℕ)
      → OfTasks ts (after_inner is_local same false run context (cancel_inner ts run.task_end))
  unfolding cancel_inner
  after_inner-OfTasks [] = unfold after_inner in (refl, refl)
  after_inner-OfTasks (t ∷ ts) = after_task-OfTask t (run.task_end t)

  wait_by-Ended :
      (interrupted : Bool)
      → run.is_done ≡ false
      → Ended interrupted (wait_by is_local same interrupted run context)
  unfolding wait_by
  wait_by-Ended false d = ((refl, refl), refl)
  wait_by-Ended true d =
      subst
        (λ b.
          OfTasks run.tasks
            (after_inner is_local same b run context (cancel_inner run.tasks run.task_end)))
        (sym d) (after_inner-OfTasks run.tasks)

  -- While the worker is not done: without an interruption, the wait of a call ends with the
  -- function's own outcome and context, and nothing is cancelled. With one, the first task of an
  -- AsyncToSync call in the function is cancelled, if there is one. If that task returns, the
  -- function goes on, and the call ends with its outcome and context, unless the caller is cancelled
  -- again, which cancels the worker's future and raises CancelledError; if the task ends cancelled, or by
  -- an IndexError, or if there is no task, the worker's future is cancelled too and the call raises
  -- CancelledError; any other exception of the task is the call's.
  pub wait-Ended : run.is_done ≡ false → Ended run.is_interrupted (wait is_local same run context)
  unfolding wait
  wait-Ended d = wait_by-Ended run.is_interrupted d
