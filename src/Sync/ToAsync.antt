-- ===== src/Sync/ToAsync.antt =====
-- SyncToAsync of asgiref/sync.py: what it wraps, the executor that a call is run in, the worker
-- thread's part, and the wait with its cancellation.
pub mod Waits
pub mod Carries
pub mod Deadlock
use asgire.Prelude.{
  ◌≡◌, ℕ, List, [], ◌∷◌, ◌++◌, Bool, true, false, not, ◌&&◌, ◌||◌, Option, none, some,
  if◌then◌else◌,
}
use asgire.Prelude.Result.{Result, ok, err}
use asgire.Local.{CValue, Context, restore_context}
use asgire.Sync.Pools.{Contexts, pool_for}
use asgire.Sync.Wrap.{Exception, cancelled_error, index_error, other, Outcome, returned, raised}

pub data Error : Type 0 where
  type_error runtime_error : Error

-- What the constructor asks of `func`; `call_is_coroutine` is the answer for its `__call__`.
pub record Function : Type 0 where
  pub is_callable : Bool
  pub is_coroutine : Bool
  pub is_directly_introspectable : Bool
  pub call_is_coroutine : Bool

pub record SyncToAsync (V : Type 0) : Type 0 where
  pub context : Option (Context V)
  pub is_thread_sensitive : Bool
  pub executor : Option ℕ

abbrev has_executor : Option ℕ → Bool
has_executor none = false
has_executor (some e) = true

-- The constructor.
unfoldable pub to_async_init :
    {V : Type 0} → Function → Bool → Option ℕ → Option (Context V) → Result Error (SyncToAsync V)
to_async_init func thread_sensitive executor context =
    if not func.is_callable
      || (func.is_coroutine || (not func.is_directly_introspectable && func.call_is_coroutine))
    then err type_error
    else if thread_sensitive && has_executor executor
    then err type_error
    else ok
        (record { context = context; is_thread_sensitive = thread_sensitive; executor = executor })

-- A CurrentThreadExecutor, a context's pool, the process's single-thread executor, or what the
-- constructor was given, where `none` is the loop's default.
pub data Chosen : Type 0 where
  current : ℕ → Chosen
  pool : ℕ → Chosen
  single_thread : Chosen
  passed : Option ℕ → Chosen

-- The running task as the choice sees it: the executor that its context's Local has, the one that
-- `loop_thread_executors` has for its loop, `deadlock_context`, and the state of
-- ThreadSensitiveContext.
pub record Caller : Type 0 where
  pub current_executor : Option ℕ
  pub loop_thread_executor : Option ℕ
  pub deadlock_context : Bool
  pub contexts : Contexts

choose_single : Bool → Caller → Result Error Chosen × Caller
choose_single true s = (err runtime_error, s)
choose_single false s = (ok single_thread, record s { deadlock_context = true })

choose_by_loop : Option ℕ → Caller → Result Error Chosen × Caller
unfolding choose_single
choose_by_loop (some e) s = (ok (current e), s)
choose_by_loop none s = choose_single s.deadlock_context s

choose_by_context : Option ℕ → Caller → Result Error Chosen × Caller
unfolding choose_by_loop
choose_by_context (some c) s =
    let (p, contexts) = pool_for c s.contexts in (ok (pool p), record s { contexts = contexts })
choose_by_context none s = choose_by_loop s.loop_thread_executor s

choose_sensitive : Option ℕ → Caller → Result Error Chosen × Caller
unfolding choose_by_context
choose_sensitive (some e) s = (ok (current e), s)
choose_sensitive none s = choose_by_context s.contexts.variable s

-- What thread to run the code in.
unfoldable pub choose : {V : Type 0} → SyncToAsync V → Caller → Result Error Chosen × Caller
unfolding choose_sensitive
choose f s =
    if f.is_thread_sensitive
    then choose_sensitive s.current_executor s
    else (ok (passed f.executor), s)

-- How a call goes on. `refusal` is what `run_in_executor` raises, if it does: the executor is shut
-- down, has quit, or is the loop's own thread's. `child` is what the function makes of the context in the worker thread
-- `worker`. `is_interrupted`: a CancelledError arrives at the wait; then `tasks` is the worker's
-- `task_context`, `task_end` what the await of a cancelled task gives, `is_done` whether the worker's
-- future is done, and `is_interrupted_again`: the caller is cancelled once more where it awaits that
-- future, which cancels it. `so_far` is what the function has made of the context where the call ends
-- without waiting for it.
pub record Run (V : Type 0) : Type 0 where
  pub refusal : Option Exception
  pub worker : ℕ
  pub child : Context V → Outcome × Context V
  pub is_interrupted : Bool
  pub tasks : List ℕ
  pub task_end : ℕ → Outcome
  pub is_done : Bool
  pub is_interrupted_again : Bool
  pub so_far : Context V

-- The work is submitted, and the wait is not interrupted.
abbrev pub IsCalm : {V : Type 0} → Run V → Type 0
IsCalm run = (run.refusal ≡ none) × (run.is_interrupted ≡ false)

-- What was cancelled on the way.
pub data Cancelled : Type 0 where
  task : ℕ → Cancelled
  worker_future : Cancelled

-- `cancel_parent`, or an exception that leaves the handler.
unfoldable pub take_task : Outcome → Result Exception Bool
take_task (returned v) = ok false
take_task (raised cancelled_error) = ok true
take_task (raised index_error) = ok true
take_task (raised (other x)) = err (other x)

unfoldable pub cancel_inner : List ℕ → (ℕ → Outcome) → List Cancelled × Result Exception Bool
unfolding take_task
cancel_inner [] task_end = ([], ok true)
cancel_inner (t ∷ ts) task_end = (task t ∷ [], take_task (task_end t))

-- The end of a call: its outcome, the function's context, and what was cancelled.
pub record End (V : Type 0) : Type 0 where
  pub outcome : Outcome
  pub context : Context V
  pub log : List Cancelled

-- A TypeError or RuntimeError before anything runs, or an end, with the caller's context and state.
pub data Called (V : Type 0) : Type 0 where
  refused : Error → Caller → Called V
  ends : End V → Context V → Caller → Called V

module _ {V : Type 0} (is_local : ℕ → Bool) (same : CValue V → CValue V → Bool) where
  -- `run_child` in the worker thread, inside `context`.
  unfoldable pub run_child : Run V → Context V → Outcome × Context V
  run_child run context = run.child (restore_context is_local same run.worker context context)

  -- The wait for the worker; a future that is cancelled is at its end at once.
  await_worker : Run V → Context V → List Cancelled → Bool → End V
  await_worker run context log true = record {
    outcome = raised cancelled_error;
    context = run.so_far;
    log = log;
  }
  await_worker run context log false =
      let (o, final) = run_child run context in record { outcome = o; context = final; log = log }

  abbrev logged : List Cancelled → Bool → List Cancelled
  logged log false = log
  logged log true = log ++ worker_future ∷ []

  -- After the inner task; the Boolean is `exec_coro.done()`.
  after_inner : Bool → Run V → Context V → List Cancelled × Result Exception Bool → End V
  unfolding await_worker
  after_inner is_done run context (log, err x) = record {
    outcome = raised x;
    context = run.so_far;
    log = log;
  }
  after_inner true run context (log, ok cancel_parent) = record {
    outcome = raised cancelled_error;
    context = run.so_far;
    log = log;
  }
  after_inner false run context (log, ok cancel_parent) =
      let is_cancelled = cancel_parent || run.is_interrupted_again in
      await_worker run context (logged log is_cancelled) is_cancelled

  wait_by : Bool → Run V → Context V → End V
  unfolding after_inner
  wait_by false run context = await_worker run context [] false
  wait_by true run context =
      after_inner run.is_done run context (cancel_inner run.tasks run.task_end)

  -- `ret = await asyncio.shield(exec_coro)` and its handler.
  unfoldable pub wait : Run V → Context V → End V
  unfolding wait_by
  wait run context = wait_by run.is_interrupted run context

  -- The `finally` block: the caller's context, if the function ran in a copy of it, and
  -- `deadlock_context`.
  restored_caller : Option (Context V) → ℕ → Context V → Context V → Context V
  restored_caller none ident context caller = restore_context is_local same ident context caller
  restored_caller (some own) ident context caller = caller

  abbrev pub context_for : Option (Context V) → Context V → Context V
  context_for none caller = caller
  context_for (some own) caller = own

  submit_and_wait : Option Exception → SyncToAsync V → ℕ → Run V → Context V → Caller → Called V
  unfolding restored_caller
  submit_and_wait (some x) f ident run context s =
      ends (record { outcome = raised x; context = context_for f.context context; log = [] })
        context s
  submit_and_wait none f ident run context s =
      let e = wait run (context_for f.context context) in
      ends e (restored_caller f.context ident e.context context)
        (record s { deadlock_context = false })

  call_chosen :
      SyncToAsync V → ℕ → (Chosen → Run V) → Context V → Result Error Chosen × Caller → Called V
  unfolding submit_and_wait
  call_chosen f ident runs context (err e, s) = refused e s
  call_chosen f ident runs context (ok chosen, s) =
      submit_and_wait (runs chosen).refusal f ident (runs chosen) context s

  -- The whole call, by a task of the thread `ident`; `runs` says how it goes in an executor.
  unfoldable pub to_async_call :
      SyncToAsync V → ℕ → (Chosen → Run V) → Context V → Caller → Called V
  unfolding call_chosen
  to_async_call f ident runs context s = call_chosen f ident runs context (choose f s)
