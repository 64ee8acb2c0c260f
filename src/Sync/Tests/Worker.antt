-- ===== src/Sync/Tests/Worker.antt =====
-- Runs of a SyncToAsync call and its worker, and the theorems at concrete inputs.
use asgire.Sync.ToAsync
use asgire.Prelude.{ℕ, [], ◌∷◌, true, false, none, some, ◌≡◌, refl, nat_eq, arith, inl}
use asgire.Prelude.Dict.{get, insert, IsDict}
use asgire.Prelude.Result.{ok, err}
use asgire.Local.{object, restore_context, set_changed, rehome}
use asgire.Sync.Wrap.{returned, Wrap, LoopRun, raised, cancelled_error}
use asgire.Sync.ToSync.{Value, Calling, thread_handler}
use asgire.Sync.ToAsync.Waits.{Ended, wait-Ended}
use asgire.Sync.ToAsync.{
  SyncToAsync, Chosen, current, single_thread, Caller, choose, Run, End, wait, to_async_call,
  run_child, Function, to_async_init,
}
use asgire.Sync.ToAsync.Carries.{context_after, OwnedBy, start, get-to_async_call}
use asgire.Sync.ToAsync.Deadlock.{state_after, deadlock_forgotten}
use asgire.Sync.Decorators.{sync_to_async}
use asgire.Sync.Decorators.Accepts.{applied, Made, sync_to_async-Made}
use asgire.Sync.Tests.{
  no_pools, same, same_sound, is_local, before, before-IsDict, loop_run, wrap, calling,
  sensitive_call, other_call,
}

-- The function, in thread 30, writes to variable 2.
abbrev worker_run : Run Value
worker_run = record {
  refusal = none;
  worker = 30;
  child = λ context. (returned 3, insert 2 (object 70) context);
  is_interrupted = false;
  tasks = [];
  task_end = λ t. returned 0;
  is_done = false;
  is_interrupted_again = false;
  so_far = [];
}

abbrev interrupted_run : Run Value
interrupted_run = record worker_run { is_interrupted = true; tasks = 60 ∷ [] }

wait-Ended_example :
    Ended is_local same interrupted_run before true (wait is_local same interrupted_run before)
wait-Ended_example = wait-Ended is_local same interrupted_run before refl

abbrev busy : Caller
busy = record {
  current_executor = none;
  loop_thread_executor = none;
  deadlock_context = true;
  contexts = no_pools;
}

deadlock_forgotten_example :
    (choose sensitive_call busy ≡ (err ToAsync.runtime_error, busy))
    × (choose sensitive_call
          (state_after (to_async_call is_local same other_call 7 (λ c. worker_run) before busy))
        ≡ (ok single_thread, record busy { deadlock_context = true }))
deadlock_forgotten_example =
    deadlock_forgotten is_local same sensitive_call other_call 7 (λ c. worker_run) before busy refl
      refl refl refl refl refl refl

abbrev runs : Chosen → Run Value
runs chosen = worker_run

abbrev idle : Caller
idle = record busy { deadlock_context = false }

chooses_single : choose sensitive_call idle ≡ (ok single_thread, busy)
unfolding choose
chooses_single = refl

after_child-IsDict : IsDict (run_child is_local same worker_run before).1
unfolding run_child restore_context set_changed rehome get insert
after_child-IsDict = ((omega arith, tt), (tt, tt))

own_storage : OwnedBy 7 true (get 1 before)
unfolding get
own_storage = refl

left_alone :
    get 1 (run_child is_local same worker_run before).1
    ≡ get 1 (start is_local same worker_run before)
unfolding run_child restore_context set_changed rehome get insert
left_alone = refl

get-to_async_call_example :
    get 1 (context_after before (to_async_call is_local same sensitive_call 7 runs before idle))
    ≡ get 1 before
get-to_async_call_example =
    get-to_async_call is_local same same_sound sensitive_call 7 runs before idle single_thread busy
      1 refl chooses_single (refl, refl) before-IsDict after_child-IsDict own_storage left_alone

-- The task 50 waits, in a loop, for an awaitable that is not at its end.
abbrev waiting_run : LoopRun Value
waiting_run = record loop_run { awaitable = λ context. none }

abbrev worker_wrap : Wrap Value
worker_wrap = record wrap { task_context = some [] }

abbrev stopped_run : Run Value
stopped_run = record worker_run {
  is_interrupted = true;
  tasks = 50 ∷ [];
  task_end = λ t. raised cancelled_error;
}

-- The worker of a call that was made on loop 40, by the process 100.
abbrev worker_calling : Calling
worker_calling = record calling { threadlocal = thread_handler 40 100 [] }

-- A plain function, given to the decorator with an executor of its own.
abbrev sync_function : ℕ → Function
sync_function f = record {
  is_callable = true;
  is_coroutine = false;
  is_directly_introspectable = true;
  call_is_coroutine = false;
}

sync_to_async-Made_example :
    Made {V = Value}
      (sync_function 5)
      false
      (some 70)
      none
      (applied (sync_to_async sync_function none false (some 70) none) 5)
sync_to_async-Made_example = sync_to_async-Made sync_function none 5 false (some 70) none (inl refl)

abbrev free_call : SyncToAsync Value
free_call = record { context = none; is_thread_sensitive = false; executor = some 70 }

accepted : applied (sync_to_async sync_function (some 5) false (some 70) none) 5 ≡ ok free_call
unfolding sync_to_async to_async_init
accepted = refl
