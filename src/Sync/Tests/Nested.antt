-- ===== src/Sync/Tests/Nested.antt =====
-- A program of nested calls: an AsyncToSync call by thread 7, whose awaitable calls a function in the
-- worker thread 30, which calls AsyncToSync itself, and then a thread-sensitive function.
use asgire.Prelude.{ℕ, [], none, some, false, nat_eq, Option}
use asgire.Local.{Context, restore_context}
use asgire.Sync.Wrap.{returned}
use asgire.Sync.Wrap.Delivery.{inside}
use asgire.Sync.ToSync.{Value, Calling, current_of, leave, on_loop}
use asgire.Sync.ToSync.Returns.{marked}
use asgire.Sync.ToAsync.{Caller, Run}
use asgire.Sync.Tests.{same, is_local, before, no_pools, calling}

-- A call by `ident`, on a loop in the thread `loop`.
abbrev call_by : ℕ → ℕ → ℕ → (Context Value → Context Value) → Calling
call_by ident executor loop body = record calling {
  ident = ident;
  new_executor = executor;
  loop_run = λ p. record {
    ident = loop;
    current_task = none;
    base = [];
    awaitable = λ context. some (returned 1, body context);
  };
}

abbrev worker_by : ℕ → (Context Value → Context Value) → Run Value
worker_by worker body = record {
  refusal = none;
  worker = worker;
  child = λ context. (returned 3, body context);
  is_interrupted = false;
  tasks = [];
  task_end = λ t. returned 0;
  is_done = false;
  is_interrupted_again = false;
  so_far = [];
}

abbrev caller_with : Option ℕ → Caller
caller_with e = record {
  current_executor = e;
  loop_thread_executor = none;
  deadlock_context = false;
  contexts = no_pools;
}

-- A context after an awaited function.
abbrev back : ℕ → ℕ → (Context Value → Context Value) → Context Value → Context Value
back ident worker body context =
    restore_context is_local same ident
      (body (restore_context is_local same worker context context)) context

abbrev unchanged : Context Value → Context Value
unchanged context = context

abbrev inner_call : Calling
inner_call = call_by 30 12 40 (back 40 30 unchanged)

abbrev after_inner : Context Value → Context Value
after_inner context =
    leave is_local same inner_call (current_of 0 30 context)
      (back 40 30 unchanged
        (inside is_local same (inner_call.loop_run (on_loop 40)) (marked inner_call context)))
      (marked inner_call context)

-- The awaitable of thread 7's call, on the loop in thread 20.
abbrev body : Context Value → Context Value
body context = back 20 30 unchanged (back 20 30 after_inner context)

abbrev outer_call : Calling
outer_call = call_by 7 11 20 body

abbrev outer_inside : Context Value
outer_inside = inside is_local same (outer_call.loop_run (on_loop 40)) (marked outer_call before)

abbrev last_context : Context Value
last_context =
    leave is_local same outer_call (current_of 0 7 before) (body outer_inside)
      (marked outer_call before)
