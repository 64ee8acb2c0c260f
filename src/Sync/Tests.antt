-- ===== src/Sync/Tests.antt =====
-- Runs of the context managers and of calls in both directions, and the theorems at concrete inputs.
mod Worker
mod Nested
mod Handling
use asgire.Executor
use asgire.Sync.ToAsync
use asgire.Prelude.{
  ℕ, zero, suc, [], ◌∷◌, Bool, true, false, none, some, ◌≡◌, ◌⊎◌, refl, ap, ◌=ℕ◌, =ℕ_iff, nat_eq,
  arith, All,
}
use asgire.Prelude.Dict.{get, insert, IsDict}
use asgire.Prelude.Result.{ok, err}
use asgire.Executor.{Executor, submit, submitted}
use asgire.Text.{str}
use asgire.Local.{CValue, pair, object, Context, restore_context, set_changed, rehome}
use asgire.Sync.Pools.{Contexts, runtime_error, single, sensitive}
use asgire.Sync.Nesting.{Body, finished, calls, within, run}
use asgire.Sync.Outermost.{Block, run-Block, reentered_raises}
use asgire.Sync.Wrap.{returned, Wrap, LoopRun, main_wrap, raised, cancelled_error}
use asgire.Sync.Wrap.Delivery.{last, inside, main_wrap-Delivers}
use asgire.Sync.ToSync.{
  Value, executor, value, Calling, current_of, thread_handler, on_loop, new_loop,
}
use asgire.Sync.ToSync.Leaves.{Leaves}
use asgire.Sync.NewLoop.{Loop, new_loop_wrap}
use asgire.Sync.NewLoop.Serves.{task_on, choose-new_loop_wrap}
use asgire.Sync.ToAsync.Waits.{OfTask, Ended, wait-Ended}
use asgire.Sync.ToSync.Parent.{OnParent}
use asgire.Sync.ToSync.Returns.{placed, Finished, to_sync_call-Finished, marked}
use asgire.Sync.ToAsync.{
  SyncToAsync, Chosen, current, single_thread, Caller, choose, Run, End, wait, to_async_call,
  run_child,
}
use asgire.Sync.ToAsync.Carries.{context_after, OwnedBy, start, get-to_async_call}
use asgire.Sync.ToAsync.Deadlock.{state_after, deadlock_forgotten}
use asgire.Sync.CallerThread.{choose-CallerThread}

-- Manager 1 inside which manager 2 is entered, with three calls.
abbrev inner : Body
inner = calls (within 2 (calls finished) (calls finished))

abbrev no_pools : Contexts
no_pools = record {
  variable = none;
  pools = (9, 4) ∷ [];
  next_pool = 5;
  shut_down = [];
  tokens = λ m. none;
}

no_pool : get 1 no_pools.pools ≡ none
unfolding get
no_pool = refl

run-Block_example : Block sensitive 1 inner no_pools
run-Block_example =
    run-Block sensitive 1 inner no_pools refl no_pool (omega arith, tt, tt) (refl, tt, tt)

reentered_raises_example :
    (run single (within 1 (within 1 inner finished) finished) no_pools).0 ≡ err runtime_error
reentered_raises_example =
    reentered_raises single 1 inner finished no_pools refl no_pool (omega arith, tt, tt)
      (refl, tt, tt)

-- Objects are equal if they are the same, and tuples are never held to be.
abbrev same : CValue Value → CValue Value → Bool
same (object x) (object y) = x =ℕ y
same _ _ = false

same_sound : (v w : CValue Value) → same v w ≡ true → v ≡ w
same_sound (object x) (object y) h = ap (λ (n : ℕ). object n) ((=ℕ_iff x y).0 h)
same_sound (object x) (pair t) h = cc
same_sound (pair s) (object y) h = cc
same_sound (pair s) (pair t) h = cc

-- The variables 0 and 1 are Locals', 0 that of the executors.
abbrev is_local : ℕ → Bool
is_local c = elim c [ zero ↦ true | suc n ↦ n =ℕ 0 ]

abbrev before : Context Value
before =
    (1, pair (record { thread_id = 7; storage_data = (str "x", value 5) ∷ [] }))
    ∷ (2, object 6)
    ∷ []

before-IsDict : IsDict before
before-IsDict = ((omega arith, tt), (tt, tt))

-- The awaitable, in thread 20, leaves a new object in variable 3.
abbrev final : Context Value
final =
    (0, pair (record { thread_id = 20; storage_data = (str "current", executor 11) ∷ [] }))
    ∷ (3, object 33)
    ∷ []

abbrev loop_run : LoopRun Value
loop_run = record {
  ident = 20;
  current_task = some 50;
  base = [];
  awaitable = λ context. some (returned 8, final);
}

abbrev wrap : Wrap Value
wrap = record { cell = before; call_result = none; task_context = some (49 ∷ []); current = [] }

main_wrap-Delivers_example :
    All
      (λ (t : Wrap Value). (t.call_result ≡ none) ⊎ (t.cell ≡ final))
      (main_wrap is_local same loop_run wrap)
    × ((last wrap (main_wrap is_local same loop_run wrap)).call_result ≡ some (returned 8))
    × ((last wrap (main_wrap is_local same loop_run wrap)).cell ≡ final)
    × ((last wrap (main_wrap is_local same loop_run wrap)).task_context ≡ some (49 ∷ []))
main_wrap-Delivers_example =
    main_wrap-Delivers is_local same loop_run wrap (returned 8) final refl refl (omega arith, tt)

abbrev calling : Calling
calling = record {
  executors = 0;
  ident = 7;
  force_new_loop = false;
  pid = 100;
  threadlocal = record {
    main_event_loop_pid = some 100;
    main_event_loop = some 40;
    task_context = none;
  };
  has_running_loop = false;
  is_running = λ loop. true;
  accepts = λ loop. true;
  new_executor = 11;
  creation = none;
  escape = none;
  loop_run = λ p. loop_run;
}

to_sync_call-Finished_example : Finished is_local same calling before no_pools (returned 8) final
to_sync_call-Finished_example =
    to_sync_call-Finished is_local same same_sound calling before no_pools (returned 8) final refl
      (refl, refl) refl ((omega arith, tt), (tt, tt))

abbrev sensitive_call : SyncToAsync Value
sensitive_call = record { context = none; is_thread_sensitive = true; executor = none }

abbrev other_call : SyncToAsync Value
other_call = record { context = none; is_thread_sensitive = false; executor = none }

-- A task whose Local has what the context says.
abbrev caller_in : Context Value → Caller
caller_in context = record {
  current_executor = current_of 0 20 context;
  loop_thread_executor = none;
  deadlock_context = false;
  contexts = no_pools;
}

choose-CallerThread_example :
    (choose sensitive_call (caller_in (inside is_local same loop_run (marked calling before)))
      ≡ (ok (current 11), caller_in (inside is_local same loop_run (marked calling before))))
    × (submit 20 (Executor.init {A = ℕ} 7) [] 99
        ≡ submitted (record (Executor.init {A = ℕ} 7) { work_items = 99 ∷ [] } ∷ []))
choose-CallerThread_example =
    choose-CallerThread is_local same same_sound calling before loop_run sensitive_call
      (caller_in (inside is_local same loop_run (marked calling before))) [] 99 refl before-IsDict
      (omega arith) refl refl

-- A task of loop 60 that `asyncio.create_task` has made without the caller's Local.
abbrev lone_caller : Caller
lone_caller = record {
  current_executor = none;
  loop_thread_executor = none;
  deadlock_context = true;
  contexts = no_pools;
}

abbrev one_loop : Loop Value
one_loop = record { loop_thread_executors = (61, 12) ∷ []; wrap = wrap }

choose-new_loop_wrap_example :
    let states = new_loop_wrap is_local same 60 11 loop_run one_loop in
    All
      (λ (t : Loop Value).
        (choose sensitive_call (task_on 60 lone_caller t)
          ≡ (ok (current 11), task_on 60 lone_caller t))
        ⊎ ((t.wrap.call_result ≡ some (returned 8)) × (t.loop_thread_executors ≡ (61, 12) ∷ [])))
      states
    × ((last one_loop states).wrap.call_result ≡ some (returned 8))
    × ((last one_loop states).loop_thread_executors ≡ (61, 12) ∷ [])
choose-new_loop_wrap_example =
    choose-new_loop_wrap is_local same 60 11 loop_run one_loop (returned 8) final sensitive_call
      lone_caller (unfold get in refl) refl refl refl refl
