-- ===== src/Sync/ToSync.antt =====
-- AsyncToSync.__call__ of asgiref/sync.py. Event loops, executors and other objects are numbers;
-- `executors` is the number of the context variable behind the class's Local.
pub mod Returns
pub mod Leaves
pub mod Parent
use asgire.Prelude.{
  ◌≡◌, ℕ, List, [], ◌∷◌, Bool, true, false, not, ◌&&◌, Option, none, some, ◌=ℕ◌, nat_eq,
  if◌then◌else◌,
}
use asgire.Prelude.Dict.{get, insert}
use asgire.Text.{str}
use asgire.Local.{
  Storage, Written, own_attribute, stored, CValue, pair, object, Context, getattr, setattr,
  restore_context,
}
use asgire.Local.Restored.{storage_of}
use asgire.Sync.Pools.{Contexts, loop_executor}
use asgire.Sync.Wrap.{Exception, Outcome, raised, Wrap, LoopRun, main_wrap}
use asgire.Sync.Wrap.Delivery.{last}

-- What a context variable's attribute may hold here.
pub data Value : Type 0 where
  python_none : Value
  executor : ℕ → Value
  value : ℕ → Value

abbrev pub as_executor : Option Value → Option ℕ
as_executor (some (executor n)) = some n
as_executor _ = none

abbrev pub as_value : Option ℕ → Value
as_value none = python_none
as_value (some n) = executor n

abbrev written : ℕ → Context Value → Written Value → Context Value
written c context own_attribute = context
written c context (stored s) = insert c (pair s) context

-- `getattr(self.executors, "current", None)`
unfoldable pub current_of : ℕ → ℕ → Context Value → Option ℕ
current_of executors ident context =
    as_executor (getattr ident (str "current") (storage_of (get executors context)))

-- `self.executors.current = value`
pub set_current : ℕ → ℕ → Value → Context Value → Context Value
set_current executors ident v context =
    written executors context (setattr ident (str "current") v (storage_of (get executors context)))

-- What a SyncToAsync worker thread has in its `threadlocal`.
pub record Threadlocal : Type 0 where
  pub main_event_loop_pid : Option ℕ
  pub main_event_loop : Option ℕ
  pub task_context : Option (List ℕ)

-- What SyncToAsync's `thread_handler` sets before it runs the function.
abbrev pub thread_handler : ℕ → ℕ → List ℕ → Threadlocal
thread_handler loop pid task_context = record {
  main_event_loop_pid = some pid;
  main_event_loop = some loop;
  task_context = some task_context;
}

-- A pid of 0 is as good as none.
abbrev same_process : Option ℕ → ℕ → Bool
same_process none pid = false
same_process (some p) pid = not (p =ℕ 0) && (p =ℕ pid)

unfoldable pub main_loop : Bool → ℕ → Threadlocal → Option ℕ
main_loop force_new_loop pid local =
    if force_new_loop
    then none
    else if same_process local.main_event_loop_pid pid
    then local.main_event_loop
    else none

-- Where main_wrap runs: on the parent's loop, or on a new loop in a pool.
pub data Place : Type 0 where
  on_loop : ℕ → Place
  in_pool : ℕ → Place

-- `is_running` is the loop's, and `accepts` says that `call_soon_threadsafe` raises nothing.
module _ (is_running accepts : ℕ → Bool) where
  pub new_loop : Contexts → Place × Contexts
  new_loop contexts = let (p, contexts') = loop_executor contexts in (in_pool p, contexts')

  unfoldable pub place : Option ℕ → Contexts → Place × Contexts
  unfolding new_loop
  place none contexts = new_loop contexts
  place (some loop) contexts =
      if is_running loop && accepts loop then (on_loop loop, contexts) else new_loop contexts

-- A call by the thread `ident`. `creation` is an exception of `self.awaitable(*args, **kwargs)`,
-- and `escape` one that leaves the rest of the try block: of the pool's `submit`, of the new loop's
-- thread (`loop_future.result()`), or an interrupt of the wait, with what `context[0]` is then.
-- `loop_run` is how main_wrap comes to run at a place.
pub record Calling : Type 0 where
  pub executors : ℕ
  pub ident : ℕ
  pub force_new_loop : Bool
  pub pid : ℕ
  pub threadlocal : Threadlocal
  pub has_running_loop : Bool
  pub is_running : ℕ → Bool
  pub accepts : ℕ → Bool
  pub new_executor : ℕ
  pub creation : Option Exception
  pub escape : Option (Exception × Context Value)
  pub loop_run : Place → LoopRun Value

-- The awaitable is made, and nothing but it raises.
abbrev pub Undisturbed : Calling → Type 0
Undisturbed c = (c.creation ≡ none) × (c.escape ≡ none)

-- A RuntimeError before anything is done; an end with the caller's context and the managers'
-- state; or a wait for an awaitable that never completes.
pub data Called : Type 0 where
  refused : Called
  ends : Outcome → Context Value → Contexts → Called
  waits : Contexts → Called

module _ (is_local : ℕ → Bool) (same : CValue Value → CValue Value → Bool) where
  -- The `finally` block.
  unfoldable pub leave : Calling → Option ℕ → Context Value → Context Value → Context Value
  leave c old captured context =
      set_current c.executors c.ident (as_value old)
        (restore_context is_local same c.ident captured context)

  finish : Calling → Option ℕ → Context Value → Contexts → Wrap Value → Option Outcome → Called
  finish c old context contexts w none = waits contexts
  finish c old context contexts w (some o) = ends o (leave c old w.cell context) contexts

  -- main_wrap at its place, and the wait for it.
  pub run_wrapped : Calling → Option ℕ → Context Value → Place × Contexts → Called
  unfolding finish
  run_wrapped c old context (p, contexts) =
      let start : Wrap Value = record {
        cell = context;
        call_result = none;
        task_context = c.threadlocal.task_context;
        current = context;
      } in
      let w = last start (main_wrap is_local same (c.loop_run p) start) in
      finish c old context contexts w w.call_result

  escaped :
      Calling
      → Option ℕ
      → Context Value
      → Place × Contexts
      → Option (Exception × Context Value)
      → Called
  escaped c old context p none = run_wrapped c old context p
  escaped c old context (p, contexts) (some (x, cell)) =
      ends (raised x) (leave c old cell context) contexts

  created : Calling → Option ℕ → Context Value → Contexts → Option Exception → Called
  unfolding escaped
  created c old context contexts (some e) = ends (raised e) (leave c old context context) contexts
  created c old context contexts none =
      escaped c old context
        (place c.is_running c.accepts (main_loop c.force_new_loop c.pid c.threadlocal) contexts)
        c.escape

  unfoldable pub to_sync_call : Calling → Context Value → Contexts → Called
  unfolding created
  to_sync_call c context contexts =
      if c.has_running_loop
      then refused
      else created c (current_of c.executors c.ident context)
          (set_current c.executors c.ident (executor c.new_executor) context) contexts c.creation
