-- ===== src/Sync/Program.antt =====
-- Runs of programs that call AsyncToSync and SyncToAsync inside one another, to any depth. The calls
-- are those of the models of asgiref/sync.py; what else the code does is open.
pub mod Kept
pub mod Threads
use asgire.Prelude.{ℕ, List, [], ◌∷◌, ◌++◌, Bool, true, false, none, some, ◌≡◌, ◌≢◌, nat_eq}
use asgire.Prelude.Dict.{insert, IsDict}
use asgire.Prelude.Result.{ok}
use asgire.Local.{CValue, Context}
use asgire.Sync.Pools.{Contexts}
use asgire.Sync.Wrap.{Exception, Outcome}
use asgire.Sync.Wrap.Delivery.{inside}
use asgire.Sync.ToSync
use asgire.Sync.ToSync.{Value, Calling, Undisturbed, current_of, to_sync_call}
use asgire.Sync.ToSync.Returns.{marked, placed}
use asgire.Sync.ToAsync
use asgire.Sync.ToAsync.{
  IsCalm, SyncToAsync, Chosen, current, Caller, choose, Run, End, run_child, to_async_call,
}
use asgire.Sync.ToAsync.Carries.{start}

-- What is noted of a SyncToAsync call within an AsyncToSync call that made the executor `e`.
abbrev pub entry : Bool → ℕ → Chosen → List (ℕ × Chosen)
entry true e chosen = (e, chosen) ∷ []
entry false e chosen = []

-- `executors` is the context variable of AsyncToSync's Local. A run goes from a context to a context;
-- its list has, for each thread-sensitive call, the executor of the nearest AsyncToSync call and the
-- one that is chosen.
module _ (is_local : ℕ → Bool) (same : CValue Value → CValue Value → Bool) (executors : ℕ) where
  mutual
    -- Code that runs in the thread `ident`: it writes context variables and calls AsyncToSync.
    pub data SyncRun : ℕ → Context Value → List (ℕ × Chosen) → Context Value → Type 0 where
      returns : {ident : ℕ} {context : Context Value} → SyncRun ident context [] context
      writes :
          {ident : ℕ} {context last : Context Value} {log : List (ℕ × Chosen)} (v : ℕ)
          (x : CValue Value)
          → executors ≢ v
          → SyncRun ident (insert v x context) log last
          → SyncRun ident context log last
      calls :
          {ident : ℕ} {context after last : Context Value} {log rest : List (ℕ × Chosen)}
          (c : Calling) (contexts s : Contexts) (o : Outcome) (final : Context Value)
          → c.executors ≡ executors
          → c.ident ≡ ident
          → c.has_running_loop ≡ false
          → Undisturbed c
          → IsDict (c.loop_run (placed c contexts).0).base
          → (c.loop_run (placed c contexts).0).awaitable
              (inside is_local same (c.loop_run (placed c contexts).0) (marked c context))
            ≡ some (o, final)
          → AsyncRun c.new_executor
              (c.loop_run (placed c contexts).0).ident
              (inside is_local same (c.loop_run (placed c contexts).0) (marked c context))
              log
              final
          → to_sync_call is_local same c context contexts ≡ ToSync.ends o after s
          → SyncRun ident after rest last
          → SyncRun ident context (log ++ rest) last
      -- The callable raises instead of making an awaitable.
      calls_failing :
          {ident : ℕ} {context after last : Context Value} {log : List (ℕ × Chosen)} (c : Calling)
          (contexts s : Contexts) (o : Outcome) (x : Exception)
          → c.executors ≡ executors
          → c.ident ≡ ident
          → c.has_running_loop ≡ false
          → c.creation ≡ some x
          → to_sync_call is_local same c context contexts ≡ ToSync.ends o after s
          → SyncRun ident after log last
          → SyncRun ident context log last

    -- Code that runs on a loop in the thread `ident`, within an AsyncToSync call that made the
    -- executor `parent`: it
    -- writes context variables, makes tasks, and awaits SyncToAsync calls.
    pub data AsyncRun : ℕ → ℕ → Context Value → List (ℕ × Chosen) → Context Value → Type 0 where
      ends : {parent ident : ℕ} {context : Context Value} → AsyncRun parent ident context [] context
      sets :
          {parent ident : ℕ} {context last : Context Value} {log : List (ℕ × Chosen)} (v : ℕ)
          (x : CValue Value)
          → executors ≢ v
          → AsyncRun parent ident (insert v x context) log last
          → AsyncRun parent ident context log last
      creates_task :
          {parent ident : ℕ} {context own last : Context Value} {log rest : List (ℕ × Chosen)}
          → AsyncRun parent ident context log own
          → AsyncRun parent ident context rest last
          → AsyncRun parent ident context (log ++ rest) last
      awaits :
          {parent ident : ℕ} {context child after last : Context Value}
          {log rest : List (ℕ × Chosen)} (f : SyncToAsync Value) (runs : Chosen → Run Value)
          (s s' s'' : Caller) (chosen : Chosen) (e : End Value)
          → f.context ≡ none
          → s.current_executor ≡ current_of executors ident context
          → choose f s ≡ (ok chosen, s')
          → IsCalm (runs chosen)
          → (run_child is_local same (runs chosen) context).1 ≡ child
          → SyncRun (runs chosen).worker (start is_local same (runs chosen) context) log child
          → to_async_call is_local same f ident runs context s ≡ ToAsync.ends e after s''
          → AsyncRun parent ident after rest last
          → AsyncRun parent ident context
              (entry f.is_thread_sensitive parent chosen ++ (log ++ rest))
              last
      -- A SyncToAsync that was made with a context of its own.
      awaits_own :
          {parent ident : ℕ} {context own child after last : Context Value}
          {log rest : List (ℕ × Chosen)} (f : SyncToAsync Value) (runs : Chosen → Run Value)
          (s s' s'' : Caller) (chosen : Chosen) (e : End Value)
          → f.context ≡ some own
          → IsDict own
          → s.current_executor ≡ current_of executors ident context
          → choose f s ≡ (ok chosen, s')
          → IsCalm (runs chosen)
          → (run_child is_local same (runs chosen) own).1 ≡ child
          → SyncRun (runs chosen).worker (start is_local same (runs chosen) own) log child
          → to_async_call is_local same f ident runs context s ≡ ToAsync.ends e after s''
          → AsyncRun parent ident after rest last
          → AsyncRun parent ident context
              (entry f.is_thread_sensitive parent chosen ++ (log ++ rest))
              last
