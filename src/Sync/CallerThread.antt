-- ===== src/Sync/CallerThread.antt =====
-- Where thread-sensitive code runs that is called from inside an AsyncToSync call: the two classes,
-- the Local that carries the executor, and the executor's queue together.
use asgire.Prelude.{
  ℕ, List, [], ◌∷◌, Bool, true, some, ◌≡◌, ◌≢◌, refl, ap, ◌∙◌, nat_eq, list_eq, ◌=ℕ◌, =ℕ_iff,
  Bool-cases, inl, inr,
}
use asgire.Prelude.Dict.{get, get-insert, IsDict, IsDict-insert}
use asgire.Prelude.Result.{ok}
use asgire.Executor
use asgire.Executor.{Executor, submit, submitted}
use asgire.Text.{str}
use asgire.Local.{CValue, pair, Context, getattr, owned, rehome}
use asgire.Local.Restored.{storage_of, get-restore_context}
use asgire.Sync.Wrap.{LoopRun}
use asgire.Sync.Wrap.Delivery.{inside}
use asgire.Sync.ToSync.{Value, executor, as_executor, current_of, Calling}
use asgire.Sync.ToSync.Returns.{get-set_current, set_current_lem, with_current, marked}
use asgire.Sync.ToAsync.{SyncToAsync, current, Caller, choose}

module _ (is_local : ℕ → Bool) (same : CValue Value → CValue Value → Bool)
    (sound : (v w : CValue Value) → same v w ≡ true → v ≡ w) where
  pub IsDict-marked :
      (c : Calling) (context : Context Value) → IsDict context → IsDict (marked c context)
  IsDict-marked c context u =
      rw (set_current_lem c.executors c.ident (executor c.new_executor) context) (
        IsDict-insert c.executors
          (pair (with_current c.executors c.ident (executor c.new_executor) context)) context u)

  -- The awaitable finds the new executor in its own context.
  pub current-inside :
      (c : Calling) (context : Context Value) (run : LoopRun Value)
      → is_local c.executors ≡ true
      → IsDict context
      → current_of c.executors run.ident (inside is_local same run (marked c context))
        ≡ some c.new_executor
  unfolding current_of rehome getattr
  current-inside c context run n u =
      rw
        (
          get-restore_context is_local same sound run.ident (marked c context) run.base c.executors
              (IsDict-marked c context u),
          get-set_current c.executors c.ident (executor c.new_executor) context,
          n,
          (=ℕ_iff run.ident run.ident).1 refl,
        )
        (ap as_executor (
          get-insert (str "current") (str "current") (executor c.new_executor)
            (owned c.ident (storage_of (get c.executors context)))))

  submit_first :
      {A : Type 0} (u t : ℕ) (olds : List (Executor A)) (x : A)
      → u ≢ t
      → submit u (Executor.init t) olds x
        ≡ submitted (record (Executor.init t) { work_items = x ∷ [] } ∷ olds)
  unfolding submit Executor.init Executor.walk Executor.accept
  submit_first u t olds x ne = elim (Bool-cases (u =ℕ t)) [
    | inl y ↦ absurd (ne ((=ℕ_iff u t).0 y))
    | inr m ↦ rw m refl
  ]

  -- If the values that `==` does not tell apart are the same: a thread-sensitive SyncToAsync call
  -- by the awaitable of an AsyncToSync call, on a loop in another thread, chooses the executor
  -- that this call has made, and its work goes into the queue of the thread that made the call.
  pub choose-CallerThread :
      {A : Type 0} (c : Calling) (context : Context Value) (run : LoopRun Value)
      (f : SyncToAsync Value) (s : Caller) (olds : List (Executor A)) (x : A)
      → is_local c.executors ≡ true
      → IsDict context
      → run.ident ≢ c.ident
      → f.is_thread_sensitive ≡ true
      → s.current_executor
        ≡ current_of c.executors run.ident (inside is_local same run (marked c context))
      → (choose f s ≡ (ok (current c.new_executor), s))
        × (submit run.ident (Executor.init c.ident) olds x
            ≡ submitted (record (Executor.init c.ident) { work_items = x ∷ [] } ∷ olds))
  unfolding choose
  choose-CallerThread c context run f s olds x n u ne y h =
      (rw (y, h ∙ current-inside c context run n u) refl, submit_first run.ident c.ident olds x ne)
