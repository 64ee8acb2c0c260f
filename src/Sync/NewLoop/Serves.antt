-- ===== src/Sync/NewLoop/Serves.antt =====
-- The executor that a task of a new loop finds through the table.
use asgire.Prelude.{ℕ, Bool, true, none, some, ◌≡◌, ◌⊎◌, inl, inr, refl, nat_eq, All}
use asgire.Prelude.Dict.{get, insert, remove-insert_new}
use asgire.Prelude.Result.{ok}
use asgire.Local.{CValue, Context}
use asgire.Sync.Nesting.{get_made}
use asgire.Sync.Wrap.{Outcome, LoopRun, main_wrap}
use asgire.Sync.Wrap.Delivery.{last, inside}
use asgire.Sync.ToAsync.{SyncToAsync, current, Caller, choose}
use asgire.Sync.NewLoop.{Loop, new_loop_wrap}

-- A task on the loop.
abbrev pub task_on : {V : Type 0} → ℕ → Caller → Loop V → Caller
task_on loop s l = record s { loop_thread_executor = get loop l.loop_thread_executors }

choose-registered :
    {V W : Type 0} (f : SyncToAsync V) (s : Caller) (loop executor : ℕ) (l : Loop W)
    → f.is_thread_sensitive ≡ true
    → s.current_executor ≡ none
    → s.contexts.variable ≡ none
    → get loop l.loop_thread_executors ≡ some executor
    → choose f (task_on loop s l) ≡ (ok (current executor), task_on loop s l)
unfolding choose
choose-registered f s loop executor l y c v g = rw (y, c, v, g) refl

module _ {V : Type 0} (is_local : ℕ → Bool) (same : CValue V → CValue V → Bool) where
  -- Where the loop is not in the table, and the awaitable completes in the restored context: a
  -- thread-sensitive SyncToAsync call by a task of the loop that has neither an executor of its own
  -- nor a context runs in the caller's executor, at every moment until the result is there and the
  -- table is as before; and so it is in the end.
  pub choose-new_loop_wrap :
      {W : Type 0} (loop executor : ℕ) (run : LoopRun V) (l : Loop V) (o : Outcome)
      (final : Context V) (f : SyncToAsync W) (s : Caller)
      → get loop l.loop_thread_executors ≡ none
      → run.awaitable (inside is_local same run l.wrap.cell) ≡ some (o, final)
      → f.is_thread_sensitive ≡ true
      → s.current_executor ≡ none
      → s.contexts.variable ≡ none
      → let states = new_loop_wrap is_local same loop executor run l in
        All
          (λ (t : Loop V).
            (choose f (task_on loop s t) ≡ (ok (current executor), task_on loop s t))
            ⊎ ((t.wrap.call_result ≡ some o) × (t.loop_thread_executors ≡ l.loop_thread_executors)))
          states
        × ((last l states).wrap.call_result ≡ some o)
        × ((last l states).loop_thread_executors ≡ l.loop_thread_executors)
  unfolding new_loop_wrap main_wrap
  choose-new_loop_wrap loop executor run l o final f s g h y c v =
      let here =
        choose-registered f s loop executor
          (record l { loop_thread_executors = insert loop executor l.loop_thread_executors }) y c v
          (get_made loop executor l.loop_thread_executors) in
      let back = remove-insert_new loop executor l.loop_thread_executors g in
      rw h (
        (
          inl here,
          (
            inl here,
            (inl here, (inl here, (inl here, (inl here, (inl here, (inr (refl, back), tt)))))),
          ),
        ),
        refl,
        back,
      )
