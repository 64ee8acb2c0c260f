-- ===== src/Sync/ToAsync/Deadlock.antt =====
-- The flag that is to tell when the single-thread executor is in use already.
use asgire.Prelude.{ℕ, true, false, none, ◌≡◌, refl, Bool}
use asgire.Prelude.Result.{ok, err}
use asgire.Local.{CValue, Context}
use asgire.Sync.ToAsync.{
  runtime_error, SyncToAsync, Chosen, single_thread, passed, Caller, choose, Run, Called, refused,
  ends, to_async_call,
}

abbrev pub state_after : {V : Type 0} → Called V → Caller
state_after (refused e s) = s
state_after (ends e context s) = s

module _ {V : Type 0} (is_local : ℕ → Bool) (same : CValue V → CValue V → Bool) where
  choose_other :
      (g : SyncToAsync V) (ident : ℕ) (runs : Chosen → Run V) (context : Context V) (s : Caller)
      → g.is_thread_sensitive ≡ false
      → (runs (passed g.executor)).refusal ≡ none
      → state_after (to_async_call is_local same g ident runs context s)
        ≡ record s { deadlock_context = false }
  unfolding to_async_call choose
  choose_other g ident runs context s n r = rw (n, r) refl

  -- In a task that no other executor serves, a thread-sensitive call is refused while
  -- `deadlock_context` says that the single-thread executor is in use. After any call that is not
  -- thread-sensitive and whose executor takes the work, it is given that executor.
  pub deadlock_forgotten :
      (f g : SyncToAsync V) (ident : ℕ) (runs : Chosen → Run V) (context : Context V) (s : Caller)
      → f.is_thread_sensitive ≡ true
      → g.is_thread_sensitive ≡ false
      → (runs (passed g.executor)).refusal ≡ none
      → s.current_executor ≡ none
      → s.contexts.variable ≡ none
      → s.loop_thread_executor ≡ none
      → s.deadlock_context ≡ true
      → (choose f s ≡ (err runtime_error, s))
        × (choose f (state_after (to_async_call is_local same g ident runs context s))
            ≡ (ok single_thread, record s { deadlock_context = true }))
  unfolding choose
  deadlock_forgotten f g ident runs context s y n r c v l d =
      (rw (y, c, v, l, d) refl, rw (choose_other g ident runs context s n r) (rw (y, c, v, l) refl))
