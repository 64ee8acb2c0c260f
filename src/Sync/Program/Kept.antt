-- ===== src/Sync/Program/Kept.antt =====
-- The current executor in the contexts that calls of AsyncToSync and SyncToAsync make and leave.
use asgire.Prelude.{
  ℕ, Bool, true, false, Option, none, some, ◌≡◌, ◌≢◌, refl, sym, ap, ◌∙◌, subst, ◌=ℕ◌, =ℕ_iff,
  nat_eq, list_eq, Bool-cases, inl, inr,
}
use asgire.Prelude.Dict.{get, insert, get-insert, IsDict}
use asgire.Prelude.Result.{ok}
use asgire.Text.{str}
use asgire.Local.{CValue, pair, object, Context, getattr, rehome, restore_context}
use asgire.Local.Restored.{storage_of, restored, get-restore_context, IsDict-restore_context}
use asgire.Sync.Pools.{Contexts}
use asgire.Sync.Wrap.{Exception, Outcome, LoopRun}
use asgire.Sync.Wrap.Delivery.{inside}
use asgire.Sync.ToSync
use asgire.Sync.ToSync.{Value, as_executor, Calling, Undisturbed, current_of, leave, to_sync_call}
use asgire.Sync.ToSync.Returns.{
  marked, placed, to_sync_call-Finished, to_sync_call-done, to_sync_call-failed, IsDict-leave,
}
use asgire.Sync.ToSync.Leaves.{current-leave}
use asgire.Sync.ToAsync
use asgire.Sync.ToAsync.{
  IsCalm, SyncToAsync, Chosen, current, Caller, choose, Run, End, run_child, to_async_call,
}
use asgire.Sync.ToAsync.Carries.{context_after, start, to_async_call-calm, to_async_call-own}
use asgire.Sync.CallerThread.{IsDict-marked, current-inside}

module _ (i j e : ℕ) (old : Option (CValue Value)) where
  as_executor-restored :
      (o : Option (CValue Value))
      → as_executor (getattr i (str "current") (storage_of o)) ≡ some e
      → as_executor (getattr j (str "current") (storage_of (restored j true o old))) ≡ some e
  unfolding getattr rehome
  as_executor-restored none h = cc
  as_executor-restored (some (object x)) h = cc
  as_executor-restored (some (pair s)) h = elim (Bool-cases (s.thread_id =ℕ i)) [
    | inl y ↦ rw ((=ℕ_iff j j).1 refl) (rw y at h)
    | inr n ↦ cc (rw n at h)
  ]

  -- What `current_of` finds in a variable that a restore has re-homed.
  current_of-restored :
      (executors : ℕ) (context context' : Context Value)
      → get executors context' ≡ restored j true (get executors context) old
      → current_of executors i context ≡ some e
      → current_of executors j context' ≡ some e
  unfolding current_of
  current_of-restored executors context context' q h =
      rw q (as_executor-restored (get executors context) h)

other-=ℕ : (v k : ℕ) → k ≢ v → (v =ℕ k) ≡ false
other-=ℕ v k ne = elim (Bool-cases (v =ℕ k)) [
  | inl y ↦ absurd (ne (sym ((=ℕ_iff v k).0 y)))
  | inr n ↦ n
]

pub current_of-insert :
    (executors i v : ℕ) (x : CValue Value) (context : Context Value)
    → executors ≢ v
    → current_of executors i (insert v x context) ≡ current_of executors i context
unfolding current_of
current_of-insert executors i v x context ne =
    ap (λ o. as_executor (getattr i (str "current") (storage_of o)))
      (get-insert v executors x context ∙ rw (other-=ℕ v executors ne))

after_sync :
    {o o' : Outcome} {a b : Context Value} {s t : Contexts}
    → ToSync.ends o a s ≡ ToSync.ends o' b t
    → a ≡ b
after_sync h = cc

after_async :
    {e e' : End Value} {a b : Context Value} {s t : Caller}
    → ToAsync.ends e a s ≡ ToAsync.ends e' b t
    → a ≡ b
after_async h = cc

module _ (is_local : ℕ → Bool) (same : CValue Value → CValue Value → Bool)
    (sound : (v w : CValue Value) → same v w ≡ true → v ≡ w) (executors : ℕ) where
  -- The awaitable's context has the new executor.
  pub entered :
      (c : Calling) (context : Context Value) (run : LoopRun Value)
      → c.executors ≡ executors
      → is_local executors ≡ true
      → IsDict context
      → current_of executors run.ident (inside is_local same run (marked c context))
        ≡ some c.new_executor
  entered c context run ex n u =
      subst
        (λ x.
          current_of x run.ident (inside is_local same run (marked c context))
          ≡ some c.new_executor)
        ex
        (current-inside is_local same sound c context run
          (subst (λ x. is_local x ≡ true) (sym ex) n) u)

  -- The caller's context after an AsyncToSync call.
  pub after_call :
      (c : Calling) (context after final : Context Value) (contexts s : Contexts) (o : Outcome)
      → c.executors ≡ executors
      → c.has_running_loop ≡ false
      → Undisturbed c
      → (c.loop_run (placed c contexts).0).awaitable
          (inside is_local same (c.loop_run (placed c contexts).0) (marked c context))
        ≡ some (o, final)
      → to_sync_call is_local same c context contexts ≡ ToSync.ends o after s
      → IsDict context
      → IsDict final
      → (current_of executors c.ident after ≡ current_of executors c.ident context) × IsDict after
  after_call c context after final contexts s o ex loop made done h u w =
      let fin =
        to_sync_call-Finished is_local same sound c context contexts o final loop made done w in
      let q : fin.after ≡ after = after_sync (sym fin.result ∙ h) in
      let done_lem = to_sync_call-done is_local same c context final contexts o loop made done in
      (
        subst (λ x. current_of x c.ident after ≡ current_of x c.ident context) ex
            (subst (λ a. current_of c.executors c.ident a ≡ current_of c.executors c.ident context)
              q fin.current),
        subst IsDict (after_sync (sym done_lem ∙ h)) (
            IsDict-leave is_local same c (current_of c.executors c.ident context) final
              (marked c context) (IsDict-marked is_local same sound c context u)),
      )

  pub after_failing :
      (c : Calling) (context after : Context Value) (contexts s : Contexts) (o : Outcome)
      (x : Exception)
      → c.executors ≡ executors
      → c.has_running_loop ≡ false
      → c.creation ≡ some x
      → to_sync_call is_local same c context contexts ≡ ToSync.ends o after s
      → IsDict context
      → (current_of executors c.ident after ≡ current_of executors c.ident context) × IsDict after
  after_failing c context after contexts s o x ex loop made h u =
      let left =
        leave is_local same c (current_of c.executors c.ident context) (marked c context)
          (marked c context) in
      let q : left ≡ after =
        after_sync (sym (to_sync_call-failed is_local same c context contexts x loop made) ∙ h) in
      subst
        (λ a. (current_of executors c.ident a ≡ current_of executors c.ident context) × IsDict a) q
        (
          subst (λ k. current_of k c.ident left ≡ current_of k c.ident context) ex
              (current-leave is_local same c (current_of c.executors c.ident context)
                (marked c context) (marked c context)),
          IsDict-leave is_local same c (current_of c.executors c.ident context) (marked c context)
              (marked c context) (IsDict-marked is_local same sound c context u),
        )

  -- The worker's context, and the caller's after a SyncToAsync call.
  pub current_of-start :
      (ident e : ℕ) (r : Run Value) (context : Context Value)
      → is_local executors ≡ true
      → IsDict context
      → current_of executors ident context ≡ some e
      → current_of executors r.worker (start is_local same r context) ≡ some e
  current_of-start ident e r context n u h =
      current_of-restored ident r.worker e (get executors context) executors context
        (start is_local same r context)
        (rw (get-restore_context is_local same sound r.worker context context executors u, n) refl)
        h

  pub after_await :
      (f : SyncToAsync Value) (ident e : ℕ) (runs : Chosen → Run Value)
      (context child after : Context Value) (s s' s'' : Caller) (chosen : Chosen) (end : End Value)
      → f.context ≡ none
      → choose f s ≡ (ok chosen, s')
      → IsCalm (runs chosen)
      → (run_child is_local same (runs chosen) context).1 ≡ child
      → to_async_call is_local same f ident runs context s ≡ ToAsync.ends end after s''
      → is_local executors ≡ true
      → IsDict context
      → IsDict child
      → current_of executors (runs chosen).worker child ≡ some e
      → (current_of executors ident after ≡ some e) × IsDict after
  after_await f ident e runs context child after s s' s'' chosen end own h calm left call n u w g =
      let back = restore_context is_local same ident child context in
      let q : back ≡ after = rw (sym left) (
        after_async (
          sym (to_async_call-calm is_local same f ident runs context s chosen s' own h calm)
          ∙ call)) in
      subst (λ a. (current_of executors ident a ≡ some e) × IsDict a) q
        (
          current_of-restored (runs chosen).worker ident e (get executors context) executors child
              back
              (rw (get-restore_context is_local same sound ident child context executors w, n) refl)
              g,
          IsDict-restore_context is_local same ident child context u,
        )

  pub after_own :
      (f : SyncToAsync Value) (ident : ℕ) (runs : Chosen → Run Value)
      (own context after : Context Value) (s s' s'' : Caller) (chosen : Chosen) (end : End Value)
      → f.context ≡ some own
      → choose f s ≡ (ok chosen, s')
      → IsCalm (runs chosen)
      → to_async_call is_local same f ident runs context s ≡ ToAsync.ends end after s''
      → context ≡ after
  after_own f ident runs own context after s s' s'' chosen end o h calm call =
      sym (to_async_call-own is_local same f ident runs own context s chosen s' o h calm)
      ∙ ap (context_after context) call
