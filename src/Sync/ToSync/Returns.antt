-- ===== src/Sync/ToSync/Returns.antt =====
-- What a finished AsyncToSync call leaves in the caller's context.
use asgire.Prelude.{
  ℕ, Bool, true, false, Option, none, some, ◌≡◌, ◌≢◌, ◌⊎◌, refl, ap, ◌∙◌, ◌=ℕ◌, =ℕ_iff, nat_eq,
  list_eq, Bool-cases, inl, inr,
}
use asgire.Prelude.Dict.{get, insert, get-insert, IsDict, IsDict-insert}
use asgire.Text.{str}
use asgire.Local.{
  Storage, CValue, pair, Context, getattr, setattr, owned, is_reserved, restore_context,
}
use asgire.Local.Restored.{storage_of, restored, get-restore_context, IsDict-restore_context}
use asgire.Sync.Pools.{Contexts}
use asgire.Sync.Wrap.{Exception, Outcome, raised, Wrap}
use asgire.Sync.Wrap.Delivery.{inside, main_wrap_end}
use asgire.Sync.ToSync.{
  Value, executor, as_executor, as_value, current_of, set_current, main_loop, Place, place, Calling,
  Undisturbed, ends, leave, run_wrapped, to_sync_call,
}

module _ (executors ident : ℕ) where
  -- What `set_current` writes to the variable.
  abbrev pub with_current : Value → Context Value → Storage Value
  with_current v context = record {
    thread_id = ident;
    storage_data = insert (str "current") v (owned ident (storage_of (get executors context)));
  }

  pub set_current_lem :
      (v : Value) (context : Context Value)
      → set_current executors ident v context
        ≡ insert executors (pair (with_current v context)) context
  unfolding set_current setattr is_reserved
  set_current_lem v context = refl

  pub get-set_current :
      (v : Value) (context : Context Value)
      → get executors (set_current executors ident v context) ≡ some (pair (with_current v context))
  get-set_current v context =
      rw
        (
          set_current_lem v context,
          get-insert executors executors (pair (with_current v context)) context,
          (=ℕ_iff executors executors).1 refl,
        )
        refl

  pub current-set_current :
      (v : Value) (context : Context Value)
      → current_of executors ident (set_current executors ident v context) ≡ as_executor (some v)
  unfolding current_of getattr
  current-set_current v context =
      rw (get-set_current v context, (=ℕ_iff ident ident).1 refl)
        (ap as_executor (
          get-insert (str "current") (str "current") v
            (owned ident (storage_of (get executors context)))))

  pub get-set_current_other :
      (c : ℕ) (v : Value) (context : Context Value)
      → executors ≢ c
      → get c (set_current executors ident v context) ≡ get c context
  get-set_current_other c v context ne = elim (Bool-cases (executors =ℕ c)) [
    | inl y ↦ absurd (ne ((=ℕ_iff executors c).0 y))
    | inr n ↦
        rw
          (
            set_current_lem v context,
            get-insert executors c (pair (with_current v context)) context,
            n,
          )
          refl
  ]

pub as_executor-as_value : (o : Option ℕ) → as_executor (some (as_value o)) ≡ o
as_executor-as_value none = refl
as_executor-as_value (some n) = refl

-- The context of the awaitable, and where it runs.
abbrev pub marked : Calling → Context Value → Context Value
marked c context = set_current c.executors c.ident (executor c.new_executor) context

abbrev pub placed : Calling → Contexts → Place × Contexts
placed c contexts =
    place c.is_running c.accepts (main_loop c.force_new_loop c.pid c.threadlocal) contexts

module _ (is_local : ℕ → Bool) (same : CValue Value → CValue Value → Bool) where
  pub run_wrapped_lem :
      (c : Calling) (old : Option ℕ) (context final : Context Value) (p : Place × Contexts)
      (o : Outcome)
      → (c.loop_run p.0).awaitable (inside is_local same (c.loop_run p.0) context) ≡ some (o, final)
      → run_wrapped is_local same c old context p
        ≡ ends o (leave is_local same c old final context) p.1
  unfolding run_wrapped
  run_wrapped_lem c old context final (p, contexts) o h =
      let start : Wrap Value = record {
        cell = context;
        call_result = none;
        task_context = c.threadlocal.task_context;
        current = context;
      } in
      let (r, q) = main_wrap_end is_local same (c.loop_run p) start o final h in rw (r, q) refl

  pub to_sync_call-done :
      (c : Calling) (context final : Context Value) (contexts : Contexts) (o : Outcome)
      → c.has_running_loop ≡ false
      → Undisturbed c
      → (c.loop_run (placed c contexts).0).awaitable
          (inside is_local same (c.loop_run (placed c contexts).0) (marked c context))
        ≡ some (o, final)
      → to_sync_call is_local same c context contexts
        ≡ ends o
            (leave is_local same c
              (current_of c.executors c.ident context)
              final
              (marked c context))
            (placed c contexts).1
  unfolding to_sync_call leave run_wrapped
  to_sync_call-done c context final contexts o loop made done =
      rw (loop, made.0, made.1)
        (run_wrapped_lem c (current_of c.executors c.ident context) (marked c context) final
          (placed c contexts) o done)

  pub to_sync_call-failed :
      (c : Calling) (context : Context Value) (contexts : Contexts) (e : Exception)
      → c.has_running_loop ≡ false
      → c.creation ≡ some e
      → to_sync_call is_local same c context contexts
        ≡ ends
            (raised e)
            (leave is_local same c
              (current_of c.executors c.ident context)
              (marked c context)
              (marked c context))
            contexts
  unfolding to_sync_call leave
  to_sync_call-failed c context contexts e loop made = rw (loop, made) refl

  pub IsDict-leave :
      (c : Calling) (old : Option ℕ) (captured context : Context Value)
      → IsDict context
      → IsDict (leave is_local same c old captured context)
  unfolding leave
  IsDict-leave c old captured context u =
      let back = restore_context is_local same c.ident captured context in
      rw (set_current_lem c.executors c.ident (as_value old) back) (
        IsDict-insert c.executors (pair (with_current c.executors c.ident (as_value old) back)) back
          (IsDict-restore_context is_local same c.ident captured context u))

  -- The call ends with the awaitable's outcome. Its own thread then finds the executor that it
  -- found before; every other variable has what the awaitable left in it, re-homed to the thread
  -- if it is a Local's, and else what the caller had.
  pub record Finished (c : Calling) (context : Context Value) (contexts : Contexts) (o : Outcome)
      (final : Context Value) : Type 0 where
    pub after : Context Value
    pub result : to_sync_call is_local same c context contexts ≡ ends o after (placed c contexts).1
    pub current : current_of c.executors c.ident after ≡ current_of c.executors c.ident context
    pub others :
        (v : ℕ)
        → (c.executors ≡ v)
          ⊎ (get v after ≡ restored c.ident (is_local v) (get v final) (get v context))

  -- If the values that `==` does not tell apart are the same, and the thread runs no event loop: a
  -- call whose awaitable is made and completes, and where no exception leaves the try block, ends with
  -- the awaitable's outcome. The thread then
  -- finds the executor that it found before; every other context variable has what the awaitable
  -- left in it, re-homed to the thread if it is a Local's, and else what the caller had.
  pub to_sync_call-Finished :
      ((v w : CValue Value) → same v w ≡ true → v ≡ w)
      → (c : Calling) (context : Context Value) (contexts : Contexts) (o : Outcome)
        (final : Context Value)
      → c.has_running_loop ≡ false
      → Undisturbed c
      → (c.loop_run (placed c contexts).0).awaitable
          (inside is_local same (c.loop_run (placed c contexts).0) (marked c context))
        ≡ some (o, final)
      → IsDict final
      → Finished c context contexts o final
  unfolding leave
  to_sync_call-Finished sound c context contexts o final loop made done u = record {
    after = set_current c.executors c.ident (as_value old) back;
    result = to_sync_call-done c context final contexts o loop made done;
    current =
        current-set_current c.executors c.ident (as_value old) back ∙ as_executor-as_value old;
    others = λ v. elim (Bool-cases (c.executors =ℕ v)) [
      | inl y ↦ inl ((=ℕ_iff c.executors v).0 y)
      | inr n ↦ inr (carried v (λ e. cc (n, (=ℕ_iff c.executors v).1 e)))
    ];
  }
    where
      old : Option ℕ
      old = current_of c.executors c.ident context

      back : Context Value
      back = restore_context is_local same c.ident final (marked c context)

      carried :
          (v : ℕ)
          → c.executors ≢ v
          → get v (set_current c.executors c.ident (as_value old) back)
            ≡ restored c.ident (is_local v) (get v final) (get v context)
      carried v ne =
          get-set_current_other c.executors c.ident v (as_value old) back ne
          ∙ get-restore_context is_local same sound c.ident final (marked c context) v u
          ∙ ap (restored c.ident (is_local v) (get v final))
              (get-set_current_other c.executors c.ident v (executor c.new_executor) context ne)
