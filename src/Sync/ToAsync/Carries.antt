-- ===== src/Sync/ToAsync/Carries.antt =====
-- Context variables on the way to the worker thread of a SyncToAsync call and back.
use asgire.Prelude.{ℕ, nat_eq, [], Bool, true, false, Option, none, some, ◌≡◌, refl, sym, ap, ◌∙◌}
use asgire.Prelude.Dict.{get, IsDict}
use asgire.Prelude.Result.{ok}
use asgire.Local.{CValue, pair, object, Context, rehome, restore_context}
use asgire.Local.Restored.{restored, get-restore_context}
use asgire.Sync.ToAsync.{
  IsCalm, SyncToAsync, Chosen, Caller, choose, Run, run_child, wait, wait_by, Called, refused, ends,
  to_async_call,
}

-- A Local's storage has this thread's tag.
abbrev pub OwnedBy : {V : Type 0} → ℕ → Bool → Option (CValue V) → Type 0
OwnedBy ident true (some (pair s)) = s.thread_id ≡ ident
OwnedBy ident _ _ = Unit

-- The caller's context after a call.
abbrev pub context_after : {V : Type 0} → Context V → Called V → Context V
context_after context (refused e s) = context
context_after context (ends e after s) = after

module _ {V : Type 0} (is_local : ℕ → Bool) (same : CValue V → CValue V → Bool) where
  -- The context in which the function begins.
  abbrev pub start : Run V → Context V → Context V
  start run context = restore_context is_local same run.worker context context

  pub to_async_call-calm :
      (f : SyncToAsync V) (ident : ℕ) (runs : Chosen → Run V) (context : Context V) (s : Caller)
      (chosen : Chosen) (s' : Caller)
      → f.context ≡ none
      → choose f s ≡ (ok chosen, s')
      → IsCalm (runs chosen)
      → to_async_call is_local same f ident runs context s
        ≡ ends
            (record {
              outcome = (run_child is_local same (runs chosen) context).0;
              context = (run_child is_local same (runs chosen) context).1;
              log = [];
            })
            (restore_context is_local same ident
              (run_child is_local same (runs chosen) context).1
              context)
            (record s' { deadlock_context = false })
  unfolding to_async_call wait wait_by
  to_async_call-calm f ident runs context s chosen s' own h calm = rw (h, own, calm.0, calm.1) refl

  -- A function in a context of its own leaves the caller's as it is.
  pub to_async_call-own :
      (f : SyncToAsync V) (ident : ℕ) (runs : Chosen → Run V) (own context : Context V) (s : Caller)
      (chosen : Chosen) (s' : Caller)
      → f.context ≡ some own
      → choose f s ≡ (ok chosen, s')
      → IsCalm (runs chosen)
      → context_after context (to_async_call is_local same f ident runs context s) ≡ context
  unfolding to_async_call
  to_async_call-own f ident runs own context s chosen s' o h calm = rw (h, o, calm.0) refl

module _ {V : Type 0} (is_local : ℕ → Bool) (same : CValue V → CValue V → Bool)
    (sound : (v w : CValue V) → same v w ≡ true → v ≡ w) where
  -- The function begins with the caller's variables, a Local's re-homed to the worker; when the
  -- call is over, the caller has the function's, a Local's re-homed to the caller's thread.
  pub record Carried (f : SyncToAsync V) (ident : ℕ) (runs : Chosen → Run V) (context : Context V)
      (s : Caller) (chosen : Chosen) (s' : Caller) : Type 0 where
    pub after : Context V
    pub result :
        to_async_call is_local same f ident runs context s
        ≡ ends
            (record {
              outcome = (run_child is_local same (runs chosen) context).0;
              context = (run_child is_local same (runs chosen) context).1;
              log = [];
            })
            after
            (record s' { deadlock_context = false })
    pub there :
        (v : ℕ)
        → get v (start is_local same (runs chosen) context)
          ≡ restored (runs chosen).worker (is_local v) (get v context) (get v context)
    pub back :
        (v : ℕ)
        → get v after
          ≡ restored ident
              (is_local v)
              (get v (run_child is_local same (runs chosen) context).1)
              (get v context)

  pub to_async_call-Carried :
      (f : SyncToAsync V) (ident : ℕ) (runs : Chosen → Run V) (context : Context V) (s : Caller)
      (chosen : Chosen) (s' : Caller)
      → f.context ≡ none
      → choose f s ≡ (ok chosen, s')
      → IsCalm (runs chosen)
      → IsDict context
      → IsDict (run_child is_local same (runs chosen) context).1
      → Carried f ident runs context s chosen s'
  to_async_call-Carried f ident runs context s chosen s' own h calm u w = record {
    after =
        restore_context is_local same ident (run_child is_local same (runs chosen) context).1
          context;
    result = to_async_call-calm is_local same f ident runs context s chosen s' own h calm;
    there = λ v. get-restore_context is_local same sound (runs chosen).worker context context v u;
    back = λ v.
        get-restore_context is_local same sound ident
          (run_child is_local same (runs chosen) context).1 context v w;
  }

  rehome_back :
      (i j : ℕ) (named : Bool) (o : Option (CValue V))
      → OwnedBy i named o
      → restored i named (restored j named o o) o ≡ o
  unfolding rehome
  rehome_back i j true (some (pair s)) h = rw (sym h) refl
  rehome_back i j false (some (pair s)) h = refl
  rehome_back i j true (some (object x)) h = refl
  rehome_back i j false (some (object x)) h = refl
  rehome_back i j true none h = refl
  rehome_back i j false none h = refl

  -- If the values that `==` does not tell apart are the same: a variable of the caller that a
  -- function leaves alone in the worker thread is after the call what it was before, if it is no
  -- Local's, or a Local's with the tag of the caller's thread, when the call runs in a copy of the
  -- caller's context, finds an executor that takes it, and is not interrupted.
  pub get-to_async_call :
      (f : SyncToAsync V) (ident : ℕ) (runs : Chosen → Run V) (context : Context V) (s : Caller)
      (chosen : Chosen) (s' : Caller) (v : ℕ)
      → f.context ≡ none
      → choose f s ≡ (ok chosen, s')
      → IsCalm (runs chosen)
      → IsDict context
      → IsDict (run_child is_local same (runs chosen) context).1
      → OwnedBy ident (is_local v) (get v context)
      → get v (run_child is_local same (runs chosen) context).1
        ≡ get v (start is_local same (runs chosen) context)
      → get v (context_after context (to_async_call is_local same f ident runs context s))
        ≡ get v context
  get-to_async_call f ident runs context s chosen s' v h g c u w o left =
      let r = to_async_call-Carried f ident runs context s chosen s' h g c u w in
      rw r.result (
        r.back v
        ∙ ap (λ x. restored ident (is_local v) x (get v context)) (left ∙ r.there v)
        ∙ rehome_back ident (runs chosen).worker (is_local v) (get v context) o)
