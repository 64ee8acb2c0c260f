-- ===== src/Sync/Decorators/Accepts.antt =====
-- What sync_to_async accepts, and where the calls of what it makes are run.
use asgire.Prelude.{
  ℕ, Bool, true, false, not, ◌&&◌, ◌||◌, Option, none, some, ◌≡◌, ◌≢◌, ◌⊎◌, ◌↔◌, inl, inr, refl,
  Bool-cases, arith,
}
use asgire.Prelude.Result.{Result, ok, err}
use asgire.Local.{Context}
use asgire.Sync.ToAsync.{
  Error, type_error, Function, SyncToAsync, to_async_init, passed, Caller, choose,
}
use asgire.Sync.Decorators.{Decorated, wrapper, decorator, sync_to_async}

-- What a callable becomes: directly, or by the decorator.
abbrev pub applied : {A W : Type 0} → Decorated A W → A → W
applied (wrapper w) f = w
applied (decorator make) f = make f

-- Callable, and no coroutine function, nor with a `__call__` that is one where that is asked.
abbrev pub IsSync : Function → Type 0
IsSync func =
    (func.is_callable ≡ true)
    × (func.is_coroutine ≡ false)
    × ((func.is_directly_introspectable ≡ true) ⊎ (func.call_is_coroutine ≡ false))

pub data Made {V : Type 0} (func : Function) (thread_sensitive : Bool) (executor : Option ℕ)
    (context : Option (Context V)) (r : Result Error (SyncToAsync V)) : Type 0 where
  not_sync : (¬ IsSync func) → r ≡ err type_error → Made func thread_sensitive executor context r
  two_executors :
      thread_sensitive ≡ true
      → executor ≢ none
      → r ≡ err type_error
      → Made func thread_sensitive executor context r
  made_sensitive :
      (f : SyncToAsync V)
      → IsSync func
      → thread_sensitive ≡ true
      → executor ≡ none
      → r ≡ ok f
      → (f.is_thread_sensitive ≡ true) × (f.context ≡ context)
      → Made func thread_sensitive executor context r
  made_free :
      (f : SyncToAsync V)
      → IsSync func
      → thread_sensitive ≡ false
      → r ≡ ok f
      → ((s : Caller) → choose f s ≡ (ok (passed executor), s)) × (f.context ≡ context)
      → Made func thread_sensitive executor context r

abbrev refuses : Function → Bool
refuses func =
    not func.is_callable
    || (func.is_coroutine || (not func.is_directly_introspectable && func.call_is_coroutine))

refuses-IsSync : (func : Function) → (refuses func ≡ false) ↔ IsSync func
refuses-IsSync func = ground arith

module _ {V : Type 0} (func : Function) (context : Option (Context V)) where
  abbrev object : Bool → Option ℕ → SyncToAsync V
  object thread_sensitive executor = record {
    context = context;
    is_thread_sensitive = thread_sensitive;
    executor = executor;
  }

  init_accepts :
      (thread_sensitive : Bool) (executor : Option ℕ)
      → refuses func ≡ false
      → Made func thread_sensitive executor context
          (to_async_init func thread_sensitive executor context)
  unfolding to_async_init
  init_accepts true none h =
      made_sensitive (object true none) ((refuses-IsSync func).0 h) refl refl (rw h refl)
        (refl, refl)
  init_accepts true (some e) h = two_executors refl (λ q. cc) (rw h refl)
  init_accepts false executor h =
      made_free (object false executor) ((refuses-IsSync func).0 h) refl (rw h refl)
        (λ s. unfold choose in refl, refl)

  to_async_init-Made :
      (thread_sensitive : Bool) (executor : Option ℕ)
      → Made func thread_sensitive executor context
          (to_async_init func thread_sensitive executor context)
  to_async_init-Made thread_sensitive executor = elim (Bool-cases (refuses func)) [
    | inl y ↦ not_sync (λ h. cc (y, (refuses-IsSync func).1 h)) (unfold to_async_init in rw y refl)
    | inr n ↦ init_accepts thread_sensitive executor n
  ]

module _ {A : Type 0} (function : A → Function) where
  -- sync_to_async, used directly or as a decorator with options: a TypeError for what is not
  -- callable or is asynchronous, and for an executor with thread_sensitive; else an object with the
  -- context that was given, all of whose calls run in the given executor, or the loop's default,
  -- if it is not thread-sensitive.
  pub sync_to_async-Made :
      {V : Type 0} (given : Option A) (f : A) (thread_sensitive : Bool) (executor : Option ℕ)
      (context : Option (Context V))
      → (given ≡ none) ⊎ (given ≡ some f)
      → Made
          (function f)
          thread_sensitive
          executor
          context
          (applied (sync_to_async function given thread_sensitive executor context) f)
  unfolding sync_to_async
  sync_to_async-Made given f thread_sensitive executor context (inl q) =
      rw q (to_async_init-Made (function f) context thread_sensitive executor)
  sync_to_async-Made given f thread_sensitive executor context (inr q) =
      rw q (to_async_init-Made (function f) context thread_sensitive executor)
