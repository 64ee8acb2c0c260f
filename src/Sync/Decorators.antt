-- ===== src/Sync/Decorators.antt =====
-- The functions async_to_sync and sync_to_async of asgiref/sync.py, which are called with a callable
-- or without one, as a decorator with options, and AsyncToSync's constructor. `A` is the type of the
-- callables themselves, `Function` what the code asks of one.
pub mod Accepts
use asgire.Prelude.{ℕ, List, ◌∷◌, Bool, not, ◌&&◌, ◌||◌, Option, none, some}
use asgire.Prelude.Result.{Result, ok, err}
use asgire.Local.{Context}
use asgire.Sync.ToAsync.{Error, Function, SyncToAsync, to_async_init}

pub record AsyncToSync (A : Type 0) : Type 0 where
  pub awaitable : A
  pub force_new_loop : Bool
  pub warned : Bool

-- A wrapper, or a function that makes one.
pub data Decorated (A W : Type 0) : Type 0 where
  wrapper : W → Decorated A W
  decorator : (A → W) → Decorated A W

module _ {A : Type 0} (function : A → Function) where
  -- The constructor, which warns of a callable that is not marked as asynchronous.
  unfoldable pub to_sync_init : A → Bool → AsyncToSync A
  to_sync_init awaitable force_new_loop =
      let func = function awaitable in
      record {
        awaitable = awaitable;
        force_new_loop = force_new_loop;
        warned = not func.is_callable || (not func.is_coroutine && not func.call_is_coroutine);
      }

  unfoldable pub async_to_sync : Option A → Bool → Decorated A (AsyncToSync A)
  async_to_sync none force_new_loop = decorator (λ f. to_sync_init f force_new_loop)
  async_to_sync (some awaitable) force_new_loop = wrapper (to_sync_init awaitable force_new_loop)

  unfoldable pub sync_to_async :
      {V : Type 0}
      → Option A
      → Bool
      → Option ℕ
      → Option (Context V)
      → Decorated A (Result Error (SyncToAsync V))
  sync_to_async none thread_sensitive executor context =
      decorator (λ f. to_async_init (function f) thread_sensitive executor context)
  sync_to_async (some func) thread_sensitive executor context =
      wrapper (to_async_init (function func) thread_sensitive executor context)

-- `__get__`, which gives a method: a call of the object with the parent before the arguments.
abbrev pub to_sync_get : {A R : Type 0} → (List A → R) → A → List A → R
to_sync_get call parent args = call (parent ∷ args)

abbrev pub to_async_get : {A R : Type 0} → (List A → R) → A → List A → R
to_async_get call parent args = call (parent ∷ args)
