-- ===== src/Sync/Wrap.antt =====
-- AsyncToSync.main_wrap of asgiref/sync.py, step by step, as the thread that waits for
-- `call_result` sees it. Tasks are numbers.
pub mod Delivery
use asgire.Prelude.{
  ℕ, List, [], ◌∷◌, ◌++◌, Bool, true, false, Option, none, some, ◌=ℕ◌, if◌then◌else◌,
}
use asgire.Local.{CValue, Context, restore_context}

pub data Exception : Type 0 where
  cancelled_error index_error : Exception
  other : ℕ → Exception

-- What a call or an `await` comes to.
pub data Outcome : Type 0 where
  returned : ℕ → Outcome
  raised : Exception → Outcome

-- `cell` is `context[0]`, `task_context` the list that the caller's SyncToAsync made, if there is
-- one, and `current` the context of the task that runs main_wrap.
pub record Wrap (V : Type 0) : Type 0 where
  pub cell : Context V
  pub call_result : Option Outcome
  pub task_context : Option (List ℕ)
  pub current : Context V

-- The thread and the task that run main_wrap, and what the awaitable makes of a context: an
-- outcome and the context after it, or nothing if it never completes.
pub record LoopRun (V : Type 0) : Type 0 where
  pub ident : ℕ
  pub current_task : Option ℕ
  pub base : Context V
  pub awaitable : Context V → Option (Outcome × Context V)

-- `list.remove`
abbrev pub remove_task : ℕ → List ℕ → List ℕ
remove_task t [] = []
remove_task t (u ∷ us) = let rest = remove_task t us in if u =ℕ t then us else u ∷ rest

abbrev pub appended : Option ℕ → Option (List ℕ) → Option (List ℕ)
appended (some t) (some ts) = some (ts ++ t ∷ [])
appended _ tasks = tasks

abbrev pub removed : Option ℕ → Option (List ℕ) → Option (List ℕ)
removed (some t) (some ts) = some (remove_task t ts)
removed _ tasks = tasks

module _ {V : Type 0} (is_local : ℕ → Bool) (same : CValue V → CValue V → Bool) where
  abbrev pub begin_wrap : LoopRun V → Wrap V → Wrap V
  begin_wrap run w = record w { current = restore_context is_local same run.ident w.cell run.base }

abbrev pub enter_task : {V : Type 0} → LoopRun V → Wrap V → Wrap V
enter_task run w = record w { task_context = appended run.current_task w.task_context }

abbrev pub after_await : {V : Type 0} → Context V → Wrap V → Wrap V
after_await final w = record w { current = final }

abbrev pub leave_task : {V : Type 0} → LoopRun V → Wrap V → Wrap V
leave_task run w = record w { task_context = removed run.current_task w.task_context }

abbrev pub capture : {V : Type 0} → Wrap V → Wrap V
capture w = record w { cell = w.current }

abbrev pub resolve : {V : Type 0} → Outcome → Wrap V → Wrap V
resolve o w = record w { call_result = some o }

-- What follows the `await`.
abbrev pub ended : {V : Type 0} → LoopRun V → Wrap V → Option (Outcome × Context V) → List (Wrap V)
ended run w none = []
ended run w (some (o, final)) =
    let w1 = after_await final w in
    let w2 = leave_task run w1 in let w3 = capture w2 in w1 ∷ w2 ∷ w3 ∷ resolve o w3 ∷ []

module _ {V : Type 0} (is_local : ℕ → Bool) (same : CValue V → CValue V → Bool) where
  -- The states that main_wrap goes through, one for each of its effects, in order.
  unfoldable pub main_wrap : LoopRun V → Wrap V → List (Wrap V)
  main_wrap run w =
      let w1 = begin_wrap is_local same run w in
      let w2 = enter_task run w1 in w1 ∷ w2 ∷ ended run w2 (run.awaitable w2.current)
