-- ===== src/Sync/NewLoop.antt =====
-- AsyncToSync.__call__'s new_loop_wrap of asgiref/sync.py: the table `loop_thread_executors` while
-- a new loop runs main_wrap. Loops and executors are numbers.
pub mod Serves
use asgire.Prelude.{ℕ, List, [], ◌∷◌, ◌++◌, Bool, Option, none, some, map, nat_eq}
use asgire.Prelude.Dict.{Dict, insert, remove}
use asgire.Local.{CValue, Context}
use asgire.Sync.Wrap.{Outcome, Wrap, LoopRun, main_wrap}
use asgire.Sync.Wrap.Delivery.{last}

pub record Loop (V : Type 0) : Type 0 where
  pub loop_thread_executors : Dict ℕ ℕ
  pub wrap : Wrap V

-- The `finally` block, which is reached when main_wrap is at its end.
abbrev pub unregister : {V : Type 0} → ℕ → Loop V → Option Outcome → List (Loop V)
unregister loop l none = []
unregister loop l (some o) =
    record l { loop_thread_executors = remove loop l.loop_thread_executors } ∷ []

module _ {V : Type 0} (is_local : ℕ → Bool) (same : CValue V → CValue V → Bool) where
  -- The states that new_loop_wrap goes through, one for each effect, in order.
  unfoldable pub new_loop_wrap : ℕ → ℕ → LoopRun V → Loop V → List (Loop V)
  new_loop_wrap loop executor run l =
      let registered = record l {
        loop_thread_executors = insert loop executor l.loop_thread_executors;
      } in
      let states = main_wrap is_local same run l.wrap in
      let end = record registered { wrap = last l.wrap states } in
      registered
      ∷ (map (λ w. record registered { wrap = w }) states
          ++ unregister loop end end.wrap.call_result)
