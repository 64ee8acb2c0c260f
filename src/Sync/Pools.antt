-- ===== src/Sync/Pools.antt =====
-- AsyncSingleThreadContext and ThreadSensitiveContext of asgiref/sync.py, and the thread pool that
-- belongs to one. The two classes differ in the order of what they do on exit. Managers and pools
-- are known by numbers; the context variable and the table are those of one class.
pub mod Steps
use asgire.Prelude.{
  ℕ, suc, List, [], ◌∷◌, ◌++◌, Bool, true, false, Option, none, some, ◌≡◌, refl, inl, inr,
  Option-cases, ◌=ℕ◌, nat_eq, if◌then◌else◌,
}
use asgire.Prelude.Dict.{Dict, get, insert, remove}
use asgire.Prelude.Result.{Result, ok, err}
use asgire.Prelude.Exec.{Exec, ◌>>=◌, ◌>>◌}

pub data Error : Type 0 where
  runtime_error : Error

-- A contextvars token: the value to go back to, and whether it has been used.
pub record Token : Type 0 where
  pub old_value : Option ℕ
  pub used : Bool

-- `variable` is `async_single_thread_context` or `thread_sensitive_context` in the running
-- context, `pools` is `context_to_thread_executor`, and `shut_down` has the pools in the order of
-- their shutdown.
pub record Contexts : Type 0 where
  pub variable : Option ℕ
  pub pools : Dict ℕ ℕ
  pub next_pool : ℕ
  pub shut_down : List ℕ
  pub tokens : ℕ → Option Token

abbrev pub Action : Type 0 → Type 0
Action = Exec Contexts Error

abbrev pub set_token : ℕ → Token → (ℕ → Option Token) → ℕ → Option Token
set_token m t tokens k = if m =ℕ k then some t else tokens k

enter_over : ℕ → Option ℕ → Action Unit
enter_over self (some c) s = (ok tt, s)
enter_over self none s = (
  ok tt,
  record s {
    variable = some self;
    tokens = set_token self (record { old_value = s.variable; used = false }) s.tokens;
  },
)

-- `__enter__` and `__aenter__`.
pub enter : ℕ → Action Unit
unfolding enter_over
enter self s = enter_over self s.variable s

-- `reset(self.token)`, a RuntimeError at the second time.
reset : ℕ → Token → Action Unit
reset self t s = if t.used then (err runtime_error, s) else (
  ok tt,
  record s { variable = t.old_value; tokens = set_token self (record t { used = true }) s.tokens },
)

-- `context_to_thread_executor.pop(self, None)`
pop : ℕ → Action (Option ℕ)
pop self s = (ok (get self s.pools), record s { pools = remove self s.pools })

shutdown : Option ℕ → Action Unit
shutdown none s = (ok tt, s)
shutdown (some p) s = (ok tt, record s { shut_down = s.shut_down ++ p ∷ [] })

-- AsyncSingleThreadContext.__exit__, by the token.
single_exit_by : ℕ → Option Token → Action Unit
single_exit_by self none s = (ok tt, s)
single_exit_by self (some t) s = (do executor ← pop self; shutdown executor; reset self t) s

pub single_exit : ℕ → Action Unit
unfolding single_exit_by pop shutdown reset
single_exit self s = single_exit_by self (s.tokens self) s

-- ThreadSensitiveContext.__aexit__, by the token; the shutdown is awaited in a thread of its own.
sensitive_exit_by : ℕ → Option Token → Action Unit
sensitive_exit_by self none s = (ok tt, s)
sensitive_exit_by self (some t) s = (do executor ← pop self; reset self t; shutdown executor) s

pub sensitive_exit : ℕ → Action Unit
unfolding sensitive_exit_by pop shutdown reset
sensitive_exit self s = sensitive_exit_by self (s.tokens self) s

pool_by : ℕ → Option ℕ → Contexts → ℕ × Contexts
pool_by c (some p) s = (p, s)
pool_by c none s =
    (s.next_pool, record s { pools = insert c s.next_pool s.pools; next_pool = suc s.next_pool })

-- The pool of a context, made with one worker at its first use.
pub pool_for : ℕ → Contexts → ℕ × Contexts
unfolding pool_by
pool_for c s = pool_by c (get c s.pools) s

-- `ThreadPoolExecutor(max_workers=1)` for one call.
pub fresh_pool : Contexts → ℕ × Contexts
fresh_pool s = (s.next_pool, record s { next_pool = suc s.next_pool })

loop_executor_by : Option ℕ → Contexts → ℕ × Contexts
loop_executor_by none s = fresh_pool s
loop_executor_by (some c) s = pool_for c s

-- The pool in which AsyncToSync.__call__ runs a new event loop.
pub loop_executor : Contexts → ℕ × Contexts
unfolding loop_executor_by pool_for fresh_pool
loop_executor s = loop_executor_by s.variable s

pub data ManagerClass : Type 0 where
  single sensitive : ManagerClass

unfoldable pub exit_of : ManagerClass → ℕ → Action Unit
exit_of single = single_exit
exit_of sensitive = sensitive_exit
