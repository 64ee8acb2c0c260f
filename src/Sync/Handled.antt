-- ===== src/Sync/Handled.antt =====
-- What `sys.exc_info()` gives in code that asgiref/sync.py runs elsewhere, and how exceptions come
-- back: the exception that a caller handles is raised again around the awaitable by main_wrap, and
-- around the function by thread_handler. Exceptions that a future does not carry (StopIteration, and
-- cancellations, which Wrap and ToAsync have) are not among these.
pub mod Direct
use asgire.Prelude.{List, [], ◌∷◌, ◌++◌, Bool, true, false, Option, none, some, if◌then◌else◌}

-- Functions by what they do about exceptions. `look` notes `sys.exc_info()[1]`, and `try_except`
-- catches what its body raises; `call` is `async_to_sync(body)()`, and `await` is
-- `await sync_to_async(body)()`, whose worker may be the thread that waits for the awaitable.
mutual
  pub data SyncCode (X : Type 0) : Type 0 where
    end : SyncCode X
    raise : X → SyncCode X
    look : SyncCode X → SyncCode X
    try_except : SyncCode X → SyncCode X → SyncCode X → SyncCode X
    call : AsyncCode X → SyncCode X → SyncCode X

  pub data AsyncCode (X : Type 0) : Type 0 where
    end_async : AsyncCode X
    raise_async : X → AsyncCode X
    look_async : AsyncCode X → AsyncCode X
    try_except_async : AsyncCode X → AsyncCode X → AsyncCode X → AsyncCode X
    await : Bool → SyncCode X → AsyncCode X → AsyncCode X

-- What was noted, and the exception that a function ends by, if it does not return.
pub record Seen (X : Type 0) : Type 0 where
  pub noted : List (Option X)
  pub escapes : Option X

module _ {X : Type 0} where
  -- `sys.exc_info()[1]`, of the exceptions that are being handled, innermost first.
  abbrev pub exc_info : List X → Option X
  exc_info [] = none
  exc_info (x ∷ handled) = some x

  abbrev pub quiet : Seen X
  quiet = record { noted = []; escapes = none }

  abbrev pub escaping : X → Seen X
  escaping x = record { noted = []; escapes = some x }

  abbrev pub noting : Option X → Seen X → Seen X
  noting o s = record s { noted = o ∷ s.noted }

  abbrev pub and_then_by : Option X → List (Option X) → Seen X → Seen X
  and_then_by none noted s = record { noted = noted ++ s.noted; escapes = s.escapes }
  and_then_by (some x) noted s = record { noted = noted; escapes = some x }

  abbrev pub and_then : Seen X → Seen X → Seen X
  and_then r s = and_then_by r.escapes r.noted s

  abbrev pub caught_by : Option X → List (Option X) → (X → Seen X) → Seen X
  caught_by none noted handler = record { noted = noted; escapes = none }
  caught_by (some x) noted handler = and_then_by none noted (handler x)

  abbrev pub caught : Seen X → (X → Seen X) → Seen X
  caught r handler = caught_by r.escapes r.noted handler

  -- The worker is the thread that waits, or one that handles nothing.
  abbrev pub worker_handles : Bool → List X → List X
  worker_handles true waiting = waiting
  worker_handles false waiting = []

-- `is_true` is the truth value of an exception.
module _ {X : Type 0} (is_true : X → Bool) where
  -- The `await` of main_wrap, in a task that handles `own`.
  abbrev pub await_handling : Option X → List X → (List X → Seen X) → Seen X
  await_handling none own awaitable = awaitable own
  await_handling (some x) own awaitable = awaitable (if is_true x then x ∷ own else own)

  -- The call of `func` by thread_handler, in a thread that handles `own`.
  abbrev pub thread_handling : Option X → List X → (List X → Seen X) → Seen X
  thread_handling none own func = func own
  thread_handling (some x) own func = func (if is_true x then x ∷ own else own)

  -- A call of AsyncToSync by a thread that handles `handled`.
  abbrev pub to_sync_handling : List X → (List X → Seen X) → Seen X
  to_sync_handling handled awaitable = await_handling (exc_info handled) [] awaitable

  -- A call of SyncToAsync by a task that handles `handled`, for a worker that handles `worker`.
  abbrev pub to_async_handling : List X → List X → (List X → Seen X) → Seen X
  to_async_handling worker handled func = thread_handling (exc_info handled) worker func

  -- A function in a thread that handles `handled`; an awaitable in a task that handles `handled`,
  -- of an AsyncToSync call by a thread that handles `waiting`.
  unfoldable mutual
    pub run_sync : SyncCode X → List X → Seen X
    run_sync end handled = quiet
    run_sync (raise x) handled = escaping x
    run_sync (look rest) handled = noting (exc_info handled) (run_sync rest handled)
    run_sync (try_except body handler rest) handled =
        and_then (caught (run_sync body handled) (λ x. run_sync handler (x ∷ handled)))
          (run_sync rest handled)
    run_sync (call body rest) handled =
        and_then (to_sync_handling handled (λ own. run_async body handled own))
          (run_sync rest handled)

    pub run_async : AsyncCode X → List X → List X → Seen X
    run_async end_async waiting handled = quiet
    run_async (raise_async x) waiting handled = escaping x
    run_async (look_async rest) waiting handled =
        noting (exc_info handled) (run_async rest waiting handled)
    run_async (try_except_async body handler rest) waiting handled =
        and_then
          (caught (run_async body waiting handled) (λ x. run_async handler waiting (x ∷ handled)))
          (run_async rest waiting handled)
    run_async (await is_waiting body rest) waiting handled =
        and_then
          (to_async_handling (worker_handles is_waiting waiting) handled (λ own. run_sync body own))
          (run_async rest waiting handled)
