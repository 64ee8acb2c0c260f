-- ===== src/Sync/Handled/Direct.antt =====
-- Calls across threads and loops, against plain calls.
use asgire.Prelude.{List, [], ◌∷◌, Bool, true, false, Option, some, ◌≡◌, refl, ap, ◌∙◌}
use asgire.Sync.Handled.{
  SyncCode, end, raise, look, try_except, call, AsyncCode, end_async, raise_async, look_async,
  try_except_async, await, Seen, exc_info, quiet, escaping, noting, and_then, caught, run_sync,
  run_async, worker_handles,
}

module _ {X : Type 0} where
  -- A function that calls the others itself, where the exception `o` is handled.
  unfoldable mutual
    pub direct_sync : SyncCode X → Option X → Seen X
    direct_sync end o = quiet
    direct_sync (raise x) o = escaping x
    direct_sync (look rest) o = noting o (direct_sync rest o)
    direct_sync (try_except body handler rest) o =
        and_then (caught (direct_sync body o) (λ x. direct_sync handler (some x)))
          (direct_sync rest o)
    direct_sync (call body rest) o = and_then (direct_async body o) (direct_sync rest o)

    pub direct_async : AsyncCode X → Option X → Seen X
    direct_async end_async o = quiet
    direct_async (raise_async x) o = escaping x
    direct_async (look_async rest) o = noting o (direct_async rest o)
    direct_async (try_except_async body handler rest) o =
        and_then (caught (direct_async body o) (λ x. direct_async handler (some x)))
          (direct_async rest o)
    direct_async (await is_waiting body rest) o =
        and_then (direct_sync body o) (direct_async rest o)

  -- Where nothing is handled in a task, its AsyncToSync call was made where nothing was.
  abbrev Within : List X → List X → Type 0
  Within waiting [] = waiting ≡ []
  Within waiting (x ∷ handled) = Unit

  module _ (is_true : X → Bool) (all_true : (x : X) → is_true x ≡ true) where
    mutual
      unfolding run_sync direct_sync

      run_sync-direct :
          (c : SyncCode X) (handled : List X)
          → run_sync is_true c handled ≡ direct_sync c (exc_info handled)
      run_sync-direct end handled = refl
      run_sync-direct (raise x) handled = refl
      run_sync-direct (look rest) handled =
          ap (noting (exc_info handled)) (run_sync-direct rest handled)
      run_sync-direct (try_except body handler rest) handled = λ i.
          and_then
            (caught (run_sync-direct body handled i) (λ x. run_sync-direct handler (x ∷ handled) i))
            (run_sync-direct rest handled i)
      run_sync-direct (call body rest) [] =
          λ i. and_then (run_async-direct body [] [] refl i) (run_sync-direct rest [] i)
      run_sync-direct (call body rest) (x ∷ handled) = rw (all_true x) λ i.
          and_then (run_async-direct body (x ∷ handled) (x ∷ []) tt i)
            (run_sync-direct rest (x ∷ handled) i)

      run_async-direct :
          (c : AsyncCode X) (waiting handled : List X)
          → Within waiting handled
          → run_async is_true c waiting handled ≡ direct_async c (exc_info handled)
      run_async-direct end_async waiting handled w = refl
      run_async-direct (raise_async x) waiting handled w = refl
      run_async-direct (look_async rest) waiting handled w =
          ap (noting (exc_info handled)) (run_async-direct rest waiting handled w)
      run_async-direct (try_except_async body handler rest) waiting handled w = λ i.
          and_then
            (caught (run_async-direct body waiting handled w i)
              (λ x. run_async-direct handler waiting (x ∷ handled) tt i))
            (run_async-direct rest waiting handled w i)
      run_async-direct (await true body rest) waiting [] w = λ i.
          and_then ((run_sync-direct body waiting ∙ ap (λ l. direct_sync body (exc_info l)) w) i)
            (run_async-direct rest waiting [] w i)
      run_async-direct (await false body rest) waiting [] w =
          λ i. and_then (run_sync-direct body [] i) (run_async-direct rest waiting [] w i)
      run_async-direct (await is_waiting body rest) waiting (x ∷ handled) w = rw (all_true x) λ i.
          and_then (run_sync-direct body (x ∷ worker_handles is_waiting waiting) i)
            (run_async-direct rest waiting (x ∷ handled) w i)

    -- Where every exception is true: a function that calls asynchronous ones by AsyncToSync, which
    -- call synchronous ones by SyncToAsync, and so on, whether the workers are the threads that wait
    -- or others, ends by the exception that it would end by if all of them called one another
    -- directly, and the same exceptions are seen as handled at the same points.
    pub run_sync-eq-direct :
        (c : SyncCode X) (handled : List X)
        → run_sync is_true c handled ≡ direct_sync c (exc_info handled)
    run_sync-eq-direct = run_sync-direct
