-- ===== src/Sync/Tests/Handling.antt =====
-- A function that handles an exception, and awaitables and functions that see it handled.
use asgire.Prelude.{ℕ, [], ◌∷◌, true, false, none, some, ◌≡◌, refl}
use asgire.Sync.Handled.{
  SyncCode, end, raise, look, try_except, call, end_async, look_async, await, Seen, run_sync,
}
use asgire.Sync.Handled.Direct.{direct_sync, run_sync-eq-direct}

-- In the worker: an exception 6 of its own is handled around another AsyncToSync call, and 7 escapes.
abbrev worker_code : SyncCode ℕ
worker_code = look (try_except (raise 6) (look (call (look_async end_async) end)) (look (raise 7)))

abbrev nested : SyncCode ℕ
nested = try_except (raise 5) (call (look_async (await true worker_code end_async)) (look end)) end

abbrev seen : Seen ℕ
seen = record { noted = some 5 ∷ some 5 ∷ some 6 ∷ some 6 ∷ some 5 ∷ []; escapes = some 7 }

noted_in_order : run_sync (λ x. true) nested [] ≡ seen
unfolding run_sync
noted_in_order = refl

-- An exception that is false is not handed over.
false_left_out :
    run_sync {X = ℕ} (λ x. false) (call (look_async end_async) (look end)) (5 ∷ [])
    ≡ record { noted = none ∷ some 5 ∷ []; escapes = none }
unfolding run_sync
false_left_out = refl

run_sync-eq-direct_example : run_sync (λ x. true) nested [] ≡ direct_sync nested none
run_sync-eq-direct_example = run_sync-eq-direct (λ x. true) (λ x. refl) nested []
