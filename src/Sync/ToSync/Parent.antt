-- ===== src/Sync/ToSync/Parent.antt =====
-- Where the awaitable of an AsyncToSync call runs that a SyncToAsync worker makes.
use asgire.Prelude.{ℕ, true, false, ◌≡◌, ◌≢◌, nat_eq, list_eq}
use asgire.Sync.ToSync.{Calling}

-- The call may use the loop of its worker's SyncToAsync call.
abbrev pub OnParent : Calling → ℕ → ℕ → Type 0
OnParent c loop pid =
    (c.force_new_loop ≡ false)
    × (pid ≢ 0)
    × (pid ≡ c.pid)
    × (c.is_running loop ≡ true)
    × (c.accepts loop ≡ true)
