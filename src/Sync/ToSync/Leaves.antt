-- ===== src/Sync/ToSync/Leaves.antt =====
-- How an AsyncToSync call leaves its thread, however it goes.
use asgire.Prelude.{ℕ, Bool, true, Option, none, some, ◌≡◌, ◌∙◌}
use asgire.Local.{CValue, Context}
use asgire.Sync.Pools.{Contexts}
use asgire.Sync.Wrap.{Exception, Outcome, raised}
use asgire.Sync.Wrap.Delivery.{inside}
use asgire.Sync.ToSync.{
  Value, as_value, current_of, Calling, Undisturbed, Called, refused, ends, waits, leave,
}
use asgire.Sync.ToSync.Returns.{current-set_current, as_executor-as_value, marked, placed}

module _ (is_local : ℕ → Bool) (same : CValue Value → CValue Value → Bool) where
  abbrev awaited : Calling → Context Value → Contexts → Option (Outcome × Context Value)
  awaited c context contexts =
      let run = c.loop_run (placed c contexts).0 in
      run.awaitable (inside is_local same run (marked c context))

  -- The exception that leaves the try block, or else the awaitable's outcome.
  abbrev pub IsAwaited :
      Calling → Context Value → Contexts → Option (Exception × Context Value) → Outcome → Type 0
  IsAwaited c context contexts (some (x, cell)) o = o ≡ raised x
  IsAwaited c context contexts none o =
      (final : Context Value) × (awaited c context contexts ≡ some (o, final))

  -- How the call ends: by the exception of a callable that makes no awaitable, or so.
  abbrev pub IsOutcome : Calling → Context Value → Contexts → Option Exception → Outcome → Type 0
  IsOutcome c context contexts (some e) o = o ≡ raised e
  IsOutcome c context contexts none o = IsAwaited c context contexts c.escape o

  abbrev pub Leaves : Calling → Context Value → Contexts → Called → Type 0
  Leaves c context contexts refused = c.has_running_loop ≡ true
  Leaves c context contexts (ends o after s) =
      (current_of c.executors c.ident after ≡ current_of c.executors c.ident context)
      × IsOutcome c context contexts c.creation o
  Leaves c context contexts (waits s) = Undisturbed c × (awaited c context contexts ≡ none)

  pub current-leave :
      (c : Calling) (old : Option ℕ) (captured context : Context Value)
      → current_of c.executors c.ident (leave is_local same c old captured context) ≡ old
  unfolding leave
  current-leave c old captured context =
      current-set_current c.executors c.ident (as_value old) _ ∙ as_executor-as_value old
