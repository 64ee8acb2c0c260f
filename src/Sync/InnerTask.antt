-- ===== src/Sync/InnerTask.antt =====
-- The cancellation of a SyncToAsync call whose function waits in an AsyncToSync call: the worker's
-- list of tasks, which main_wrap keeps and the handler of the wait reads.
use asgire.Sync.Wrap.{Wrap}
