-- ===== src/Sync.antt =====
-- asgiref/sync.py: AsyncToSync, SyncToAsync and their context managers.
pub mod Pools
pub mod Nesting
pub mod Outermost
pub mod Wrap
pub mod ToSync
pub mod ToAsync
pub mod Program
pub mod Decorators
pub mod Handled
pub mod NewLoop
pub mod CallerThread
pub mod InnerTask
mod Tests
