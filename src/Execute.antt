-- ===== src/Execute.antt =====
-- agents_platform_runners_app/execute.py: running a job in a container, and aborting it.
pub mod Bounded
pub mod Outside
pub mod Publish
pub mod Registry
pub mod Abort
pub mod Stream
pub mod Cooldown
pub mod Frame
pub mod Retry
pub mod Job
mod Sample
mod Tests
