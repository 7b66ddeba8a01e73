-- ===== src/ExecutionIndex.antt =====
-- agents_platform_runners_app/execution_index.py: indexing of finished runs, with a retry queue.
pub mod Gate
pub mod Chunks
pub mod Targets
pub mod Run
pub mod Retry
mod Tests
