-- ===== src/WarmPool.antt =====
-- agents_platform_runners_app/warm_pool.py: the pool of warm containers.
pub mod Names
pub mod Config
pub mod Engine
pub mod Acquire
pub mod Reap
pub mod Turn
pub mod Inventory
pub mod Drain
mod Sample
mod Tests
