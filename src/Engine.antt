-- ===== src/Engine.antt =====
-- internal/engine: pages, the log and the allocator.
pub mod Wal
pub mod Errors
pub mod Page
pub mod Leaf
pub mod Internal
pub mod NodeHeader
pub mod Words
pub mod Header
pub mod Pager
pub mod Writes
pub mod FreelistPage
pub mod Freelist
pub mod Overflow
pub mod Reclaim
