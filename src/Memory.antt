-- ===== src/Memory.antt =====
-- The memory directory: the free list that the pools share.
pub mod FreeList
pub mod Pool
mod Tests
mod PoolTests
