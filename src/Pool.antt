-- ===== src/Pool.antt =====
-- include/talon/async_io_pool.hpp: the stacks of free nodes, and the pools built on them.
pub mod Nodes
pub mod Count
pub mod Cache
pub mod FreeList
pub mod ObjectPool
pub mod BufferPool
pub mod LockFree
pub mod Threads
