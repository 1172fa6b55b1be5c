-- ===== src/Pool/Threads/Sizes.antt =====
-- The bounds on the sizes of the pools that the proofs need.
use async_io.Prelude.{◌<◌, ◌≤◌, arith}
use async_io.Pool.ObjectPool.Conservation.{slot_size-positive}
use async_io.Pool.Threads.{Kind, capacity, obj_size}

pub obj_size-positive : (k : Kind) → 0 < obj_size k
unfolding obj_size
obj_size-positive (Kind.object_pool sizeof_t grow_batch) = slot_size-positive sizeof_t
obj_size-positive (Kind.buffer_class idx) = omega arith

pub capacity_bounds : (k : Kind) → (4 ≤ capacity k) × (capacity k ≤ 32)
capacity_bounds (Kind.object_pool sizeof_t grow_batch) = (omega arith, omega arith)
capacity_bounds (Kind.buffer_class idx) = (omega arith, omega arith)
