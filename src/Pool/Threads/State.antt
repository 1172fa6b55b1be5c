-- ===== src/Pool/Threads/State.antt =====
-- A pool of include/talon/async_io_pool.hpp that threads share: its kinds, its state, where a thread
-- stands in a call, what it does next, and the state at the start.
use async_io.Prelude.{ℕ, ◌+◌, ◌*◌, ◌/◌, Bool, false, none, List, [], leb, ◌==◌, if◌then◌else◌}
use async_io.Constants.{object_pool_tls_cache_size, buffer_pool_tls_cache_size}
use async_io.Pool.Nodes.{Node, Memory}
use async_io.Pool.Cache.{Cache, reset}
use async_io.Pool.ObjectPool.{slot_size, sizeof_pool_node}
use async_io.Pool.BufferPool.{class_size}
use async_io.Pool.LockFree.{Pc, Stack}

-- A store to `next` of a node that is still to be made: the node and the value.
abbrev pub Store : Type 0
Store = Node × Node

-- The pools that work this way: `ObjectPool<T>`, for objects of a size and with its `grow_batch_`, and
-- each class of `BufferPool`. They differ in the size of a cache, in what they cut a block into, and in
-- that a class is filled once: `EnsureClassPopulated` lets one thread through.
pub data Kind : Type 0 where
  object_pool : (sizeof_t grow_batch : ℕ) → Kind
  buffer_class : (idx : ℕ) → Kind

abbrev pub capacity : Kind → ℕ
capacity (object_pool sizeof_t grow_batch) = object_pool_tls_cache_size
capacity (buffer_class idx) = buffer_pool_tls_cache_size

unfoldable pub obj_size : Kind → ℕ
obj_size (object_pool sizeof_t grow_batch) = slot_size sizeof_t
obj_size (buffer_class idx) = class_size idx + sizeof_pool_node

unfoldable pub grow_count : Kind → ℕ
grow_count (object_pool sizeof_t grow_batch) = grow_batch
grow_count (buffer_class idx) =
    (if leb 4096 (class_size idx) then 4 * 1024 * 1024 else 1024 * 1024)
    / (class_size idx + sizeof_pool_node)

-- Where a thread stands in a call on the pool, beyond its place in a call on the stack. `again` tells
-- `GrowPool` in `Acquire` from the one in the constructor; `popping true` is the first `Pop` of
-- `Acquire`. A chain is its first node and the others; `obj` is what `ReleaseMemory` was called with.
pub data Phase : Type 0 where
  resting : Phase
  popping : (is_first : Bool) → Phase
  ensuring : Phase
  growing : (count : ℕ) (again : Bool) → Phase
  storing : (count : ℕ) (block : Node) (again : Bool) → Phase
  carving : List Store → List Node → (again : Bool) → Phase
  publishing : Node → List Node → (again : Bool) → Phase
  looking_again last_resort : Phase
  linking : List Store → Node → List Node → (obj : Node) → Phase
  flushing : Node → List Node → (obj : Node) → Phase

-- `in_use` is there for the proofs only: the nodes that the pool has given out.
pub record SharedPool : Type 0 where
  pub stack : Stack
  pub caches : ℕ → Cache
  pub phase : ℕ → Phase
  pub storage_blocks : List Node
  pub in_use : Node → Bool
  pub populated : Bool

-- What a thread does next. `go` and `fail` are as for the stack; `allocated` is the answer of
-- `aligned_alloc`, 0 if there is no memory; a user may write into its object and pass it on.
pub data Action : Type 0 where
  acquire go fail : Action
  release allocated : Node → Action
  write : (obj value : Node) → Action
  hand_over : (obj : Node) (to : ℕ) → Action

-- The constructor of `ObjectPool` empties the cache of its own thread.
abbrev pub resets : Kind → (i j : ℕ) → Bool
resets (object_pool sizeof_t grow_batch) i j = j == i
resets (buffer_class idx) i j = false

abbrev pub first_phase : Kind → (i count j : ℕ) → Phase
first_phase (object_pool sizeof_t grow_batch) i count j =
    if j == i then Phase.growing count false else Phase.resting
first_phase (buffer_class idx) i count j = Phase.resting

-- A new pool: an `ObjectPool` in its constructor, which thread `i` runs, before `GrowPool(count)`; a
-- class of a `BufferPool` after it. The threads have the caches that they had before.
unfoldable pub create : Kind → (i count : ℕ) (next : Memory) (caches : ℕ → Cache) → SharedPool
create k i count next caches = record {
  stack = record {
    next = next;
    head = 0;
    tag = 0;
    items = [];
    holder = λ n. none;
    changes = 0;
    pc = λ j. Pc.idle;
  };
  caches = λ j. if resets k i j then reset (caches j) else caches j;
  phase = first_phase k i count;
  storage_blocks = [];
  in_use = λ n. false;
  populated = false;
}
