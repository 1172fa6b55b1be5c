-- ===== src/Tests/Pools.antt =====
-- Calls on the object pool and the buffer pool.
use async_io.Prelude.{
  ℕ, ◌+◌, ◌*◌, ◌<◌, ◌≤◌, ◌≡◌, ◌≢◌, refl, true, List, [], ◌∷◌, some, false, arith,
}
use async_io.Constants.{object_pool_tls_cache_size, buffer_pool_tls_cache_size}
use async_io.Pool.Nodes.{Node}
use async_io.Pool.Count.{occ}
use async_io.Pool.FreeList.{Shelf}
use async_io.Pool.FreeList.Return.{Holds, free}
use async_io.Pool.FreeList.Grow.{block_nodes, block_nodes-Once}
use async_io.Pool.ObjectPool.{
  ObjectPool, acquire, release_memory, approximate_free_count, slot_size,
}
use async_io.Pool.ObjectPool.Conservation.{acquire_conserves, release_conserves, acquire_grows}
use async_io.Pool.FreeList.{count_nodes, unsafe_head_for_diagnostics}
use async_io.Task.Memory.{TaskMemory, operator_new, operator_delete}
use async_io.Task.Memory.RoundTrip.{operator_new-operator_delete}
use async_io.Pool.BufferPool.{BufferPool, class_for_size, class_size, allocate, deallocate}
use async_io.Pool.BufferPool.RoundTrip.{allocate-deallocate}
use async_io.Pool.BufferPool.Classes.{class_for_size_least, large_sizes_bypass}

-- A pool whose cache holds `count` nodes, from address 64 on.
abbrev shelf_of : ℕ → Shelf
shelf_of count = record {
  stack = record { next = λ n. 0; head = 0 };
  cache = record { nodes = λ i. (i + 1) * 64; count = count };
}

abbrev pool_of : ℕ → ObjectPool
pool_of count = record {
  shelf = shelf_of count;
  storage_blocks = [];
  capacity = 64;
  grow_batch = 3;
  requests = 0;
}

full_Holds : Holds object_pool_tls_cache_size (shelf_of 32) []
full_Holds = record {
  chain = refl;
  once = λ x. omega (arith, block_nodes-Once 64 32 64 (omega arith) x);
  nonnull = refl;
  room = omega arith;
}

empty_Holds : Holds object_pool_tls_cache_size (shelf_of 0) []
empty_Holds = record { chain = refl; once = λ x. omega arith; nonnull = refl; room = omega arith }

abbrev system : ℕ → ℕ → Node
system i n = 4096

-- With 32 nodes in the cache, the 33rd sends 16 of them to the list.
release_conserves_example :
    (q : ObjectPool) × (ys : List Node) × (release_memory 6400 (pool_of 32) ≡ some q)
    × Holds object_pool_tls_cache_size q.shelf ys
    × ((x : Node) → free q.shelf ys x ≡ occ x (6400 ∷ []) + free (shelf_of 32) [] x)
release_conserves_example = release_conserves 6400 (pool_of 32) [] full_Holds (omega arith) refl

acquire_conserves_example :
    ((acquire system 100 (pool_of 32)).0 ≢ 0)
    × (ys : List Node) × Holds object_pool_tls_cache_size
        (acquire system 100 (pool_of 32)).1.shelf
        ys
    × ((x : Node)
        → occ x ((acquire system 100 (pool_of 32)).0 ∷ [])
            + free (acquire system 100 (pool_of 32)).1.shelf ys x
          ≡ free (shelf_of 32) [] x)
acquire_conserves_example = acquire_conserves system 100 (pool_of 32) [] 64 full_Holds (omega arith)

acquire_from_system :
    ((acquire system 100 (pool_of 0)).0 ≡ 4096)
    × (ys : List Node) × Holds object_pool_tls_cache_size
        (acquire system 100 (pool_of 0)).1.shelf
        ys
    × ((x : Node)
        → occ x ((acquire system 100 (pool_of 0)).0 ∷ [])
            + free (acquire system 100 (pool_of 0)).1.shelf ys x
          ≡ occ x (block_nodes (slot_size 100) 3 4096))
acquire_from_system =
    acquire_grows system 100 2 (pool_of 0) [] empty_Holds (λ x. refl) refl (omega arith)

-- The cache is not counted.
cached_not_counted : approximate_free_count (pool_of 32) ≡ some 0
unfolding approximate_free_count count_nodes unsafe_head_for_diagnostics
cached_not_counted = refl

-- The pool has 32 nodes in the cache, and the global operators have done nothing.
abbrev memory : TaskMemory
memory = record { pool = pool_of 32; given = []; taken_back = [] }

operator_new-operator_delete_example :
    (ptr : Node) × (m₁ : TaskMemory) × (m₂ : TaskMemory) × (ys : List Node) × (operator_new system
        448
        (λ given. 0)
        true
        memory
      ≡ (ptr, m₁))
    × (ptr ≢ 0)
    × (operator_delete true ptr m₁ ≡ some m₂)
    × Holds object_pool_tls_cache_size m₂.pool.shelf ys
    × ((x : Node) → free m₂.pool.shelf ys x ≡ free (shelf_of 32) [] x)
    × (m₂.given ≡ [])
    × (m₂.taken_back ≡ [])
operator_new-operator_delete_example =
    operator_new-operator_delete system 448 (λ given. 0) memory [] 64 full_Holds (omega arith)

class_for_size_least_example :
    (class_for_size 5000 < 11)
    × (5000 ≤ class_size (class_for_size 5000))
    × ((j : ℕ) → j < class_for_size 5000 → class_size j < 5000)
class_for_size_least_example = class_for_size_least 5000 (omega arith)

abbrev no_buffers : BufferPool
no_buffers = record {
  shelves = λ idx. shelf_of 0;
  class_initialized = λ idx. false;
  slabs = λ idx. [];
  requests = 0;
  freed = [];
}

large_size_refused :
    (allocate system 65537 no_buffers ≡ (0, no_buffers))
    × (deallocate 64 65537 no_buffers ≡ some (record no_buffers { freed = 64 ∷ [] }))
large_size_refused = large_sizes_bypass system 65537 64 no_buffers (omega arith) (omega arith)

-- Every class has sixteen free blocks in the cache.
abbrev stocked : BufferPool
stocked = record no_buffers { shelves = λ idx. shelf_of 16 }

stocked_Holds : Holds buffer_pool_tls_cache_size (shelf_of 16) []
stocked_Holds = record {
  chain = refl;
  once = λ x. omega (arith, block_nodes-Once 64 16 64 (omega arith) x);
  nonnull = refl;
  room = omega arith;
}

allocate-deallocate_example :
    (ptr : Node) × (q : BufferPool) × (r : BufferPool) × (ys : List Node) × (allocate system 5000
        stocked
      ≡ (ptr, q))
    × (1 ≤ free (shelf_of 16) [] ptr)
    × (deallocate ptr 5000 q ≡ some r)
    × Holds buffer_pool_tls_cache_size (r.shelves (class_for_size 5000)) ys
    × ((x : Node) → free (r.shelves (class_for_size 5000)) ys x ≡ free (shelf_of 16) [] x)
    × ((j : ℕ) → j ≢ class_for_size 5000 → r.shelves j ≡ shelf_of 16)
    × (r.requests ≡ 0)
    × (r.freed ≡ [])
allocate-deallocate_example =
    allocate-deallocate system 5000 stocked [] 64 (omega arith) stocked_Holds (omega arith)
