-- ===== src/Pool/ObjectPool.antt =====
-- `ObjectPool<T>` as one thread uses it. `aligned_alloc i n` is the answer to the `i`-th request for
-- memory, of `n` bytes; 0 is a failure.
pub mod Conservation
use async_io.Prelude.{
  ℕ, ◌+◌, ◌*◌, ◌/◌, Bool, Option, none, some, List, [], ◌∷◌, ◌++◌, leb, ◌==◌, if◌then◌else◌,
}
use async_io.Constants.{object_pool_tls_cache_size}
use async_io.Pool.Nodes.{Node}
use async_io.Pool.Cache.{Cache, reset}
use async_io.Pool.FreeList.{
  MutexStack, Shelf, pop, add_block, give_back, take_free, count_nodes, unsafe_head_for_diagnostics,
}

pub record ObjectPool : Type 0 where
  pub shelf : Shelf
  pub storage_blocks : List Node
  pub capacity : ℕ
  pub grow_batch : ℕ
  pub requests : ℕ

abbrev pub sizeof_pool_node : ℕ
sizeof_pool_node = 64

-- `obj_size`: the larger of the sizes of `T` and `PoolNode`, rounded up to a multiple of 64.
unfoldable pub slot_size : ℕ → ℕ
slot_size sizeof_t =
    ((if leb sizeof_t sizeof_pool_node then sizeof_pool_node else sizeof_t) + 63) / 64 * 64

-- Enough for the walk through a batch.
abbrev pub walk_fuel : ℕ
walk_fuel = 33

module _ (aligned_alloc : ℕ → ℕ → Node) (sizeof_t : ℕ) where
  unfoldable pub grow_pool : ℕ → ObjectPool → ObjectPool
  grow_pool count p =
      let block = aligned_alloc p.requests (slot_size sizeof_t * count) in
      if block == 0 then record p { requests = p.requests + 1 } else record p {
        shelf = record {
          stack = add_block (slot_size sizeof_t) count block p.shelf.stack;
          cache = p.shelf.cache;
        };
        storage_blocks = p.storage_blocks ++ (block ∷ []);
        requests = p.requests + 1;
      }

  -- The constructor; the cache is the one of this thread, with whatever it holds.
  unfoldable pub create : (capacity grow_batch : ℕ) → Cache → ObjectPool
  create capacity grow_batch cache = grow_pool capacity (record {
    shelf = record { stack = record { next = λ n. 0; head = 0 }; cache = reset cache };
    storage_blocks = [];
    capacity = capacity;
    grow_batch = grow_batch;
    requests = 0;
  })

  -- Behind `GrowPool`: the list once more, and the last resort.
  unfoldable pub acquire_grown : ObjectPool → Node × ObjectPool
  acquire_grown p =
      let popped = pop p.shelf.stack in
      if popped.0 == 0
      then (aligned_alloc p.requests (slot_size sizeof_t), record p { requests = p.requests + 1 })
      else (popped.0, record p { shelf = record { stack = popped.1; cache = p.shelf.cache } })

  unfoldable pub acquire : ObjectPool → Node × ObjectPool
  acquire p =
      let taken = take_free p.shelf in
      let q : ObjectPool = record p { shelf = taken.1 } in
      if taken.0 == 0 then acquire_grown (grow_pool p.grow_batch q) else (taken.0, q)

unfoldable pub release_memory : Node → ObjectPool → Option ObjectPool
release_memory obj p =
    if obj == 0 then some p else elim (give_back walk_fuel object_pool_tls_cache_size obj p.shelf) [
      | none ↦ none
      | some s ↦ some (record p { shelf = s })
    ]

-- `Release` runs the destructor of `T` before; that is a parameter of the pool.
unfoldable pub release :
    (destroy : Node → ObjectPool → ObjectPool) → Node → ObjectPool → Option ObjectPool
release destroy obj p = if obj == 0 then some p else release_memory obj (destroy obj p)

unfoldable pub approximate_free_count : ObjectPool → Option ℕ
approximate_free_count p =
    count_nodes 1_000_001 p.shelf.stack.next (unsafe_head_for_diagnostics p.shelf.stack) 0

-- `~ObjectPool()`: what goes to `std::free`.
unfoldable pub destroyed_blocks : ObjectPool → List Node
destroyed_blocks p = p.storage_blocks
