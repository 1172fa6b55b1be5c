-- ===== src/Pool/BufferPool.antt =====
-- `BufferPool` as one thread uses it: for each class of sizes a free list, a cache and the slab that
-- fills the list. The lists of different classes share no node, so each has a memory of its own.
pub mod Classes
pub mod RoundTrip
pub mod Frame
use async_io.Prelude.{
  ℕ, zero, suc, ◌+◌, ◌*◌, ◌/◌, Bool, true, false, Option, none, some, List, [], ◌∷◌, ◌++◌, leb,
  ◌==◌, if◌then◌else◌, get_elem?,
}
use async_io.Constants.{
  buffer_pool_tls_cache_size, buffer_pool_num_classes, buffer_pool_class_sizes,
}
use async_io.Pool.Nodes.{Node, upd}
use async_io.Pool.Cache.{Cache}
use async_io.Pool.FreeList.{MutexStack, Shelf, pop, add_block, give_back, take_free}
use async_io.Pool.ObjectPool.{sizeof_pool_node}

pub record BufferPool : Type 0 where
  pub shelves : ℕ → Shelf
  pub class_initialized : ℕ → Bool
  pub slabs : ℕ → List Node
  pub requests : ℕ
  -- What went to `std::free`.
  pub freed : List Node

abbrev pub size_at : List ℕ → ℕ → ℕ
size_at sizes i = elim (get_elem? sizes i) [ none ↦ 0 | some n ↦ n ]

abbrev pub class_size : ℕ → ℕ
class_size = size_at buffer_pool_class_sizes

abbrev pub set_at {ℓ} : {A : Type ℓ} → (ℕ → A) → ℕ → A → ℕ → A
set_at f a v b = if b == a then v else f b

-- The loop of `ClassForSize`: over the sizes from index `i` on.
unfoldable pub first_fit : (sizes : List ℕ) → (i bytes : ℕ) → ℕ
first_fit [] i bytes = buffer_pool_num_classes
first_fit (size ∷ sizes) i bytes =
    let rest = first_fit sizes (suc i) bytes in if leb bytes size then i else rest

unfoldable pub class_for_size : ℕ → ℕ
class_for_size bytes = first_fit buffer_pool_class_sizes 0 bytes

abbrev pub walk_fuel : ℕ
walk_fuel = 17

module _ (aligned_alloc : ℕ → ℕ → Node) where
  unfoldable pub ensure_class_populated : ℕ → BufferPool → BufferPool
  ensure_class_populated idx p =
      if p.class_initialized idx
      then p
      else let alloc_size = class_size idx + sizeof_pool_node in
        let slab_total = if leb 4096 (class_size idx) then 4 * 1024 * 1024 else 1024 * 1024 in
        let num_blocks = slab_total / alloc_size in
        let slab = aligned_alloc p.requests (num_blocks * alloc_size) in
        let q : BufferPool = record p {
          class_initialized = set_at p.class_initialized idx true;
          requests = p.requests + 1;
        } in
        if slab == 0 then q else record q {
          slabs = set_at p.slabs idx (p.slabs idx ++ (slab ∷ []));
          shelves = set_at p.shelves idx (record {
            stack = add_block alloc_size num_blocks slab (p.shelves idx).stack;
            cache = (p.shelves idx).cache;
          });
        }

  unfoldable pub allocate_from_system : ℕ → BufferPool → Node × BufferPool
  allocate_from_system idx p = (
    aligned_alloc p.requests (class_size idx + sizeof_pool_node),
    record p { requests = p.requests + 1 },
  )

  -- Behind `EnsureClassPopulated`.
  unfoldable pub allocate_populated : ℕ → BufferPool → Node × BufferPool
  allocate_populated idx p =
      let s = p.shelves idx in
      let popped = pop s.stack in
      if popped.0 == 0 then allocate_from_system idx p else (
        popped.0,
        record p { shelves = set_at p.shelves idx (record { stack = popped.1; cache = s.cache }) },
      )

  unfoldable pub allocate : ℕ → BufferPool → Node × BufferPool
  allocate bytes p =
      let idx = class_for_size bytes in
      if leb buffer_pool_num_classes idx
      then (0, p)
      else let taken = take_free (p.shelves idx) in
        let q : BufferPool = record p { shelves = set_at p.shelves idx taken.1 } in
        if taken.0 == 0 then allocate_populated idx (ensure_class_populated idx q) else (taken.0, q)

unfoldable pub deallocate : Node → ℕ → BufferPool → Option BufferPool
deallocate ptr bytes p =
    let idx = class_for_size bytes in
    if ptr == 0
    then some p
    else if leb buffer_pool_num_classes idx
    then some (record p { freed = ptr ∷ p.freed })
    else elim (give_back walk_fuel buffer_pool_tls_cache_size ptr (p.shelves idx)) [
      | none ↦ none
      | some s ↦ some (record p { shelves = set_at p.shelves idx s })
    ]

-- The private constructor, on the memory of a static object; the caches are those of the thread.
unfoldable pub buffer_pool : (caches : ℕ → Cache) → BufferPool
buffer_pool caches = record {
  shelves = λ idx. record { stack = record { next = λ n. 0; head = 0 }; cache = caches idx };
  class_initialized = λ idx. false;
  slabs = λ idx. [];
  requests = 0;
  freed = [];
}

free_slabs : (classes : ℕ) → (ℕ → List Node) → List Node
free_slabs zero slabs = []
free_slabs (suc n) slabs = free_slabs n slabs ++ slabs n

-- `~BufferPool()`: what goes to `std::free`, class by class.
unfoldable pub destroyed_slabs : BufferPool → List Node
unfolding free_slabs
destroyed_slabs p = free_slabs buffer_pool_num_classes p.slabs
