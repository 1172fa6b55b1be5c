-- ===== src/Pool/ObjectPool/Conservation.antt =====
-- `Acquire` and `ReleaseMemory` move nodes between the program and the pool; none is lost or given
-- out twice.
use async_io.Prelude.{
  ℕ, suc, ◌+◌, ◌*◌, ◌≤◌, ◌≡◌, ◌≢◌, refl, sym, subst, ap, ◌∙◌, some, length, List, [], ◌∷◌, ◌++◌,
  ==_of_ne, arith,
}
use async_io.Constants.{object_pool_tls_cache_size}
use async_io.Pool.Nodes.{Node}
use async_io.Pool.Count.{occ, occ-append}
use async_io.Pool.FreeList.{pop, add_block, take_free, unsafe_head_for_diagnostics}
use async_io.Pool.FreeList.Return.{Holds, free, give_back-conserves}
use async_io.Pool.FreeList.Take.{take_free-takes, take_free-none}
use async_io.Pool.FreeList.Grow.{block_nodes, add_block-Holds}
use async_io.Pool.ObjectPool.{
  ObjectPool, slot_size, grow_pool, acquire, acquire_grown, release_memory, approximate_free_count,
  walk_fuel,
}
use async_io.Pool.FreeList.Counting.{count_nodes-min}
use Prim.Native.Nat.{min}

-- While a node is free, `Acquire` answers with one that was free, and everything else that was free
-- stays free, once. `Holds` says that the list runs through `xs` and no node is free twice.
pub acquire_conserves :
    (aligned_alloc : ℕ → ℕ → Node) (sizeof_t : ℕ) (p : ObjectPool) (xs : List Node) (z : Node)
    → Holds object_pool_tls_cache_size p.shelf xs
    → 1 ≤ free p.shelf xs z
    → ((acquire aligned_alloc sizeof_t p).0 ≢ 0)
      × (ys : List Node) × Holds object_pool_tls_cache_size
          (acquire aligned_alloc sizeof_t p).1.shelf
          ys
      × ((x : Node)
          → occ x ((acquire aligned_alloc sizeof_t p).0 ∷ [])
              + free (acquire aligned_alloc sizeof_t p).1.shelf ys x
            ≡ free p.shelf xs x)
unfolding acquire
acquire_conserves aligned_alloc sizeof_t p xs z h is_free =
    let took = take_free-takes object_pool_tls_cache_size p.shelf xs z h is_free in
    let live : (take_free p.shelf).0 ≢ 0 = took.0 in rw (==_of_ne (take_free p.shelf).0 0 live) took

-- `ReleaseMemory` of a node that the program holds, null aside, always returns: the node is free
-- then, and everything that was free still is, once.
pub release_conserves :
    (n : Node) (p : ObjectPool) (xs : List Node)
    → Holds object_pool_tls_cache_size p.shelf xs
    → n ≢ 0
    → free p.shelf xs n ≡ 0
    → (q : ObjectPool) × (ys : List Node) × (release_memory n p ≡ some q)
      × Holds object_pool_tls_cache_size q.shelf ys
      × ((x : Node) → free q.shelf ys x ≡ occ x (n ∷ []) + free p.shelf xs x)
unfolding release_memory
release_conserves n p xs h live new =
    let back =
      give_back-conserves walk_fuel object_pool_tls_cache_size n p.shelf xs (omega arith)
        (omega arith) h live new in
    (record p { shelf = back.0 }, back.1, rw (==_of_ne n 0 live) (rw back.2 refl), back.3, back.4)

-- The pool behind a successful `GrowPool`.
abbrev grown : (sizeof_t count : ℕ) → (block : Node) → ObjectPool → ObjectPool
grown sizeof_t count block p = record p {
  shelf = record {
    stack = add_block (slot_size sizeof_t) count block p.shelf.stack;
    cache = p.shelf.cache;
  };
  storage_blocks = p.storage_blocks ++ (block ∷ []);
  requests = p.requests + 1;
}

grow_pool-eq :
    (aligned_alloc : ℕ → ℕ → Node) (sizeof_t count : ℕ) (p : ObjectPool)
    → aligned_alloc p.requests (slot_size sizeof_t * count) ≢ 0
    → grow_pool aligned_alloc sizeof_t count p
      ≡ grown sizeof_t count (aligned_alloc p.requests (slot_size sizeof_t * count)) p
unfolding grow_pool
grow_pool-eq aligned_alloc sizeof_t count p live =
    rw (==_of_ne (aligned_alloc p.requests (slot_size sizeof_t * count)) 0 live) refl

acquire-missed :
    (aligned_alloc : ℕ → ℕ → Node) (sizeof_t : ℕ) (p : ObjectPool)
    → take_free p.shelf ≡ (0, p.shelf)
    → acquire aligned_alloc sizeof_t p
      ≡ acquire_grown aligned_alloc sizeof_t (grow_pool aligned_alloc sizeof_t p.grow_batch p)
unfolding acquire
acquire-missed aligned_alloc sizeof_t p missed = rw missed refl

acquire_grown-eq :
    (aligned_alloc : ℕ → ℕ → Node) (sizeof_t : ℕ) (p : ObjectPool)
    → p.shelf.stack.head ≢ 0
    → acquire_grown aligned_alloc sizeof_t p ≡ (
      p.shelf.stack.head,
      record p {
        shelf = record {
          stack = record p.shelf.stack { head = p.shelf.stack.next p.shelf.stack.head };
          cache = p.shelf.cache;
        };
      },
    )
unfolding acquire_grown pop
acquire_grown-eq aligned_alloc sizeof_t p live = ground arith

pub slot_size-positive : (n : ℕ) → 1 ≤ slot_size n
unfolding slot_size
slot_size-positive n = ground arith

-- While nothing is free and the system gives the block that `GrowPool` asks for, `Acquire` answers
-- with the first node of the block, and the rest of the block is free.
pub acquire_grows :
    (aligned_alloc : ℕ → ℕ → Node) (sizeof_t count : ℕ) (p : ObjectPool) (xs : List Node)
    → Holds object_pool_tls_cache_size p.shelf xs
    → ((x : Node) → free p.shelf xs x ≡ 0)
    → p.grow_batch ≡ suc count
    → aligned_alloc p.requests (slot_size sizeof_t * suc count) ≢ 0
    → ((acquire aligned_alloc sizeof_t p).0
        ≡ aligned_alloc p.requests (slot_size sizeof_t * suc count))
      × (ys : List Node) × Holds object_pool_tls_cache_size
          (acquire aligned_alloc sizeof_t p).1.shelf
          ys
      × ((x : Node)
          → occ x ((acquire aligned_alloc sizeof_t p).0 ∷ [])
              + free (acquire aligned_alloc sizeof_t p).1.shelf ys x
            ≡ occ x (
                block_nodes
                  (slot_size sizeof_t)
                  (suc count)
                  (aligned_alloc p.requests (slot_size sizeof_t * suc count))))
acquire_grows aligned_alloc sizeof_t count p xs h none_free batch live =
    let nothing = take_free-none object_pool_tls_cache_size p.shelf xs h none_free in
    let size : ℕ = slot_size sizeof_t in
    let block : Node = aligned_alloc p.requests (size * suc count) in
    let q : ObjectPool = grown sizeof_t (suc count) block p in
    let new =
      add_block-Holds object_pool_tls_cache_size size count block p.shelf xs
        (slot_size-positive sizeof_t) live h (λ x in_block. none_free x) in
    let live_head : q.shelf.stack.head ≢ 0 = subst (λ n. n ≢ 0) (sym new.chain.0) live in
    let acquired =
      acquire-missed aligned_alloc sizeof_t p nothing.1
      ∙ ap (acquire_grown aligned_alloc sizeof_t) (
          ap (λ n. grow_pool aligned_alloc sizeof_t n p) batch
          ∙ grow_pool-eq aligned_alloc sizeof_t (suc count) p live)
      ∙ acquire_grown-eq aligned_alloc sizeof_t q live_head in
    let at : q.shelf.stack.head ≡ block = new.chain.0 in
    let rest : List Node = block_nodes size count (block + size) in
    rw acquired (
      at,
      rest ++ xs,
      record {
        chain = rw at new.chain.2;
        once = λ x. ground (arith, new.once x);
        nonnull = h.nonnull;
        room = h.room;
      },
      λ x. rw at (omega (arith, none_free x, occ-append x rest xs)),
    )

-- `ApproximateFreeCount`, with no other thread at work, always returns: the number of nodes on the
-- list, or a million if there are more. The cache of the thread does not count.
approximate_free_count_lem :
    (p : ObjectPool) (xs : List Node)
    → Holds object_pool_tls_cache_size p.shelf xs
    → approximate_free_count p ≡ some (min (length xs) 1_000_000)
unfolding approximate_free_count unsafe_head_for_diagnostics
approximate_free_count_lem p xs h =
    let counted =
      count_nodes-min p.shelf.stack.next 1_000_001 p.shelf.stack.head 0 xs (omega arith)
        (omega arith) h.chain in
    counted ∙ ap (λ n. some (min n 1_000_000)) (omega arith)
