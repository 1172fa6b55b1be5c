-- ===== src/Tests/SharedPool.antt =====
-- Two threads in one pool of objects.
use async_io.Prelude.{
  ℕ, zero, suc, ◌+◌, ◌*◌, ◌==◌, ◌≤◌, ◌≡◌, ◌≢◌, refl, true, false, some, List, [], ◌∷◌, ◌++◌, arith,
}
use async_io.Pool.LockFree as LockFree
use async_io.Pool.Nodes.{Chain}
use async_io.Pool.Count.{occ}
use async_io.Pool.ObjectPool.{slot_size}
use async_io.Pool.Threads.Safety.{pool_after, each_node_once, acquire_gives_unused, used_untouched}
use async_io.Pool.Cache.{Cache, contents, reset}
use async_io.Pool.Cache as Cache
use async_io.Pool.Threads.{
  object_pool, buffer_class, obj_size, grow_count, Phase, SharedPool, Action, acquire, release, go,
  allocated, write, hand_over, create, step, run,
}

abbrev empty : Cache
empty = record { nodes = λ k. 0; count = 0 }

-- Thread 0 constructs a pool of three nodes of 64 bytes.
abbrev start : SharedPool
start = create (object_pool 40 8) 0 3 (λ n. 0) (λ i. empty)

abbrev times : ℕ → ℕ → List (ℕ × Action)
times zero i = []
times (suc n) i = (i, go) ∷ times n i

abbrev constructed : List (ℕ × Action)
constructed = (0, allocated 1024) ∷ times 10 0

constructed_state :
    let p = run (object_pool 40 8) constructed start in
    (p.stack.items ≡ 1024 ∷ 1088 ∷ 1152 ∷ [])
    × (p.stack.next 1152 ≡ 0)
    × (p.storage_blocks ≡ 1024 ∷ [])
unfolding create obj_size grow_count run step LockFree.step Cache.pop Cache.push reset slot_size
constructed_state = (refl, refl, refl)

-- Both threads acquire; thread 0 writes into its object, which thread 1 returns.
abbrev used : List (ℕ × Action)
used =
    constructed
    ++ (0, acquire) ∷ (1, acquire) ∷ times 2 0
    ++ times 4 1
    ++ (0, write 1024 77) ∷ (0, hand_over 1024 1) ∷ (1, release 1024) ∷ []

used_state :
    let p = run (object_pool 40 8) used start in
    (p.stack.items ≡ 1152 ∷ [])
    × (p.in_use 1088 ≡ true)
    × (p.stack.holder 1088 ≡ some 1)
    × (p.in_use 1024 ≡ false)
    × (contents (p.caches 1) ≡ 1024 ∷ [])
    × ((step (object_pool 40 8) 1 acquire p).0 ≡ some 1024)
unfolding create obj_size grow_count run step LockFree.step Cache.pop Cache.push reset slot_size
used_state = (refl, refl, refl, refl, refl, refl)

-- Two threads that find nothing are both about to store into `storage_blocks_`.
two_grow_at_once :
    let p =
      run
        (object_pool 40 8)
        ((0, allocated 0)
          ∷ (0, acquire)
          ∷ (1, acquire)
          ∷ (0, go)
          ∷ (1, go)
          ∷ (0, allocated 1024)
          ∷ (1, allocated 2048)
          ∷ [])
        start in
    (p.phase 0 ≡ Phase.storing 8 1024 true) × (p.phase 1 ≡ Phase.storing 8 2048 true)
unfolding create obj_size grow_count run step LockFree.step Cache.pop Cache.push reset slot_size
two_grow_at_once = (refl, refl)

each_node_once_example :
    let p = pool_after (object_pool 40 8) 0 3 (λ n. 0) (λ i. empty) used in
    Chain p.stack.next p.stack.head p.stack.items
    × ((j k : ℕ) (x : ℕ)
        → j ≢ k
        → occ x (contents (p.caches j)) + occ x (contents (p.caches k)) + occ x p.stack.items ≤ 1)
    × ((j : ℕ) (x : ℕ)
        → p.in_use x ≡ true
        → occ x (contents (p.caches j)) + occ x p.stack.items ≡ 0)
unfolding create obj_size grow_count run step LockFree.step Cache.pop Cache.push reset slot_size
each_node_once_example =
    each_node_once (object_pool 40 8) 0 3 (λ n. 0) (λ i. empty) (λ j ne. refl) used (omega arith)

-- Thread 1 acquires what is in its cache.
acquire_gives_unused_example :
    let p = pool_after (object_pool 40 8) 0 3 (λ n. 0) (λ i. empty) used in
    let p' = (step (object_pool 40 8) 1 acquire p).1 in
    (p.in_use 1024 ≡ false)
    × (p'.in_use 1024 ≡ true)
    × (p'.stack.holder 1024 ≡ some 1)
    × ((k : ℕ) → occ 1024 (contents (p'.caches k)) + occ 1024 p'.stack.items ≡ 0)
unfolding create obj_size grow_count run step LockFree.step Cache.pop Cache.push reset slot_size
acquire_gives_unused_example =
    acquire_gives_unused (object_pool 40 8) 0 3 (λ n. 0) (λ i. empty) (λ j ne. refl) used
      (omega arith) 1 acquire 1024 refl (omega arith)

-- Thread 1 has node 1088; thread 0 takes the next one from the list.
used_untouched_example :
    let p = pool_after (object_pool 40 8) 0 3 (λ n. 0) (λ i. empty) used in
    let p' = (step (object_pool 40 8) 0 acquire p).1 in
    (p'.in_use 1088 ≡ true)
    × (p'.stack.holder 1088 ≡ some 1)
    × (p'.stack.next 1088 ≡ p.stack.next 1088)
unfolding create obj_size grow_count run step LockFree.step Cache.pop Cache.push reset slot_size
used_untouched_example =
    used_untouched (object_pool 40 8) 0 3 (λ n. 0) (λ i. empty) (λ j ne. refl) used (omega arith) 0
      acquire 1 1088 (omega arith) refl refl

-- Thread 0 has a full cache, and returns one node more: half of the cache goes to the list.
abbrev full : SharedPool
full = record start {
  stack = record start.stack { holder = λ n. some 0 };
  caches = λ i. record { nodes = λ k. 64 * (k + 1); count = 32 };
  phase = λ i. Phase.resting;
  in_use = λ n. n == 4096;
}

flushed_state :
    let p = run (object_pool 40 8) ((0, release 4096) ∷ times 19 0) full in
    (p.stack.head ≡ 1088)
    × (p.stack.next 1088 ≡ 1152)
    × (p.stack.next 2048 ≡ 0)
    × ((p.caches 0).count ≡ 17)
    × ((p.caches 0).nodes 16 ≡ 4096)
unfolding create obj_size grow_count run step LockFree.step Cache.pop Cache.push reset slot_size
flushed_state = (refl, refl, refl, refl, refl)

-- Two threads find class 0 of the buffer pool empty. Thread 0 fills it; thread 1 looks again, finds
-- nothing yet, and asks the system for a block of its own.
abbrev class_start : SharedPool
class_start = create (buffer_class 0) 0 0 (λ n. 0) (λ i. empty)

one_thread_fills :
    let p =
      run
        (buffer_class 0)
        ((0, acquire) ∷ (1, acquire) ∷ times 2 0 ++ times 4 1 ++ (1, allocated 64) ∷ [])
        class_start in
    (p.phase 0 ≡ Phase.growing 8192 true)
    × (p.in_use 64 ≡ true)
    × (p.stack.holder 64 ≡ some 1)
    × (p.storage_blocks ≡ [])
unfolding create obj_size grow_count run step LockFree.step Cache.pop Cache.push reset
one_thread_fills = (refl, refl, refl, refl)
