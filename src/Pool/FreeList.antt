-- ===== src/Pool/FreeList.antt =====
-- One free list with the cache of one thread: what `ObjectPool` and each class of `BufferPool` do
-- with them, one call after another. `MutexStack` is the list; `PushChain` of `LockFreeStack` does
-- the same when no other thread interferes.
pub mod Join
pub mod Return
pub mod Frame
pub mod Take
pub mod Grow
pub mod Counting
use async_io.Prelude.{
  ℕ, zero, suc, ◌+◌, Bool, true, false, Option, none, some, List, leb, ltb, ◌==◌, if◌then◌else◌,
  not, ◌&&◌,
}
use async_io.Pool.Nodes.{Node, Memory, upd}
use async_io.Pool.Cache.{Cache, flush_half}
use async_io.Pool.Cache as Cache

pub record MutexStack : Type 0 where
  pub next : Memory
  pub head : Node

unfoldable pub push : Node → MutexStack → MutexStack
push n s = record { next = upd s.next n s.head; head = n }

unfoldable pub pop : MutexStack → Node × MutexStack
pop s = if s.head == 0 then (0, s) else (s.head, record s { head = s.next s.head })

unfoldable pub push_chain : (chain_head chain_tail : Node) → MutexStack → MutexStack
push_chain chain_head chain_tail s = record {
  next = upd s.next chain_tail s.head;
  head = chain_head;
}

unfoldable pub empty : MutexStack → Bool
empty s = s.head == 0

unfoldable pub unsafe_head_for_diagnostics : MutexStack → Node
unsafe_head_for_diagnostics s = s.head

-- The loop that walks to the end of a batch.
unfoldable pub walk : (fuel : ℕ) → Memory → Node → Option Node
walk zero next tail = none
walk (suc fuel) next tail =
    let rest = walk fuel next (next tail) in if next tail == 0 then some tail else rest

-- The loop of `ApproximateFreeCount`.
unfoldable pub count_nodes : (fuel : ℕ) → Memory → Node → (count : ℕ) → Option ℕ
count_nodes zero next n count = none
count_nodes (suc fuel) next n count =
    let rest = count_nodes fuel next (next n) (count + 1) in
    if not (n == 0) && ltb count 1_000_000 then rest else some count

-- The loops that cut a block of memory into nodes: `ptr` is the next one.
unfoldable pub carve :
    (size count : ℕ) → (ptr chain_head chain_tail : Node) → Memory → Node × Node × Memory
carve size zero ptr chain_head chain_tail next = (chain_head, chain_tail, next)
carve size (suc count) ptr chain_head chain_tail next =
    let new = upd next ptr 0 in
    carve size count (ptr + size) (if chain_head == 0 then ptr else chain_head) ptr
      (if chain_head == 0 then new else upd new chain_tail ptr)

-- The end of `GrowPool` and `EnsureClassPopulated`: the loop over the block, and `PushChain`.
unfoldable pub add_block : (size count : ℕ) → (block : Node) → MutexStack → MutexStack
add_block size count block s =
    let chain = carve size count block 0 0 s.next in
    if chain.0 == 0
    then record s { next = chain.2 }
    else push_chain chain.0 chain.1 (record { next = upd chain.2 chain.1 0; head = s.head })

pub record Shelf : Type 0 where
  pub stack : MutexStack
  pub cache : Cache

-- Behind `FlushHalf`: the batch goes to the list, the node into the cache. `none` is the walk
-- without its end.
unfoldable pub put_batch :
    (fuel capacity : ℕ) → Node → (head : Node) → Node × Cache × Memory → Option Shelf
put_batch fuel capacity n head (batch, cache, next) =
    let stack : MutexStack = record { next = next; head = head } in
    let after = (Cache.push capacity n cache).1 in
    if batch == 0
    then some (record { stack = stack; cache = after })
    else elim (walk fuel next batch) [
      | none ↦ none
      | some tail ↦ some (record { stack = push_chain batch tail stack; cache = after })
    ]

-- What `ReleaseMemory` and `Deallocate` do with a node: into the cache; if that is full, half of it
-- to the list first.
unfoldable pub give_back : (fuel capacity : ℕ) → Node → Shelf → Option Shelf
give_back fuel capacity n s =
    let cached = Cache.push capacity n s.cache in
    if cached.0
    then some (record s { cache = cached.1 })
    else put_batch fuel capacity n s.stack.head (flush_half capacity s.cache s.stack.next)

-- The first two tries of `Acquire` and `Allocate`: the cache, then the list.
unfoldable pub take_free : Shelf → Node × Shelf
take_free s =
    let cached = Cache.pop s.cache in
    if cached.0 == 0
    then (let popped = pop s.stack in (popped.0, record { stack = popped.1; cache = cached.1 }))
    else (cached.0, record s { cache = cached.1 })
