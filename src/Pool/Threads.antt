-- ===== src/Pool/Threads.antt =====
-- `ObjectPool<T>` and a class of `BufferPool` of include/talon/async_io_pool.hpp with any number of
-- threads: each has a cache of its own, and all share the lock-free stack. `acquire` is `Acquire` or
-- `Allocate`, `release` is `ReleaseMemory` or `Deallocate`. A step is one access to shared memory, with
-- what its thread does by itself before the next; the reads of nodes that the thread alone has, in the
-- walk through a batch, are such.
mod State
pub mod Sizes
pub mod Stores
pub mod Invariant
pub mod Locals
pub mod Kinds
pub mod Advance
pub mod Release
pub mod Steps
pub mod Changes
pub mod Reached
pub mod Given
pub mod Safety
unfoldable pub use State.*
use async_io.Prelude.{
  ℕ, zero, suc, ◌+◌, ◌-◌, ◌*◌, ◌/◌, Bool, true, false, not, ◌&&◌, Option, none, some, List, [], ◌∷◌,
  ◌++◌, leb, ◌==◌, if◌then◌else◌,
}
use async_io.Constants.{object_pool_tls_cache_size, buffer_pool_tls_cache_size}
use async_io.Pool.Nodes.{Node, Memory, upd}
use async_io.Pool.Cache.{Cache, slice, reset}
use async_io.Pool.Cache as Cache
use async_io.Pool.FreeList.Grow.{block_nodes}
use async_io.Pool.ObjectPool.{walk_fuel, slot_size, sizeof_pool_node}
use async_io.Pool.BufferPool.{class_size}
use async_io.Pool.LockFree.{Pc, Stack, popped, is_held, is_free}
use async_io.Pool.LockFree as LockFree

-- The stores of `FlushHalf`: see `link_rest` of Pool/Cache.
pub link_stores : (ℕ → Node) → (i m : ℕ) → (tail : Node) → List Store
link_stores nodes i zero tail = (tail, 0) ∷ []
link_stores nodes i (suc m) tail = (tail, nodes i) ∷ link_stores nodes (suc i) m (nodes i)

-- The stores of `GrowPool`: see `carve` of Pool/FreeList.
pub carve_rest : (size count : ℕ) → (ptr chain_tail : Node) → List Store
carve_rest size zero ptr chain_tail = (chain_tail, 0) ∷ []
carve_rest size (suc count) ptr chain_tail =
    (ptr, 0) ∷ (chain_tail, ptr) ∷ carve_rest size count (ptr + size) ptr

pub carve_stores : (size count : ℕ) → (block : Node) → List Store
unfolding carve_rest
carve_stores size zero block = []
carve_stores size (suc count) block = (block, 0) ∷ carve_rest size count (block + size) block

-- The walk to the end of a batch: the nodes behind `n`.
pub reach : (fuel : ℕ) → Memory → Node → List Node
reach zero next n = []
reach (suc fuel) next n =
    let rest = reach fuel next (next n) in if next n == 0 then [] else next n ∷ rest

pub is_idle : Pc → Bool
is_idle Pc.idle = true
is_idle _ = false

set_phase : ℕ → Phase → SharedPool → SharedPool
set_phase i f p = record p { phase = upd p.phase i f }

on_stack : ℕ → LockFree.Action → SharedPool → SharedPool
on_stack i a p = record p { stack = LockFree.step i a p.stack }

set_cache : ℕ → Cache → SharedPool → SharedPool
set_cache i c p = record p { caches = upd p.caches i c }

-- `Acquire` returns `n`.
give : ℕ → Node → SharedPool → Option Node × SharedPool
unfolding set_phase
give i n p = (some n, set_phase i Phase.resting (record p { in_use = upd p.in_use n true }))

go_on : SharedPool → Option Node × SharedPool
go_on p = (none, p)

after_grow : Bool → Phase
after_grow again = if again then Phase.looking_again else Phase.resting

-- After the first `Pop` has found nothing: `GrowPool`, or `EnsureClassPopulated`.
pub first_miss : Kind → Phase
first_miss (object_pool sizeof_t grow_batch) = Phase.growing grow_batch true
first_miss (buffer_class idx) = Phase.ensuring

module _ (k : Kind) where
  -- A node into the cache; what `Push` answers is not looked at.
  put : ℕ → Node → SharedPool → SharedPool
  unfolding set_cache set_phase
  put i n p = set_phase i Phase.resting (set_cache i (Cache.push (capacity k) n (p.caches i)).1 p)

  -- `ReleaseMemory` with a full cache, from `FlushHalf` on.
  flush : ℕ → Node → SharedPool → SharedPool
  unfolding put set_cache set_phase link_stores
  flush i obj p =
      let c = p.caches i in
      if leb c.count (capacity k / 4)
      then put i obj p
      else let n = c.count / 2 in
        let count = c.count - n in
        set_phase i
          (Phase.linking (link_stores c.nodes (suc count) (n - 1) (c.nodes count)) (c.nodes count)
            (slice c.nodes (suc count) (n - 1)) obj)
          (set_cache i (record c { count = count }) p)

  -- `Pop` has returned, or goes on.
  end_pop : ℕ → (is_first : Bool) → Node → SharedPool → Option Node × SharedPool
  unfolding give go_on set_phase is_idle
  end_pop i is_first n p =
      if is_idle (p.stack.pc i)
      then if n == 0
        then go_on (set_phase i (if is_first then first_miss k else Phase.last_resort) p)
        else give i n p
      else go_on p

  -- `EnsureClassPopulated`: the exchange of the flag, which is strong.
  ensure : ℕ → SharedPool → SharedPool
  unfolding set_phase
  ensure i p =
      if p.populated
      then set_phase i Phase.looking_again p
      else set_phase i (Phase.growing (grow_count k) true) (record p { populated = true })

  -- The next access of a thread that is in a call.
  pub advance : ℕ → Phase → SharedPool → Option Node × SharedPool
  unfolding end_pop ensure popped go_on set_phase on_stack put is_idle after_grow reach carve_stores
  advance i (Phase.popping is_first) p =
      end_pop i is_first (popped (p.stack.pc i)) (on_stack i LockFree.Action.go p)
  advance i Phase.ensuring p = go_on (ensure i p)
  advance i (Phase.storing count block again) p = go_on (
      set_phase i
        (Phase.carving (carve_stores (obj_size k) count block)
          (block_nodes (obj_size k) count block) again)
        (record p { storage_blocks = p.storage_blocks ++ (block ∷ []) }))
  advance i (Phase.carving ((n, v) ∷ stores) nodes again) p =
      go_on (
        set_phase i (Phase.carving stores nodes again)
          (on_stack i (LockFree.Action.scribble n v) p))
  advance i (Phase.carving [] [] again) p = go_on (set_phase i (after_grow again) p)
  advance i (Phase.carving [] (n ∷ r) again) p =
      go_on
        (set_phase i (Phase.publishing n r again) (on_stack i (LockFree.Action.push_chain n r) p))
  advance i (Phase.publishing n r again) p =
      let q = on_stack i LockFree.Action.go p in
      go_on (if is_idle (q.stack.pc i) then set_phase i (after_grow again) q else q)
  advance i Phase.looking_again p =
      go_on (set_phase i (Phase.popping false) (on_stack i LockFree.Action.pop p))
  advance i (Phase.linking ((n, v) ∷ stores) batch rest obj) p = go_on (
      set_phase i (Phase.linking stores batch rest obj)
        (on_stack i (LockFree.Action.scribble n v) p))
  advance i (Phase.linking [] batch rest obj) p = go_on (
      set_phase i (Phase.flushing batch rest obj)
        (on_stack i (LockFree.Action.push_chain batch (reach walk_fuel p.stack.next batch)) p))
  advance i (Phase.flushing batch rest obj) p =
      let q = on_stack i LockFree.Action.go p in
      go_on (if is_idle (q.stack.pc i) then put i obj q else q)
  advance i _ p = go_on p

  -- An exchange that fails for no reason.
  pub fail_exchange : ℕ → Phase → SharedPool → SharedPool
  unfolding on_stack
  fail_exchange i (Phase.popping is_first) p = on_stack i LockFree.Action.fail p
  fail_exchange i (Phase.publishing n r again) p = on_stack i LockFree.Action.fail p
  fail_exchange i (Phase.flushing n r obj) p = on_stack i LockFree.Action.fail p
  fail_exchange i _ p = p

  -- The system gives out memory that is in nobody's hands.
  pub receive : ℕ → Phase → Node → SharedPool → Option Node × SharedPool
  unfolding go_on set_phase on_stack give after_grow
  receive i (Phase.growing count again) b p =
      if b == 0
      then go_on (set_phase i (after_grow again) p)
      else if is_free p.stack (block_nodes (obj_size k) count b)
      then go_on (
          set_phase i (Phase.storing count b again)
            (on_stack i (LockFree.Action.obtain (block_nodes (obj_size k) count b)) p))
      else go_on p
  receive i Phase.last_resort b p =
      if b == 0
      then (some 0, set_phase i Phase.resting p)
      else if is_free p.stack (b ∷ [])
      then give i b (on_stack i (LockFree.Action.obtain (b ∷ [])) p)
      else go_on p
  receive i _ b p = go_on p

  -- `Acquire`: the cache, else the list.
  pub start_acquire : ℕ → SharedPool → Option Node × SharedPool
  unfolding give go_on set_phase set_cache on_stack
  start_acquire i p =
      let (n, c) = Cache.pop (p.caches i) in
      if n == 0
      then go_on
          (set_phase i (Phase.popping true) (on_stack i LockFree.Action.pop (set_cache i c p)))
      else give i n (set_cache i c p)

  -- `ReleaseMemory` of an object that is in use.
  pub start_release : ℕ → Node → SharedPool → SharedPool
  unfolding put flush
  start_release i n p =
      let q : SharedPool = record p { in_use = upd p.in_use n false } in
      if (Cache.push (capacity k) n (p.caches i)).0 then put i n q else flush i n q

  -- Calls begin, and users write, only between calls, and only with what is theirs.
  pub begin : ℕ → Phase → Action → SharedPool → Option Node × SharedPool
  unfolding start_acquire start_release go_on on_stack is_held
  begin i Phase.resting acquire p = start_acquire i p
  begin i Phase.resting (release n) p =
      if p.in_use n && is_held (p.stack.holder n) i && not (n == 0)
      then go_on (start_release i n p)
      else go_on p
  begin i Phase.resting (write n v) p =
      if p.in_use n && is_held (p.stack.holder n) i
      then go_on (on_stack i (LockFree.Action.scribble n v) p)
      else go_on p
  begin i Phase.resting (hand_over n j) p =
      if p.in_use n && is_held (p.stack.holder n) i
      then go_on (on_stack i (LockFree.Action.hand_over n j) p)
      else go_on p
  begin i _ _ p = go_on p

  -- The step, and what `Acquire` returns if it returns.
  unfoldable pub step : ℕ → Action → SharedPool → Option Node × SharedPool
  unfolding advance fail_exchange receive begin go_on end_pop ensure first_miss popped set_phase
      set_cache on_stack put flush give is_idle after_grow reach carve_stores carve_rest link_stores
      start_acquire start_release is_held is_free
  step i go p = advance i (p.phase i) p
  step i fail p = go_on (fail_exchange i (p.phase i) p)
  step i (allocated b) p = receive i (p.phase i) b p
  step i acquire p = begin i (p.phase i) acquire p
  step i (release n) p = begin i (p.phase i) (release n) p
  step i (write n v) p = begin i (p.phase i) (write n v) p
  step i (hand_over n j) p = begin i (p.phase i) (hand_over n j) p

  unfoldable pub run : List (ℕ × Action) → SharedPool → SharedPool
  unfolding step
  run [] p = p
  run ((i, a) ∷ rest) p = run rest (step i a p).1
