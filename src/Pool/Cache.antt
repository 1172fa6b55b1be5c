-- ===== src/Pool/Cache.antt =====
-- `ThreadCache` of `ObjectPool` and `ClassCache` of `BufferPool`: the same code with room for 32 and
-- for 16 nodes. `nodes` is the array; the entries below `count` are the ones in use.
pub mod Flush
use async_io.Prelude.{
  ℕ, zero, suc, ◌+◌, ◌-◌, ◌/◌, Bool, true, false, List, [], ◌∷◌, leb, ◌==◌, if◌then◌else◌,
}
use async_io.Constants.{object_pool_tls_cache_size, buffer_pool_tls_cache_size}
use async_io.Pool.Nodes.{Node, Memory, upd}

pub record Cache : Type 0 where
  pub nodes : ℕ → Node
  pub count : ℕ

-- `m` entries from index `i` on.
abbrev pub slice : (ℕ → Node) → (i m : ℕ) → List Node
slice nodes i zero = []
slice nodes i (suc m) = nodes i ∷ slice nodes (suc i) m

abbrev pub contents : Cache → List Node
contents c = slice c.nodes 0 c.count

unfoldable pub reset : Cache → Cache
reset c = record c { count = 0 }

unfoldable pub pop : Cache → Node × Cache
pop c = if c.count == 0 then (0, c) else (c.nodes (c.count - 1), record c { count = c.count - 1 })

-- The rest of the loop of `FlushHalf`, and the store behind it.
unfoldable pub link_rest : (ℕ → Node) → (i m : ℕ) → (tail : Node) → Memory → Memory
link_rest nodes i zero tail next = upd next tail 0
link_rest nodes i (suc m) tail next = link_rest nodes (suc i) m (nodes i) (upd next tail (nodes i))

module _ (capacity : ℕ) where
  unfoldable pub push : Node → Cache → Bool × Cache
  push n c =
      if leb capacity c.count
      then (false, c)
      else (true, record c { nodes = upd c.nodes c.count n; count = c.count + 1 })

  unfoldable pub flush_half : Cache → Memory → Node × Cache × Memory
  flush_half c next =
      if leb c.count (capacity / 4)
      then (0, c, next)
      else let n = c.count / 2 in
        let count = c.count - n in
        (
          c.nodes count,
          record c { count = count },
          link_rest c.nodes (suc count) (n - 1) (c.nodes count) next,
        )

unfoldable pub thread_cache_push : Node → Cache → Bool × Cache
thread_cache_push = push object_pool_tls_cache_size

unfoldable pub thread_cache_flush_half : Cache → Memory → Node × Cache × Memory
thread_cache_flush_half = flush_half object_pool_tls_cache_size

unfoldable pub class_cache_push : Node → Cache → Bool × Cache
class_cache_push = push buffer_pool_tls_cache_size

unfoldable pub class_cache_flush_half : Cache → Memory → Node × Cache × Memory
class_cache_flush_half = flush_half buffer_pool_tls_cache_size
