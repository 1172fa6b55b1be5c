-- ===== src/Pool/BufferPool/RoundTrip.antt =====
-- A block that is allocated and deallocated is back in its class.
use async_io.Prelude.{ℕ, ◌≤◌, ◌≡◌, ◌≢◌, refl, ◌∙◌, false, some, List, ==_self, ==_of_ne, leb, arith}
use async_io.Constants.{
  buffer_pool_num_classes, buffer_pool_max_pooled_size, buffer_pool_tls_cache_size,
}
use async_io.Pool.Nodes.{Node}
use async_io.Pool.FreeList.{Shelf, take_free}
use async_io.Pool.FreeList.Return.{Holds, free, give_back-conserves}
use async_io.Pool.FreeList.Take.{take_free-takes}
use async_io.Pool.BufferPool.{BufferPool, class_for_size, allocate, deallocate, set_at, walk_fuel}
use async_io.Pool.BufferPool.Classes.{class_for_size_least}

-- For a size up to 65536 bytes whose class has a free block, none twice: `Allocate` answers with a
-- block that was free, and `Deallocate` of it with the same size always returns and makes the same
-- blocks of that class free as before; the other classes are as they were, no slab is asked for, and
-- nothing goes to the system.
pub allocate-deallocate :
    (aligned_alloc : ℕ → ℕ → Node) (size : ℕ) (p : BufferPool) (xs : List Node) (z : Node)
    → size ≤ buffer_pool_max_pooled_size
    → Holds buffer_pool_tls_cache_size (p.shelves (class_for_size size)) xs
    → 1 ≤ free (p.shelves (class_for_size size)) xs z
    → (ptr : Node) × (q : BufferPool) × (r : BufferPool) × (ys : List Node) × (allocate
          aligned_alloc size p
        ≡ (ptr, q))
      × (1 ≤ free (p.shelves (class_for_size size)) xs ptr)
      × (deallocate ptr size q ≡ some r)
      × Holds buffer_pool_tls_cache_size (r.shelves (class_for_size size)) ys
      × ((x : Node)
          → free (r.shelves (class_for_size size)) ys x
            ≡ free (p.shelves (class_for_size size)) xs x)
      × ((j : ℕ) → j ≢ class_for_size size → r.shelves j ≡ p.shelves j)
      × (r.requests ≡ p.requests)
      × (r.freed ≡ p.freed)
unfolding allocate deallocate
allocate-deallocate aligned_alloc size p xs z fits holds is_free =
    let idx = class_for_size size in
    let known : leb buffer_pool_num_classes idx ≡ false =
      ground (arith, (class_for_size_least size fits).0) in
    let (live, ys, holds₁, taken) =
      take_free-takes buffer_pool_tls_cache_size (p.shelves idx) xs z holds is_free in
    let ptr = (take_free (p.shelves idx)).0 in
    let s₁ : Shelf = (take_free (p.shelves idx)).1 in
    let new : free s₁ ys ptr ≡ 0 = ground (arith, taken ptr, holds.once ptr) in
    let was_free : 1 ≤ free (p.shelves idx) xs ptr = ground (arith, taken ptr) in
    let (s₂, zs, back, holds₂, kept) =
      give_back-conserves walk_fuel buffer_pool_tls_cache_size ptr s₁ ys (omega arith) (omega arith)
        holds₁ live new in
    let q : BufferPool = record p { shelves = set_at p.shelves idx s₁ } in
    (
      ptr,
      q,
      record q { shelves = set_at q.shelves idx s₂ },
      zs,
      rw known (rw (==_of_ne ptr 0 live) refl),
      was_free,
      rw (==_of_ne ptr 0 live) (rw known (rw (==_self idx) (rw back refl))),
      rw (==_self idx) holds₂,
      λ x. rw (==_self idx) (kept x ∙ taken x),
      λ j other. rw (==_of_ne j idx other) refl,
      refl,
      refl,
    )
