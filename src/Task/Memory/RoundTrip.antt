-- ===== src/Task/Memory/RoundTrip.antt =====
-- A task that is made and deleted gives its memory back to the pool.
use async_io.Prelude.{ℕ, ◌≤◌, ◌≡◌, ◌≢◌, refl, ◌∙◌, true, some, List, ==_of_ne, arith}
use async_io.Constants.{object_pool_tls_cache_size}
use async_io.Pool.Nodes.{Node}
use async_io.Pool.FreeList.Return.{Holds, free}
use async_io.Pool.ObjectPool.{acquire}
use async_io.Pool.ObjectPool.Conservation.{acquire_conserves, release_conserves}
use async_io.Task.Memory.{TaskMemory, operator_new, operator_delete}

-- While a node of the pool is free, and none twice, memory for an `AsyncTask<void>` comes from the
-- pool, and deleting it puts it back: the same nodes are free as before, and the global operators
-- were not called.
pub operator_new-operator_delete :
    (aligned_alloc : ℕ → ℕ → Node) (sizeof_task : ℕ) (global_new : List Node → Node)
    (m : TaskMemory) (xs : List Node) (z : Node)
    → Holds object_pool_tls_cache_size m.pool.shelf xs
    → 1 ≤ free m.pool.shelf xs z
    → (ptr : Node) × (m₁ : TaskMemory) × (m₂ : TaskMemory) × (ys : List Node) × (operator_new
          aligned_alloc sizeof_task global_new true m
        ≡ (ptr, m₁))
      × (ptr ≢ 0)
      × (operator_delete true ptr m₁ ≡ some m₂)
      × Holds object_pool_tls_cache_size m₂.pool.shelf ys
      × ((x : Node) → free m₂.pool.shelf ys x ≡ free m.pool.shelf xs x)
      × (m₂.given ≡ m.given)
      × (m₂.taken_back ≡ m.taken_back)
unfolding operator_new operator_delete
operator_new-operator_delete aligned_alloc sizeof_task global_new m xs z holds is_free =
    let got = acquire aligned_alloc sizeof_task m.pool in
    let (live, ys, holds₁, taken) =
      acquire_conserves aligned_alloc sizeof_task m.pool xs z holds is_free in
    let new : free got.1.shelf ys got.0 ≡ 0 = ground (arith, taken got.0, holds.once got.0) in
    let (q, zs, back, holds₂, kept) = release_conserves got.0 got.1 ys holds₁ live new in
    (
      got.0,
      record m { pool = got.1 },
      record m { pool = q },
      zs,
      rw (==_of_ne got.0 0 live) refl,
      live,
      rw (==_of_ne got.0 0 live) (rw back refl),
      holds₂,
      λ x. kept x ∙ taken x,
      refl,
      refl,
    )
