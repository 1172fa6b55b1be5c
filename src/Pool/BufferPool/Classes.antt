-- ===== src/Pool/BufferPool/Classes.antt =====
-- `ClassForSize` and what follows from it.
use async_io.Prelude.{
  ℕ, zero, suc, ◌+◌, ◌<◌, ◌≤◌, ◌≡◌, ◌≢◌, some, List, [], ◌∷◌, leb, true, arith, length, Bool-cases,
  inl, inr, leb→le,
}
use async_io.Constants.{
  buffer_pool_num_classes, buffer_pool_class_sizes, buffer_pool_max_pooled_size,
}
use async_io.Pool.Nodes.{Node}
use async_io.Pool.BufferPool.{
  BufferPool, class_size, size_at, first_fit, class_for_size, allocate, deallocate,
}

-- The answer of the loop: the first size with room, `k` entries behind the start.
abbrev FirstFit : List ℕ → (i bytes result : ℕ) → Type 0
FirstFit sizes i bytes result =
    (k : ℕ) × (result ≡ i + k)
    × (k < length sizes)
    × (bytes ≤ size_at sizes k)
    × ((j : ℕ) → j < k → size_at sizes j < bytes)

-- The answer further down, behind a size that is too small.
FirstFit-skip :
    (size : ℕ) (sizes : List ℕ) (i bytes result : ℕ)
    → size < bytes
    → FirstFit sizes (suc i) bytes result
    → FirstFit (size ∷ sizes) i bytes result
FirstFit-skip size sizes i bytes result less rest =
    (suc rest.0, omega (arith, rest.1), omega (arith, rest.2), rest.3, earlier rest.4)
  where
    earlier :
        ((j : ℕ) → j < rest.0 → size_at sizes j < bytes)
        → (j : ℕ) → j < suc rest.0
        → size_at (size ∷ sizes) j < bytes
    earlier smaller zero below = less
    earlier smaller (suc j) below = smaller j (omega (arith, below))

first_fit-FirstFit :
    (sizes : List ℕ) (i bytes m : ℕ)
    → m < length sizes
    → bytes ≤ size_at sizes m
    → FirstFit sizes i bytes (first_fit sizes i bytes)
unfolding first_fit
first_fit-FirstFit [] i bytes m inside fits =
    let absurd : ⊥ = omega (arith, inside) in elim absurd [ ]
first_fit-FirstFit (size ∷ sizes) i bytes zero inside fits =
    let has_room : leb bytes size ≡ true = ground (arith, fits) in
    rw has_room (0, omega arith, omega arith, fits, λ j less. omega (arith, less))
first_fit-FirstFit (size ∷ sizes) i bytes (suc m) inside fits =
    let rest = first_fit-FirstFit sizes (suc i) bytes m (omega (arith, inside)) fits in
    elim (Bool-cases (leb bytes size)) [
      | inl has_room ↦
          rw has_room
            (0, omega arith, omega arith, leb→le bytes size has_room, λ j less. omega (arith, less))
      | inr too_small ↦ rw too_small (
          FirstFit-skip size sizes i bytes (first_fit sizes (suc i) bytes)
            (ground (arith, too_small)) rest)
    ]

-- `ClassForSize` gives the smallest class with room for the size, for every size up to 64 KiB.
pub class_for_size_least :
    (bytes : ℕ)
    → bytes ≤ buffer_pool_max_pooled_size
    → (class_for_size bytes < buffer_pool_num_classes)
      × (bytes ≤ class_size (class_for_size bytes))
      × ((j : ℕ) → j < class_for_size bytes → class_size j < bytes)
unfolding class_for_size
class_for_size_least bytes small =
    let fit = first_fit-FirstFit buffer_pool_class_sizes 0 bytes 10 (omega arith) small in
    let at : first_fit buffer_pool_class_sizes 0 bytes ≡ fit.0 = omega (arith, fit.1) in
    rw at (fit.2, fit.3, fit.4)

-- A size beyond 64 KiB has no class: `Allocate` answers null and changes nothing, and `Deallocate`
-- gives the pointer to the system and leaves every list as it is.
pub large_sizes_bypass :
    (aligned_alloc : ℕ → ℕ → Node) (bytes : ℕ) (ptr : Node) (p : BufferPool)
    → buffer_pool_max_pooled_size < bytes
    → ptr ≢ 0
    → (allocate aligned_alloc bytes p ≡ (0, p))
      × (deallocate ptr bytes p ≡ some (record p { freed = ptr ∷ p.freed }))
unfolding allocate deallocate class_for_size first_fit
large_sizes_bypass aligned_alloc bytes ptr p large live = (ground arith, ground arith)
