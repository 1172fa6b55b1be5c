-- ===== src/Pool/BufferPool/Frame.antt =====
-- The word at the start of a block: `Deallocate` of the block does not write it, nor does an
-- `Allocate` right after it, of any size.
use async_io.Prelude.{
  ℕ, ◌+◌, ◌*◌, ◌/◌, ◌≤◌, ◌≡◌, ◌≢◌, refl, sym, ap, ◌∙◌, false, some, List, leb, ◌==◌, ==_self,
  ==_iff, ==_of_ne, Bool-cases, inl, inr, if◌then◌else◌, arith,
}
use async_io.Constants.{
  buffer_pool_num_classes, buffer_pool_max_pooled_size, buffer_pool_tls_cache_size,
}
use async_io.Pool.Nodes.{Node}
use async_io.Pool.FreeList.{pop, take_free}
use async_io.Pool.FreeList.Return.{Holds, free}
use async_io.Pool.FreeList.Take.{without_top}
use async_io.Pool.FreeList.Frame.{give_back-frame}
use async_io.Pool.ObjectPool.{sizeof_pool_node}
use async_io.Pool.BufferPool.{
  BufferPool, class_size, class_for_size, allocate, allocate_populated, allocate_from_system,
  ensure_class_populated, set_at, deallocate, walk_fuel,
}
use async_io.Pool.BufferPool.Classes.{class_for_size_least}

-- The block `n` of class `idx` is on top of the cache of its class.
abbrev pub IsNext : BufferPool → (idx : ℕ) → Node → Type 0
IsNext p idx n = take_free (p.shelves idx) ≡ (n, without_top (p.shelves idx))

-- The `next` field of block `n` of class `idx`.
abbrev pub next_of : BufferPool → (idx : ℕ) → Node → Node
next_of p idx n = (p.shelves idx).stack.next n

module _ (aligned_alloc : ℕ → ℕ → Node) where
  ensure_class_populated-other :
      (idx c : ℕ) (p : BufferPool)
      → idx ≢ c
      → (ensure_class_populated aligned_alloc c p).shelves idx ≡ p.shelves idx
  unfolding ensure_class_populated
  ensure_class_populated-other idx c p other = elim (Bool-cases (p.class_initialized c)) [
    | inl done ↦ rw done refl
    | inr first ↦
        let size = class_size c + sizeof_pool_node in
        let total = if leb 4096 (class_size c) then 4 * 1024 * 1024 else 1024 * 1024 in
        elim (Bool-cases (aligned_alloc p.requests (total / size * size) == 0)) [
          | inl failed ↦ rw first (rw failed refl)
          | inr slab ↦ rw first (rw slab (rw (==_of_ne idx c other) refl))
        ]
  ]

  allocate_populated-other :
      (idx c : ℕ) (p : BufferPool)
      → idx ≢ c
      → (allocate_populated aligned_alloc c p).1.shelves idx ≡ p.shelves idx
  unfolding allocate_populated allocate_from_system
  allocate_populated-other idx c p other = elim (Bool-cases ((pop (p.shelves c).stack).0 == 0)) [
    | inl empty ↦ rw empty refl
    | inr more ↦ rw more (rw (==_of_ne idx c other) refl)
  ]

  -- The end of `Allocate` with a class that it knows.
  abbrev allocate_from : (c : ℕ) → BufferPool → Node × BufferPool
  allocate_from c p =
      let taken = take_free (p.shelves c) in
      let q : BufferPool = record p { shelves = set_at p.shelves c taken.1 } in
      if taken.0 == 0
      then allocate_populated aligned_alloc c (ensure_class_populated aligned_alloc c q)
      else (taken.0, q)

  allocate-frame_other :
      (idx c : ℕ) (p : BufferPool) → idx ≢ c → (allocate_from c p).1.shelves idx ≡ p.shelves idx
  allocate-frame_other idx c p other =
      let q : BufferPool = record p { shelves = set_at p.shelves c (take_free (p.shelves c)).1 } in
      let kept : q.shelves idx ≡ p.shelves idx = rw (==_of_ne idx c other) refl in
      elim (Bool-cases ((take_free (p.shelves c)).0 == 0)) [
        | inl empty ↦ rw empty (
            allocate_populated-other idx c (ensure_class_populated aligned_alloc c q) other
            ∙ ensure_class_populated-other idx c q other
            ∙ kept)
        | inr more ↦ rw more kept
      ]

  allocate-frame_top :
      (idx c n : ℕ) (p : BufferPool)
      → idx ≡ c
      → IsNext p idx n
      → n ≢ 0
      → next_of (allocate_from c p).1 idx n ≡ next_of p idx n
  allocate-frame_top idx c n p same top live =
      rw (sym same) (rw top (rw (==_of_ne n 0 live) (rw (next_of, ==_self idx) refl)))

  -- `Allocate` of any size writes nothing into a block that is on top of the cache of its class.
  pub allocate-frame :
      (size idx n : ℕ) (p : BufferPool)
      → IsNext p idx n
      → n ≢ 0
      → next_of (allocate aligned_alloc size p).1 idx n ≡ next_of p idx n
  unfolding allocate
  allocate-frame size idx n p top live =
      let c = class_for_size size in
      elim (Bool-cases (leb buffer_pool_num_classes c)) [
        | inl unknown ↦ rw unknown refl
        | inr known ↦ elim (Bool-cases (idx == c)) [
          | inl same ↦ rw known (allocate-frame_top idx c n p ((==_iff idx c).0 same) top live)
          | inr differ ↦ rw known (
              ap (λ s. s.stack.next n)
                (allocate-frame_other idx c p (λ e. ground (arith, e, differ))))
        ]
      ]

-- `Deallocate` of a block that is not free always returns, puts it on top of the cache of its class,
-- and writes nothing into it.
pub deallocate-frame :
    (n size : ℕ) (p : BufferPool) (xs : List Node)
    → n ≢ 0
    → size ≤ buffer_pool_max_pooled_size
    → Holds buffer_pool_tls_cache_size (p.shelves (class_for_size size)) xs
    → free (p.shelves (class_for_size size)) xs n ≡ 0
    → (q : BufferPool) × (deallocate n size p ≡ some q)
      × IsNext q (class_for_size size) n
      × (next_of q (class_for_size size) n ≡ next_of p (class_for_size size) n)
unfolding deallocate
deallocate-frame n size p xs live fits holds new =
    let idx = class_for_size size in
    let known : leb buffer_pool_num_classes idx ≡ false =
      ground (arith, (class_for_size_least size fits).0) in
    let (t, back, same, top) =
      give_back-frame walk_fuel buffer_pool_tls_cache_size n (p.shelves idx) xs (omega arith)
        (omega arith) holds live new in
    (
      record p { shelves = set_at p.shelves idx t },
      rw (==_of_ne n 0 live) (rw known (rw back refl)),
      rw (IsNext, ==_self idx) top,
      rw (next_of, ==_self idx) same,
    )
