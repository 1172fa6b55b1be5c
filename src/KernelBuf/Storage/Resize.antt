-- ===== src/KernelBuf/Storage/Resize.antt =====
-- What `Resize` and a move do to the bytes of a buffer.
use async_io.Prelude.{
  ℕ, zero, suc, ◌≡◌, ◌≢◌, ◌≤◌, ◌<◌, refl, ap, ◌∙◌, true, false, none, some, List, [], ◌∷◌, ◌++◌,
  leb, ltb, Bool-cases, inl, inr, ◌==◌, ==_of_ne, if◌then◌else◌, take, drop, length, replicate,
  arith,
}
use async_io.Constants.{kernel_buf_sbo_size, buffer_pool_max_pooled_size}
use async_io.KernelBuf.{StorageTag, KernelBuf}
use async_io.KernelBuf.Storage.{
  BlockPool, Pointer, data_pointer, overwrite, allocate_storage, pool_storage, destroy_storage,
  contents, write_data, copy_old, finish_resize, resize,
}

overwrite_self : (n : ℕ) (xs : List ℕ) → overwrite (take n xs) xs ≡ xs
unfolding overwrite
overwrite_self zero xs = refl
overwrite_self (suc n) [] = refl
overwrite_self (suc n) (x ∷ xs) = ap (λ ys. x ∷ ys) (overwrite_self n xs)

take-prefix : (n : ℕ) (xs zs : List ℕ) → n ≤ length xs → take n (take n xs ++ zs) ≡ take n xs
take-prefix zero xs zs long = refl
take-prefix (suc n) [] zs long = let absurd : ⊥ = omega (arith, long) in elim absurd [ ]
take-prefix (suc n) (x ∷ xs) zs long = ap (λ ys. x ∷ ys) (take-prefix n xs zs (omega (arith, long)))

pub take-overwrite :
    (n : ℕ) (xs ys : List ℕ) → n ≤ length xs → take n (overwrite (take n xs) ys) ≡ take n xs
unfolding overwrite
take-overwrite n xs ys long = take-prefix n xs (drop (length (take n xs)) ys) long

-- The size that `memcpy` copies.
abbrev pub copied : (new_size size : ℕ) → ℕ
copied new_size size = if ltb new_size size then new_size else size

pub resize-eq :
    (pool : BlockPool) (new_size : ℕ) (b : KernelBuf) (h : pool.Heap)
    → new_size ≢ b.size
    → resize pool new_size b h
      ≡ finish_resize pool
          (copied new_size b.size)
          (data_pointer b)
          (allocate_storage pool new_size (destroy_storage pool b h).0 (destroy_storage pool b h).1)
unfolding resize
resize-eq pool new_size b h other = rw (==_of_ne new_size b.size other) refl

abbrev inline : KernelBuf → KernelBuf
inline b = record b { storage_tag = StorageTag.sbo }

finish_resize-inline :
    (pool : BlockPool) (n : ℕ) (b : KernelBuf) (h : pool.Heap)
    → finish_resize pool n (some Pointer.in_sbo) (inline b, h) ≡ some (inline b, h)
unfolding finish_resize copy_old write_data
finish_resize-inline pool n b h = elim (Bool-cases (n == 0)) [
  | inl nothing ↦ rw nothing refl
  | inr something ↦ rw something (rw (overwrite_self n b.sbo_data) refl)
]

allocate_storage-inline :
    (pool : BlockPool) (size : ℕ) (b : KernelBuf) (h : pool.Heap)
    → size ≤ kernel_buf_sbo_size
    → allocate_storage pool size b h
      ≡ (inline (record b { size = size; sbo_data = replicate kernel_buf_sbo_size 0 }), h)
unfolding allocate_storage
allocate_storage-inline pool size b h small =
    let fits : leb size kernel_buf_sbo_size ≡ true = ground (arith, small) in rw fits refl

allocate_storage-pooled :
    (pool : BlockPool) (size : ℕ) (b : KernelBuf) (h : pool.Heap)
    → kernel_buf_sbo_size < size
    → size ≤ buffer_pool_max_pooled_size
    → (pool.allocate size h).0 ≢ 0
    → allocate_storage pool size b h ≡ (
      record b {
        size = size;
        storage_tag = StorageTag.pool;
        pool = record { block = (pool.allocate size h).0; alloc_size = size };
      },
      (pool.allocate size h).1,
    )
unfolding allocate_storage pool_storage
allocate_storage-pooled pool size b h large small live =
    let no : leb size kernel_buf_sbo_size ≡ false = ground (arith, large) in
    let fits : leb size buffer_pool_max_pooled_size ≡ true = ground (arith, small) in
    rw no (rw fits (rw (==_of_ne (pool.allocate size h).0 0 live) refl))

resize-inline :
    (pool : BlockPool) (new_size : ℕ) (b : KernelBuf) (h : pool.Heap)
    → b.storage_tag ≡ StorageTag.sbo
    → new_size ≢ b.size
    → new_size ≤ kernel_buf_sbo_size
    → resize pool new_size b h
      ≡ some (inline (record b { size = new_size; sbo_data = replicate kernel_buf_sbo_size 0 }), h)
unfolding data_pointer destroy_storage
resize-inline pool new_size b h at other small = rw (resize-eq pool new_size b h other) (
    rw at (
      rw
        (allocate_storage-inline pool new_size (record b { storage_tag = StorageTag.none }) h small)
        (finish_resize-inline pool (copied new_size b.size)
          (record b { size = new_size; sbo_data = replicate kernel_buf_sbo_size 0 }) h)))

-- A `Resize` from one size to another that both fit in the inline storage leaves only zeros: the
-- bytes are wiped before they are copied onto themselves.
pub resize_inline_wipes :
    (pool : BlockPool) (new_size : ℕ) (b : KernelBuf) (h : pool.Heap)
    → b.storage_tag ≡ StorageTag.sbo
    → new_size ≢ b.size
    → new_size ≤ kernel_buf_sbo_size
    → (c : KernelBuf) × (resize pool new_size b h ≡ some (c, h))
      × (contents pool c h ≡ some (replicate kernel_buf_sbo_size 0))
      × (c.size ≡ new_size)
unfolding contents
resize_inline_wipes pool new_size b h at other small =
    let zeros : List ℕ = replicate kernel_buf_sbo_size 0 in
    let c : KernelBuf = inline (record b { size = new_size; sbo_data = zeros }) in
    (c, resize-inline pool new_size b h at other small, refl, refl)

-- A `Resize` of a buffer whose bytes are in a vector reads the vector after its destruction,
-- whatever the new size is; both sizes are not 0.
pub resize_heap_faults :
    (pool : BlockPool) (new_size : ℕ) (b : KernelBuf) (h : pool.Heap)
    → b.storage_tag ≡ StorageTag.heap
    → new_size ≢ b.size
    → new_size ≢ 0
    → b.size ≢ 0
    → resize pool new_size b h ≡ none
unfolding finish_resize copy_old data_pointer
resize_heap_faults pool new_size b h at other some_new some_old =
    let copies : copied new_size b.size ≢ 0 = ground arith in
    rw (resize-eq pool new_size b h other)
      (rw at (rw (==_of_ne (copied new_size b.size) 0 copies) refl))

abbrev pooled_buf : (pool : BlockPool) (size : ℕ) → KernelBuf → pool.Heap → KernelBuf
pooled_buf pool size b h = record b {
  size = size;
  storage_tag = StorageTag.pool;
  pool = record { block = (pool.allocate size h).0; alloc_size = size };
}

resize-pooled :
    (pool : BlockPool) (new_size : ℕ) (b : KernelBuf) (h : pool.Heap)
    → b.storage_tag ≡ StorageTag.sbo
    → b.size < new_size
    → kernel_buf_sbo_size < new_size
    → new_size ≤ buffer_pool_max_pooled_size
    → (pool.allocate new_size h).0 ≢ 0
    → resize pool new_size b h
      ≡ finish_resize pool b.size
          (some Pointer.in_sbo)
          (pooled_buf pool new_size b h, (pool.allocate new_size h).1)
unfolding data_pointer destroy_storage
resize-pooled pool new_size b h at grows large fits live =
    let all : copied new_size b.size ≡ b.size = ground (arith, grows) in
    rw (resize-eq pool new_size b h (omega (arith, grows))) (
      rw at (
        rw
          (allocate_storage-pooled pool new_size (record b { storage_tag = StorageTag.none }) h
            large fits live)
          (rw all refl)))

-- A `Resize` from the inline storage to a size that the pool serves puts the buffer into the block
-- that the pool gives and keeps all bytes of the buffer. The pool has a block, and a block reads as it was written.
pub resize_to_pool_keeps :
    (pool : BlockPool) (new_size : ℕ) (b : KernelBuf) (h : pool.Heap)
    → ((block : ℕ) (xs : List ℕ) (g : pool.Heap) → pool.bytes (pool.store block xs g) block ≡ xs)
    → b.storage_tag ≡ StorageTag.sbo
    → b.size ≤ length b.sbo_data
    → b.size ≤ kernel_buf_sbo_size
    → kernel_buf_sbo_size < new_size
    → new_size ≤ buffer_pool_max_pooled_size
    → (pool.allocate new_size h).0 ≢ 0
    → (c : KernelBuf) × (g : pool.Heap) × (shown : List ℕ) × (resize pool new_size b h
        ≡ some (c, g))
      × (c.storage_tag ≡ StorageTag.pool)
      × (c.pool ≡ record { block = (pool.allocate new_size h).0; alloc_size = new_size })
      × (contents pool c g ≡ some shown)
      × (take b.size shown ≡ take b.size b.sbo_data)
      × (c.size ≡ new_size)
unfolding finish_resize copy_old write_data contents
resize_to_pool_keeps pool new_size b h law at long small large pooled live =
    let c : KernelBuf = pooled_buf pool new_size b h in
    let block : ℕ = (pool.allocate new_size h).0 in
    let g : pool.Heap = (pool.allocate new_size h).1 in
    let resized =
      resize-pooled pool new_size b h at (omega (arith, small, large)) large pooled live in
    let written : List ℕ = overwrite (take b.size b.sbo_data) (pool.bytes g block) in
    elim (Bool-cases (b.size == 0)) [
      | inl empty_test ↦
          let empty : b.size ≡ 0 = ground (arith, empty_test) in
          (
            c,
            g,
            pool.bytes g block,
            resized ∙ rw empty_test refl,
            refl,
            refl,
            refl,
            rw empty refl,
            refl,
          )
      | inr some_test ↦ (
        c,
        pool.store block written g,
        written,
        resized ∙ rw some_test refl,
        refl,
        refl,
        ap some (law block written g),
        take-overwrite b.size b.sbo_data (pool.bytes g block) long,
        refl,
      )
    ]

-- The buffer that a `Resize` from a block into the inline storage leaves.
abbrev pub brought_inline : (size : ℕ) → List ℕ → KernelBuf → KernelBuf
brought_inline size bytes b = record b {
  size = size;
  storage_tag = StorageTag.sbo;
  sbo_data = bytes;
  pool = record { block = 0; alloc_size = 0 };
}

pub resize-brought_inline :
    (pool : BlockPool) (new_size : ℕ) (b : KernelBuf) (h : pool.Heap)
    → b.storage_tag ≡ StorageTag.pool
    → b.pool.block ≢ 0
    → new_size ≢ b.size
    → new_size ≤ kernel_buf_sbo_size
    → (bytes : List ℕ) × (resize pool new_size b h
        ≡ some (brought_inline new_size bytes b, pool.deallocate b.pool.block b.pool.alloc_size h))
unfolding data_pointer destroy_storage finish_resize copy_old write_data
resize-brought_inline pool new_size b h at live other small =
    let g : pool.Heap = pool.deallocate b.pool.block b.pool.alloc_size h in
    let zeros : List ℕ = replicate kernel_buf_sbo_size 0 in
    let n : ℕ = copied new_size b.size in
    let emptied : KernelBuf = record b {
      storage_tag = StorageTag.none;
      pool = record { block = 0; alloc_size = 0 };
    } in
    let inlined = allocate_storage-inline pool new_size emptied g small in
    let resized = resize-eq pool new_size b h other in
    elim (Bool-cases (n == 0)) [
      | inl nothing ↦ (
        zeros,
        rw resized (rw at (rw (==_of_ne b.pool.block 0 live) (rw inlined (rw nothing refl)))),
      )
      | inr something ↦ (
        overwrite (take n (pool.bytes g b.pool.block)) zeros,
        rw resized (rw at (rw (==_of_ne b.pool.block 0 live) (rw inlined (rw something refl)))),
      )
    ]
