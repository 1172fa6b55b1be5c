-- ===== src/KernelBuf/Pooled.antt =====
-- `KernelBuf` over `BufferPool`: the pool that `AllocateStorage` and `DestroyStorage` call. The first
-- word of a block is one memory cell for both: the program's bytes, and the `next` field of the pool.
use async_io.Prelude.{
  ℕ, ◌≡◌, ◌≢◌, ◌≤◌, ◌<◌, refl, inl, inr, false, Option, none, some, List, ◌+◌, ◌==◌, ==_self, leb,
  Bool-cases, take, length, arith,
}
use async_io.Constants.{
  kernel_buf_sbo_size, buffer_pool_max_pooled_size, buffer_pool_num_classes,
  buffer_pool_tls_cache_size,
}
use async_io.Pool.Nodes.{Node, upd}
use async_io.Pool.FreeList.{pop, take_free}
use async_io.Pool.FreeList.Return.{Holds, free}
use async_io.Pool.BufferPool.{
  BufferPool, class_for_size, class_size, allocate, allocate_populated, allocate_from_system,
  set_at, deallocate,
}
use async_io.Pool.BufferPool.Frame.{next_of, allocate-frame, deallocate-frame}
use async_io.Pool.BufferPool.Classes.{class_for_size_least}
use async_io.Pool.ObjectPool.{sizeof_pool_node}
use async_io.KernelBuf.{StorageTag, KernelBuf}
use async_io.KernelBuf.Storage.{BlockPool, contents, resize}
use async_io.KernelBuf.Storage.FromBlock.{resize_from_block_keeps}
use async_io.KernelBuf.Storage.Resize.{copied, resize_to_pool_keeps}

-- The memory of the blocks. `memory` is what the program wrote into a block, except for the word at
-- its start: that is the `next` field of a node of the pool, which both the program and the pool write.
pub record PooledHeap : Type 0 where
  pub pool : BufferPool
  pub memory : ℕ → List ℕ

-- How a block starts with a word, and the class that each block was carved for.
pub record Layout : Type 0 where
  pub first_word : List ℕ → Node
  pub with_word : Node → List ℕ → List ℕ
  pub class_of : Node → ℕ

-- The bytes of a block: the word at the start is in the free list's memory.
abbrev pub block_bytes : Layout → PooledHeap → Node → List ℕ
block_bytes layout h block =
    layout.with_word ((h.pool.shelves (layout.class_of block)).stack.next block) (h.memory block)

-- A store into the `next` field of a block.
abbrev pub write_next : (idx : ℕ) → (block next : Node) → BufferPool → BufferPool
write_next idx block next p =
    let s = p.shelves idx in
    record p {
      shelves =
          set_at p.shelves idx
            (record s { stack = record s.stack { next = upd s.stack.next block next } });
    }

-- A block whose return did not end would stay with the program.
abbrev pub returned : PooledHeap → Option BufferPool → PooledHeap
returned h none = h
returned h (some p) = record h { pool = p }

abbrev pub block_pool : Layout → (aligned_alloc : ℕ → ℕ → Node) → BlockPool
block_pool layout aligned_alloc = record {
  Heap = PooledHeap;
  allocate = λ size h.
      let given = allocate aligned_alloc size h.pool in (given.0, record h { pool = given.1 });
  deallocate = λ block size h. returned h (deallocate block size h.pool);
  bytes = block_bytes layout;
  store = λ block xs h. record {
    pool = write_next (layout.class_of block) block (layout.first_word xs) h.pool;
    memory = upd h.memory block xs;
  };
}

-- A word taken from the start of the bytes and put back there changes nothing.
abbrev pub IsLayout : Layout → Type 0
IsLayout layout = (xs : List ℕ) → layout.with_word (layout.first_word xs) xs ≡ xs

-- What is written into a block is read from it.
block_bytes-store :
    (layout : Layout) (aligned_alloc : ℕ → ℕ → Node)
    → IsLayout layout
    → (block : ℕ) (xs : List ℕ) (h : PooledHeap)
    → block_bytes layout ((block_pool layout aligned_alloc).store block xs h) block ≡ xs
block_bytes-store layout aligned_alloc lawful block xs h =
    rw (block_bytes, ==_self block)
      (rw (==_self (layout.class_of block)) (rw (==_self block) (lawful xs)))

module _ (aligned_alloc : ℕ → ℕ → Node) (has_memory : (i n : ℕ) → aligned_alloc i n ≢ 0) where
  allocate_populated_live :
      (idx : ℕ) (p : BufferPool) → (allocate_populated aligned_alloc idx p).0 ≢ 0
  unfolding allocate_populated allocate_from_system
  allocate_populated_live idx p = elim (Bool-cases ((pop (p.shelves idx).stack).0 == 0)) [
    | inl empty ↦ rw empty (has_memory p.requests (class_size idx + sizeof_pool_node))
    | inr more ↦ rw more (λ e. ground (arith, more, e))
  ]

  -- A size that is pooled gets a block.
  allocate_live :
      (size : ℕ) (p : BufferPool)
      → size ≤ buffer_pool_max_pooled_size
      → (allocate aligned_alloc size p).0 ≢ 0
  unfolding allocate
  allocate_live size p fits =
      let least = class_for_size_least size fits in
      let known : leb buffer_pool_num_classes (class_for_size size) ≡ false =
        ground (arith, least.0) in
      elim (Bool-cases ((take_free (p.shelves (class_for_size size))).0 == 0)) [
        | inl empty ↦ rw known (rw empty (allocate_populated_live (class_for_size size) _))
        | inr more ↦ rw known (rw more (λ e. ground (arith, more, e)))
      ]

  -- While the system has memory, a `Resize` of a buffer from the inline storage to a size above 256
  -- and up to 65536 bytes moves it into a block of the buffer pool, in whatever state that is: the
  -- storage is then a block, not null, for the new size, and it has all bytes of the buffer.
  pub resize_into_pool_keeps :
      (layout : Layout)
      → IsLayout layout
      → (new_size : ℕ) (b : KernelBuf) (h : PooledHeap) → b.storage_tag ≡ StorageTag.sbo
      → b.size ≤ length b.sbo_data
      → b.size ≤ kernel_buf_sbo_size
      → kernel_buf_sbo_size < new_size
      → new_size ≤ buffer_pool_max_pooled_size
      → (c : KernelBuf) × (g : PooledHeap) × (shown : List ℕ) × (resize
            (block_pool layout aligned_alloc)
            new_size
            b
            h
          ≡ some (c, g))
        × (c.storage_tag ≡ StorageTag.pool)
        × (c.pool.block ≢ 0)
        × (c.pool.alloc_size ≡ new_size)
        × (contents (block_pool layout aligned_alloc) c g ≡ some shown)
        × (take b.size shown ≡ take b.size b.sbo_data)
        × (c.size ≡ new_size)
  resize_into_pool_keeps layout lawful new_size b h at long small large pooled =
      let live = allocate_live new_size h.pool pooled in
      let (c, g, shown, run, tag, block, is, prefix, size) =
        resize_to_pool_keeps (block_pool layout aligned_alloc) new_size b h
          (block_bytes-store layout aligned_alloc lawful) at long small large pooled live in
      (c, g, shown, run, tag, rw block live, rw block refl, is, prefix, size)

-- The bytes of a block whose word and other bytes are as they were.
block_bytes-same :
    (layout : Layout) (h g : PooledHeap) (block idx : ℕ)
    → layout.class_of block ≡ idx
    → next_of g.pool idx block ≡ next_of h.pool idx block
    → g.memory block ≡ h.memory block
    → block_bytes layout g block ≡ block_bytes layout h block
block_bytes-same layout h g block idx class word rest =
    rw (block_bytes, class) (rw (word, rest) refl)

-- A buffer in a block of the buffer pool keeps its bytes up to the smaller of the two sizes through a
-- `Resize` to any other size, whatever memory the system has, although the block is given back before
-- they are copied, and half of the cache may go to the list with it. The block has as many bytes as are
-- kept; its size is one that the pool serves, it is of the class of that size, and not free there; no
-- block of the class is free twice.
pub resize_from_pool_keeps :
    (layout : Layout)
    → IsLayout layout
    → (aligned_alloc : ℕ → ℕ → Node) (new_size : ℕ) (b : KernelBuf) (h : PooledHeap)
      (xs : List Node)
    → b.storage_tag ≡ StorageTag.pool
    → b.pool.block ≢ 0
    → b.pool.alloc_size ≤ buffer_pool_max_pooled_size
    → layout.class_of b.pool.block ≡ class_for_size b.pool.alloc_size
    → Holds buffer_pool_tls_cache_size (h.pool.shelves (class_for_size b.pool.alloc_size)) xs
    → free (h.pool.shelves (class_for_size b.pool.alloc_size)) xs b.pool.block ≡ 0
    → new_size ≢ b.size
    → copied new_size b.size ≤ length (block_bytes layout h b.pool.block)
    → (c : KernelBuf) × (g : PooledHeap) × (shown : List ℕ) × (resize
          (block_pool layout aligned_alloc)
          new_size
          b
          h
        ≡ some (c, g))
      × (contents (block_pool layout aligned_alloc) c g ≡ some shown)
      × (take (copied new_size b.size) shown
          ≡ take (copied new_size b.size) (block_bytes layout h b.pool.block))
      × (c.size ≡ new_size)
resize_from_pool_keeps layout lawful aligned_alloc new_size b h xs at live fits class holds new
      other long =
    let block = b.pool.block in
    let idx = class_for_size b.pool.alloc_size in
    let (q, freed, top, same) =
      deallocate-frame block b.pool.alloc_size h.pool xs live fits holds new in
    let next = allocate-frame aligned_alloc new_size idx block q top live in
    resize_from_block_keeps (block_pool layout aligned_alloc)
      (block_bytes-store layout aligned_alloc lawful) new_size b h at live other long
      (rw freed (
        block_bytes-same layout h (record h { pool = q }) block idx class same refl,
        block_bytes-same layout (record h { pool = q })
            (record h { pool = (allocate aligned_alloc new_size q).1 }) block idx class next refl,
      ))
