-- ===== src/Tests/Buffers.antt =====
-- Buffers that change their storage.
use async_io.Prelude.{
  ℕ, ◌+◌, ◌*◌, ◌≡◌, ◌≢◌, refl, List, [], ◌∷◌, none, some, pos, arith, ◌==◌, if◌then◌else◌, take,
  replicate,
}
use async_io.Constants.{kernel_buf_sbo_size}
use async_io.KernelBuf.{StorageTag, KernelBuf}
use async_io.Pool.FreeList.{Shelf}
use async_io.Pool.FreeList.Return.{Holds}
use async_io.Pool.BufferPool.{class_for_size, first_fit, buffer_pool}
use async_io.KernelBuf.Pooled.{
  PooledHeap, Layout, IsLayout, block_pool, resize_into_pool_keeps, resize_from_pool_keeps,
}
use async_io.KernelBuf.Storage.{
  BlockPool, blank, contents, resize, move_construct, move_assign, destructor,
}
use async_io.KernelBuf.Storage.FromBlock.{move_assign_releases_once}
use async_io.KernelBuf.Storage.Resize.{
  resize_inline_wipes, resize_heap_faults, resize_to_pool_keeps,
}
use async_io.KernelBuf.Storage.Moves.{move_construct_keeps}

-- A pool that always gives block 7.
abbrev pub one_block : BlockPool
one_block = record {
  Heap = ℕ → List ℕ;
  allocate = λ size h. (7, h);
  deallocate = λ block size h. h;
  bytes = λ h block. h block;
  store = λ block xs h other. if other == block then xs else h other;
}

abbrev pub no_bytes : ℕ → List ℕ
no_bytes block = []

-- The three bytes 65, 66, 67, inline and in a vector.
abbrev inline_abc : KernelBuf
inline_abc = record blank {
  size = 3;
  storage_tag = StorageTag.sbo;
  sbo_data = 65 ∷ 66 ∷ 67 ∷ replicate 253 0;
}

abbrev heap_abc : KernelBuf
heap_abc = record blank { size = 3; storage_tag = StorageTag.heap; heap_vec = 65 ∷ 66 ∷ 67 ∷ [] }

resize_inline_wipes_example :
    (c : KernelBuf) × (resize one_block 4 inline_abc no_bytes ≡ some (c, no_bytes))
    × (contents one_block c no_bytes ≡ some (replicate kernel_buf_sbo_size 0))
    × (c.size ≡ 4)
resize_inline_wipes_example =
    resize_inline_wipes one_block 4 inline_abc no_bytes refl (omega arith) (omega arith)

heap_resize_faults : resize one_block 4096 heap_abc no_bytes ≡ none
heap_resize_faults =
    resize_heap_faults one_block 4096 heap_abc no_bytes refl (omega arith) (omega arith)
      (omega arith)

resize_to_one_block :
    (c : KernelBuf) × (g : ℕ → List ℕ) × (shown : List ℕ) × (resize one_block 4096 inline_abc
        no_bytes
      ≡ some (c, g))
    × (c.storage_tag ≡ StorageTag.pool)
    × (c.pool ≡ record { block = 7; alloc_size = 4096 })
    × (contents one_block c g ≡ some shown)
    × (take 3 shown ≡ 65 ∷ 66 ∷ 67 ∷ [])
    × (c.size ≡ 4096)
resize_to_one_block =
    resize_to_pool_keeps one_block 4096 inline_abc no_bytes (λ block xs g. ground arith) refl
      (omega arith) (omega arith) (omega arith) (omega arith) (omega arith)

-- Lists whose head is the word at the start; block 7 is of the class of 512 bytes.
abbrev layout : Layout
layout = record {
  first_word = λ xs. elim xs [ [] ↦ 0 | x ∷ rest ↦ x ];
  with_word = λ n xs. elim xs [ [] ↦ [] | x ∷ rest ↦ n ∷ rest ];
  class_of = λ block. 3;
}

layout-IsLayout : IsLayout layout
layout-IsLayout [] = refl
layout-IsLayout (x ∷ rest) = refl

-- The buffer pool at its start, and a system that always has memory.
abbrev system : ℕ → ℕ → ℕ
system i n = 4096 * (i + 1)

abbrev first_heap : PooledHeap
first_heap = record {
  pool = buffer_pool (λ idx. record { nodes = λ i. 0; count = 0 });
  memory = no_bytes;
}

resize_into_pool_keeps_example :
    (c : KernelBuf) × (g : PooledHeap) × (shown : List ℕ) × (resize
        (block_pool layout system)
        4096
        inline_abc
        first_heap
      ≡ some (c, g))
    × (c.storage_tag ≡ StorageTag.pool)
    × (c.pool.block ≢ 0)
    × (c.pool.alloc_size ≡ 4096)
    × (contents (block_pool layout system) c g ≡ some shown)
    × (take 3 shown ≡ 65 ∷ 66 ∷ 67 ∷ [])
    × (c.size ≡ 4096)
resize_into_pool_keeps_example =
    resize_into_pool_keeps system (λ i n. omega arith) layout layout-IsLayout 4096 inline_abc
      first_heap refl (omega arith) (omega arith) (omega arith) (omega arith)

move_construct_keeps_example :
    (contents one_block (move_construct inline_abc).0 no_bytes
      ≡ contents one_block inline_abc no_bytes)
    × ((move_construct inline_abc).0.size ≡ 3)
    × ((move_construct inline_abc).0.offset ≡ pos 0)
    × ((move_construct inline_abc).0.io_ret ≡ inline_abc.io_ret)
    × ((move_construct inline_abc).1.storage_tag ≡ StorageTag.none)
    × ((move_construct inline_abc).1.size ≡ 0)
    × ((move_construct inline_abc).1.offset ≡ pos 0)
    × (destructor one_block
          (move_construct inline_abc).0
          (destructor one_block (move_construct inline_abc).1 no_bytes)
        ≡ destructor one_block inline_abc no_bytes)
move_construct_keeps_example = move_construct_keeps one_block inline_abc no_bytes

-- 300 bytes in block 7 of the buffer pool.
abbrev in_block_7 : KernelBuf
in_block_7 = record blank {
  size = 300;
  storage_tag = StorageTag.pool;
  pool = record { block = 7; alloc_size = 300 };
}

-- Its word is 7 too; the cache of its class is full, with the blocks 101 to 116.
abbrev full_class : Shelf
full_class = record {
  stack = record { next = λ n. if n == 7 then 7 else 0; head = 0 };
  cache = record { nodes = λ i. 101 + i; count = 16 };
}

abbrev filled_heap : PooledHeap
filled_heap = record {
  pool = record (buffer_pool (λ idx. full_class.cache)) { shelves = λ idx. full_class };
  memory = λ block. replicate 512 block;
}

full_class-Holds : Holds 16 full_class []
full_class-Holds = record {
  chain = refl;
  once = λ x. ground arith;
  nonnull = refl;
  room = omega arith;
}

resize_from_pool_keeps_example :
    (c : KernelBuf) × (g : PooledHeap) × (shown : List ℕ) × (resize
        (block_pool layout system)
        1000
        in_block_7
        filled_heap
      ≡ some (c, g))
    × (contents (block_pool layout system) c g ≡ some shown)
    × (take 300 shown ≡ take 300 (replicate 512 7))
    × (c.size ≡ 1000)
unfolding class_for_size first_fit
resize_from_pool_keeps_example =
    resize_from_pool_keeps layout layout-IsLayout system 1000 in_block_7 filled_heap [] refl
      (omega arith) (omega arith) refl full_class-Holds refl (omega arith) (omega arith)

-- The bytes of block 7 move to a buffer that had three bytes inline.
move_assign_releases_once_example :
    let moved = move_assign one_block in_block_7 inline_abc no_bytes in
    (contents one_block moved.0.0 moved.1 ≡ contents one_block in_block_7 moved.1)
    × (moved.0.0.size ≡ 300)
    × (contents one_block moved.0.1 moved.1 ≡ none)
    × (moved.0.1.size ≡ 0)
    × (destructor one_block moved.0.0 (destructor one_block moved.0.1 moved.1)
        ≡ destructor one_block in_block_7 (destructor one_block inline_abc no_bytes))
move_assign_releases_once_example =
    move_assign_releases_once one_block in_block_7 inline_abc no_bytes
