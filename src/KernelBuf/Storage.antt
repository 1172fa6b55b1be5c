-- ===== src/KernelBuf/Storage.antt =====
-- Where a `KernelBuf` keeps its bytes: `AllocateStorage`, `DestroyStorage`, `MoveStorageFrom`, `Data`,
-- `Resize`, and the constructors and assignments made of them. A byte is a number.
pub mod Resize
pub mod FromBlock
pub mod Moves
use async_io.Prelude.{
  ℕ, Bool, true, false, not, ◌&&◌, Option, none, some, List, [], ◌++◌, pos, leb, ltb, ◌==◌,
  if◌then◌else◌, take, drop, length, replicate, get_elem?,
}
use async_io.Constants.{kernel_buf_sbo_size, buffer_pool_max_pooled_size}
use async_io.KernelBuf.{StorageTag, PoolStorage, IoRet, KernelBuf}

-- The buffer pool and the memory of its blocks; 0 is the null pointer.
pub record BlockPool : Type 1 where
  pub Heap : Type 0
  pub allocate : ℕ → Heap → ℕ × Heap
  pub deallocate : (block size : ℕ) → Heap → Heap
  pub bytes : Heap → ℕ → List ℕ
  pub store : (block : ℕ) → List ℕ → Heap → Heap

-- Where `Data()` points to. The storage of a vector is gone with the vector.
pub data Pointer : Type 0 where
  in_sbo in_vector : Pointer
  in_block : ℕ → Pointer

unfoldable pub data_pointer : KernelBuf → Option Pointer
data_pointer b = elim b.storage_tag [
  | StorageTag.sbo ↦ some Pointer.in_sbo
  | StorageTag.pool ↦ some (Pointer.in_block b.pool.block)
  | StorageTag.heap ↦ some Pointer.in_vector
  | StorageTag.none ↦ none
]

-- `memcpy` of `source` to the start of `target`.
unfoldable pub overwrite : (source target : List ℕ) → List ℕ
overwrite source target = source ++ drop (length source) target

-- The move of `MoveStorageFrom`: the new owner, and what is left of the old one.
unfoldable pub move_storage_from : (other target : KernelBuf) → KernelBuf × KernelBuf
move_storage_from other target =
    let emptied : KernelBuf = record other { storage_tag = StorageTag.none } in
    elim other.storage_tag [
      | StorageTag.sbo ↦
          (record target { storage_tag = StorageTag.sbo; sbo_data = other.sbo_data }, emptied)
      | StorageTag.pool ↦ (
        record target { storage_tag = StorageTag.pool; pool = other.pool },
        record emptied { pool = record { block = 0; alloc_size = 0 } },
      )
      | StorageTag.heap ↦ (
        record target { storage_tag = StorageTag.heap; heap_vec = other.heap_vec },
        record emptied { heap_vec = [] },
      )
      | StorageTag.none ↦ (record target { storage_tag = StorageTag.none }, emptied)
    ]

abbrev pub blank : KernelBuf
blank = record {
  size = 0;
  offset = pos 0;
  storage_tag = StorageTag.none;
  sbo_data = replicate kernel_buf_sbo_size 0;
  pool = record { block = 0; alloc_size = 0 };
  heap_vec = [];
  io_ret = record { value = pos 0; ret_fd = pos 0 };
}

-- The end of both moves: size and offset of the source are cleared.
unfoldable pub finish_move : KernelBuf × KernelBuf → KernelBuf × KernelBuf
finish_move (target, other) = (target, record other { size = 0; offset = pos 0 })

unfoldable pub move_construct : KernelBuf → KernelBuf × KernelBuf
move_construct other = finish_move (
    move_storage_from other
      (record blank { size = other.size; offset = other.offset; io_ret = other.io_ret }))

module _ (pool : BlockPool) where
  abbrev pub Heap : Type 0
  Heap = pool.Heap

  unfoldable pub heap_storage : ℕ → KernelBuf → KernelBuf
  heap_storage size b = record b {
    size = size;
    storage_tag = StorageTag.heap;
    heap_vec = replicate size 0;
  }

  unfoldable pub pool_storage : ℕ → KernelBuf → ℕ × Heap → KernelBuf × Heap
  pool_storage size b (block, h) = if block == 0 then (heap_storage size b, h) else (
    record b {
      size = size;
      storage_tag = StorageTag.pool;
      pool = record { block = block; alloc_size = size };
    },
    h,
  )

  unfoldable pub allocate_storage : ℕ → KernelBuf → Heap → KernelBuf × Heap
  allocate_storage size b h =
      if leb size kernel_buf_sbo_size
      then (
        record b {
          size = size;
          storage_tag = StorageTag.sbo;
          sbo_data = replicate kernel_buf_sbo_size 0;
        },
        h,
      )
      else if leb size buffer_pool_max_pooled_size
      then pool_storage size b (pool.allocate size h)
      else (heap_storage size b, h)

  unfoldable pub kernel_buf : ℕ → Heap → KernelBuf × Heap
  kernel_buf size h = allocate_storage size (record blank { size = size }) h

  unfoldable pub destroy_storage : KernelBuf → Heap → KernelBuf × Heap
  destroy_storage b h = elim b.storage_tag [
    | StorageTag.sbo ↦ (record b { storage_tag = StorageTag.none }, h)
    | StorageTag.pool ↦
        if b.pool.block == 0 then (record b { storage_tag = StorageTag.none }, h) else (
          record b { storage_tag = StorageTag.none; pool = record { block = 0; alloc_size = 0 } },
          pool.deallocate b.pool.block b.pool.alloc_size h,
        )
    | StorageTag.heap ↦ (record b { storage_tag = StorageTag.none; heap_vec = [] }, h)
    | StorageTag.none ↦ (record b { storage_tag = StorageTag.none }, h)
  ]

  unfoldable pub move_assign : (other target : KernelBuf) → Heap → (KernelBuf × KernelBuf) × Heap
  move_assign other target h =
      let cleared = destroy_storage target h in
      (
        finish_move (
            move_storage_from other (record cleared.0 {
              size = other.size;
              offset = other.offset;
              io_ret = other.io_ret;
            })),
        cleared.1,
      )

  -- What `Data()` shows.
  unfoldable pub contents : KernelBuf → Heap → Option (List ℕ)
  contents b h = elim b.storage_tag [
    | StorageTag.sbo ↦ some b.sbo_data
    | StorageTag.pool ↦ some (pool.bytes h b.pool.block)
    | StorageTag.heap ↦ some b.heap_vec
    | StorageTag.none ↦ none
  ]

  -- `operator[](index)`: the byte there, if there is one.
  unfoldable pub element : ℕ → KernelBuf → Heap → Option ℕ
  element index b h = elim (contents b h) [ none ↦ none | some bytes ↦ get_elem? bytes index ]

  -- `~KernelBuf()`
  unfoldable pub destructor : KernelBuf → Heap → Heap
  unfolding destroy_storage
  destructor b h = (destroy_storage b h).1

  unfoldable pub write_data : List ℕ → KernelBuf → Heap → KernelBuf × Heap
  write_data source b h = elim b.storage_tag [
    | StorageTag.sbo ↦ (record b { sbo_data = overwrite source b.sbo_data }, h)
    | StorageTag.pool ↦
        (b, pool.store b.pool.block (overwrite source (pool.bytes h b.pool.block)) h)
    | StorageTag.heap ↦ (record b { heap_vec = overwrite source b.heap_vec }, h)
    | StorageTag.none ↦ (b, h)
  ]

  -- The `memcpy` of `Resize`, from a pointer that was taken before the storage was destroyed: the
  -- inline bytes and the block are read as they are now, the vector is gone.
  unfoldable pub copy_old : ℕ → Pointer → KernelBuf → Heap → Option (KernelBuf × Heap)
  copy_old n Pointer.in_sbo b h = some (write_data (take n b.sbo_data) b h)
  copy_old n (Pointer.in_block block) b h = some (write_data (take n (pool.bytes h block)) b h)
  copy_old n Pointer.in_vector b h = none

  -- The part of `Resize` behind `AllocateStorage`.
  unfoldable pub finish_resize :
      (copy_size : ℕ) → Option Pointer → KernelBuf × Heap → Option (KernelBuf × Heap)
  finish_resize n none (b, h) = some (b, h)
  finish_resize n (some old) (b, h) = if n == 0 then some (b, h) else copy_old n old b h

  is_none : StorageTag → Bool
  is_none StorageTag.none = true
  is_none _ = false

  -- `none` is a read of freed memory.
  unfoldable pub resize : ℕ → KernelBuf → Heap → Option (KernelBuf × Heap)
  unfolding is_none
  resize new_size b h =
      if (new_size == b.size) && not (is_none b.storage_tag)
      then some (b, h)
      else let copy_size = if ltb new_size b.size then new_size else b.size in
        let cleared = destroy_storage b h in
        finish_resize copy_size (data_pointer b) (allocate_storage new_size cleared.0 cleared.1)
