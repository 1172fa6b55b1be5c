-- ===== src/KernelBuf/Storage/Moves.antt =====
-- The move constructor of `KernelBuf`, and what the destruction of both buffers gives back then.
use async_io.Prelude.{◌≡◌, refl, pos}
use async_io.KernelBuf.{StorageTag, KernelBuf}
use async_io.KernelBuf.Storage.{
  BlockPool, blank, move_construct, move_storage_from, finish_move, destructor, contents,
}
use async_io.KernelBuf.Storage.FromBlock.{destructor-finish_move}

-- All that a move promises.
abbrev Moved : (pool : BlockPool) → KernelBuf → pool.Heap → Type 0
Moved pool b h =
    (contents pool (move_construct b).0 h ≡ contents pool b h)
    × ((move_construct b).0.size ≡ b.size)
    × ((move_construct b).0.offset ≡ b.offset)
    × ((move_construct b).0.io_ret ≡ b.io_ret)
    × ((move_construct b).1.storage_tag ≡ StorageTag.none)
    × ((move_construct b).1.size ≡ 0)
    × ((move_construct b).1.offset ≡ pos 0)
    × (destructor pool (move_construct b).0 (destructor pool (move_construct b).1 h)
        ≡ destructor pool b h)

-- The new buffer before it gets the storage.
abbrev taken : KernelBuf → KernelBuf
taken b = record blank { size = b.size; offset = b.offset; io_ret = b.io_ret }

Moved-with_tag :
    (pool : BlockPool) (tag : StorageTag) (b : KernelBuf) (h : pool.Heap)
    → Moved pool (record b { storage_tag = tag }) h
unfolding move_construct finish_move move_storage_from contents
Moved-with_tag pool StorageTag.none b h = (
  refl,
  refl,
  refl,
  refl,
  refl,
  refl,
  refl,
  destructor-finish_move pool StorageTag.none b (taken b) h,
)
Moved-with_tag pool StorageTag.sbo b h = (
  refl,
  refl,
  refl,
  refl,
  refl,
  refl,
  refl,
  destructor-finish_move pool StorageTag.sbo b (taken b) h,
)
Moved-with_tag pool StorageTag.pool b h = (
  refl,
  refl,
  refl,
  refl,
  refl,
  refl,
  refl,
  destructor-finish_move pool StorageTag.pool b (taken b) h,
)
Moved-with_tag pool StorageTag.heap b h = (
  refl,
  refl,
  refl,
  refl,
  refl,
  refl,
  refl,
  destructor-finish_move pool StorageTag.heap b (taken b) h,
)

-- A move, whatever the storage is, takes bytes, size, offset and result over, and leaves the source
-- without storage, with size and offset 0. The destruction of both buffers then gives back to the pool
-- exactly what the destruction of the source without the move gives back: a block once.
pub move_construct_keeps :
    (pool : BlockPool) (b : KernelBuf) (h : pool.Heap)
    → (contents pool (move_construct b).0 h ≡ contents pool b h)
      × ((move_construct b).0.size ≡ b.size)
      × ((move_construct b).0.offset ≡ b.offset)
      × ((move_construct b).0.io_ret ≡ b.io_ret)
      × ((move_construct b).1.storage_tag ≡ StorageTag.none)
      × ((move_construct b).1.size ≡ 0)
      × ((move_construct b).1.offset ≡ pos 0)
      × (destructor pool (move_construct b).0 (destructor pool (move_construct b).1 h)
          ≡ destructor pool b h)
move_construct_keeps pool b h = Moved-with_tag pool b.storage_tag b h
