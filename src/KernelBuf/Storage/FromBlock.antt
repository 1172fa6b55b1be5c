-- ===== src/KernelBuf/Storage/FromBlock.antt =====
-- `Resize` of a buffer whose bytes are in a block of the pool, and the blocks that moves give back.
use async_io.Prelude.{
  ℕ, ◌≡◌, ◌≢◌, ◌≤◌, refl, ap, ◌∙◌, some, none, List, inl, inr, Bool-cases, ◌==◌, ==_of_ne, leb,
  take, length, arith,
}
use async_io.Constants.{kernel_buf_sbo_size, buffer_pool_max_pooled_size}
use async_io.KernelBuf.{StorageTag, KernelBuf}
use async_io.KernelBuf.Storage.{
  BlockPool, Pointer, data_pointer, overwrite, move_assign, move_storage_from, finish_move,
  heap_storage, allocate_storage, pool_storage, destroy_storage, destructor, contents, write_data,
  copy_old, finish_resize, resize,
}
use async_io.KernelBuf.Storage.Resize.{copied, resize-eq, take-overwrite}

-- The bytes are somewhere.
abbrev Stores : StorageTag → Type 0
Stores StorageTag.none = ⊥
Stores _ = Unit

module _ (pool : BlockPool)
    (reads : (block : ℕ) (xs : List ℕ) (g : pool.Heap)
      → pool.bytes (pool.store block xs g) block ≡ xs) where
  allocate_storage-Stores :
      (size : ℕ) (b : KernelBuf) (h : pool.Heap) (block : ℕ)
      → pool.bytes (pool.allocate size h).1 block ≡ pool.bytes h block
      → let r = allocate_storage pool size b h in
        Stores r.0.storage_tag × (r.0.size ≡ size) × (pool.bytes r.1 block ≡ pool.bytes h block)
  unfolding allocate_storage pool_storage heap_storage
  allocate_storage-Stores size b h block keeps = elim (Bool-cases (leb size kernel_buf_sbo_size)) [
    | inl small ↦ rw small (tt, refl, refl)
    | inr large ↦ elim (Bool-cases (leb size buffer_pool_max_pooled_size)) [
      | inr huge ↦ rw large (rw huge (tt, refl, refl))
      | inl fits ↦ elim (Bool-cases ((pool.allocate size h).0 == 0)) [
        | inl failed ↦ rw large (rw fits (rw failed (tt, refl, keeps)))
        | inr got ↦ rw large (rw fits (rw got (tt, refl, keeps)))
      ]
    ]
  ]

  -- What is shown after a copy to the start.
  abbrev Copied : List ℕ → KernelBuf → pool.Heap → Type 0
  Copied xs b h =
      (c : KernelBuf) × (g : pool.Heap) × (old : List ℕ) × (write_data pool xs b h ≡ (c, g))
      × (contents pool c g ≡ some (overwrite xs old))
      × (c.size ≡ b.size)

  write_data-Copied :
      (tag : StorageTag) (xs : List ℕ) (b : KernelBuf) (h : pool.Heap)
      → Stores tag
      → Copied xs (record b { storage_tag = tag }) h
  unfolding write_data contents
  write_data-Copied StorageTag.none xs b h s = absurd s
  write_data-Copied StorageTag.sbo xs b h s = (_, h, b.sbo_data, refl, refl, refl)
  write_data-Copied StorageTag.heap xs b h s = (_, h, b.heap_vec, refl, refl, refl)
  write_data-Copied StorageTag.pool xs b h s =
      let old = pool.bytes h b.pool.block in
      (_, _, old, refl, ap some (reads b.pool.block (overwrite xs old) h), refl)

  -- Bytes that are somewhere are shown.
  shown_somewhere :
      (tag : StorageTag) (b : KernelBuf) (h : pool.Heap)
      → Stores tag
      → (shown : List ℕ) × (contents pool (record b { storage_tag = tag }) h ≡ some shown)
  unfolding contents
  shown_somewhere StorageTag.none b h s = absurd s
  shown_somewhere StorageTag.sbo b h s = (b.sbo_data, refl)
  shown_somewhere StorageTag.heap b h s = (b.heap_vec, refl)
  shown_somewhere StorageTag.pool b h s = (pool.bytes h b.pool.block, refl)

  finish_resize-keeps :
      (n block : ℕ) (b : KernelBuf) (h : pool.Heap)
      → Stores b.storage_tag
      → n ≤ length (pool.bytes h block)
      → (c : KernelBuf) × (g : pool.Heap) × (shown : List ℕ) × (finish_resize pool n
            (some (Pointer.in_block block))
            (b, h)
          ≡ some (c, g))
        × (contents pool c g ≡ some shown)
        × (take n shown ≡ take n (pool.bytes h block))
        × (c.size ≡ b.size)
  unfolding finish_resize copy_old
  finish_resize-keeps n block b h s long = elim (Bool-cases (n == 0)) [
    | inl nothing ↦
        let (shown, is) = shown_somewhere b.storage_tag b h s in
        let zero : n ≡ 0 = ground arith in (b, h, shown, rw nothing refl, is, rw zero refl, refl)
    | inr something ↦
        let (c, g, old, run, is, size) =
          write_data-Copied b.storage_tag (take n (pool.bytes h block)) b h s in
        (
          c,
          g,
          overwrite (take n (pool.bytes h block)) old,
          rw something (ap some run),
          is,
          take-overwrite n (pool.bytes h block) old long,
          size,
        )
  ]

  -- A `Resize` of a buffer whose bytes are in a block of the pool keeps the bytes up to the smaller of
  -- the two sizes, whatever the new size is: inline, a block of the pool, or a vector. What is written
  -- into a block is read from it, and neither the return of the block nor an `Allocate` right after it
  -- overwrites the bytes of the block.
  pub resize_from_block_keeps :
      (new_size : ℕ) (b : KernelBuf) (h : pool.Heap)
      → b.storage_tag ≡ StorageTag.pool
      → b.pool.block ≢ 0
      → new_size ≢ b.size
      → copied new_size b.size ≤ length (pool.bytes h b.pool.block)
      → (let freed = pool.deallocate b.pool.block b.pool.alloc_size h in
          (pool.bytes freed b.pool.block ≡ pool.bytes h b.pool.block)
          × (pool.bytes (pool.allocate new_size freed).1 b.pool.block
              ≡ pool.bytes freed b.pool.block))
      → (c : KernelBuf) × (g : pool.Heap) × (shown : List ℕ) × (resize pool new_size b h
          ≡ some (c, g))
        × (contents pool c g ≡ some shown)
        × (take (copied new_size b.size) shown
            ≡ take (copied new_size b.size) (pool.bytes h b.pool.block))
        × (c.size ≡ new_size)
  unfolding data_pointer destroy_storage
  resize_from_block_keeps new_size b h at live other long stays =
      let block = b.pool.block in
      let n = copied new_size b.size in
      let cleared : KernelBuf = record b {
        storage_tag = StorageTag.none;
        pool = record { block = 0; alloc_size = 0 };
      } in
      let freed = pool.deallocate block b.pool.alloc_size h in
      let r = allocate_storage pool new_size cleared freed in
      let (s, size, same) = allocate_storage-Stores new_size cleared freed block stays.1 in
      let kept : pool.bytes r.1 block ≡ pool.bytes h block = same ∙ stays.0 in
      let (c, g, shown, run, is, prefix, sized) =
        finish_resize-keeps n block r.0 r.1 s (rw kept long) in
      (
        c,
        g,
        shown,
        resize-eq pool new_size b h other ∙ rw at (rw (==_of_ne block 0 live) run),
        is,
        prefix ∙ rw kept refl,
        sized ∙ size,
      )

module _ (pool : BlockPool) where
  pub destructor-finish_move :
      (tag : StorageTag) (other target : KernelBuf) (h : pool.Heap)
      → let moved = finish_move (move_storage_from (record other { storage_tag = tag }) target) in
        destructor pool moved.0 (destructor pool moved.1 h)
        ≡ destructor pool (record other { storage_tag = tag }) h
  unfolding destructor destroy_storage finish_move move_storage_from
  destructor-finish_move StorageTag.none other target h = refl
  destructor-finish_move StorageTag.sbo other target h = refl
  destructor-finish_move StorageTag.heap other target h = refl
  destructor-finish_move StorageTag.pool other target h =
      elim (Bool-cases (other.pool.block == 0)) [
        | inl empty ↦ ground (arith, empty)
        | inr there ↦ ground (arith, there)
      ]

  contents-finish_move :
      (tag : StorageTag) (other target : KernelBuf) (h : pool.Heap)
      → let moved = finish_move (move_storage_from (record other { storage_tag = tag }) target) in
        (contents pool moved.0 h ≡ contents pool (record other { storage_tag = tag }) h)
        × (moved.0.size ≡ target.size)
        × (contents pool moved.1 h ≡ none)
        × (moved.1.size ≡ 0)
  unfolding finish_move move_storage_from contents
  contents-finish_move StorageTag.none other target h = (refl, refl, refl, refl)
  contents-finish_move StorageTag.sbo other target h = (refl, refl, refl, refl)
  contents-finish_move StorageTag.heap other target h = (refl, refl, refl, refl)
  contents-finish_move StorageTag.pool other target h = (refl, refl, refl, refl)

  -- A move assignment to another buffer: what the target shows then is what the source would have
  -- shown after the target's old storage was given back, its size is the source's, and the source is
  -- empty and without storage. The destruction of both then gives back to the pool exactly what
  -- destroying the two buffers without the assignment gives back: each block once.
  pub move_assign_releases_once :
      (other target : KernelBuf) (h : pool.Heap)
      → let moved = move_assign pool other target h in
        (contents pool moved.0.0 moved.1 ≡ contents pool other moved.1)
        × (moved.0.0.size ≡ other.size)
        × (contents pool moved.0.1 moved.1 ≡ none)
        × (moved.0.1.size ≡ 0)
        × (destructor pool moved.0.0 (destructor pool moved.0.1 moved.1)
            ≡ destructor pool other (destructor pool target h))
  unfolding move_assign destructor
  move_assign_releases_once other target h =
      let cleared = destroy_storage pool target h in
      let ready : KernelBuf = record cleared.0 {
        size = other.size;
        offset = other.offset;
        io_ret = other.io_ret;
      } in
      let (shown, size, gone, zero) =
        contents-finish_move other.storage_tag other ready cleared.1 in
      (shown, size, gone, zero, destructor-finish_move other.storage_tag other ready cleared.1)
