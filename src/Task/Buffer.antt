-- ===== src/Task/Buffer.antt =====
-- The methods of `AsyncTask` that read it or replace its buffer, and the memory that tasks live in
-- (include/talon/async_io_task.hpp).
use async_io.Prelude.{Bool, Option, none, some, ℤ, ◌==◌, if◌then◌else◌, take}
use async_io.Constants.{TaskType, TaskState, default_buffer_size}
use async_io.Result.{Message}
use async_io.KernelBuf.{KernelBuf}
use async_io.KernelBuf.Storage.{BlockPool, contents, kernel_buf, destructor, write_data, resize}
use async_io.Task.{Ptr, AsyncTask, async_task, set_next_task}

unfoldable pub state : AsyncTask → TaskState
state t = t.task_state

unfoldable pub type_of : AsyncTask → TaskType
type_of t = t.task_type

unfoldable pub fd_of : AsyncTask → ℤ
fd_of t = t.fd

unfoldable pub buffer_of : AsyncTask → Option KernelBuf
buffer_of t = t.buffer

unfoldable pub repeats_forever : AsyncTask → Bool
repeats_forever t = t.repeat_forever

unfoldable pub debug_string : AsyncTask → Message
debug_string t = t.debug_str

unfoldable pub next_task : AsyncTask → Option Ptr
next_task t = t.next

unfoldable pub set_repeat_when_failed : Bool → AsyncTask → AsyncTask
set_repeat_when_failed v t = record t { repeat_when_failed = v }

-- `next_.release()`: the chained task, and the task without it.
unfoldable pub release_next_task : AsyncTask → Option Ptr × AsyncTask
release_next_task t = (t.next, set_next_task none t)

module _ (pool : BlockPool) where
  open pool use {Heap}

  -- The destructor of the buffer that a `KernelBufPtr` owns.
  unfoldable pub destroy_buffer : Option KernelBuf → Heap → Heap
  destroy_buffer none h = h
  destroy_buffer (some b) h = destructor pool b h

  -- `SetBuffer(buf)`
  unfoldable pub set_buffer : Option KernelBuf → AsyncTask → Heap → AsyncTask × Heap
  set_buffer buf t h = (record t { buffer = buf }, destroy_buffer t.buffer h)

  -- `ResetBuffer()`. `none` is a read of freed memory.
  unfoldable pub reset_buffer : AsyncTask → Heap → Option (AsyncTask × Heap)
  reset_buffer t h = elim t.buffer [
    | none ↦ some (t, h)
    | some b ↦ elim (resize pool 0 b h) [
      | none ↦ none
      | some (b', h') ↦ some (record t { buffer = some b' }, h')
    ]
  ]

  -- The `memcpy` of `DeepCopyBufferFrom`: a null pointer is read only if there is something to copy.
  unfoldable pub copy_from : (src new : KernelBuf) → Heap → Option (KernelBuf × Heap)
  copy_from src new h = if src.size == 0 then some (new, h) else elim (contents pool src h) [
    | none ↦ none
    | some bytes ↦ some (write_data pool (take src.size bytes) new h)
  ]

  -- `DeepCopyBufferFrom(src)`, of a buffer that is not the task's own: that one ends before the copy.
  unfoldable pub deep_copy_buffer_from : KernelBuf → AsyncTask → Heap → Option (AsyncTask × Heap)
  deep_copy_buffer_from src t h =
      let made = kernel_buf pool src.size h in
      elim (copy_from src made.0 (destroy_buffer t.buffer made.1)) [
        | none ↦ none
        | some (b, h') ↦ some (record t { buffer = some b }, h')
      ]

  -- The constructor with `MakeKernelBuffer(kDefaultBufferSize)`.
  unfoldable pub make_task : ℤ → Heap → AsyncTask × Heap
  make_task fd h =
      let made = kernel_buf pool default_buffer_size h in (async_task fd made.0, made.1)
