-- ===== src/KernelBuf.antt =====
-- include/talon/async_io_kernelbuf.hpp: the buffer of a task.
pub mod Storage
pub mod Pooled
use async_io.Prelude.{ℕ, ℤ, List}

pub data StorageTag : Type 0 where
  none sbo pool heap : StorageTag

-- The anonymous struct of `pool_`; block 0 is the null pointer.
pub record PoolStorage : Type 0 where
  pub block : ℕ
  pub alloc_size : ℕ

pub record IoRet : Type 0 where
  pub value : ℤ
  pub ret_fd : ℤ

pub record KernelBuf : Type 0 where
  pub size : ℕ
  pub offset : ℤ
  pub storage_tag : StorageTag
  pub sbo_data : List ℕ
  pub pool : PoolStorage
  pub heap_vec : List ℕ
  pub io_ret : IoRet

abbrev pub set_fd_offset : ℤ → KernelBuf → KernelBuf
set_fd_offset off b = record b { offset = off }

abbrev pub bytes_transferred : KernelBuf → ℤ
bytes_transferred b = b.io_ret.value

abbrev pub active_file_descriptor : KernelBuf → ℤ
active_file_descriptor b = b.io_ret.ret_fd

abbrev pub set_bytes_transferred : ℤ → KernelBuf → KernelBuf
set_bytes_transferred ret b = record b { io_ret = record { value = ret; ret_fd = b.io_ret.ret_fd } }

abbrev pub set_active_file_descriptor : ℤ → KernelBuf → KernelBuf
set_active_file_descriptor fd b = record b {
  io_ret = record { value = b.io_ret.value; ret_fd = fd };
}
