-- ===== src/Tcp/Connecting.antt =====
-- The task that `TcpClient::Connect` hands out.
use async_io.Prelude.{ℕ, ◌≡◌, ◌≢◌, refl, ap, some, List, [], ◌∷◌, ◌++◌, drop, take, length, arith}
use async_io.Constants.{AsyncIoConfig, TaskType}
use async_io.KernelBuf.{KernelBuf, StorageTag}
use async_io.KernelBuf.Storage.{BlockPool, write_data, contents, overwrite}
use async_io.KernelBuf.Storage.Resize.{brought_inline, resize-brought_inline}
use async_io.Task.{AsyncTask, set_task_type, set_timeout}
use async_io.Handler.World.{SockaddrIn}
use async_io.Handler.Submit.{sizeof_sockaddr_in}
use async_io.Tcp.{Sockets}
use async_io.Tcp.Client.{write_address, finalize_connect_task}

take-append : (xs ys : List ℕ) → take (length xs) (xs ++ ys) ≡ xs
take-append [] ys = refl
take-append (x ∷ xs) ys = ap (λ zs. x ∷ zs) (take-append xs ys)

-- `FinalizeConnectTask` of a task with a buffer in a block of the pool, of another size than 16: it
-- always returns, and makes the task a connect task with the timeout of the configuration, whose
-- buffer has size 16 and starts with the address. Nothing else of the task changes.
pub finalize_connect_task_lem :
    (os : Sockets) (config : AsyncIoConfig) (pool : BlockPool) (layout : SockaddrIn → List ℕ)
    (task : AsyncTask) (b : KernelBuf) (addr : SockaddrIn) (h : pool.Heap)
    → task.buffer ≡ some b
    → b.storage_tag ≡ StorageTag.pool
    → b.pool.block ≢ 0
    → sizeof_sockaddr_in ≢ b.size
    → (c : KernelBuf) × (g : pool.Heap) × (shown : List ℕ) × (finalize_connect_task os config pool
          layout task addr h
        ≡ some (
          record task {
            task_type = TaskType.connect;
            timeout_ms = config.connect_timeout_ms;
            buffer = some c;
          },
          g,
        ))
      × (contents pool c g ≡ some shown)
      × (take (length (layout addr)) shown ≡ layout addr)
      × (c.size ≡ sizeof_sockaddr_in)
unfolding finalize_connect_task write_address write_data overwrite contents set_task_type
    set_timeout
finalize_connect_task_lem os config pool layout task b addr h buffered at live other =
    let resized = resize-brought_inline pool sizeof_sockaddr_in b h at live other (omega arith) in
    let typed : AsyncTask =
      set_timeout config.connect_timeout_ms
        (set_task_type TaskType.connect (record task { buffer = some b })) in
    let g : pool.Heap = pool.deallocate b.pool.block b.pool.alloc_size h in
    let shown : List ℕ = layout addr ++ drop (length (layout addr)) resized.0 in
    (
      brought_inline sizeof_sockaddr_in shown b,
      g,
      shown,
      rw buffered (ap (λ r. write_address os config pool layout typed addr r) resized.1),
      refl,
      take-append (layout addr) (drop (length (layout addr)) resized.0),
      refl,
    )
