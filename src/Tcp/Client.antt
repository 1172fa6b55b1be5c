-- ===== src/Tcp/Client.antt =====
-- `TcpClient`.
use async_io.Prelude.{
  ℕ, ℤ, pos, negsuc, String, Option, none, some, List, ◌∷◌, ltb_ℤ, if◌then◌else◌,
}
use async_io.Constants.{AsyncIoConfig, TaskType}
use async_io.KernelBuf.{KernelBuf}
use async_io.KernelBuf.Storage.{BlockPool, resize, write_data}
use async_io.Task.{AsyncTask, set_task_type, set_timeout}
use async_io.Handler.World.{SockaddrIn}
use async_io.Handler.Submit.{af_inet, sizeof_sockaddr_in}
use async_io.Tcp.{SocketCall, opened, closed, LastError, call_failed, bad_address, nothing, Sockets}

pub record TcpClient : Type 0 where
  pub last_error : LastError
  pub calls : List SocketCall

unfoldable pub tcp_client : List SocketCall → TcpClient
tcp_client calls = record { last_error = nothing; calls = calls }

abbrev pub no_address : SockaddrIn
no_address = record { sin_family = 0; sin_port = 0; sin_addr = 0 }

-- The descriptor that goes to `out_fd`, the address, and the client.
unfoldable pub prepare_socket : Sockets → String → ℤ → TcpClient → ℤ × SockaddrIn × TcpClient
prepare_socket os ip port c =
    let fd = os.socket c.calls in
    let d : TcpClient = record c { calls = opened fd ∷ c.calls } in
    if ltb_ℤ fd (pos 0)
    then (negsuc 0, no_address, record d { last_error = call_failed "socket" (os.errno d.calls) })
    else elim (os.inet_pton ip) [
      | none ↦ (
        negsuc 0,
        record { sin_family = af_inet; sin_port = os.htons port; sin_addr = 0 },
        record d { last_error = bad_address ip; calls = closed fd ∷ d.calls },
      )
      | some addr ↦
          (fd, record { sin_family = af_inet; sin_port = os.htons port; sin_addr = addr }, d)
    ]

module _ (os : Sockets) (config : AsyncIoConfig) (pool : BlockPool)
    (layout : SockaddrIn → List ℕ) where
  -- The `memcpy` of the address, behind `Resize`.
  unfoldable pub write_address :
      AsyncTask → SockaddrIn → Option (KernelBuf × pool.Heap) → Option (AsyncTask × pool.Heap)
  write_address t addr none = none
  write_address t addr (some (b, h)) =
      let written = write_data pool (layout addr) b h in
      some (record t { buffer = some written.0 }, written.1)

  -- `none` is a fault: the buffer is null, or `Resize` reads freed memory.
  unfoldable pub finalize_connect_task :
      AsyncTask → SockaddrIn → pool.Heap → Option (AsyncTask × pool.Heap)
  finalize_connect_task task addr h =
      let t = set_timeout config.connect_timeout_ms (set_task_type TaskType.connect task) in
      elim t.buffer [
        | none ↦ none
        | some b ↦ write_address t addr (resize pool sizeof_sockaddr_in b h)
      ]

  -- `Connect`; `create` is `CreateTaskWithHandler` with the handler. The inner `none` is `nullptr`.
  unfoldable pub connect :
      (create : ℤ → AsyncTask)
      → String
      → ℤ
      → TcpClient
      → pool.Heap
      → Option (Option AsyncTask × TcpClient × pool.Heap)
  connect create ip port c h =
      let prepared = prepare_socket os ip port c in
      if ltb_ℤ prepared.0 (pos 0)
      then some (none, prepared.2, h)
      else elim (finalize_connect_task (create prepared.0) prepared.1 h) [
        | none ↦ none
        | some (task, g) ↦ some (some task, prepared.2, g)
      ]
