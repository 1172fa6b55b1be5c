-- ===== src/Tests/Sockets.antt =====
-- Calls of `TcpServer` and `TcpClient`.
use async_io.Prelude.{
  ℕ, List, take, replicate, some, arith, ◌%◌, ◌/◌, ℤ, pos, negsuc, ◌≡◌, refl, none, [], ◌∷◌, ltb_ℤ,
  if◌then◌else◌,
}
use async_io.Constants.{TaskType, default_config}
use async_io.KernelBuf.{KernelBuf, StorageTag}
use async_io.KernelBuf.Storage.{contents, blank}
use async_io.Task.{AsyncTask, async_task}
use async_io.Handler.World.{SockaddrIn}
use async_io.Tcp.Connecting.{finalize_connect_task_lem}
use async_io.Tests.Buffers.{one_block, no_bytes}
use async_io.Tcp.{Sockets, open_fds}
use async_io.Tcp.Server.{TcpServer, tcp_server, start, init, init_bind, init_listen}
use async_io.Tcp.Client.{finalize_connect_task, tcp_client, prepare_socket}
use async_io.Tcp.Descriptors.{
  Settled, start-Settled, start_again_leaks, prepare_socket_leaks_nothing,
}

-- Descriptor 3 first, then 4; `bind` answers `result`; no name is an address.
abbrev system : ℤ → Sockets
system result = record {
  socket = λ calls. elim calls [ [] ↦ pos 3 | _ ∷ _ ↦ pos 4 ];
  bind = λ calls. result;
  listen = λ calls. pos 0;
  errno = λ calls. pos 98;
  htons = λ port. 36895;
  inet_pton = λ ip. none;
}

abbrev fresh : TcpServer
fresh = tcp_server []

start-Settled_example :
    Settled [] (start (system (negsuc 0)) (default_config (pos 4096)) (pos 8080) fresh)
unfolding tcp_server open_fds
start-Settled_example =
    start-Settled (system (negsuc 0)) (default_config (pos 4096)) (pos 8080) fresh refl

second_start_leaks :
    let first = (start (system (pos 0)) (default_config (pos 4096)) (pos 8080) fresh).1 in
    let second = (start (system (pos 0)) (default_config (pos 4096)) (pos 8080) first).1 in
    open_fds second.calls ≡ second.listen_fd ∷ first.listen_fd ∷ open_fds fresh.calls
unfolding tcp_server start init init_bind init_listen open_fds
second_start_leaks =
    start_again_leaks (system (pos 0)) (default_config (pos 4096)) (pos 8080) fresh refl refl refl
      refl

prepare_socket_leaks_nothing_example :
    let prepared = prepare_socket (system (pos 0)) "nowhere" (pos 80) (tcp_client []) in
    if ltb_ℤ prepared.0 (pos 0)
    then open_fds prepared.2.calls ≡ []
    else open_fds prepared.2.calls ≡ prepared.0 ∷ []
unfolding tcp_client open_fds
prepare_socket_leaks_nothing_example =
    prepare_socket_leaks_nothing (system (pos 0)) "nowhere" (pos 80) (tcp_client []) refl

abbrev buffer_of_2048 : KernelBuf
buffer_of_2048 = record blank {
  size = 2048;
  storage_tag = StorageTag.pool;
  pool = record { block = 7; alloc_size = 2048 };
}

abbrev localhost : SockaddrIn
localhost = record { sin_family = 2; sin_port = 36895; sin_addr = 16777343 }

-- Family, port and address in two, two and four bytes, and eight bytes of padding.
abbrev address_bytes : SockaddrIn → List ℕ
address_bytes a =
    a.sin_family % 256
    ∷ a.sin_family / 256
    ∷ a.sin_port % 256
    ∷ a.sin_port / 256
    ∷ a.sin_addr % 256
    ∷ a.sin_addr / 256 % 256
    ∷ a.sin_addr / 65536 % 256
    ∷ a.sin_addr / 16777216
    ∷ replicate 8 0

-- A new task for descriptor 3, its 2048 bytes in block 7.
abbrev task_of_3 : AsyncTask
task_of_3 = async_task (pos 3) buffer_of_2048

finalize_connect_task_example :
    (c : KernelBuf) × (g : ℕ → List ℕ) × (shown : List ℕ) × (finalize_connect_task
        (system (pos 0))
        (default_config (pos 4096))
        one_block
        address_bytes
        task_of_3
        localhost
        no_bytes
      ≡ some (
        record task_of_3 { task_type = TaskType.connect; timeout_ms = pos 5000; buffer = some c },
        g,
      ))
    × (contents one_block c g ≡ some shown)
    × (take 16 shown ≡ address_bytes localhost)
    × (c.size ≡ 16)
unfolding async_task
finalize_connect_task_example =
    finalize_connect_task_lem (system (pos 0)) (default_config (pos 4096)) one_block address_bytes
      task_of_3 buffer_of_2048 localhost no_bytes refl refl (omega arith) (omega arith)
