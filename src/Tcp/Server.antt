-- ===== src/Tcp/Server.antt =====
-- `TcpServer`.
use async_io.Prelude.{ℤ, pos, negsuc, Bool, true, false, List, ◌∷◌, ltb_ℤ, if◌then◌else◌}
use async_io.Constants.{AsyncIoConfig, TaskType}
use async_io.Task.{AsyncTask, set_task_type, set_repeat_forever}
use async_io.Tcp.{
  SocketCall, opened, closed, reuse_address, bound, listened, LastError, call_failed, nothing,
  Sockets,
}

pub record TcpServer : Type 0 where
  pub listen_fd : ℤ
  pub port : ℤ
  pub last_error : LastError
  pub calls : List SocketCall

unfoldable pub tcp_server : List SocketCall → TcpServer
tcp_server calls = record {
  listen_fd = negsuc 0;
  port = pos 8080;
  last_error = nothing;
  calls = calls;
}

-- The destructor.
unfoldable pub destroy : TcpServer → TcpServer
destroy s =
    if ltb_ℤ s.listen_fd (pos 0) then s else record s { calls = closed s.listen_fd ∷ s.calls }

-- `task` is what `CreateTaskWithHandler(listen_fd_, …)` made.
unfoldable pub create_accept_task : AsyncTask → AsyncTask
create_accept_task task = set_repeat_forever true (set_task_type TaskType.accept task)

-- `close(listen_fd_); listen_fd_ = -1; return false;`, behind the message.
unfoldable pub give_up : LastError → TcpServer → Bool × TcpServer
give_up message s = (
  false,
  record s { listen_fd = negsuc 0; last_error = message; calls = closed s.listen_fd ∷ s.calls },
)

module _ (os : Sockets) (config : AsyncIoConfig) where
  unfoldable pub init_listen : TcpServer → Bool × TcpServer
  init_listen s =
      let r = os.listen s.calls in
      let t : TcpServer = record s {
        calls = listened s.listen_fd config.tcp_accept_backlog ∷ s.calls;
      } in
      if ltb_ℤ r (pos 0) then give_up (call_failed "listen" (os.errno t.calls)) t else (true, t)

  unfoldable pub init_bind : TcpServer → Bool × TcpServer
  init_bind s =
      let r = os.bind s.calls in
      let t : TcpServer = record s { calls = bound s.listen_fd (os.htons s.port) ∷ s.calls } in
      if ltb_ℤ r (pos 0) then give_up (call_failed "bind" (os.errno t.calls)) t else init_listen t

  unfoldable pub init : TcpServer → Bool × TcpServer
  init s =
      let fd = os.socket s.calls in
      let t : TcpServer = record s { listen_fd = fd; calls = opened fd ∷ s.calls } in
      if ltb_ℤ fd (pos 0)
      then (false, record t { last_error = call_failed "socket" (os.errno t.calls) })
      else init_bind (record t { calls = reuse_address fd ∷ t.calls })

  unfoldable pub start : ℤ → TcpServer → Bool × TcpServer
  start port s = init (record s { port = port })
