-- ===== src/Handler/Queries.antt =====
-- What a user reads of an `IOHandler`, and `Flush` (include/talon/async_io_handler.hpp).
use async_io.Prelude.{ℤ, Option}
use async_io.Constants.{AsyncIoConfig}
use async_io.Handler.World.{Env, M, ok, emit, RingCall}
use async_io.Handler.Process.{IoHandler}

unfoldable pub config : Env → AsyncIoConfig
config env = env.config

unfoldable pub inflight_count : M ℤ
inflight_count w = ok w.inflight_count w

-- The text of the error follows from the number.
unfoldable pub init_error : IoHandler → Option ℤ
init_error h = h.init_error

-- The result of `io_uring_submit` is not looked at.
unfoldable pub flush : M (Unit {0})
flush = emit RingCall.submit
