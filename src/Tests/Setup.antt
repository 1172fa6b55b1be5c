-- ===== src/Tests/Setup.antt =====
-- A handler with one task, at address 4096, and surroundings that always give the next entry.
use async_io.Prelude.{ℕ, true, false, none, some, [], pos, negsuc, length, ◌==◌, if◌then◌else◌}
use async_io.Constants.{AsyncIoConfig, default_config, TaskType, TaskState}
use async_io.Result.{DoneState, literal}
use async_io.KernelBuf.{KernelBuf, StorageTag}
use async_io.Task.{Ptr, AsyncTask}
use async_io.Handler.World.{Env, World}

abbrev pub some_config : AsyncIoConfig
some_config = default_config (pos 4096)

abbrev pub limited : ℕ → AsyncIoConfig
limited n = record some_config { max_inflight_ops = pos n }

abbrev pub env_with : AsyncIoConfig → Env
env_with c = record {
  config = c;
  sqe_of = λ calls. some (length calls);
  submit_result = λ calls. pos 1;
  run_handler = λ p w. w;
  sockaddr = λ b. record { sin_family = 2; sin_port = 8080; sin_addr = 16777343 };
  ntohs = λ n. n;
  inet_ntop = λ a. "127.0.0.1";
}

abbrev pub env : Env
env = env_with some_config

abbrev pub buffer : KernelBuf
buffer = record {
  size = 16;
  offset = pos 0;
  storage_tag = StorageTag.sbo;
  sbo_data = [];
  pool = record { block = 0; alloc_size = 0 };
  heap_vec = [];
  io_ret = record { value = pos 0; ret_fd = pos 0 };
}

-- A read of descriptor 5 that was never submitted.
abbrev pub reader : AsyncTask
reader = record {
  task_state = TaskState.ready;
  detach = false;
  done_state = DoneState.idle;
  buffer = some buffer;
  user_data = 0;
  fd = pos 5;
  task_type = TaskType.read;
  next = none;
  is_cancel = false;
  try_count = 0;
  timeout_ms = pos 0;
  max_retry_count = negsuc 0;
  repeat_forever = false;
  repeat_when_failed = false;
  debug_str = literal "";
  check_buffer = λ b. true;
}

abbrev pub flying : AsyncTask
flying = record reader { task_state = TaskState.submitted; user_data = 4096 }

abbrev pub at : Ptr
at = 4096

-- The task alone, with `n` operations in flight.
abbrev pub with_task : AsyncTask → ℕ → World
with_task t n = record {
  tasks = λ q. if q == at then some t else none;
  inflight_count = pos n;
  ring = [];
  closed = [];
  shutdown_requested = false;
}
