-- ===== src/Constants.antt =====
-- include/talon/async_io_constants.hpp: flags, enumerations, configuration.
use async_io.Prelude.{ℕ, ◌+◌, ◌^◌, List, [], ◌∷◌, ℤ, pos, negsuc, String}

abbrev pub timeout_bit : ℕ
timeout_bit = 63

abbrev pub error_bit : ℕ
error_bit = 62

abbrev pub cancel_bit : ℕ
cancel_bit = 61

-- `1ULL << bit`
abbrev pub timeout_flag : ℕ
timeout_flag = 2 ^ timeout_bit

abbrev pub error_flag : ℕ
error_flag = 2 ^ error_bit

abbrev pub cancel_flag : ℕ
cancel_flag = 2 ^ cancel_bit

-- The three flags are different bits, so their `|` is their sum.
abbrev pub event_mask_flags : ℕ
event_mask_flags = timeout_flag + error_flag + cancel_flag

abbrev pub default_buffer_size : ℕ
default_buffer_size = 2048

abbrev pub kernel_buf_sbo_size : ℕ
kernel_buf_sbo_size = 256

abbrev pub inline_function_sbo_size : ℕ
inline_function_sbo_size = 64

abbrev pub object_pool_default_capacity : ℕ
object_pool_default_capacity = 4096

abbrev pub object_pool_grow_batch : ℕ
object_pool_grow_batch = 1024

abbrev pub object_pool_tls_cache_size : ℕ
object_pool_tls_cache_size = 32

abbrev pub buffer_pool_num_classes : ℕ
buffer_pool_num_classes = 11

abbrev pub buffer_pool_class_sizes : List ℕ
buffer_pool_class_sizes =
    64 ∷ 128 ∷ 256 ∷ 512 ∷ 1024 ∷ 2048 ∷ 4096 ∷ 8192 ∷ 16384 ∷ 32768 ∷ 65536 ∷ []

abbrev pub buffer_pool_max_pooled_size : ℕ
buffer_pool_max_pooled_size = 65536

abbrev pub buffer_pool_tls_cache_size : ℕ
buffer_pool_tls_cache_size = 16

-- `tcp_accept_backlog` starts as SOMAXCONN, which the system's headers define.
pub record AsyncIoConfig : Type 0 where
  pub max_entries : ℤ
  pub default_buffer_size : ℕ
  pub kernel_buf_sbo_size : ℕ
  pub task_pool_capacity : ℕ
  pub task_pool_grow_batch : ℕ
  pub auto_flush_threshold_percent : ℤ
  pub default_timeout_ms : ℤ
  pub default_max_retry_count : ℤ
  pub tcp_accept_backlog : ℤ
  pub tcp_default_port : ℤ
  pub connect_timeout_ms : ℤ
  pub max_inflight_ops : ℤ
  pub backpressure_retry_us : ℤ

abbrev pub default_config : (somaxconn : ℤ) → AsyncIoConfig
default_config somaxconn = record {
  max_entries = pos 256;
  default_buffer_size = 2048;
  kernel_buf_sbo_size = 256;
  task_pool_capacity = 4096;
  task_pool_grow_batch = 1024;
  auto_flush_threshold_percent = pos 75;
  default_timeout_ms = pos 0;
  default_max_retry_count = negsuc 0;
  tcp_accept_backlog = somaxconn;
  tcp_default_port = pos 8080;
  connect_timeout_ms = pos 5000;
  max_inflight_ops = pos 0;
  backpressure_retry_us = pos 100;
}

pub data TaskType : Type 0 where
  none read write accept connect close timeout cancel link_timeout timeout_remove timeout_update :
      TaskType

pub data TaskState : Type 0 where
  ready submitted success failed timeout canceled : TaskState

-- The numeric values of the enumerators, from `kReady = 1000` on.
abbrev pub state_code : TaskState → ℕ
state_code TaskState.ready = 1000
state_code TaskState.submitted = 1001
state_code TaskState.success = 1002
state_code TaskState.failed = 1003
state_code TaskState.timeout = 1004
state_code TaskState.canceled = 1005

-- An `int` that names no enumerator has the name "UNKNOWN"; the model has no such value.
unfoldable pub task_state_name : TaskState → String
task_state_name TaskState.ready = "READY"
task_state_name TaskState.submitted = "SUBMITTED"
task_state_name TaskState.success = "SUCCESS"
task_state_name TaskState.failed = "FAILED"
task_state_name TaskState.timeout = "TIMEOUT"
task_state_name TaskState.canceled = "CANCELED"

unfoldable pub task_type_name : TaskType → String
task_type_name TaskType.none = "NONE"
task_type_name TaskType.read = "READ"
task_type_name TaskType.write = "WRITE"
task_type_name TaskType.accept = "ACCEPT"
task_type_name TaskType.connect = "CONNECT"
task_type_name TaskType.close = "CLOSE"
task_type_name TaskType.timeout = "TIMEOUT"
task_type_name TaskType.cancel = "CANCEL"
task_type_name TaskType.link_timeout = "LINK_TIMEOUT"
task_type_name TaskType.timeout_remove = "TIMEOUT_REMOVE"
task_type_name TaskType.timeout_update = "TIMEOUT_UPDATE"

-- `static_cast<EventFlag>` of any mask: `mixed` is a value that names no single flag.
pub data EventFlag : Type 0 where
  none timeout error cancel mixed : EventFlag

-- errno values of the Linux ABI, which the sources take from the system's headers.
abbrev pub eintr : ℕ
eintr = 4

abbrev pub eagain : ℕ
eagain = 11

-- EWOULDBLOCK is EAGAIN on Linux.
abbrev pub ewouldblock : ℕ
ewouldblock = eagain

abbrev pub einval : ℕ
einval = 22

abbrev pub ecanceled : ℕ
ecanceled = 125
