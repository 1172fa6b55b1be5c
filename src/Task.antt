-- ===== src/Task.antt =====
-- include/talon/async_io_task.hpp: `AsyncTask`, its setters, and `WaitForCompletion`.
-- A task is an object on a heap and `next` a pointer into it; the handler that it holds is a
-- parameter of the models that call it. `check_buffer_` and `args_tuple_` are read nowhere.
pub mod Buffer
pub mod Memory
use async_io.Prelude.{
  ℕ, Bool, true, false, Option, none, some, ℤ, pos, negsuc, ltb_ℤ, ◌==ℤ◌, if◌then◌else◌,
}
use async_io.Constants.{TaskType, TaskState}
use async_io.Result.{Message, literal, timeout_after_ms, IoResult, DoneState, wait, signal}
use async_io.KernelBuf.{KernelBuf, bytes_transferred, active_file_descriptor}

-- The address of an object; 0 is `nullptr`.
abbrev pub Ptr : Type 0
Ptr = ℕ

abbrev pub null : Ptr
null = 0

-- `try_count` is an `int` that stays between 0 and `max_retry_count`: it is reset where it would
-- reach the latter, so it does not wrap.
pub record AsyncTask : Type 0 where
  pub task_state : TaskState
  pub detach : Bool
  pub done_state : DoneState
  pub buffer : Option KernelBuf
  pub user_data : ℕ
  pub fd : ℤ
  pub task_type : TaskType
  pub next : Option Ptr
  pub is_cancel : Bool
  pub try_count : ℕ
  pub timeout_ms : ℤ
  pub max_retry_count : ℤ
  pub repeat_forever : Bool
  pub repeat_when_failed : Bool
  pub debug_str : Message
  pub check_buffer : KernelBuf → Bool

-- The constructor: `MakeKernelBuffer(kDefaultBufferSize)` gives the buffer.
unfoldable pub async_task : (fd : ℤ) → KernelBuf → AsyncTask
async_task fd buffer = record {
  task_state = TaskState.ready;
  detach = false;
  done_state = DoneState.idle;
  buffer = some buffer;
  user_data = 0;
  fd = fd;
  task_type = TaskType.none;
  next = none;
  is_cancel = false;
  try_count = 0;
  timeout_ms = pos 0;
  max_retry_count = negsuc 0;
  repeat_forever = false;
  repeat_when_failed = false;
  debug_str = literal "";
  check_buffer = λ b. true;
}

abbrev pub repeat_when_failed? : AsyncTask → Bool
repeat_when_failed? t = ltb_ℤ (pos 0) t.max_retry_count

unfoldable pub set_task_type : TaskType → AsyncTask → AsyncTask
set_task_type k t = record t { task_type = k }

unfoldable pub set_timeout : ℤ → AsyncTask → AsyncTask
set_timeout ms t = record t { timeout_ms = ms }

unfoldable pub set_max_retry_count : ℤ → AsyncTask → AsyncTask
set_max_retry_count n t = record t { max_retry_count = n }

unfoldable pub set_repeat_forever : Bool → AsyncTask → AsyncTask
set_repeat_forever v t =
    if v
    then record t { detach = false; timeout_ms = pos 0; repeat_forever = v }
    else record t { repeat_forever = v }

unfoldable pub set_next_task : Option Ptr → AsyncTask → AsyncTask
set_next_task n t = record t { next = n }

-- Nothing calls the function that it sets.
unfoldable pub set_check_buffer : (KernelBuf → Bool) → AsyncTask → AsyncTask
set_check_buffer f t = record t { check_buffer = f }

abbrev pub set_task_state : TaskState → AsyncTask → AsyncTask
set_task_state s t = record t { task_state = s }

abbrev pub set_debug_str : Message → AsyncTask → AsyncTask
set_debug_str s t = record t { debug_str = s }

abbrev pub set_detach : Bool → AsyncTask → AsyncTask
set_detach v t = record t { detach = v }

-- `MarkDetachedAndComplete(detach)`
abbrev pub mark_detached_and_complete : Bool → AsyncTask → AsyncTask
unfolding signal
mark_detached_and_complete true t = record t { done_state = (signal t.done_state).0; detach = true }
mark_detached_and_complete false t = record t { detach = false }

event_fd_of : Option KernelBuf → ℤ
event_fd_of none = negsuc 0
event_fd_of (some b) = active_file_descriptor b

io_ret_of : Option KernelBuf → ℤ
io_ret_of none = negsuc 0
io_ret_of (some b) = bytes_transferred b

not_ready : ℤ → IoResult → IoResult
not_ready timeout_ms r =
    if ltb_ℤ (pos 0) timeout_ms
    then record r { err_msg = timeout_after_ms timeout_ms }
    else if timeout_ms ==ℤ pos 0
    then record r { err_msg = literal "WaitForCompletion: not yet ready (timeout=0)" }
    else r

-- `WaitForCompletion(timeout_ms)`: the result and the task's new done state. `none`: it never
-- returns. `arrives` is that of `wait`.
unfoldable pub wait_for_completion :
    ℤ → (arrives : Bool) → AsyncTask → Option (IoResult × DoneState)
unfolding event_fd_of io_ret_of not_ready
wait_for_completion timeout_ms arrives t =
    let ret : IoResult = record {
      io_ret = negsuc 0;
      event_fd = event_fd_of t.buffer;
      iodone = t.detach;
      err_msg = literal "io done";
    } in
    if t.detach
    then elim (wait timeout_ms arrives t.done_state) [
      | none ↦ none
      | some (true, s) ↦
          some
            (record ret { io_ret = io_ret_of t.buffer; err_msg = literal "IO result consumed" }, s)
      | some (false, s) ↦ some (not_ready timeout_ms ret, s)
    ]
    else some
        (record ret { err_msg = literal "task not detached from execute queue yet" }, t.done_state)
