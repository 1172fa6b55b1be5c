-- ===== src/Handler/Submit.antt =====
-- `AddTask` and what it calls. `AddTask`, `SubmitTask`, `QueueFailedTask` and `HandleFailedTask` call
-- one another: `add_task` runs on fuel, and the others take the call of it as `add`.
use text.Mathlib.Text.{◌==◌ as str_eq}
use async_io.Prelude.{
  ℕ, zero, suc, ◌+◌, ◌*◌, ◌/◌, ◌%◌, ◌^◌, Bool, true, false, ◌&&◌, not, none, some, pos, ltb_ℤ,
  leb_ℤ, neg, suc_ℤ, pos_part, ltb, ◌==◌, if◌then◌else◌,
}
use async_io.Constants.{TaskType, TaskState, timeout_bit, error_bit, einval}
use async_io.Result.{literal, failed_after_retries, reset}
use async_io.KernelBuf.{KernelBuf, set_bytes_transferred, set_active_file_descriptor}
use async_io.Task.{
  Ptr, null, AsyncTask, set_task_state, set_debug_str, set_detach, mark_detached_and_complete,
  repeat_when_failed?,
}
use async_io.Handler.World.{
  Env, ok, fault, out_of_fuel, M, pure, ◌>>=◌, ◌>>◌, update, load, modify, emit, set_inflight,
  acquire_sqe, prep_read, prep_write, prep_accept, prep_connect, prep_timeout, prep_link_timeout,
  set_user_data, set_link, clear_link, drop_timespec, submit,
}
use async_io.Handler.UserData.{or_bit, u64}

-- AF_INET and sizeof(sockaddr_in) of the Linux ABI.
abbrev pub af_inet : ℕ
af_inet = 2

abbrev pub sizeof_sockaddr_in : ℕ
sizeof_sockaddr_in = 16

-- `task->buffer_->…`: a fault if the buffer is null.
unfoldable pub load_buffer : Ptr → M KernelBuf
load_buffer p = do t ← load p; elim t.buffer [ none ↦ λ w. fault | some b ↦ pure b ]

unfoldable pub modify_buffer : Ptr → (KernelBuf → KernelBuf) → M (Unit {0})
modify_buffer p f = do b ← load_buffer p; modify p (λ t. record t { buffer = some (f b) })

-- `delete t`: the destructor deletes the chained task too.
unfoldable pub delete_task : ℕ → Ptr → M (Unit {0})
delete_task zero p w = out_of_fuel
delete_task (suc fuel) p w = elim (w.tasks p) [
  | none ↦ fault
  | some t ↦ elim t.next [
    | none ↦ ok tt (record w { tasks = update w.tasks p none })
    | some n ↦ delete_task fuel n (record w { tasks = update w.tasks p none })
  ]
]

unfoldable pub try_transition_to_submitted : Ptr → M Bool
try_transition_to_submitted p = do
  t ← load p
  elim t.task_state [
    | TaskState.submitted ↦ pure false
    | _ ↦ (do modify p (set_task_state TaskState.submitted); pure true)
  ]

-- What `AddTask` writes to a task that it accepts, before the submission.
unfoldable pub prepare : AsyncTask → AsyncTask
prepare t = record t {
  detach = false;
  is_cancel = false;
  try_count = if repeat_when_failed? t then 0 else t.try_count;
  done_state = reset t.done_state;
}

-- `AutoFlush()`
abbrev pub auto_flush : M (Unit {0})
auto_flush = emit submit

module _ (env : Env) where
  -- The handler is invoked through the task, which must be there.
  unfoldable pub execute_completion_handler : Ptr → M (Unit {0})
  execute_completion_handler p = do load p; λ w. ok tt (env.run_handler p w)

  unfoldable pub handle_failed_task : ℕ → (add : Ptr → M Bool) → Ptr → M Bool
  handle_failed_task fuel add p = do
    modify p (λ t. record t { try_count = t.try_count + 1 })
    t ← load p
    if ltb_ℤ (pos t.try_count) t.max_retry_count
        then (do modify p (set_task_state TaskState.ready); add p; pure true)
        else (do
          execute_completion_handler p
          modify p (set_debug_str (failed_after_retries t.try_count))
          modify p (λ t. record t { try_count = 0 })
          modify p (mark_detached_and_complete true)
          modify p (set_task_state TaskState.failed)
          delete_task fuel p
          pure false)

  unfoldable pub queue_failed_task : ℕ → (add : Ptr → M Bool) → Ptr → M (Unit {0})
  queue_failed_task fuel add p = do
    sqe ← acquire_sqe env
    elim sqe [
      | none ↦ (do handle_failed_task fuel add p; pure tt)
      | some e ↦ (do
        emit (prep_timeout e)
        emit (set_user_data e (or_bit p error_bit))
        emit submit)
    ]

  unfoldable pub is_valid_address : KernelBuf → Bool
  is_valid_address b =
      let addr = env.sockaddr b in
      (addr.sin_family == af_inet)
      && not (env.ntohs addr.sin_port == 0)
      && not (str_eq (env.inet_ntop addr.sin_addr) "0.0.0.0")

  unfoldable pub validate_connect_task : AsyncTask → Bool
  validate_connect_task t = if leb_ℤ t.fd (pos 0) then false else elim t.buffer [
    | none ↦ false
    | some b ↦ if ltb b.size sizeof_sockaddr_in then false else is_valid_address b
  ]

  unfoldable pub handle_connect : ℕ → (add : Ptr → M Bool) → Ptr → ℕ → M (Unit {0})
  handle_connect fuel add p sqe = do
    t ← load p
    if validate_connect_task t then emit (prep_connect sqe t.fd) else (do
      modify_buffer p (set_bytes_transferred (neg einval))
      modify_buffer p (set_active_file_descriptor t.fd)
      queue_failed_task fuel add p)

  -- The part of `SubmitTask` behind the `switch`.
  unfoldable pub finish_submit : Ptr → ℕ → M (Unit {0})
  finish_submit p sqe = do
    emit (set_user_data sqe p)
    modify p (λ t. record t { user_data = p })
    t ← load p
    if ltb_ℤ (pos 0) t.timeout_ms
        then (do
          emit (set_link sqe)
          tsqe ← acquire_sqe env
          elim tsqe [
            | none ↦ emit (clear_link sqe)
            | some e ↦ (do
              emit (
                  prep_link_timeout e (pos_part t.timeout_ms / 1000)
                    (pos_part t.timeout_ms % 1000 * 1_000_000))
              emit (set_user_data e (or_bit p timeout_bit))
              emit (drop_timespec e))
          ])
        else pure tt

  unfoldable pub submit_entry : ℕ → (add : Ptr → M Bool) → Ptr → ℕ → AsyncTask → M (Unit {0})
  submit_entry fuel add p sqe t = elim t.task_type [
    | TaskType.read ↦ (do
      b ← load_buffer p
      emit (prep_read sqe t.fd (b.size % 2 ^ 32) (u64 b.offset))
      finish_submit p sqe)
    | TaskType.write ↦ (do
      b ← load_buffer p
      emit (prep_write sqe t.fd (b.size % 2 ^ 32) (u64 b.offset))
      finish_submit p sqe)
    | TaskType.accept ↦ (do emit (prep_accept sqe t.fd); finish_submit p sqe)
    | TaskType.connect ↦ (do handle_connect fuel add p sqe; finish_submit p sqe)
    | _ ↦ (do
      modify_buffer p (set_bytes_transferred (neg einval))
      modify_buffer p (set_active_file_descriptor t.fd)
      queue_failed_task fuel add p)
  ]

  unfoldable pub submit_task : ℕ → (add : Ptr → M Bool) → Ptr → M (Unit {0})
  submit_task fuel add p = do
    sqe ← acquire_sqe env
    elim sqe [
      | none ↦ queue_failed_task fuel add p
      | some e ↦ (do t ← load p; submit_entry fuel add p e t)
    ]

  -- The backpressure gate: whether a slot was reserved. No other thread interferes here.
  unfoldable pub reserve_slot : M Bool
  reserve_slot w =
      if ltb_ℤ (pos 0) env.config.max_inflight_ops
      then if ltb_ℤ w.inflight_count env.config.max_inflight_ops
        then (do set_inflight suc_ℤ; pure true) w
        else ok false w
      else (do set_inflight suc_ℤ; pure true) w

  unfoldable pub add_task : ℕ → Ptr → M Bool
  add_task zero p = λ w. out_of_fuel
  add_task (suc fuel) p = if p == null then pure false else do
    moved ← try_transition_to_submitted p
    elim moved [
      | false ↦ (do
        modify p (set_debug_str (literal "failed: already executing"))
        modify p (set_detach false)
        pure false)
      | true ↦ (do
        reserved ← reserve_slot
        elim reserved [
          | false ↦ (do modify p (set_task_state TaskState.ready); pure false)
          | true ↦ (do modify p prepare; submit_task fuel (add_task fuel) p; auto_flush; pure true)
        ])
    ]
