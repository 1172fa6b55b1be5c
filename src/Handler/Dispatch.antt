-- ===== src/Handler/Dispatch.antt =====
-- From a completion to the task: the event handlers, `DispatchCqe` and the event loop, and
-- `AsyncTask::Cancel`, shutdown and the load queries. One `fuel` bounds every recursion.
use async_io.Prelude.{
  ℕ, zero, suc, Bool, true, false, ◌||◌, ◌&&◌, not, Option, none, some, List, [], ◌∷◌, ℤ, pos,
  negsuc, ltb_ℤ, leb_ℤ, ◌==ℤ◌, neg, pred_ℤ, ◌==◌, if◌then◌else◌,
}
use async_io.Constants.{TaskState, EventFlag, cancel_bit, eagain, ewouldblock, ecanceled}
use async_io.Result.{literal}
use async_io.KernelBuf.{set_bytes_transferred, set_active_file_descriptor}
use async_io.Task.{Ptr, null, set_task_state, set_debug_str, set_detach, mark_detached_and_complete}
use async_io.Handler.World.{
  Env, World, ok, out_of_fuel, M, pure, and_then, ◌>>=◌, ◌>>◌, load, modify, emit, set_inflight,
  close_fd, acquire_sqe, prep_nop, prep_cancel, set_user_data, submit,
}
use async_io.Handler.UserData.{or_bit, event_bits, task_bits, event_flag}
use async_io.Handler.Submit.{
  modify_buffer, delete_task, execute_completion_handler, handle_failed_task, add_task,
}

-- A completion: `cqe->user_data` and `cqe->res`.
pub record Cqe : Type 0 where
  pub user_data : ℕ
  pub res : ℤ

abbrev pub is_some {ℓ} : {A : Type ℓ} → Option A → Bool
is_some none = false
is_some (some _) = true

-- `while (!AddTask(tp)) yield();`
unfoldable pub retry_add_task : ℕ → (add : Ptr → M Bool) → Ptr → M (Unit {0})
retry_add_task zero add p = λ w. out_of_fuel
retry_add_task (suc rounds) add p = do
  added ← add p
  elim added [ true ↦ pure tt | false ↦ retry_add_task rounds add p ]

-- What one round of the loop finds: the results of `io_uring_peek_cqe` and, where that is called,
-- of `io_uring_wait_cqe`, and the completion; and whether a shutdown was requested meanwhile.
pub record Round : Type 0 where
  pub peek_ret : ℤ
  pub wait_ret : ℤ
  pub cqe : Option Cqe
  pub shutdown : Bool

unfoldable pub round_result : Round → ℤ
round_result r = if r.peek_ret ==ℤ neg eagain then r.wait_ret else r.peek_ret

module _ (env : Env) where
  -- `if (tp->NextTask()) { auto* n = tp->ReleaseNextTask(); AddTask(n); }`
  unfoldable pub add_next_task : ℕ → Ptr → M (Unit {0})
  add_next_task fuel p = do
    t ← load p
    elim t.next [
      | none ↦ pure tt
      | some n ↦ (do modify p (λ t. record t { next = none }); add_task env fuel n; pure tt)
    ]

  unfoldable pub handle_timeout_task : ℕ → Ptr → M Bool
  handle_timeout_task fuel p = do
    t ← load p
    let expire : M Bool = (do
      modify p (set_debug_str (literal "timed out"))
      modify p (mark_detached_and_complete true)
      modify p (set_task_state TaskState.timeout)
      delete_task fuel p
      pure false)
    elim t.task_state [ TaskState.submitted ↦ expire | TaskState.ready ↦ expire | _ ↦ pure false ]

  unfoldable pub handle_timeout_event : ℕ → Ptr → M (Unit {0})
  handle_timeout_event fuel p = do handle_timeout_task fuel p; pure tt

  unfoldable pub handle_io_failure : ℕ → Ptr → M (Unit {0})
  handle_io_failure fuel p = do handle_failed_task env fuel (add_task env fuel) p; pure tt

  -- A result below 0.
  unfoldable pub handle_negative : ℕ → Ptr → ℤ → M (Unit {0})
  handle_negative fuel p res =
      if (res ==ℤ neg eagain) || (res ==ℤ neg ewouldblock)
      then retry_add_task fuel (add_task env fuel) p
      else if res ==ℤ neg ecanceled
      then (do
        t ← load p
        if ltb_ℤ (pos 0) t.timeout_ms then handle_timeout_event fuel p else (do
          modify p (set_debug_str (literal "cancelled by kernel"))
          modify p (mark_detached_and_complete true)
          modify p (set_task_state TaskState.canceled)
          delete_task fuel p))
      else handle_io_failure fuel p

  -- The end of a one-shot task at end of file: its descriptor is closed.
  unfoldable pub close_and_delete : ℕ → Ptr → M (Unit {0})
  close_and_delete fuel p = do
    t ← load p
    if ltb_ℤ (pos 0) t.fd
        then (do close_fd t.fd; modify p (λ t. record t { fd = negsuc 0 }))
        else pure tt
    modify p (mark_detached_and_complete true)
    modify p (set_task_state TaskState.success)
    delete_task fuel p

  -- A result of 0: end of file, or a peer that closed.
  unfoldable pub handle_zero : ℕ → Ptr → M (Unit {0})
  handle_zero fuel p = do
    execute_completion_handler env p
    t ← load p
    if not t.repeat_forever && not (is_some t.next) then close_and_delete fuel p else (do
      modify p (set_task_state TaskState.success)
      t ← load p
      if t.repeat_forever then (do add_task env fuel p; pure tt) else modify p (set_detach true)
      add_next_task fuel p)

  -- A result above 0.
  unfoldable pub handle_positive : ℕ → Ptr → M (Unit {0})
  handle_positive fuel p = do
    execute_completion_handler env p
    t ← load p
    if t.repeat_forever
        then (do modify p (set_task_state TaskState.success); add_task env fuel p; pure tt)
        else (do modify p (set_task_state TaskState.success); modify p (set_detach true))
    add_next_task fuel p
    t ← load p
    if not t.repeat_forever && not (is_some t.next)
        then modify p (mark_detached_and_complete true)
        else pure tt

  unfoldable pub handle_normal_event : ℕ → Ptr → ℤ → M (Unit {0})
  handle_normal_event fuel p res = do
    modify_buffer p (set_bytes_transferred res)
    t ← load p
    modify_buffer p (set_active_file_descriptor t.fd)
    if ltb_ℤ res (pos 0)
        then handle_negative fuel p res
        else if res ==ℤ pos 0
        then handle_zero fuel p
        else handle_positive fuel p

  unfoldable pub handle_error_event : ℕ → Ptr → ℤ → M (Unit {0})
  handle_error_event fuel p res = do
    modify_buffer p (set_bytes_transferred res)
    t ← load p
    modify_buffer p (set_active_file_descriptor t.fd)
    handle_failed_task env fuel (add_task env fuel) p
    pure tt

  unfoldable pub handle_cancel_event : Ptr → M (Unit {0})
  handle_cancel_event p = do
    modify p (λ t. record t { is_cancel = true })
    modify p (set_debug_str (literal "cancelled"))

  -- Private, and called by nothing.
  unfoldable pub handle_connection_close : ℕ → Ptr → M (Unit {0})
  handle_connection_close fuel p = do
    t ← load p
    if ltb_ℤ (pos 0) t.fd
        then (do close_fd t.fd; modify p (λ t. record t { fd = negsuc 0 }))
        else pure tt
    modify p (mark_detached_and_complete true)
    modify p (set_task_state TaskState.success)
    add_next_task fuel p
    delete_task fuel p

  -- The `switch` of `DispatchCqe`.
  unfoldable pub handle_event : ℕ → Ptr → EventFlag → ℤ → M (Unit {0})
  handle_event fuel p EventFlag.none res = handle_normal_event fuel p res
  handle_event fuel p EventFlag.timeout res = handle_timeout_event fuel p
  handle_event fuel p EventFlag.error res = handle_error_event fuel p res
  handle_event fuel p EventFlag.cancel res =
      if leb_ℤ (pos 0) res then handle_cancel_event p else pure tt
  handle_event fuel p EventFlag.mixed res = handle_error_event fuel p res

  -- `DispatchCqe` for a task in state `kSubmitted` or `kReady`.
  unfoldable pub dispatch_live : ℕ → Ptr → EventFlag → ℤ → M (Unit {0})
  dispatch_live fuel p et res = do
    t ← load p
    if t.is_cancel
        then (do
          modify p (mark_detached_and_complete true)
          modify p (set_task_state TaskState.canceled)
          delete_task fuel p
          set_inflight pred_ℤ)
        else (do handle_event fuel p et res; set_inflight pred_ℤ)

  unfoldable pub dispatch_cqe : ℕ → Ptr → EventFlag → ℤ → M (Unit {0})
  dispatch_cqe fuel p et res = do
    t ← load p
    elim t.task_state [
      | TaskState.submitted ↦ dispatch_live fuel p et res
      | TaskState.ready ↦ dispatch_live fuel p et res
      | _ ↦ pure tt
    ]

  -- The body of the loop for a completion that was read.
  unfoldable pub process_cqe : ℕ → Cqe → M (Unit {0})
  process_cqe fuel cqe =
      if cqe.user_data == 0
      then pure tt
      else if task_bits cqe.user_data == null
      then pure tt
      else dispatch_cqe fuel (task_bits cqe.user_data) (event_flag (event_bits cqe.user_data))
          cqe.res

  unfoldable pub run_round : ℕ → Round → M (Unit {0})
  run_round fuel r =
      if ltb_ℤ (round_result r) (pos 0)
      then pure tt
      else elim r.cqe [ none ↦ pure tt | some c ↦ process_cqe fuel c ]

  -- The loop over the rounds that the kernel offers; it ends at a shutdown request. After an error
  -- the flag is read once more, before the next round reads it: the outcome is the same.
  unfoldable pub run_event_loop : ℕ → List Round → M (Unit {0})
  run_event_loop fuel [] = pure tt
  run_event_loop fuel (r ∷ rs) = λ w. elim w.shutdown_requested [
    | true ↦ ok tt w
    | false ↦ and_then (run_round fuel r w) (λ _ w'.
        run_event_loop fuel rs
          (record w' { shutdown_requested = w'.shutdown_requested || r.shutdown }))
  ]

  -- `AsyncTask::Cancel(uring, special)` with a ring: the word it returns, 0 where it fails.
  unfoldable pub cancel : Ptr → (special_user_data : ℕ) → M ℕ
  cancel p special = do
    t ← load p
    let userdata = if special == 0 then t.user_data else special
    sqe ← acquire_sqe env
    elim sqe [
      | none ↦ pure 0
      | some e ↦ (do
        emit (prep_cancel e userdata)
        emit (set_user_data e (or_bit userdata cancel_bit))
        emit submit
        λ w.
            ok (if ltb_ℤ (env.submit_result w.ring) (pos 0) then 0 else or_bit userdata cancel_bit)
              w)
    ]

  unfoldable pub request_shutdown : M (Unit {0})
  request_shutdown = do
    λ w. ok tt (record w { shutdown_requested = true })
    sqe ← acquire_sqe env
    elim sqe [
      | none ↦ pure tt
      | some e ↦ (do emit (prep_nop e); emit (set_user_data e 0); emit submit)
    ]

  unfoldable pub backpressure_active : World → Bool
  backpressure_active w =
      ltb_ℤ (pos 0) env.config.max_inflight_ops
      && leb_ℤ env.config.max_inflight_ops w.inflight_count
