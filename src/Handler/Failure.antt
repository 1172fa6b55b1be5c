-- ===== src/Handler/Failure.antt =====
-- The last failure of a task.
use async_io.Prelude.{
  ℕ, suc, ◌+◌, ◌≡◌, ap, ◌∙◌, ◌||◌, Bool, true, false, none, some, ℤ, pos, neg, ltb_ℤ, ◌==ℤ◌, ◌≤ℤ◌,
  pred_ℤ, arith,
}
use async_io.Constants.{TaskState, EventFlag, eagain, ecanceled}
use async_io.Result.{signal, failed_after_retries}
use async_io.KernelBuf.{KernelBuf}
use async_io.Task.{Ptr, AsyncTask, set_debug_str, mark_detached_and_complete, set_task_state}
use async_io.Handler.World.{
  Env, World, M, ok, load, modify, set_inflight, put, put-put, drop, update, update₃,
  tasks-put_self,
}
use async_io.Handler.Submit.{handle_failed_task, execute_completion_handler, delete_task, add_task}
use async_io.Handler.Dispatch.{handle_io_failure, handle_negative, handle_event, dispatch_cqe}
use async_io.Handler.Retry.{IsFailure}
use async_io.Handler.Completion.{with_result, handle_normal_event-eq, dispatch_cqe-eq}

module _ (env : Env) (fuel : ℕ) (p : Ptr) (w : World) {t : AsyncTask} (at : w.tasks p ≡ some t)
    (w₂ : World) {t₂ : AsyncTask} where
  handle_failed_task-final :
      (add : Ptr → M Bool)
      → t.max_retry_count ≤ℤ pos (t.try_count + 1)
      → env.run_handler p (put p (record t { try_count = t.try_count + 1 }) w) ≡ w₂
      → w₂.tasks p ≡ some t₂
      → t₂.next ≡ none
      → handle_failed_task env (suc fuel) add p w ≡ ok false (drop p w₂)
  unfolding handle_failed_task execute_completion_handler delete_task load modify signal
  handle_failed_task-final add over h at₂ last =
      let a = set_debug_str (failed_after_retries (t.try_count + 1)) t₂ in
      let b = record a { try_count = 0 } in
      let c = mark_detached_and_complete true b in
      let d = set_task_state TaskState.failed c in
      let ts =
        update (update (update (update w₂.tasks p (some a)) p (some b)) p (some c)) p (some d) in
      let raw : handle_failed_task env (suc fuel) add p w
          ≡ ok false (record w₂ { tasks = update ts p none }) =
        ground arith in
      raw
      ∙ ap (λ ts. ok false (record w₂ { tasks = ts }))
          (update₃ (update (update w₂.tasks p (some a)) p (some b)) p (some c) (some d) none
            ∙ update₃ w₂.tasks p (some a) (some b) none)

module _ (env : Env) (fuel : ℕ) (p : Ptr) (w : World) {t : AsyncTask} {b : KernelBuf} (res : ℤ)
    (at : w.tasks p ≡ some t) (buf : t.buffer ≡ some b) (st : t.task_state ≡ TaskState.submitted)
    (nc : t.is_cancel ≡ false) where
  -- A failing completion of a task in flight that has no retry left: the handler is run once, with the
  -- error in the buffer, then a task without a successor is deleted, and one operation fewer is in
  -- flight than the handler left.
  pub last_failure_deletes :
      (w₂ : World) {t₂ : AsyncTask}
      → IsFailure res
      → t.max_retry_count ≤ℤ pos (t.try_count + 1)
      → env.run_handler p (put p (record (with_result res t b) { try_count = t.try_count + 1 }) w)
        ≡ w₂
      → w₂.tasks p ≡ some t₂
      → t₂.next ≡ none
      → dispatch_cqe env (suc fuel) p EventFlag.none res w
        ≡ ok tt (record (drop p w₂) { inflight_count = pred_ℤ w₂.inflight_count })
  unfolding handle_event handle_negative handle_io_failure set_inflight
  last_failure_deletes w₂ bad over h at₂ last =
      let final =
        handle_failed_task-final env fuel p (put p (with_result res t b) w)
          (tasks-put_self p (with_result res t b) w) w₂ (add_task env (suc fuel)) over
          (rw
            (put-put p (with_result res t b)
              (record (with_result res t b) { try_count = t.try_count + 1 }) w)
            h)
          at₂ last in
      let is_neg : ltb_ℤ res (pos 0) ≡ true = ground arith in
      let other : ((res ==ℤ neg eagain) || (res ==ℤ neg eagain)) ≡ false = ground arith in
      let other' : (res ==ℤ neg ecanceled) ≡ false = ground arith in
      rw (dispatch_cqe-eq env (suc fuel) p res w EventFlag.none at st nc) (
        rw (handle_normal_event-eq env (suc fuel) p res w at buf)
          (rw is_neg (rw (other, other') (rw final))))
