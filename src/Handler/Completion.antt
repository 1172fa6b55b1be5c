-- ===== src/Handler/Completion.antt =====
-- From a completion to the branch of `HandleNormalEvent` that it takes.
use async_io.Prelude.{refl, ℕ, ◌≡◌, false, some, ℤ, pos, ltb_ℤ, ◌==ℤ◌, if◌then◌else◌, pred_ℤ, arith}
use async_io.Constants.{TaskState, EventFlag}
use async_io.KernelBuf.{KernelBuf, set_bytes_transferred, set_active_file_descriptor}
use async_io.Task.{Ptr, AsyncTask}
use async_io.Handler.World.{
  Env, World, ok, load, modify, put, put-put, tasks-put_self, load-eq, and_then, set_inflight,
}
use async_io.Handler.Submit.{modify_buffer, load_buffer}
use async_io.Handler.Dispatch.{
  handle_negative, handle_zero, handle_positive, handle_normal_event, handle_event, dispatch_live,
  dispatch_cqe,
}

-- The task with the result of its operation in its buffer.
abbrev pub with_result : ℤ → AsyncTask → KernelBuf → AsyncTask
with_result res t b = record t {
  buffer = some (set_active_file_descriptor t.fd (set_bytes_transferred res b));
}

module _ (p : Ptr) (w : World) {t : AsyncTask} {b : KernelBuf} (at : w.tasks p ≡ some t)
    (buf : t.buffer ≡ some b) where
  pub modify_buffer-eq :
      (f : KernelBuf → KernelBuf)
      → modify_buffer p f w ≡ ok tt (put p (record t { buffer = some (f b) }) w)
  unfolding modify_buffer load_buffer load modify
  modify_buffer-eq f = ground arith

module _ (env : Env) (fuel : ℕ) (p : Ptr) (res : ℤ) (w : World) {t : AsyncTask} where
  pub handle_normal_event-eq :
      {b : KernelBuf}
      → w.tasks p ≡ some t
      → t.buffer ≡ some b
      → handle_normal_event env fuel p res w
        ≡ (if ltb_ℤ res (pos 0)
              then handle_negative env fuel p res
              else if res ==ℤ pos 0
              then handle_zero env fuel p
              else handle_positive env fuel p)
            (put p (with_result res t b) w)
  unfolding handle_normal_event
  handle_normal_event-eq {b} at buf =
      let t₁ = record t { buffer = some (set_bytes_transferred res b) } in
      let w₁ = put p t₁ w in
      let s₁ : modify_buffer p (set_bytes_transferred res) w ≡ ok tt w₁ =
        modify_buffer-eq p w at buf (set_bytes_transferred res) in
      let s₂ : load p w₁ ≡ ok t₁ w₁ = load-eq p w₁ (tasks-put_self p t₁ w) in
      let s₃ : modify_buffer p (set_active_file_descriptor t.fd) w₁
          ≡ ok tt (put p (with_result res t b) w₁) =
        modify_buffer-eq p w₁ {b = set_bytes_transferred res b} (tasks-put_self p t₁ w) refl
          (set_active_file_descriptor t.fd) in
      rw s₁ (rw s₂ (rw s₃ (rw (put-put p t₁ (with_result res t b) w))))

  pub dispatch_cqe-eq :
      (et : EventFlag)
      → w.tasks p ≡ some t
      → t.task_state ≡ TaskState.submitted
      → t.is_cancel ≡ false
      → dispatch_cqe env fuel p et res w
        ≡ and_then (handle_event env fuel p et res w) (λ _. set_inflight pred_ℤ)
  unfolding dispatch_cqe dispatch_live load
  dispatch_cqe-eq et at st nc = ground arith
