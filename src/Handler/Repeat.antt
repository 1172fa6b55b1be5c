-- ===== src/Handler/Repeat.antt =====
-- A task that repeats for ever, after a completion with a result above 0.
use async_io.Prelude.{
  ℕ, suc, ◌≡◌, ◌≢◌, refl, true, false, none, some, ℤ, ◌∷◌, pos, ◌<ℤ◌, ◌≤ℤ◌, pred_ℤ, pred_ℤ-suc_ℤ,
  ap,
}
use async_io.Constants.{TaskState, EventFlag}
use async_io.KernelBuf.{KernelBuf}
use async_io.Task.{Ptr, null, AsyncTask, set_task_state}
use async_io.Handler.World.{
  Env, World, ok, put, tasks-put_self, RingCall, get_sqe, set_user_data, submit,
}
use async_io.Handler.Submit.{prepare}
use async_io.Handler.Dispatch.{dispatch_cqe}
use async_io.Handler.Gate.{add_task-saturated}
use async_io.Handler.Accept.{io_call, HasRoom, in_flight, after_accept, add_task-accepted}
use async_io.Handler.Completion.{with_result}
use async_io.Handler.Success.{repeat_resubmits}

module _ (env : Env) (fuel : ℕ) (p : Ptr) (w : World) {t : AsyncTask} {b : KernelBuf} (res : ℤ)
    (live : p ≢ null) (at : w.tasks p ≡ some t) (buf : t.buffer ≡ some b)
    (st : t.task_state ≡ TaskState.submitted) (nc : t.is_cancel ≡ false) (w₂ : World)
    {t₂ : AsyncTask} (above : pos 0 <ℤ res)
    (h : env.run_handler p (put p (with_result res t b) w) ≡ w₂) (at₂ : w₂.tasks p ≡ some t₂)
    (again : t₂.repeat_forever ≡ true) (last : t₂.next ≡ none) where
  -- At the limit on operations in flight a task that repeats and has no successor is lost: its
  -- completion with a result above 0 leaves it ready, with nothing submitted for it, and its slot is
  -- given back all the same.
  pub repeat_dropped :
      pos 0 <ℤ env.config.max_inflight_ops
      → env.config.max_inflight_ops ≤ℤ w₂.inflight_count
      → (w' : World) × (dispatch_cqe env (suc fuel) p EventFlag.none res w ≡ ok tt w')
        × (w'.tasks p ≡ some (record t₂ { task_state = TaskState.ready }))
        × (w'.ring ≡ w₂.ring)
        × (w'.inflight_count ≡ pred_ℤ w₂.inflight_count)
  repeat_dropped limited full =
      let t₃ = set_task_state TaskState.success t₂ in
      let (w₃, ran, at₃, _, count, calls) =
        add_task-saturated env fuel p (put p t₃ w₂) live (tasks-put_self p t₃ w₂) (λ e. cc) limited
          full in
      (
        record w₃ { inflight_count = pred_ℤ w₃.inflight_count },
        repeat_resubmits env (suc fuel) p w res at buf st nc w₂ w₃ false above h at₂ again ran at₃
            again last,
        at₃,
        calls,
        ap pred_ℤ count,
      )

  -- With room under the limit and an entry in the ring, a task that repeats, has no successor and no
  -- timeout and is of a type that needs no check is in flight again after its completion with a result
  -- above 0, with one more entry that carries its address, and as many operations are in flight as the
  -- handler left.
  pub repeat_continues :
      {b₂ : KernelBuf} {e : ℕ} {c : RingCall}
      → HasRoom env w₂
      → t₂.buffer ≡ some b₂
      → env.sqe_of w₂.ring ≡ some e
      → io_call t₂.task_type t₂.fd b₂ e ≡ some c
      → t₂.timeout_ms ≤ℤ pos 0
      → (w' : World) × (dispatch_cqe env (suc fuel) p EventFlag.none res w ≡ ok tt w')
        × (w'.tasks p ≡ some (in_flight p t₂))
        × (w'.ring ≡ submit ∷ set_user_data e p ∷ c ∷ get_sqe ∷ w₂.ring)
        × (w'.inflight_count ≡ w₂.inflight_count)
  unfolding prepare
  repeat_continues {e} {c} room buf₂ entry call untimed =
      let t₃ = set_task_state TaskState.success t₂ in
      let calls = submit ∷ set_user_data e p ∷ c ∷ get_sqe ∷ w₂.ring in
      let ran =
        add_task-accepted env fuel p (put p t₃ w₂) live (tasks-put_self p t₃ w₂) buf₂ (λ q. cc) room
          entry call untimed in
      let w₃ = after_accept p t₃ calls (put p t₃ w₂) in
      let at₃ = tasks-put_self p (in_flight p t₃) (put p t₃ w₂) in
      (
        record w₃ { inflight_count = pred_ℤ w₃.inflight_count },
        repeat_resubmits env (suc fuel) p w res at buf st nc w₂ w₃ true above h at₂ again ran at₃
            again last,
        at₃,
        refl,
        pred_ℤ-suc_ℤ w₂.inflight_count,
      )
