-- ===== src/Handler/Expiry.antt =====
-- Timeouts and cancellation: the two completions that one task then gets.
use async_io.Prelude.{
  ℕ, suc, ◌≡◌, refl, ap, ◌∙◌, true, false, none, some, ℤ, pos, neg, ltb_ℤ, ◌<ℤ◌, ◌≤ℤ◌, pred_ℤ,
  arith,
}
use async_io.Constants.{TaskState, EventFlag, ecanceled}
use async_io.Result.{signal, literal}
use async_io.KernelBuf.{KernelBuf}
use async_io.Task.{Ptr, AsyncTask, set_debug_str, mark_detached_and_complete, set_task_state}
use async_io.Handler.World.{
  Env, World, ok, fault, load, modify, set_inflight, put, drop, drop-put, load-eq, update,
  update-update, update₃, tasks-put_self, ◌>>◌,
}
use async_io.Handler.Submit.{delete_task}
use async_io.Handler.Dispatch.{
  handle_timeout_task, handle_timeout_event, handle_negative, handle_cancel_event, handle_event,
  dispatch_live, dispatch_cqe,
}
use async_io.Handler.Completion.{with_result, handle_normal_event-eq, dispatch_cqe-eq}

module _ (fuel : ℕ) (p : Ptr) (w : World) {t : AsyncTask} (at : w.tasks p ≡ some t)
    (last : t.next ≡ none) where
  handle_timeout_event-eq :
      (env : Env)
      → t.task_state ≡ TaskState.submitted
      → handle_timeout_event env (suc fuel) p w ≡ ok tt (drop p w)
  unfolding handle_timeout_event handle_timeout_task delete_task load modify signal
  handle_timeout_event-eq env st =
      let a = set_debug_str (literal "timed out") t in
      let b = mark_detached_and_complete true a in
      let c = set_task_state TaskState.timeout b in
      let raw : handle_timeout_event env (suc fuel) p w
          ≡ ok tt (record w {
            tasks =
                update (update (update (update w.tasks p (some a)) p (some b)) p (some c)) p none;
          }) =
        ground arith in
      raw
      ∙ ap (λ ts. ok tt (record w { tasks = ts }))
          (update₃ (update w.tasks p (some a)) p (some b) (some c) none
            ∙ update-update w.tasks p (some a) none)

  dispatch_live-canceled :
      (env : Env) (et : EventFlag) (res : ℤ)
      → t.is_cancel ≡ true
      → dispatch_live env (suc fuel) p et res w
        ≡ ok tt (record (drop p w) { inflight_count = pred_ℤ w.inflight_count })
  unfolding dispatch_live delete_task load modify signal set_inflight
  dispatch_live-canceled env et res canceled =
      let a = mark_detached_and_complete true t in
      let b = set_task_state TaskState.canceled a in
      let raw : dispatch_live env (suc fuel) p et res w
          ≡ ok tt (record w {
            tasks = update (update (update w.tasks p (some a)) p (some b)) p none;
            inflight_count = pred_ℤ w.inflight_count;
          }) =
        ground arith in
      raw
      ∙ ap (λ ts. ok tt (record w { tasks = ts; inflight_count = pred_ℤ w.inflight_count }))
          (update₃ w.tasks p (some a) (some b) none)

-- Any access to a task that was deleted is a fault.
dispatch_cqe-drop :
    (env : Env) (fuel : ℕ) (p : Ptr) (et : EventFlag) (res : ℤ) (w : World)
    → w.tasks p ≡ none
    → dispatch_cqe env fuel p et res w ≡ fault
unfolding dispatch_cqe load
dispatch_cqe-drop env fuel p et res w gone = ground arith

dispatch_cqe-submitted :
    (env : Env) (fuel : ℕ) (p : Ptr) (et : EventFlag) (res : ℤ) (w : World) {t : AsyncTask}
    → w.tasks p ≡ some t
    → t.task_state ≡ TaskState.submitted
    → dispatch_cqe env fuel p et res w ≡ dispatch_live env fuel p et res w
unfolding dispatch_cqe
dispatch_cqe-submitted env fuel p et res w at st = rw (load-eq p w at, dispatch_cqe) (rw st)

module _ (env : Env) (fuel : ℕ) (p : Ptr) (w : World) {t : AsyncTask} {b : KernelBuf}
    (at : w.tasks p ≡ some t) (buf : t.buffer ≡ some b) (last : t.next ≡ none)
    (st : t.task_state ≡ TaskState.submitted) (nc : t.is_cancel ≡ false) where
  expired : World
  expired = record (drop p w) { inflight_count = pred_ℤ w.inflight_count }

  dispatch_cqe-timeout :
      (res : ℤ) → dispatch_cqe env (suc fuel) p EventFlag.timeout res w ≡ ok tt expired
  unfolding handle_event set_inflight expired
  dispatch_cqe-timeout res =
      rw (dispatch_cqe-eq env (suc fuel) p res w EventFlag.timeout at st nc)
        (rw (handle_timeout_event-eq fuel p w at last env st))

  dispatch_cqe-interrupted :
      pos 0 <ℤ t.timeout_ms
      → dispatch_cqe env (suc fuel) p EventFlag.none (neg ecanceled) w ≡ ok tt expired
  unfolding handle_event handle_negative set_inflight expired
  dispatch_cqe-interrupted timed =
      let t₁ = with_result (neg ecanceled) t b in
      let s₀ : ltb_ℤ (pos 0) t.timeout_ms ≡ true = ground arith in
      rw (dispatch_cqe-eq env (suc fuel) p (neg ecanceled) w EventFlag.none at st nc) (
        rw (handle_normal_event-eq env (suc fuel) p (neg ecanceled) w at buf) (
          rw (load-eq p (put p t₁ w) (tasks-put_self p t₁ w)) (
            rw s₀ (
              rw (handle_timeout_event-eq fuel p (put p t₁ w) (tasks-put_self p t₁ w) last env st) (
                ap (λ v. ok tt (record v { inflight_count = pred_ℤ w.inflight_count }))
                  (drop-put p t₁ w))))))

  -- A timeout that expires makes two completions, its own and that of the operation (ECANCELED). For
  -- a submitted task without a successor, whichever comes first succeeds, deletes the task and takes
  -- one off the count of operations in flight; the other one, after it, is a use of freed memory.
  pub expiry_uses_freed_task :
      (res res' : ℤ)
      → pos 0 <ℤ t.timeout_ms
      → (dispatch_cqe env (suc fuel) p EventFlag.timeout res w
          ≡ ok tt (record (drop p w) { inflight_count = pred_ℤ w.inflight_count }))
        × (dispatch_cqe env (suc fuel) p EventFlag.none (neg ecanceled) w
            ≡ ok tt (record (drop p w) { inflight_count = pred_ℤ w.inflight_count }))
        × ((dispatch_cqe env (suc fuel) p EventFlag.timeout res
                >> dispatch_cqe env (suc fuel) p EventFlag.none res')
              w
            ≡ fault)
        × ((dispatch_cqe env (suc fuel) p EventFlag.none (neg ecanceled)
                >> dispatch_cqe env (suc fuel) p EventFlag.timeout res)
              w
            ≡ fault)
  unfolding expired
  expiry_uses_freed_task res res' timed =
      let gone : expired.tasks p ≡ none = ground arith in
      (
        dispatch_cqe-timeout res,
        dispatch_cqe-interrupted timed,
        rw (dispatch_cqe-timeout res)
            (dispatch_cqe-drop env (suc fuel) p EventFlag.none res' expired gone),
        rw (dispatch_cqe-interrupted timed)
            (dispatch_cqe-drop env (suc fuel) p EventFlag.timeout res expired gone),
      )

  dispatch_cqe-cancel :
      (res : ℤ)
      → pos 0 ≤ℤ res
      → dispatch_cqe env (suc fuel) p EventFlag.cancel res w
        ≡ ok tt
            (record (put p
              (set_debug_str (literal "cancelled") (record t { is_cancel = true }))
              w) { inflight_count = pred_ℤ w.inflight_count })
  unfolding handle_event handle_cancel_event modify set_inflight
  dispatch_cqe-cancel res good =
      let a = record t { is_cancel = true } in
      let raw : handle_event env (suc fuel) p EventFlag.cancel res w
          ≡ ok tt (record w {
            tasks =
                update (update w.tasks p (some a)) p (some (set_debug_str (literal "cancelled") a));
          }) =
        ground arith in
      rw (dispatch_cqe-eq env (suc fuel) p res w EventFlag.cancel at st nc) (
        rw raw (
          ap (λ ts. ok tt (record w { tasks = ts; inflight_count = pred_ℤ w.inflight_count }))
            (update-update w.tasks p _ _)))

  -- A successful cancellation makes two completions, its own and that of the operation. Together they
  -- delete a task without a successor and take two off the count of operations in flight, to which the
  -- one `AddTask` of the task had added one.
  pub cancel_counts_twice :
      (et : EventFlag) (res res' : ℤ)
      → pos 0 ≤ℤ res
      → (dispatch_cqe env (suc fuel) p EventFlag.cancel res
            >> dispatch_cqe env (suc fuel) p et res')
          w
        ≡ ok tt (record (drop p w) { inflight_count = pred_ℤ (pred_ℤ w.inflight_count) })
  cancel_counts_twice et res res' good =
      let c = set_debug_str (literal "cancelled") (record t { is_cancel = true }) in
      let w₁ = record (put p c w) { inflight_count = pred_ℤ w.inflight_count } in
      rw (dispatch_cqe-cancel res good) (
        rw (dispatch_cqe-submitted env (suc fuel) p et res' w₁ (tasks-put_self p c w) st) (
          rw (dispatch_live-canceled fuel p w₁ (tasks-put_self p c w) last env et res' refl) (
            ap (λ v. ok tt (record v { inflight_count = pred_ℤ (pred_ℤ w.inflight_count) }))
              (drop-put p c w))))
