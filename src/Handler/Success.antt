-- ===== src/Handler/Success.antt =====
-- Completions with a result of 0 or more, for a task in flight. `w₂` is the state that the
-- completion handler leaves behind, and `t₂` the task in it: nothing else is assumed of the handler.
use async_io.Prelude.{
  ℕ, suc, ◌≡◌, ap, ◌∙◌, true, false, none, some, ℤ, pos, negsuc, ◌<ℤ◌, ltb_ℤ, ◌==ℤ◌, Bool-cases,
  inl, inr, if◌then◌else◌, Bool, pred_ℤ, ◌∷◌, arith,
}
use async_io.Constants.{TaskState, EventFlag}
use async_io.Result.{DoneState, signal}
use async_io.KernelBuf.{KernelBuf}
use async_io.Task.{Ptr, AsyncTask, set_task_state, mark_detached_and_complete}
use async_io.Handler.World.{
  Env, World, ok, load, modify, put, update, update-update, update₃, drop, tasks-put_self,
  set_inflight, close_fd,
}
use async_io.Handler.Submit.{execute_completion_handler, delete_task, add_task}
use async_io.Handler.Dispatch.{
  handle_zero, handle_positive, handle_event, dispatch_cqe, close_and_delete, add_next_task,
}
use async_io.Handler.Completion.{with_result, handle_normal_event-eq, dispatch_cqe-eq}

-- A task that has succeeded, and one whose completion was signalled too.
abbrev pub succeeded : AsyncTask → AsyncTask
succeeded t = record t { task_state = TaskState.success; detach = true }

abbrev pub signalled : AsyncTask → AsyncTask
signalled t = record t {
  task_state = TaskState.success;
  detach = true;
  done_state = DoneState.signaled;
}

module _ (env : Env) (fuel : ℕ) (p : Ptr) (w : World) {t : AsyncTask} (at : w.tasks p ≡ some t)
    (w₂ : World) {t₂ : AsyncTask} (h : env.run_handler p w ≡ w₂) (at₂ : w₂.tasks p ≡ some t₂) where
  handle_positive_one_shot :
      t₂.repeat_forever ≡ false
      → t₂.next ≡ none
      → handle_positive env fuel p w ≡ ok tt (put p (signalled t₂) w₂)
  unfolding handle_positive execute_completion_handler add_next_task load modify signal
  handle_positive_one_shot once last =
      let raw : handle_positive env fuel p w
          ≡ ok tt (record w₂ {
            tasks =
                update
                  (update (update w₂.tasks p (some (set_task_state TaskState.success t₂))) p
                    (some (succeeded t₂)))
                  p (some (signalled t₂));
          }) =
        ground arith in
      raw ∙ ap (λ ts. ok tt (record w₂ { tasks = ts })) (update₃ w₂.tasks p _ _ _)

  handle_positive_repeat :
      t₂.repeat_forever ≡ true
      → (w₃ : World) (added : Bool) {t₃ : AsyncTask}
      → add_task env fuel p (put p (set_task_state TaskState.success t₂) w₂) ≡ ok added w₃
      → w₃.tasks p ≡ some t₃
      → t₃.repeat_forever ≡ true
      → t₃.next ≡ none
      → handle_positive env fuel p w ≡ ok tt w₃
  unfolding handle_positive execute_completion_handler add_next_task load modify
  handle_positive_repeat again w₃ added ran at₃ again₃ last = ground arith

  handle_zero_one_shot :
      t₂.repeat_forever ≡ false
      → t₂.next ≡ none
      → handle_zero env (suc fuel) p w
        ≡ ok tt (record (drop p w₂) {
          closed = if ltb_ℤ (pos 0) t₂.fd then t₂.fd ∷ w₂.closed else w₂.closed;
        })
  unfolding handle_zero execute_completion_handler close_and_delete load modify close_fd delete_task
      signal
  handle_zero_one_shot once last = elim (Bool-cases (ltb_ℤ (pos 0) t₂.fd)) [
    | inl open_fd ↦
        let t₃ = record t₂ { fd = negsuc 0 } in
        let raw : handle_zero env (suc fuel) p w
            ≡ ok tt (record w₂ {
              tasks =
                  update
                    (update
                      (update (update w₂.tasks p (some t₃)) p
                        (some (mark_detached_and_complete true t₃)))
                      p (some (signalled t₃)))
                    p none;
              closed = t₂.fd ∷ w₂.closed;
            }) =
          ground arith in
        rw open_fd (
          raw
          ∙ ap (λ ts. ok tt (record w₂ { tasks = ts; closed = t₂.fd ∷ w₂.closed }))
              (update-update
                  (update (update w₂.tasks p (some t₃)) p
                    (some (mark_detached_and_complete true t₃)))
                  p (some (signalled t₃)) none
                ∙ update₃ w₂.tasks p _ _ none))
    | inr no_fd ↦
        let raw : handle_zero env (suc fuel) p w
            ≡ ok tt (record w₂ {
              tasks =
                  update
                    (update (update w₂.tasks p (some (mark_detached_and_complete true t₂))) p
                      (some (signalled t₂)))
                    p none;
            }) =
          ground arith in
        rw no_fd (raw ∙ ap (λ ts. ok tt (record w₂ { tasks = ts })) (update₃ w₂.tasks p _ _ none))
  ]

module _ (env : Env) (fuel : ℕ) (p : Ptr) (w : World) {t : AsyncTask} {b : KernelBuf} (res : ℤ)
    (at : w.tasks p ≡ some t) (buf : t.buffer ≡ some b) (st : t.task_state ≡ TaskState.submitted)
    (nc : t.is_cancel ≡ false) where
  -- A result above 0 of a task that neither repeats nor is chained: the task succeeds, is detached, its
  -- completion is signalled, and one operation fewer is in flight; the task is not deleted.
  pub one_shot_succeeds :
      (w₂ : World) {t₂ : AsyncTask}
      → pos 0 <ℤ res
      → env.run_handler p (put p (with_result res t b) w) ≡ w₂
      → w₂.tasks p ≡ some t₂
      → t₂.repeat_forever ≡ false
      → t₂.next ≡ none
      → dispatch_cqe env fuel p EventFlag.none res w
        ≡ ok tt
            (record (put p
              (record t₂ {
                task_state = TaskState.success;
                detach = true;
                done_state = DoneState.signaled;
              })
              w₂) { inflight_count = pred_ℤ w₂.inflight_count })
  unfolding handle_event set_inflight
  one_shot_succeeds w₂ {t₂} above h at₂ once last =
      let s₀ : ltb_ℤ res (pos 0) ≡ false = ground arith in
      let s₁ : (res ==ℤ pos 0) ≡ false = ground arith in
      rw (dispatch_cqe-eq env fuel p res w EventFlag.none at st nc) (
        rw (handle_normal_event-eq env fuel p res w at buf) (
          rw (s₀, s₁)
            (rw (
              handle_positive_one_shot env fuel p _ (tasks-put_self p (with_result res t b) w) w₂ h
                at₂ once last))))

  -- A result of 0 (end of file, or a peer that closed) of a submitted task that neither repeats nor
  -- has a successor: its descriptor is closed if it is above 0, the task is deleted, and one operation
  -- fewer is in flight.
  pub one_shot_ends :
      (w₂ : World) {t₂ : AsyncTask}
      → res ≡ pos 0
      → env.run_handler p (put p (with_result res t b) w) ≡ w₂
      → w₂.tasks p ≡ some t₂
      → t₂.repeat_forever ≡ false
      → t₂.next ≡ none
      → dispatch_cqe env (suc fuel) p EventFlag.none res w
        ≡ ok tt (record (drop p w₂) {
          closed = if ltb_ℤ (pos 0) t₂.fd then t₂.fd ∷ w₂.closed else w₂.closed;
          inflight_count = pred_ℤ w₂.inflight_count;
        })
  unfolding handle_event set_inflight
  one_shot_ends w₂ {t₂} zero h at₂ once last =
      let s₀ : ltb_ℤ res (pos 0) ≡ false = ground arith in
      let s₁ : (res ==ℤ pos 0) ≡ true = ground arith in
      rw (dispatch_cqe-eq env (suc fuel) p res w EventFlag.none at st nc) (
        rw (handle_normal_event-eq env (suc fuel) p res w at buf) (
          rw (s₀, s₁)
            (rw (
              handle_zero_one_shot env fuel p _ (tasks-put_self p (with_result res t b) w) w₂ h at₂
                once last))))

  -- A result above 0 of a task that repeats and has no successor, where `AddTask` returns with the state
  -- `w₃`: the outcome is that state with one operation fewer in flight, whether or not `AddTask` took
  -- the task.
  pub repeat_resubmits :
      (w₂ w₃ : World) (added : Bool) {t₂ t₃ : AsyncTask}
      → pos 0 <ℤ res
      → env.run_handler p (put p (with_result res t b) w) ≡ w₂
      → w₂.tasks p ≡ some t₂
      → t₂.repeat_forever ≡ true
      → add_task env fuel p (put p (set_task_state TaskState.success t₂) w₂) ≡ ok added w₃
      → w₃.tasks p ≡ some t₃
      → t₃.repeat_forever ≡ true
      → t₃.next ≡ none
      → dispatch_cqe env fuel p EventFlag.none res w
        ≡ ok tt (record w₃ { inflight_count = pred_ℤ w₃.inflight_count })
  unfolding handle_event set_inflight
  repeat_resubmits w₂ w₃ added above h at₂ again ran at₃ again₃ last =
      let s₀ : ltb_ℤ res (pos 0) ≡ false = ground arith in
      let s₁ : (res ==ℤ pos 0) ≡ false = ground arith in
      rw (dispatch_cqe-eq env fuel p res w EventFlag.none at st nc) (
        rw (handle_normal_event-eq env fuel p res w at buf) (
          rw (s₀, s₁)
            (rw (
              handle_positive_repeat env fuel p _ (tasks-put_self p (with_result res t b) w) w₂ h
                at₂ again w₃ added ran at₃ again₃ last))))
