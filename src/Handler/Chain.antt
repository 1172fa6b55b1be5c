-- ===== src/Handler/Chain.antt =====
-- A task with a successor, after its completion: `SetNextTask` of AsyncTask, and what
-- `HandleNormalEvent` does with the task that it releases.
use async_io.Prelude.{
  ℕ, suc, ◌≡◌, ◌≢◌, refl, sym, true, false, none, some, ℤ, ◌∷◌, pos, ◌<ℤ◌, ◌≤ℤ◌, ltb_ℤ, ◌==ℤ◌,
  pred_ℤ, pred_ℤ-suc_ℤ, ap, ◌∙◌, Bool, arith,
}
use async_io.Constants.{TaskState, EventFlag}
use async_io.Result.{DoneState, signal}
use async_io.KernelBuf.{KernelBuf}
use async_io.Task.{Ptr, null, AsyncTask, set_task_state}
use async_io.Handler.World.{
  Env, World, ok, load, modify, put, update, update₃, tasks-put_self, set_inflight, RingCall,
  get_sqe, set_user_data, submit,
}
use async_io.Handler.Submit.{prepare, execute_completion_handler, add_task}
use async_io.Handler.Dispatch.{
  handle_zero, handle_positive, handle_event, dispatch_cqe, add_next_task,
}
use async_io.Handler.Gate.{add_task-saturated}
use async_io.Handler.Accept.{io_call, HasRoom, in_flight, after_accept, add_task-accepted}
use async_io.Handler.Completion.{with_result, handle_normal_event-eq, dispatch_cqe-eq}

-- The predecessor when its successor is submitted.
abbrev pub unlinked : AsyncTask → AsyncTask
unlinked t = record t { task_state = TaskState.success; detach = true; next = none }

abbrev pub completed : AsyncTask → AsyncTask
completed t = record (unlinked t) { done_state = DoneState.signaled }

module _ (env : Env) (fuel : ℕ) (p : Ptr) (w : World) {t : AsyncTask} (at : w.tasks p ≡ some t)
    (w₂ : World) {t₂ : AsyncTask} (h : env.run_handler p w ≡ w₂) (at₂ : w₂.tasks p ≡ some t₂)
    (once : t₂.repeat_forever ≡ false) (n : Ptr) (linked : t₂.next ≡ some n) (w₃ : World)
    (added : Bool) (ran : add_task env fuel n (put p (unlinked t₂) w₂) ≡ ok added w₃) where
  -- The stores to the predecessor come to this one.
  unlinked_world :
      record w₂ {
        tasks =
            update
              (update
                (update w₂.tasks p (some (set_task_state TaskState.success t₂)))
                p
                (some (record t₂ { task_state = TaskState.success; detach = true })))
              p
              (some (unlinked t₂));
      }
      ≡ put p (unlinked t₂) w₂
  unlinked_world = ap (λ ts. record w₂ { tasks = ts }) (update₃ w₂.tasks p _ _ _)

  handle_zero_chained : handle_zero env fuel p w ≡ ok tt w₃
  unfolding handle_zero execute_completion_handler add_next_task load modify
  handle_zero_chained = let stored = ap (add_task env fuel n) unlinked_world ∙ ran in ground arith

  handle_positive_chained :
      w₃.tasks p ≡ some (unlinked t₂)
      → handle_positive env fuel p w ≡ ok tt (put p (completed t₂) w₃)
  unfolding handle_positive execute_completion_handler add_next_task load modify signal
  handle_positive_chained at₃ =
      let stored = ap (add_task env fuel n) unlinked_world ∙ ran in ground arith

module _ (env : Env) (fuel : ℕ) (p : Ptr) (w : World) {t : AsyncTask} {b : KernelBuf} (res : ℤ)
    (at : w.tasks p ≡ some t) (buf : t.buffer ≡ some b) (st : t.task_state ≡ TaskState.submitted)
    (nc : t.is_cancel ≡ false) (w₂ : World) {t₂ : AsyncTask}
    (h : env.run_handler p (put p (with_result res t b) w) ≡ w₂) (at₂ : w₂.tasks p ≡ some t₂)
    (once : t₂.repeat_forever ≡ false) (n : Ptr) (linked : t₂.next ≡ some n) where
  chained_positive :
      (w₃ : World) (added : Bool)
      → pos 0 <ℤ res
      → add_task env fuel n (put p (unlinked t₂) w₂) ≡ ok added w₃
      → w₃.tasks p ≡ some (unlinked t₂)
      → dispatch_cqe env fuel p EventFlag.none res w
        ≡ ok tt (record (put p (completed t₂) w₃) { inflight_count = pred_ℤ w₃.inflight_count })
  unfolding handle_event set_inflight
  chained_positive w₃ added above ran at₃ =
      let s₀ : ltb_ℤ res (pos 0) ≡ false = ground arith in
      let s₁ : (res ==ℤ pos 0) ≡ false = ground arith in
      rw (dispatch_cqe-eq env fuel p res w EventFlag.none at st nc) (
        rw (handle_normal_event-eq env fuel p res w at buf) (
          rw (s₀, s₁)
            (rw (
              handle_positive_chained env fuel p _ (tasks-put_self p (with_result res t b) w) w₂ h
                at₂ once n linked w₃ added ran at₃))))

  chained_zero :
      (w₃ : World) (added : Bool)
      → res ≡ pos 0
      → add_task env fuel n (put p (unlinked t₂) w₂) ≡ ok added w₃
      → dispatch_cqe env fuel p EventFlag.none res w
        ≡ ok tt (record w₃ { inflight_count = pred_ℤ w₃.inflight_count })
  unfolding handle_event set_inflight
  chained_zero w₃ added zero ran =
      let s₀ : ltb_ℤ res (pos 0) ≡ false = ground arith in
      let s₁ : (res ==ℤ pos 0) ≡ true = ground arith in
      rw (dispatch_cqe-eq env fuel p res w EventFlag.none at st nc) (
        rw (handle_normal_event-eq env fuel p res w at buf) (
          rw (s₀, s₁)
            (rw (
              handle_zero_chained env fuel p _ (tasks-put_self p (with_result res t b) w) w₂ h at₂
                once n linked w₃ added ran))))

module _ (env : Env) (fuel : ℕ) (p : Ptr) (w : World) {t : AsyncTask} {b : KernelBuf} (res : ℤ)
    (at : w.tasks p ≡ some t) (buf : t.buffer ≡ some b) (st : t.task_state ≡ TaskState.submitted)
    (nc : t.is_cancel ≡ false) (w₂ : World) {t₂ s : AsyncTask}
    (h : env.run_handler p (put p (with_result res t b) w) ≡ w₂) (at₂ : w₂.tasks p ≡ some t₂)
    (once : t₂.repeat_forever ≡ false) (n : Ptr) (linked : t₂.next ≡ some n) (live : n ≢ null)
    (other : n ≢ p) (at_n : w₂.tasks n ≡ some s) (idle : s.task_state ≢ TaskState.submitted) where
  module _ {b' : KernelBuf} {e : ℕ} {c : RingCall} (buf' : s.buffer ≡ some b')
      (room : HasRoom env w₂) (entry : env.sqe_of w₂.ring ≡ some e)
      (call : io_call s.task_type s.fd b' e ≡ some c) (untimed : s.timeout_ms ≤ℤ pos 0) where
    -- With room under the limit and an entry in the ring, the completion of a task with a result above
    -- 0, and with a successor of a type that needs no check, with no timeout and not submitted: the
    -- successor is in flight, with an entry that carries its address; the task has succeeded, is
    -- detached, signalled and no longer linked; and as many operations are in flight as the handler left.
    pub chain_continues :
        pos 0 <ℤ res
        → (w' : World) × (dispatch_cqe env (suc fuel) p EventFlag.none res w ≡ ok tt w')
          × (w'.tasks p ≡ some (completed t₂))
          × (w'.tasks n ≡ some (in_flight n s))
          × (w'.ring ≡ submit ∷ set_user_data e n ∷ c ∷ get_sqe ∷ w₂.ring)
          × (w'.inflight_count ≡ w₂.inflight_count)
    unfolding prepare
    chain_continues above =
        let w_n = put p (unlinked t₂) w₂ in
        let calls = submit ∷ set_user_data e n ∷ c ∷ get_sqe ∷ w₂.ring in
        let w₃ = after_accept n s calls w_n in
        let here : w_n.tasks n ≡ some s = ground arith in
        let ran = add_task-accepted env fuel n w_n live here buf' idle room entry call untimed in
        let kept : w₃.tasks p ≡ some (unlinked t₂) = ground arith in
        (
          record (put p (completed t₂) w₃) { inflight_count = pred_ℤ w₃.inflight_count },
          chained_positive env (suc fuel) p w res at buf st nc w₂ h at₂ once n linked w₃ true above
              ran kept,
          ground arith,
          ground arith,
          refl,
          pred_ℤ-suc_ℤ w₂.inflight_count,
        )

    -- The same completion with a result of 0: the successor is in flight all the same, and the task has
    -- succeeded and is detached, but its completion is not signalled: its waiting state stays as it was.
    pub chain_at_end_unsignalled :
        res ≡ pos 0
        → (w' : World) × (dispatch_cqe env (suc fuel) p EventFlag.none res w ≡ ok tt w')
          × (w'.tasks p ≡ some (unlinked t₂))
          × (w'.tasks n ≡ some (in_flight n s))
          × (w'.ring ≡ submit ∷ set_user_data e n ∷ c ∷ get_sqe ∷ w₂.ring)
          × (w'.inflight_count ≡ w₂.inflight_count)
    unfolding prepare
    chain_at_end_unsignalled zero =
        let w_n = put p (unlinked t₂) w₂ in
        let calls = submit ∷ set_user_data e n ∷ c ∷ get_sqe ∷ w₂.ring in
        let w₃ = after_accept n s calls w_n in
        let here : w_n.tasks n ≡ some s = ground arith in
        let ran = add_task-accepted env fuel n w_n live here buf' idle room entry call untimed in
        (
          record w₃ { inflight_count = pred_ℤ w₃.inflight_count },
          chained_zero env (suc fuel) p w res at buf st nc w₂ h at₂ once n linked w₃ true zero ran,
          ground arith,
          ground arith,
          refl,
          pred_ℤ-suc_ℤ w₂.inflight_count,
        )

  -- At the limit on operations in flight the successor is refused, since the slot of the completed task
  -- is given back only afterwards: it stays ready with nothing submitted for it, and the task, which
  -- has succeeded, no longer leads to it.
  pub chain_dropped :
      pos 0 <ℤ res
      → pos 0 <ℤ env.config.max_inflight_ops
      → env.config.max_inflight_ops ≤ℤ w₂.inflight_count
      → (w' : World) × (dispatch_cqe env (suc fuel) p EventFlag.none res w ≡ ok tt w')
        × (w'.tasks p ≡ some (completed t₂))
        × (w'.tasks n ≡ some (record s { task_state = TaskState.ready }))
        × (w'.ring ≡ w₂.ring)
        × (w'.inflight_count ≡ pred_ℤ w₂.inflight_count)
  chain_dropped above limited full =
      let w_n = put p (unlinked t₂) w₂ in
      let here : w_n.tasks n ≡ some s = ground arith in
      let (w₃, ran, at₃, frame, count, calls) =
        add_task-saturated env fuel n w_n live here idle limited full in
      let same : p ≢ n = λ q. other (sym q) in
      let kept : w₃.tasks p ≡ some (unlinked t₂) =
        frame p same ∙ tasks-put_self p (unlinked t₂) w₂ in
      (
        record (put p (completed t₂) w₃) { inflight_count = pred_ℤ w₃.inflight_count },
        chained_positive env (suc fuel) p w res at buf st nc w₂ h at₂ once n linked w₃ false above
            ran kept,
        ground arith,
        ground (arith, at₃),
        calls,
        ap pred_ℤ count,
      )
