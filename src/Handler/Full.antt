-- ===== src/Handler/Full.antt =====
-- `AddTask` when the submission queue has no entry left.
use async_io.Prelude.{
  ==_of_ne, Bool, ℕ, zero, suc, ◌+◌, ◌≡◌, ◌≢◌, refl, true, none, some, List, ◌∷◌, pos, ◌≤ℤ◌, ◌<ℤ◌,
  suc_ℤ, ltb_ℤ, inl, arith,
}
use async_io.Constants.{TaskState}
use async_io.Task.{Ptr, null, AsyncTask, set_task_state}
use async_io.Handler.World.{
  Env, World, M, ok, out_of_fuel, load, modify, put, put-put, tasks-put_self, modify-eq, load-eq,
  acquire_sqe, RingCall, get_sqe,
}
use async_io.Handler.Submit.{
  add_task, prepare, submit_task, queue_failed_task, handle_failed_task,
  try_transition_to_submitted, reserve_slot,
}
use async_io.Handler.Accept.{
  reserved, tasks-reserved, try_transition_to_submitted-eq, reserve_slot-eq,
}

-- The calls `calls`, and `k` more that ask for an entry.
asks : ℕ → List RingCall → List RingCall
asks zero calls = calls
asks (suc k) calls = asks k (get_sqe ∷ calls)

-- However often it is asked, the queue has no entry until something is handed to the kernel.
unfoldable pub StaysFull : Env → List RingCall → Type 0
unfolding asks
StaysFull env calls = (k : ℕ) → env.sqe_of (asks k calls) ≡ none

module _ (env : Env) (fuel : ℕ) (p : Ptr) (w : World) {t : AsyncTask} (at : w.tasks p ≡ some t)
    (more : pos (t.try_count + 1) <ℤ t.max_retry_count) where
  handle_failed_task-diverges :
      (add : Ptr → M Bool)
      → add p (put p (record t { task_state = TaskState.ready; try_count = t.try_count + 1 }) w)
        ≡ out_of_fuel
      → handle_failed_task env fuel add p w ≡ out_of_fuel
  unfolding handle_failed_task
  handle_failed_task-diverges add stuck =
      let t₁ = record t { try_count = t.try_count + 1 } in
      let w₁ = put p t₁ w in
      let s₁ : modify p (λ t. record t { try_count = t.try_count + 1 }) w ≡ ok tt w₁ =
        modify-eq p (λ t. record t { try_count = t.try_count + 1 }) w at in
      let s₂ : load p w₁ ≡ ok t₁ w₁ = load-eq p w₁ (tasks-put_self p t₁ w) in
      let s₃ : ltb_ℤ (pos (t.try_count + 1)) t.max_retry_count ≡ true = ground arith in
      let s₄ : modify p (set_task_state TaskState.ready) w₁
          ≡ ok tt (put p (set_task_state TaskState.ready t₁) w₁) =
        modify-eq p (set_task_state TaskState.ready) w₁ (tasks-put_self p t₁ w) in
      rw s₁
        (rw s₂ (rw s₃ (rw s₄ (rw (put-put p t₁ (set_task_state TaskState.ready t₁) w) (rw stuck)))))

module _ (env : Env) (fuel : ℕ) (p : Ptr) (w : World) {t : AsyncTask} (at : w.tasks p ≡ some t)
    (more : pos (t.try_count + 1) <ℤ t.max_retry_count) where
  submit_task-full :
      (add : Ptr → M Bool)
      → env.sqe_of w.ring ≡ none
      → env.sqe_of (get_sqe ∷ w.ring) ≡ none
      → add p (
          put p
            (record t { task_state = TaskState.ready; try_count = t.try_count + 1 })
            (record w { ring = get_sqe ∷ get_sqe ∷ w.ring }))
        ≡ out_of_fuel
      → submit_task env fuel add p w ≡ out_of_fuel
  unfolding submit_task queue_failed_task acquire_sqe
  submit_task-full add none₁ none₂ stuck = rw none₁ (
      rw (none₂, queue_failed_task)
        (rw (
          handle_failed_task-diverges env fuel p (record w { ring = get_sqe ∷ get_sqe ∷ w.ring }) at
            more add stuck)))

module _ (env : Env) (p : Ptr) (live : p ≢ null)
    (unlimited : env.config.max_inflight_ops ≤ℤ pos 0) where
  -- With no limit on operations in flight and no entry in the queue, `AddTask` of a task that is not
  -- submitted, with `max_retry_count_` of 2 or more, never returns, whatever the fuel: it calls itself
  -- through `SubmitTask`, `QueueFailedTask` and `HandleFailedTask`.
  pub full_queue_never_returns :
      (fuel : ℕ) (w : World) {t : AsyncTask}
      → w.tasks p ≡ some t
      → t.task_state ≢ TaskState.submitted
      → pos 1 <ℤ t.max_retry_count
      → StaysFull env w.ring
      → add_task env fuel p w ≡ out_of_fuel
  unfolding add_task StaysFull prepare asks
  full_queue_never_returns zero w at idle more full = refl
  full_queue_never_returns (suc fuel) w {t} at idle more full =
      let t₁ = set_task_state TaskState.submitted t in
      let t₂ = prepare t₁ in
      let w₁ = put p t₁ w in
      let w₂ = record w₁ { inflight_count = suc_ℤ w.inflight_count } in
      let w₃ = reserved p t w in
      let t₄ = record t₂ { task_state = TaskState.ready; try_count = t₂.try_count + 1 } in
      let w₄ = put p t₄ (record w₃ { ring = get_sqe ∷ get_sqe ∷ w.ring }) in
      let s₁ : try_transition_to_submitted p w ≡ ok true w₁ =
        try_transition_to_submitted-eq p w at idle in
      let s₂ : reserve_slot env w₁ ≡ ok true w₂ = reserve_slot-eq env w₁ (inl unlimited) in
      let s₃ : modify p prepare w₂ ≡ ok tt w₃ = modify-eq p prepare w₂ (tasks-put_self p t₁ w) in
      let again : add_task env fuel p w₄ ≡ out_of_fuel =
        full_queue_never_returns fuel w₄ {t = t₄}
          (tasks-put_self p t₄ (record w₃ { ring = get_sqe ∷ get_sqe ∷ w.ring })) (λ e. cc) more
          (λ k. full (suc (suc k))) in
      let s₄ : submit_task env fuel (add_task env fuel) p w₃ ≡ out_of_fuel =
        submit_task-full env fuel p w₃ {t = t₂} (tasks-reserved p t w) (ground (arith, more))
          (add_task env fuel) (full 0) (full 1) again in
      rw (==_of_ne p null live) (rw s₁ (rw s₂ (rw s₃ (rw s₄))))
