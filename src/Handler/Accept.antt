-- ===== src/Handler/Accept.antt =====
-- `AddTask` of a task that passes the gates, and the calls of liburing that it makes.
use async_io.Prelude.{
  pos_part, ◌/◌, ◌*◌, ==_of_ne, ℕ, suc, ◌%◌, ◌^◌, ◌≡◌, ◌≢◌, ◌⊎◌, true, Option, none, some, ℤ, List,
  ◌∷◌, ap, pos, ◌≤ℤ◌, ◌<ℤ◌, suc_ℤ, arith,
}
use async_io.Constants.{timeout_bit, TaskType, TaskState}
use async_io.KernelBuf.{KernelBuf}
use async_io.Task.{Ptr, null, AsyncTask, set_task_state}
use async_io.Handler.World.{
  Env, World, ok, load, modify, emit, acquire_sqe, set_inflight, put, update₃, tasks-put_self,
  modify-eq, RingCall, get_sqe, prep_read, prep_write, prep_accept, set_user_data, set_link,
  drop_timespec, prep_link_timeout, submit,
}
use async_io.Handler.UserData.{u64, or_bit}
use async_io.Handler.Submit.{
  add_task, prepare, try_transition_to_submitted, reserve_slot, submit_task, submit_entry,
  finish_submit, load_buffer,
}

-- The one entry that a task stands for; `none` for a type that is not supported here.
abbrev pub io_call : TaskType → (fd : ℤ) → KernelBuf → ℕ → Option RingCall
io_call TaskType.read fd b e = some (prep_read e fd (b.size % 2 ^ 32) (u64 b.offset))
io_call TaskType.write fd b e = some (prep_write e fd (b.size % 2 ^ 32) (u64 b.offset))
io_call TaskType.accept fd b e = some (prep_accept e fd)
io_call _ fd b e = none

-- There is room for one more operation.
abbrev pub HasRoom : Env → World → Type 0
HasRoom env w =
    (env.config.max_inflight_ops ≤ℤ pos 0) ⊎ (w.inflight_count <ℤ env.config.max_inflight_ops)

-- An accepted task.
abbrev pub in_flight : Ptr → AsyncTask → AsyncTask
in_flight p t = record (prepare t) { task_state = TaskState.submitted; user_data = p }

-- The task is `u` now, one more operation is in flight, and these calls were made.
abbrev pub admitted : Ptr → AsyncTask → List RingCall → World → World
admitted p u calls w = put p u (record w { inflight_count = suc_ℤ w.inflight_count; ring = calls })

abbrev pub after_accept : Ptr → AsyncTask → List RingCall → World → World
after_accept p t = admitted p (in_flight p t)

-- The state in which a task that passed the gates is submitted.
abbrev pub reserved : Ptr → AsyncTask → World → World
reserved p t w =
    put p (prepare (set_task_state TaskState.submitted t))
      (record (put p (set_task_state TaskState.submitted t) w) {
        inflight_count = suc_ℤ w.inflight_count;
      })

pub tasks-reserved :
    (p : Ptr) (t : AsyncTask) (w : World)
    → (reserved p t w).tasks p ≡ some (prepare (set_task_state TaskState.submitted t))
tasks-reserved p t w =
    tasks-put_self p (prepare (set_task_state TaskState.submitted t))
      (record (put p (set_task_state TaskState.submitted t) w) {
        inflight_count = suc_ℤ w.inflight_count;
      })

-- The calls for a task with a timeout: an entry `e`, linked to the timeout's entry `e'`.
abbrev pub timed_calls : (e e' : ℕ) → Ptr → ℤ → RingCall → List RingCall → List RingCall
timed_calls e e' p timeout_ms c calls =
    drop_timespec e'
    ∷ set_user_data e' (or_bit p timeout_bit)
    ∷ prep_link_timeout e' (pos_part timeout_ms / 1000) (pos_part timeout_ms % 1000 * 1_000_000)
    ∷ get_sqe
    ∷ set_link e
    ∷ set_user_data e p
    ∷ c
    ∷ get_sqe
    ∷ calls

pub try_transition_to_submitted-eq :
    (p : Ptr) (w : World) {t : AsyncTask}
    → w.tasks p ≡ some t
    → t.task_state ≢ TaskState.submitted
    → try_transition_to_submitted p w ≡ ok true (put p (set_task_state TaskState.submitted t) w)
unfolding try_transition_to_submitted load modify
try_transition_to_submitted-eq p w at ne = ground arith

pub reserve_slot-eq :
    (env : Env) (w : World)
    → HasRoom env w
    → reserve_slot env w ≡ ok true (record w { inflight_count = suc_ℤ w.inflight_count })
unfolding reserve_slot set_inflight
reserve_slot-eq env w room = ground arith

module _ (env : Env) (fuel : ℕ) (p : Ptr) (w : World) {t : AsyncTask} {b : KernelBuf} {c : RingCall}
    {e : ℕ} (at : w.tasks p ≡ some t) (buf : t.buffer ≡ some b) (entry : env.sqe_of w.ring ≡ some e)
    (call : io_call t.task_type t.fd b e ≡ some c) where
  submit_task-eq :
      t.timeout_ms ≤ℤ pos 0
      → submit_task env fuel (add_task env fuel) p w
        ≡ ok tt (
            put p
              (record t { user_data = p })
              (record w { ring = set_user_data e p ∷ c ∷ get_sqe ∷ w.ring }))
  unfolding submit_task submit_entry finish_submit load_buffer load modify emit acquire_sqe
  submit_task-eq untimed = ground arith

module _ (env : Env) (fuel : ℕ) (p : Ptr) (w : World) {t : AsyncTask} {b : KernelBuf} {c : RingCall}
    {e e' : ℕ} (at : w.tasks p ≡ some t) (buf : t.buffer ≡ some b)
    (entry : env.sqe_of w.ring ≡ some e) (call : io_call t.task_type t.fd b e ≡ some c)
    (entry' : env.sqe_of (set_link e ∷ set_user_data e p ∷ c ∷ get_sqe ∷ w.ring) ≡ some e')
    (timed : pos 0 <ℤ t.timeout_ms) where
  submit_task-timed :
      submit_task env fuel (add_task env fuel) p w
      ≡ ok tt (
          put p
            (record t { user_data = p })
            (record w { ring = timed_calls e e' p t.timeout_ms c w.ring }))
  unfolding submit_task submit_entry finish_submit load_buffer load modify emit acquire_sqe
  submit_task-timed = ground arith

module _ (env : Env) (fuel : ℕ) (p : Ptr) (w : World) {t : AsyncTask} (live : p ≢ null)
    (at : w.tasks p ≡ some t) (idle : t.task_state ≢ TaskState.submitted)
    (room : HasRoom env w) where
  pub add_task-submits :
      (calls : List RingCall) (u : AsyncTask)
      → submit_task env fuel (add_task env fuel) p (reserved p t w)
        ≡ ok tt (put p u (record (reserved p t w) { ring = calls }))
      → add_task env (suc fuel) p w ≡ ok true (admitted p u (submit ∷ calls) w)
  unfolding add_task emit
  add_task-submits calls u s₄ =
      let t₁ = set_task_state TaskState.submitted t in
      let w₁ = put p t₁ w in
      let w₂ = record w₁ { inflight_count = suc_ℤ w.inflight_count } in
      let s₁ : try_transition_to_submitted p w ≡ ok true w₁ =
        try_transition_to_submitted-eq p w at idle in
      let s₂ : reserve_slot env w₁ ≡ ok true w₂ = reserve_slot-eq env w₁ room in
      let s₃ : modify p prepare w₂ ≡ ok tt (reserved p t w) =
        modify-eq p prepare w₂ (tasks-put_self p t₁ w) in
      rw (==_of_ne p null live) (
        rw s₁ (
          rw s₂ (
            rw s₃ (
              rw s₄ (
                ap
                  (λ ts. ok true (record w {
                    tasks = ts;
                    inflight_count = suc_ℤ w.inflight_count;
                    ring = submit ∷ calls;
                  }))
                  (update₃ w.tasks p (some t₁) (some (prepare t₁)) (some u)))))))

module _ (env : Env) (fuel : ℕ) (p : Ptr) (w : World) {t : AsyncTask} {b : KernelBuf} {c : RingCall}
    {e : ℕ} (live : p ≢ null) (at : w.tasks p ≡ some t) (buf : t.buffer ≡ some b)
    (idle : t.task_state ≢ TaskState.submitted) (room : HasRoom env w)
    (entry : env.sqe_of w.ring ≡ some e) (call : io_call t.task_type t.fd b e ≡ some c) where
  -- `AddTask` of a task of a type that needs no check, not submitted and with no timeout, where there
  -- is room and an entry: the task is in flight (submitted, not detached, not cancelled, not done),
  -- is counted, and has one entry that carries its address and is handed to the kernel.
  pub add_task-accepted :
      t.timeout_ms ≤ℤ pos 0
      → add_task env (suc fuel) p w
        ≡ ok true (after_accept p t (submit ∷ set_user_data e p ∷ c ∷ get_sqe ∷ w.ring) w)
  unfolding prepare
  add_task-accepted untimed =
      add_task-submits env fuel p w live at idle room (set_user_data e p ∷ c ∷ get_sqe ∷ w.ring)
        (in_flight p t)
        (submit_task-eq env fuel p (reserved p t w) (tasks-reserved p t w) buf entry call untimed)

  -- A task with a timeout and of a type that needs no check (read, write or accept), not submitted,
  -- with room under the limit and two free entries: `AddTask` makes two entries, the operation's linked
  -- to the timeout's. The timeout that the second one points to is gone (`drop_timespec`) before the
  -- entries are handed to the kernel.
  pub add_task-timed :
      {e' : ℕ}
      → pos 0 <ℤ t.timeout_ms
      → env.sqe_of (set_link e ∷ set_user_data e p ∷ c ∷ get_sqe ∷ w.ring) ≡ some e'
      → add_task env (suc fuel) p w
        ≡ ok true (after_accept p t (submit ∷ timed_calls e e' p t.timeout_ms c w.ring) w)
  unfolding prepare
  add_task-timed {e'} timed entry' =
      add_task-submits env fuel p w live at idle room (timed_calls e e' p t.timeout_ms c w.ring)
        (in_flight p t)
        (submit_task-timed env fuel p (reserved p t w) (tasks-reserved p t w) buf entry call entry'
          timed)
