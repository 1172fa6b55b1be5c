-- ===== src/Handler/Reject.antt =====
-- Tasks that `SubmitTask` does not take: unsupported types, and connections that are not valid.
use async_io.Prelude.{
  ℕ, suc, ◌≡◌, ◌≢◌, refl, ap, ◌∙◌, true, ◌↔◌, ◌≤◌, Option, none, some, List, ◌∷◌, pos, neg, ◌<ℤ◌,
  arith,
}
use text.Mathlib.TextEquality.{eq_iff}
use async_io.Constants.{TaskType, TaskState, error_bit, einval}
use async_io.KernelBuf.{KernelBuf, set_bytes_transferred}
use async_io.Task.{Ptr, null, AsyncTask, set_task_state}
use async_io.Handler.World.{
  Env, World, ok, load, modify, emit, acquire_sqe, put, update, update-update, RingCall, get_sqe,
  prep_timeout, set_user_data, submit,
}
use async_io.Handler.UserData.{or_bit}
use async_io.Handler.Submit.{
  add_task, prepare, submit_task, submit_entry, queue_failed_task, load_buffer, modify_buffer,
  validate_connect_task, is_valid_address, af_inet, sizeof_sockaddr_in,
}
use async_io.Handler.Accept.{HasRoom, admitted, reserved, tasks-reserved, add_task-submits}
use async_io.Handler.Completion.{with_result}

-- The types for which `SubmitTask` makes no entry.
abbrev pub IsUnsupported : TaskType → Type 0
IsUnsupported TaskType.read = ⊥
IsUnsupported TaskType.write = ⊥
IsUnsupported TaskType.accept = ⊥
IsUnsupported TaskType.connect = ⊥
IsUnsupported _ = Unit

-- The timeout of length 0 that stands for a failure, in the entry `e'`.
abbrev pub failure_calls : ℕ → Ptr → List RingCall → List RingCall
failure_calls e' p calls =
    submit ∷ set_user_data e' (or_bit p error_bit) ∷ prep_timeout e' ∷ get_sqe ∷ calls

module _ (env : Env) (fuel : ℕ) (p : Ptr) (w : World) {t : AsyncTask} {b : KernelBuf} {e e' : ℕ}
    (at : w.tasks p ≡ some t) (buf : t.buffer ≡ some b) (entry : env.sqe_of w.ring ≡ some e)
    (entry' : env.sqe_of (get_sqe ∷ w.ring) ≡ some e') (odd : IsUnsupported t.task_type) where
  submit_task-unsupported :
      submit_task env fuel (add_task env fuel) p w
      ≡ ok tt (
          put p
            (with_result (neg einval) t b)
            (record w { ring = failure_calls e' p (get_sqe ∷ w.ring) }))
  unfolding submit_task submit_entry queue_failed_task load_buffer modify_buffer load modify emit
      acquire_sqe
  submit_task-unsupported =
      let u = record t { buffer = some (set_bytes_transferred (neg einval) b) } in
      let raw : submit_task env fuel (add_task env fuel) p w
          ≡ ok tt (record w {
            tasks = update (update w.tasks p (some u)) p (some (with_result (neg einval) t b));
            ring = failure_calls e' p (get_sqe ∷ w.ring);
          }) =
        ground arith in
      raw
      ∙ ap (λ ts. ok tt (record w { tasks = ts; ring = failure_calls e' p (get_sqe ∷ w.ring) }))
          (update-update w.tasks p (some u) (some (with_result (neg einval) t b)))

module _ (env : Env) (fuel : ℕ) (p : Ptr) (w : World) {t : AsyncTask} {b : KernelBuf} {e e' : ℕ}
    (live : p ≢ null) (at : w.tasks p ≡ some t) (buf : t.buffer ≡ some b)
    (idle : t.task_state ≢ TaskState.submitted) (room : HasRoom env w)
    (entry : env.sqe_of w.ring ≡ some e) (entry' : env.sqe_of (get_sqe ∷ w.ring) ≡ some e')
    (odd : IsUnsupported t.task_type) where
  -- `AddTask` of a task of an unsupported type returns true all the same. Its buffer holds -EINVAL and
  -- its descriptor, a timeout of length 0 with the error flag is handed to the kernel for it, and so is
  -- the entry that was taken first: no call ever says what that entry is to do.
  pub add_task-unsupported :
      add_task env (suc fuel) p w
      ≡ ok true (
          admitted p
            (with_result (neg einval) (prepare (set_task_state TaskState.submitted t)) b)
            (submit ∷ failure_calls e' p (get_sqe ∷ w.ring))
            w)
  unfolding prepare
  add_task-unsupported =
      let u = with_result (neg einval) (prepare (set_task_state TaskState.submitted t)) b in
      let w₁ = reserved p t w in
      add_task-submits env fuel p w live at idle room (failure_calls e' p (get_sqe ∷ w.ring)) u
        (submit_task-unsupported env fuel p w₁ (tasks-reserved p t w) buf entry entry' odd)

-- What a connection must give: a descriptor above 0, and in its buffer an IPv4 address with a port.
pub record IsConnectable (env : Env) (t : AsyncTask) : Type 0 where
  pub open_fd : pos 0 <ℤ t.fd
  pub addr : KernelBuf
  pub held : t.buffer ≡ some addr
  pub sized : sizeof_sockaddr_in ≤ addr.size
  pub family : (env.sockaddr addr).sin_family ≡ af_inet
  pub port : env.ntohs (env.sockaddr addr).sin_port ≢ 0
  pub address : env.inet_ntop (env.sockaddr addr).sin_addr ≢ "0.0.0.0"

validate_connect_task_sound :
    (env : Env) (t : AsyncTask) (o : Option KernelBuf)
    → t.buffer ≡ o
    → validate_connect_task env t ≡ true
    → IsConnectable env t
unfolding validate_connect_task is_valid_address
validate_connect_task_sound env t none e h = absurd (ground arith)
validate_connect_task_sound env t (some b) e h =
    let same = eq_iff (env.inet_ntop (env.sockaddr b).sin_addr) "0.0.0.0" in
    record {
      open_fd = ground arith;
      addr = b;
      held = e;
      sized = ground arith;
      family = ground arith;
      port = ground arith;
      address = ground (arith, same);
    }

-- `ValidateConnectTask` accepts exactly the tasks with such an address.
pub validate_connect_task_iff :
    (env : Env) (t : AsyncTask) → (validate_connect_task env t ≡ true) ↔ IsConnectable env t
unfolding validate_connect_task is_valid_address
validate_connect_task_iff env t = (
  validate_connect_task_sound env t t.buffer refl,
  λ c.
      let same = eq_iff (env.inet_ntop (env.sockaddr c.addr).sin_addr) "0.0.0.0" in
      ground (arith, same),
)
