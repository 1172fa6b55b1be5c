-- ===== src/Handler/EndToEnd.antt =====
-- A task on its whole way: `AddTask`, the completion in the event loop, `WaitForCompletion`.
use async_io.Prelude.{
  ℕ, suc, ◌<◌, ◌^◌, ◌≡◌, ◌≢◌, refl, ◌∙◌, ap, true, false, Bool, none, some, ℤ, List, ◌∷◌, pos,
  negsuc, ◌≤ℤ◌, ◌<ℤ◌, suc_ℤ, pred_ℤ, pred_ℤ-suc_ℤ, ==_of_ne, arith,
}
use async_io.Constants.{TaskState, EventFlag}
use async_io.Result.{DoneState, IoResult, literal, wait, reset}
use async_io.KernelBuf.{KernelBuf}
use async_io.Task.{Ptr, null, AsyncTask, wait_for_completion}
use async_io.Handler.World.{
  Env, World, ok, put, tasks-put_self, RingCall, get_sqe, set_user_data, submit,
}
use async_io.Constants.{cancel_bit}
use async_io.Handler.UserData.RoundTrip.{tagged_round_trip}
use async_io.Handler.Submit.{add_task, prepare}
use async_io.Handler.Dispatch.{process_cqe, dispatch_cqe}
use async_io.Handler.Accept.{io_call, HasRoom, in_flight, after_accept, add_task-accepted}
use async_io.Handler.Completion.{with_result}
use async_io.Handler.Success.{one_shot_succeeds, signalled}

-- What a waiter reads of an operation that is done.
abbrev pub consumed : (res fd : ℤ) → IoResult
consumed res fd = record {
  io_ret = res;
  event_fd = fd;
  iodone = true;
  err_msg = literal "IO result consumed";
}

-- `WaitForCompletion` of a task that is done returns at once, for every timeout.
pub wait_for_completion-signalled :
    (t : AsyncTask) (b : KernelBuf) (timeout_ms : ℤ) (arrives : Bool)
    → t.buffer ≡ some b
    → wait_for_completion timeout_ms arrives (signalled t)
      ≡ some (consumed b.io_ret.value b.io_ret.ret_fd, DoneState.signaled)
unfolding wait_for_completion wait
wait_for_completion-signalled t b timeout_ms arrives buf = ground arith

-- `WaitForCompletion` of a task in flight returns at once too, with nothing.
pub wait_for_completion-in_flight :
    (p : Ptr) (t : AsyncTask) (b : KernelBuf) (timeout_ms : ℤ) (arrives : Bool)
    → t.buffer ≡ some b
    → wait_for_completion timeout_ms arrives (in_flight p t)
      ≡ some (
        record {
          io_ret = negsuc 0;
          event_fd = b.io_ret.ret_fd;
          iodone = false;
          err_msg = literal "task not detached from execute queue yet";
        },
        DoneState.idle,
      )
unfolding wait_for_completion prepare reset
wait_for_completion-in_flight p t b timeout_ms arrives buf = ground arith

-- The event loop reads the address that the entry carries, and hands the completion on.
process_cqe-own :
    (env : Env) (fuel : ℕ) (p : Ptr) (res : ℤ) (w : World)
    → p ≢ null
    → p < 2 ^ cancel_bit
    → process_cqe env fuel (record { user_data = p; res = res }) w
      ≡ dispatch_cqe env fuel p EventFlag.none res w
unfolding process_cqe
process_cqe-own env fuel p res w live low =
    let back = tagged_round_trip EventFlag.none p low in
    rw (==_of_ne p null live) (rw (back.0, back.1) (rw (==_of_ne p null live) refl))

-- The calls of an accepted `AddTask`.
abbrev pub submitted_calls : (e : ℕ) → Ptr → RingCall → World → List RingCall
submitted_calls e p c w = submit ∷ set_user_data e p ∷ c ∷ get_sqe ∷ w.ring

-- What `WaitForCompletion` answers, for every timeout and whether or not a signal arrives.
abbrev pub Answers : AsyncTask → IoResult → DoneState → Type 0
Answers t r s =
    (timeout_ms : ℤ) (arrives : Bool) → wait_for_completion timeout_ms arrives t ≡ some (r, s)

module _ (env : Env) (fuel : ℕ) (p : Ptr) (w : World) {t : AsyncTask} {b : KernelBuf} {c : RingCall}
    {e : ℕ} (live : p ≢ null) (low : p < 2 ^ cancel_bit) (at : w.tasks p ≡ some t)
    (buf : t.buffer ≡ some b) (idle : t.task_state ≢ TaskState.submitted) (room : HasRoom env w)
    (entry : env.sqe_of w.ring ≡ some e) (call : io_call t.task_type t.fd b e ≡ some c)
    (untimed : t.timeout_ms ≤ℤ pos 0) where
  -- A task of a type that needs no check, with no timeout, not submitted, where there is room and an
  -- entry, whose operation completes with a result `res` above 0, and whose handler leaves the result
  -- in the buffer and the count as they are and asks for no repetition and no successor: `AddTask`
  -- takes it; until the completion `WaitForCompletion` says that it is not detached; the event loop
  -- finds the task by the word of its entry; then `WaitForCompletion` answers with `res` and the
  -- descriptor, each time at once, for every timeout; and as many operations are in flight as before.
  pub add_complete_wait :
      (res : ℤ) (w₂ : World) {t₂ : AsyncTask} {b₂ : KernelBuf}
      → pos 0 <ℤ res
      → env.run_handler p
          (put p (with_result res (in_flight p t) b) (after_accept p t (submitted_calls e p c w) w))
        ≡ w₂
      → w₂.tasks p ≡ some t₂
      → t₂.repeat_forever ≡ false
      → t₂.next ≡ none
      → t₂.buffer ≡ some b₂
      → b₂.io_ret ≡ record { value = res; ret_fd = t.fd }
      → w₂.inflight_count ≡ suc_ℤ w.inflight_count
      → (w₁ w₃ : World) × (t₁ t₃ : AsyncTask) × (add_task env (suc fuel) p w ≡ ok true w₁)
        × (w₁.tasks p ≡ some t₁)
        × Answers t₁
            (record {
              io_ret = negsuc 0;
              event_fd = b.io_ret.ret_fd;
              iodone = false;
              err_msg = literal "task not detached from execute queue yet";
            })
            DoneState.idle
        × (process_cqe env fuel (record { user_data = p; res = res }) w₁ ≡ ok tt w₃)
        × (w₃.tasks p ≡ some t₃)
        × Answers t₃ (consumed res t.fd) DoneState.signaled
        × (w₃.inflight_count ≡ w.inflight_count)
  unfolding prepare
  add_complete_wait res w₂ {t₂} {b₂} above handled at₂ once last buf₂ kept count =
      let calls = submitted_calls e p c w in
      let w₁ = after_accept p t calls w in
      let at₁ =
        tasks-put_self p (in_flight p t)
          (record w { inflight_count = suc_ℤ w.inflight_count; ring = calls }) in
      let done =
        one_shot_succeeds env fuel p w₁ res at₁ buf refl refl w₂ above handled at₂ once last in
      (
        w₁,
        record (put p (signalled t₂) w₂) { inflight_count = pred_ℤ w₂.inflight_count },
        in_flight p t,
        signalled t₂,
        add_task-accepted env fuel p w live at buf idle room entry call untimed,
        at₁,
        λ timeout_ms arrives. wait_for_completion-in_flight p t b timeout_ms arrives buf,
        process_cqe-own env fuel p res w₁ live low ∙ done,
        tasks-put_self p (signalled t₂) w₂,
        λ timeout_ms arrives.
            rw (wait_for_completion-signalled t₂ b₂ timeout_ms arrives buf₂) (rw kept refl),
        ap pred_ℤ count ∙ pred_ℤ-suc_ℤ w.inflight_count,
      )
