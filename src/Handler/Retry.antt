-- ===== src/Handler/Retry.antt =====
-- Failing completions of a task that may be retried.
use async_io.Prelude.{
  ℕ, suc, ◌+◌, ◌≡◌, ◌≢◌, Bool, refl, true, false, some, ℤ, List, [], ◌∷◌, pos, neg, ◌≤ℤ◌, ◌<ℤ◌,
  pred_ℤ, pred_ℤ-suc_ℤ, ltb_ℤ, ◌==ℤ◌, arith, ◌||◌, All, ◌∙◌,
}
use async_io.Constants.{TaskType, TaskState, EventFlag, eagain, ecanceled}
use async_io.KernelBuf.{KernelBuf, set_bytes_transferred, set_active_file_descriptor}
use async_io.Task.{Ptr, null, AsyncTask, set_task_state}
use async_io.Handler.World.{
  Env, World, M, ok, load, modify, set_inflight, put, put-put, tasks-put_self, modify-eq, load-eq,
  RingCall, get_sqe, set_user_data, submit, ◌>>◌, pure,
}
use async_io.Handler.Submit.{add_task, handle_failed_task, prepare}
use async_io.Handler.Dispatch.{handle_io_failure, handle_negative, handle_event, dispatch_cqe}
use async_io.Handler.Accept.{io_call, HasRoom, in_flight, after_accept, add_task-accepted}
use async_io.Handler.Completion.{with_result, handle_normal_event-eq, dispatch_cqe-eq}

abbrev failed_once : AsyncTask → AsyncTask
failed_once t = record t { try_count = t.try_count + 1 }

module _ (env : Env) (fuel : ℕ) (p : Ptr) (w : World) {t : AsyncTask}
    (at : w.tasks p ≡ some t) where
  handle_failed_task-retry :
      (add : Ptr → M Bool) (w' : World)
      → pos (t.try_count + 1) <ℤ t.max_retry_count
      → add p (put p (set_task_state TaskState.ready (failed_once t)) w) ≡ ok true w'
      → handle_failed_task env fuel add p w ≡ ok true w'
  unfolding handle_failed_task
  handle_failed_task-retry add w' more added =
      let w₁ = put p (failed_once t) w in
      let s₁ : modify p failed_once w ≡ ok tt w₁ = modify-eq p failed_once w at in
      let s₂ : load p w₁ ≡ ok (failed_once t) w₁ =
        load-eq p w₁ (tasks-put_self p (failed_once t) w) in
      let s₃ : ltb_ℤ (pos (t.try_count + 1)) t.max_retry_count ≡ true = ground arith in
      let s₄ : modify p (set_task_state TaskState.ready) w₁
          ≡ ok tt (put p (set_task_state TaskState.ready (failed_once t)) w₁) =
        modify-eq p (set_task_state TaskState.ready) w₁ (tasks-put_self p (failed_once t) w) in
      rw s₁ (
        rw s₂ (
          rw s₃ (
            rw s₄ (
              rw (put-put p (failed_once t) (set_task_state TaskState.ready (failed_once t)) w)
                (rw added)))))

-- The types that an entry is made for with no check.
abbrev pub IsIo : TaskType → Type 0
IsIo TaskType.read = Unit
IsIo TaskType.write = Unit
IsIo TaskType.accept = Unit
IsIo _ = ⊥

pub io_call-IsIo :
    (k : TaskType) (fd : ℤ) (b : KernelBuf) (e : ℕ)
    → IsIo k
    → (c : RingCall) × (io_call k fd b e ≡ some c)
io_call-IsIo TaskType.read fd b e h = (_, refl)
io_call-IsIo TaskType.write fd b e h = (_, refl)
io_call-IsIo TaskType.accept fd b e h = (_, refl)
io_call-IsIo TaskType.none fd b e h = absurd h
io_call-IsIo _ fd b e h = absurd h

-- `io_uring_get_sqe` always finds an entry.
abbrev pub NeverFull : Env → Type 0
NeverFull env = (calls : List RingCall) → (e : ℕ) × (env.sqe_of calls ≡ some e)

-- A result that is an error, and neither EAGAIN nor ECANCELED.
abbrev pub IsFailure : ℤ → Type 0
IsFailure res = (res <ℤ pos 0) × (res ≢ neg eagain) × (res ≢ neg ecanceled)

-- A task in flight, with no timeout, that may be retried twice or more and has used up no retry.
pub record IsRetried (p : Ptr) (w : World) (t : AsyncTask) : Type 0 where
  pub at : w.tasks p ≡ some t
  pub buffered : (b : KernelBuf) × (t.buffer ≡ some b)
  pub in_flight : t.task_state ≡ TaskState.submitted
  pub not_canceled : t.is_cancel ≡ false
  pub fresh : t.try_count ≡ 0
  pub may_retry : pos 1 <ℤ t.max_retry_count
  pub is_io : IsIo t.task_type
  pub untimed : t.timeout_ms ≤ℤ pos 0

module _ (env : Env) (fuel : ℕ) (p : Ptr) (live : p ≢ null) (free : NeverFull env) where
  -- One failure: the task is in flight again, its count of retries is 0 again, and as many operations
  -- are in flight as before.
  dispatch_cqe-IsRetried :
      (res : ℤ) (w : World) {t : AsyncTask}
      → IsFailure res
      → HasRoom env w
      → IsRetried p w t
      → (w' : World) × (t' : AsyncTask) × (dispatch_cqe env (suc fuel) p EventFlag.none res w
          ≡ ok tt w')
        × IsRetried p w' t'
        × (w'.inflight_count ≡ w.inflight_count)
  unfolding handle_event handle_negative handle_io_failure set_inflight prepare
  dispatch_cqe-IsRetried res w {t} bad room r =
      let (b, buf) = r.buffered in
      let t₁ = with_result res t b in
      let w₁ = put p t₁ w in
      let t₂ = set_task_state TaskState.ready (failed_once t₁) in
      let b₂ = set_active_file_descriptor t.fd (set_bytes_transferred res b) in
      let (e, entry) = free w.ring in
      let (c, call) = io_call-IsIo t.task_type t.fd b₂ e r.is_io in
      let calls = submit ∷ set_user_data e p ∷ c ∷ get_sqe ∷ w.ring in
      let w₂ = after_accept p t₂ calls (put p t₂ w₁) in
      let added : add_task env (suc fuel) p (put p t₂ w₁) ≡ ok true w₂ =
        add_task-accepted env fuel p (put p t₂ w₁) {t = t₂} {b = b₂} live (tasks-put_self p t₂ w₁)
          refl (λ q. cc) room entry call r.untimed in
      let retried : handle_failed_task env (suc fuel) (add_task env (suc fuel)) p w₁ ≡ ok true w₂ =
        handle_failed_task-retry env (suc fuel) p w₁ (tasks-put_self p t₁ w)
          (add_task env (suc fuel)) w₂ (ground (arith, r.fresh, r.may_retry)) added in
      let is_neg : ltb_ℤ res (pos 0) ≡ true = ground arith in
      let other : ((res ==ℤ neg eagain) || (res ==ℤ neg eagain)) ≡ false = ground arith in
      let other' : (res ==ℤ neg ecanceled) ≡ false = ground arith in
      let ran : dispatch_cqe env (suc fuel) p EventFlag.none res w
          ≡ ok tt (record w₂ { inflight_count = pred_ℤ w₂.inflight_count }) =
        rw (dispatch_cqe-eq env (suc fuel) p res w EventFlag.none r.at r.in_flight r.not_canceled) (
          rw (handle_normal_event-eq env (suc fuel) p res w r.at buf)
            (rw is_neg (rw (other, other') (rw retried)))) in
      (
        record w₂ { inflight_count = pred_ℤ w₂.inflight_count },
        _,
        ran,
        record {
          at = tasks-put_self p (in_flight p t₂) (put p t₂ w₁);
          buffered = (b₂, refl);
          in_flight = refl;
          not_canceled = refl;
          fresh = ground (arith, r.may_retry);
          may_retry = r.may_retry;
          is_io = r.is_io;
          untimed = r.untimed;
        },
        pred_ℤ-suc_ℤ w.inflight_count,
      )

-- The completions `rs` of the task, one after the other.
unfoldable pub complete_all : Env → ℕ → Ptr → List ℤ → M (Unit {0})
complete_all env fuel p [] = pure tt
complete_all env fuel p (r ∷ rs) = do
  dispatch_cqe env fuel p EventFlag.none r
  complete_all env fuel p rs

module _ (env : Env) (fuel : ℕ) (p : Ptr) (live : p ≢ null) (free : NeverFull env) where
  -- While the ring has entries and the limit leaves room, a task of a type that needs no check, with no
  -- timeout and `max_retry_count_` of 2 or more, is never given up: after any number of failing
  -- completions it is in flight with no retry counted, as many operations are in flight as at the
  -- start, and nothing was deleted.
  pub retries_never_end :
      (rs : List ℤ) (w : World) {t : AsyncTask}
      → All IsFailure rs
      → HasRoom env w
      → IsRetried p w t
      → (w' : World) × (t' : AsyncTask) × (complete_all env (suc fuel) p rs w ≡ ok tt w')
        × IsRetried p w' t'
        × (w'.inflight_count ≡ w.inflight_count)
  unfolding complete_all
  retries_never_end [] w {t} bad room r = (w, t, refl, r, refl)
  retries_never_end (res ∷ rs) w bad room r =
      let (w₁, t₁, ran, r₁, same) =
        dispatch_cqe-IsRetried env fuel p live free res w bad.0 room r in
      let (w₂, t₂, rest, r₂, same') = retries_never_end rs w₁ bad.1 (rw same room) r₁ in
      (w₂, t₂, rw ran rest, r₂, same' ∙ same)
