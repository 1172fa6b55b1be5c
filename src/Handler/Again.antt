-- ===== src/Handler/Again.antt =====
-- A completion with EAGAIN: `while (!AddTask(tp)) yield();` on a task that is still submitted.
use async_io.Prelude.{ℕ, zero, suc, ◌≡◌, ◌≢◌, refl, false, some, neg}
use async_io.Constants.{TaskState, EventFlag, eagain}
use async_io.KernelBuf.{KernelBuf}
use async_io.Task.{Ptr, null, AsyncTask}
use async_io.Handler.World.{Env, World, out_of_fuel, put, tasks-put_self}
use async_io.Handler.Submit.{add_task}
use async_io.Handler.Dispatch.{retry_add_task, handle_negative, handle_event, dispatch_cqe}
use async_io.Handler.Gate.{add_task-submitted}
use async_io.Handler.Completion.{with_result, handle_normal_event-eq, dispatch_cqe-eq}

module _ (env : Env) (p : Ptr) (live : p ≢ null) where
  retry_add_task-submitted :
      (rounds fuel : ℕ) (w : World) {t : AsyncTask}
      → w.tasks p ≡ some t
      → t.task_state ≡ TaskState.submitted
      → retry_add_task rounds (add_task env fuel) p w ≡ out_of_fuel
  unfolding retry_add_task
  retry_add_task-submitted zero fuel w at st = refl
  retry_add_task-submitted (suc rounds) zero w at st = unfold add_task in refl
  retry_add_task-submitted (suc rounds) (suc fuel) w at st =
      let (w', ran, at', _, _, _) = add_task-submitted env fuel p w live at st in
      rw ran (retry_add_task-submitted rounds (suc fuel) w' at' st)

  -- A completion with EAGAIN for a task in flight never gets out of its loop, whatever the fuel: the
  -- task is still marked as submitted, so every `AddTask` refuses it.
  pub again_never_returns :
      (fuel : ℕ) (w : World) {t : AsyncTask} {b : KernelBuf}
      → w.tasks p ≡ some t
      → t.buffer ≡ some b
      → t.task_state ≡ TaskState.submitted
      → t.is_cancel ≡ false
      → dispatch_cqe env fuel p EventFlag.none (neg eagain) w ≡ out_of_fuel
  unfolding handle_event handle_negative
  again_never_returns fuel w {t} {b} at buf st nc =
      rw (dispatch_cqe-eq env fuel p (neg eagain) w EventFlag.none at st nc) (
        rw (handle_normal_event-eq env fuel p (neg eagain) w at buf) (
          rw (
            retry_add_task-submitted fuel fuel (put p (with_result (neg eagain) t b) w)
              (tasks-put_self p (with_result (neg eagain) t b) w) st)))
