-- ===== src/Tests/EndToEnd.antt =====
-- The task of the setup on its whole way: submitted, completed with 12 bytes, waited for.
use async_io.Prelude.{◌≡◌, refl, inl, false, true, some, [], ◌∷◌, pos, negsuc, arith}
use async_io.Result.{DoneState, literal}
use async_io.Task.{AsyncTask}
use async_io.Handler.World.{World, ok, put, submit, set_user_data, prep_read, get_sqe}
use async_io.Handler.UserData.{u64}
use async_io.Handler.Submit.{add_task, prepare}
use async_io.Handler.Dispatch.{process_cqe}
use async_io.Handler.Accept.{in_flight, after_accept}
use async_io.Handler.Completion.{with_result}
use async_io.Handler.EndToEnd.{Answers, consumed, add_complete_wait}
use async_io.Tests.Setup.{env, buffer, reader, at, with_task}

-- The world that the handler of the task finds.
abbrev handled : World
handled = put at (with_result (pos 12) (in_flight at reader) buffer) (
    after_accept at reader (submit ∷ set_user_data 0 at ∷ prep_read 0 (pos 5) 16 0 ∷ get_sqe ∷ [])
      (with_task reader 0))

add_complete_wait_example :
    (w₁ w₃ : World) × (t₁ t₃ : AsyncTask) × (add_task env 1 at (with_task reader 0) ≡ ok true w₁)
    × (w₁.tasks at ≡ some t₁)
    × Answers t₁
        (record {
          io_ret = negsuc 0;
          event_fd = pos 0;
          iodone = false;
          err_msg = literal "task not detached from execute queue yet";
        })
        DoneState.idle
    × (process_cqe env 0 (record { user_data = at; res = pos 12 }) w₁ ≡ ok tt w₃)
    × (w₃.tasks at ≡ some t₃)
    × Answers t₃ (consumed (pos 12) (pos 5)) DoneState.signaled
    × (w₃.inflight_count ≡ pos 0)
unfolding u64 prepare
add_complete_wait_example =
    add_complete_wait env 0 at (with_task reader 0) (ground arith) (omega arith) refl refl (λ e. cc)
      (inl (omega arith)) refl refl (omega arith) (pos 12) handled (omega arith) refl refl refl refl
      refl refl refl
