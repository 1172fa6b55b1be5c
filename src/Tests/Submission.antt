-- ===== src/Tests/Submission.antt =====
-- Submissions of the one task of the setup, and the theorems about them at it.
use async_io.Prelude.{
  ℕ, ◌≡◌, ◌≢◌, ◌↔◌, refl, inl, true, false, none, some, [], ◌∷◌, pos, neg, arith,
}
use async_io.Constants.{TaskType, TaskState, EventFlag, einval}
use async_io.Result.{literal}
use async_io.Task.{AsyncTask}
use async_io.Handler.World.{World, ok, out_of_fuel, submit, set_user_data, prep_read, get_sqe, Env}
use async_io.Handler.UserData.{u64, task_bits, event_bits, event_flag}
use async_io.Handler.UserData.RoundTrip.{tagged, tagged_round_trip}
use async_io.Handler.Submit.{add_task, prepare, validate_connect_task}
use async_io.Handler.Gate.{add_task-submitted, add_task-saturated}
use async_io.Handler.Accept.{admitted, after_accept, timed_calls, add_task-accepted, add_task-timed}
use async_io.Handler.Completion.{with_result}
use async_io.Handler.Reject.{
  add_task-unsupported, failure_calls, IsConnectable, validate_connect_task_iff,
}
use async_io.Handler.Full.{StaysFull, full_queue_never_returns}
use async_io.Tests.Setup.{env, env_with, limited, buffer, reader, flying, at, with_task}

submitted_task_refused :
    (w' : World) × (add_task env 1 at (with_task flying 1) ≡ ok false w')
    × (w'.tasks at
        ≡ some (record flying { debug_str = literal "failed: already executing"; detach = false }))
    × ((q : ℕ) → q ≢ at → w'.tasks q ≡ (with_task flying 1).tasks q)
    × (w'.inflight_count ≡ pos 1)
    × (w'.ring ≡ [])
submitted_task_refused = add_task-submitted env 0 at (with_task flying 1) (ground arith) refl refl

add_task_at_limit :
    (w' : World) × (add_task (env_with (limited 2)) 1 at (with_task reader 2) ≡ ok false w')
    × (w'.tasks at ≡ some reader)
    × ((q : ℕ) → q ≢ at → w'.tasks q ≡ (with_task reader 2).tasks q)
    × (w'.inflight_count ≡ pos 2)
    × (w'.ring ≡ [])
add_task_at_limit =
    add_task-saturated (env_with (limited 2)) 0 at (with_task reader 2) (ground arith) refl
      (λ e. cc) (omega arith) (omega arith)

reader_accepted :
    add_task env 1 at (with_task reader 0)
    ≡ ok true (
        after_accept at reader
          (submit ∷ set_user_data 0 at ∷ prep_read 0 (pos 5) 16 0 ∷ get_sqe ∷ [])
          (with_task reader 0))
unfolding u64
reader_accepted =
    add_task-accepted env 0 at (with_task reader 0) (ground arith) refl refl (λ e. cc)
      (inl (omega arith)) refl refl (omega arith)

abbrev timed : AsyncTask
timed = record reader { timeout_ms = pos 1500 }

add_task-timed_example :
    add_task env 1 at (with_task timed 0)
    ≡ ok true (
        after_accept at timed
          (submit ∷ timed_calls 0 4 at (pos 1500) (prep_read 0 (pos 5) 16 0) [])
          (with_task timed 0))
unfolding u64
add_task-timed_example =
    add_task-timed env 0 at (with_task timed 0) (ground arith) refl refl (λ e. cc)
      (inl (omega arith)) refl refl (omega arith) refl

abbrev odd : AsyncTask
odd = record reader { task_type = TaskType.close }

unsupported_reported :
    add_task env 1 at (with_task odd 0)
    ≡ ok true (
        admitted at
          (with_result
            (neg einval)
            (prepare (record odd { task_state = TaskState.submitted }))
            buffer)
          (submit ∷ failure_calls 1 at (get_sqe ∷ []))
          (with_task odd 0))
unsupported_reported =
    add_task-unsupported env 0 at (with_task odd 0) (ground arith) refl refl (λ e. cc)
      (inl (omega arith)) refl refl tt

reader-IsConnectable : (validate_connect_task env reader ≡ true) ↔ IsConnectable env reader
reader-IsConnectable = validate_connect_task_iff env reader

abbrev full_env : Env
full_env = record env { sqe_of = λ calls. none }

abbrev stubborn : AsyncTask
stubborn = record reader { max_retry_count = pos 3 }

full_queue_never_returns_example : add_task full_env 9 at (with_task stubborn 0) ≡ out_of_fuel
unfolding StaysFull
full_queue_never_returns_example =
    full_queue_never_returns full_env at (ground arith) (omega arith) 9 (with_task stubborn 0) refl
      (λ e. cc) (omega arith) (λ k. refl)

tagged_round_trip_example :
    (task_bits (tagged EventFlag.cancel at) ≡ at)
    × (event_flag (event_bits (tagged EventFlag.cancel at)) ≡ EventFlag.cancel)
tagged_round_trip_example = tagged_round_trip EventFlag.cancel at (omega arith)
