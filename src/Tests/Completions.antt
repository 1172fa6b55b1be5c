-- ===== src/Tests/Completions.antt =====
-- Completions of the one task of the setup, and the theorems about them at it.
use async_io.Prelude.{◌≡◌, refl, inl, true, some, [], ◌∷◌, pos, negsuc, neg, arith}
use async_io.Constants.{TaskState, EventFlag, eagain, ecanceled}
use async_io.Task.{AsyncTask}
use async_io.Handler.World.{
  submit, set_user_data, prep_read, get_sqe, World, ok, fault, out_of_fuel, put, drop, ◌>>◌,
}
use async_io.Handler.UserData.{u64}
use async_io.Handler.Dispatch.{dispatch_cqe}
use async_io.Handler.Accept.{in_flight}
use async_io.Handler.Completion.{with_result}
use async_io.Handler.Again.{again_never_returns}
use async_io.Handler.Success.{one_shot_succeeds, one_shot_ends, signalled}
use async_io.Handler.Repeat.{repeat_dropped, repeat_continues}
use async_io.Handler.Retry.{IsRetried, complete_all, retries_never_end}
use async_io.Handler.Failure.{last_failure_deletes}
use async_io.Handler.Expiry.{expiry_uses_freed_task, cancel_counts_twice}
use async_io.Tests.Setup.{env, env_with, limited, buffer, flying, at, with_task}

again_never_returns_example :
    dispatch_cqe env 7 at EventFlag.none (neg eagain) (with_task flying 1) ≡ out_of_fuel
again_never_returns_example =
    again_never_returns env at (ground arith) 7 (with_task flying 1) refl refl refl refl

-- What the reader has after 12 bytes.
abbrev got_12 : AsyncTask
got_12 = with_result (pos 12) flying buffer

reader_succeeds :
    dispatch_cqe env 3 at EventFlag.none (pos 12) (with_task flying 1)
    ≡ ok tt (record (put at (signalled got_12) (put at got_12 (with_task flying 1))) {
      inflight_count = pos 0;
    })
reader_succeeds =
    one_shot_succeeds env 3 at (with_task flying 1) (pos 12) refl refl refl refl
      (put at got_12 (with_task flying 1)) (omega arith) refl refl refl refl

abbrev at_end : World
at_end = put at (with_result (pos 0) flying buffer) (with_task flying 1)

one_shot_ends_example :
    dispatch_cqe env 3 at EventFlag.none (pos 0) (with_task flying 1)
    ≡ ok tt (record (drop at at_end) { closed = pos 5 ∷ []; inflight_count = pos 0 })
one_shot_ends_example =
    one_shot_ends env 2 at (with_task flying 1) (pos 0) refl refl refl refl at_end refl refl refl
      refl refl

abbrev looping : AsyncTask
looping = record flying { repeat_forever = true }

abbrev looped : World
looped = put at (with_result (pos 12) looping buffer) (with_task looping 1)

repeat_dropped_example :
    (w' : World) × (dispatch_cqe
        (env_with (limited 1))
        4
        at
        EventFlag.none
        (pos 12)
        (with_task looping 1)
      ≡ ok tt w')
    × (w'.tasks at
        ≡ some (record (with_result (pos 12) looping buffer) { task_state = TaskState.ready }))
    × (w'.ring ≡ [])
    × (w'.inflight_count ≡ pos 0)
repeat_dropped_example =
    repeat_dropped (env_with (limited 1)) 3 at (with_task looping 1) (pos 12) (ground arith) refl
      refl refl refl looped (omega arith) refl refl refl refl (omega arith) (omega arith)

repeat_continues_example :
    (w' : World) × (dispatch_cqe env 4 at EventFlag.none (pos 12) (with_task looping 1) ≡ ok tt w')
    × (w'.tasks at ≡ some (in_flight at (with_result (pos 12) looping buffer)))
    × (w'.ring ≡ submit ∷ set_user_data 0 at ∷ prep_read 0 (pos 5) 16 0 ∷ get_sqe ∷ [])
    × (w'.inflight_count ≡ pos 1)
unfolding u64
repeat_continues_example =
    repeat_continues env 3 at (with_task looping 1) (pos 12) (ground arith) refl refl refl refl
      looped (omega arith) refl refl refl refl (inl (omega arith)) refl refl refl (omega arith)

abbrev stubborn : AsyncTask
stubborn = record flying { max_retry_count = pos 3 }

stubborn-IsRetried : IsRetried at (with_task stubborn 1) stubborn
stubborn-IsRetried = record {
  at = refl;
  buffered = (buffer, refl);
  in_flight = refl;
  not_canceled = refl;
  fresh = refl;
  may_retry = omega arith;
  is_io = tt;
  untimed = omega arith;
}

retries_never_end_example :
    (w' : World) × (t' : AsyncTask) × (complete_all env 4 at
        (neg 9 ∷ neg 9 ∷ neg 9 ∷ neg 5 ∷ [])
        (with_task stubborn 1)
      ≡ ok tt w')
    × IsRetried at w' t'
    × (w'.inflight_count ≡ pos 1)
retries_never_end_example =
    retries_never_end env 3 at (ground arith) (λ calls. (_, refl))
      (neg 9 ∷ neg 9 ∷ neg 9 ∷ neg 5 ∷ []) (with_task stubborn 1)
      (
        (omega arith, λ e. cc, λ e. cc),
        (
          (omega arith, λ e. cc, λ e. cc),
          ((omega arith, λ e. cc, λ e. cc), ((omega arith, λ e. cc, λ e. cc), tt)),
        ),
      )
      (inl (omega arith)) stubborn-IsRetried

abbrev failed_9 : World
failed_9 =
    put at (record (with_result (neg 9) flying buffer) { try_count = 1 }) (with_task flying 1)

last_failure_deletes_example :
    dispatch_cqe env 4 at EventFlag.none (neg 9) (with_task flying 1)
    ≡ ok tt (record (drop at failed_9) { inflight_count = pos 0 })
last_failure_deletes_example =
    last_failure_deletes env 3 at (with_task flying 1) (neg 9) refl refl refl refl failed_9
      (omega arith, λ e. cc, λ e. cc) (omega arith) refl refl refl

abbrev timed : AsyncTask
timed = record flying { timeout_ms = pos 1500 }

expiry_uses_freed_task_example :
    (dispatch_cqe env 4 at EventFlag.timeout (neg 62) (with_task timed 1)
      ≡ ok tt (record (drop at (with_task timed 1)) { inflight_count = pos 0 }))
    × (dispatch_cqe env 4 at EventFlag.none (neg ecanceled) (with_task timed 1)
        ≡ ok tt (record (drop at (with_task timed 1)) { inflight_count = pos 0 }))
    × ((dispatch_cqe env 4 at EventFlag.timeout (neg 62)
            >> dispatch_cqe env 4 at EventFlag.none (neg ecanceled))
          (with_task timed 1)
        ≡ fault)
    × ((dispatch_cqe env 4 at EventFlag.none (neg ecanceled)
            >> dispatch_cqe env 4 at EventFlag.timeout (neg 62))
          (with_task timed 1)
        ≡ fault)
expiry_uses_freed_task_example =
    expiry_uses_freed_task env 3 at (with_task timed 1) refl refl refl refl refl (neg 62)
      (neg ecanceled) (omega arith)

cancel_counted :
    (dispatch_cqe env 4 at EventFlag.cancel (pos 0)
        >> dispatch_cqe env 4 at EventFlag.none (neg ecanceled))
      (with_task flying 1)
    ≡ ok tt (record (drop at (with_task flying 1)) { inflight_count = negsuc 0 })
cancel_counted =
    cancel_counts_twice env 3 at (with_task flying 1) refl refl refl refl refl EventFlag.none
      (pos 0) (neg ecanceled) (omega arith)
