-- ===== src/Tests/Chained.antt =====
-- A read in flight whose successor, a second read, stands at address 8192.
use async_io.Prelude.{◌≡◌, refl, inl, some, [], ◌∷◌, pos, arith}
use async_io.Constants.{TaskState, EventFlag}
use async_io.Task.{AsyncTask}
use async_io.Handler.World.{World, ok, put, submit, set_user_data, prep_read, get_sqe}
use async_io.Handler.UserData.{u64}
use async_io.Handler.Dispatch.{dispatch_cqe}
use async_io.Handler.Accept.{in_flight}
use async_io.Handler.Completion.{with_result}
use async_io.Handler.Chain.{
  unlinked, completed, chain_continues, chain_at_end_unsignalled, chain_dropped,
}
use async_io.Tests.Setup.{env, env_with, limited, buffer, reader, flying, at, with_task}

abbrev chained : AsyncTask
chained = record flying { next = some 8192 }

abbrev both : World
both = put 8192 reader (with_task chained 1)

-- The predecessor with 12 bytes, and with none.
abbrev got_12 : AsyncTask
got_12 = with_result (pos 12) chained buffer

abbrev got_0 : AsyncTask
got_0 = with_result (pos 0) chained buffer

chain_continues_example :
    (w' : World) × (dispatch_cqe env 4 at EventFlag.none (pos 12) both ≡ ok tt w')
    × (w'.tasks at ≡ some (completed got_12))
    × (w'.tasks 8192 ≡ some (in_flight 8192 reader))
    × (w'.ring ≡ submit ∷ set_user_data 0 8192 ∷ prep_read 0 (pos 5) 16 0 ∷ get_sqe ∷ [])
    × (w'.inflight_count ≡ pos 1)
unfolding u64
chain_continues_example =
    chain_continues env 3 at both (pos 12) refl refl refl refl (put at got_12 both) refl refl refl
      8192 refl (omega arith) (omega arith) refl (λ e. cc) refl (inl (omega arith)) refl refl
      (omega arith) (omega arith)

chain_at_end_unsignalled_example :
    (w' : World) × (dispatch_cqe env 4 at EventFlag.none (pos 0) both ≡ ok tt w')
    × (w'.tasks at ≡ some (unlinked got_0))
    × (w'.tasks 8192 ≡ some (in_flight 8192 reader))
    × (w'.ring ≡ submit ∷ set_user_data 0 8192 ∷ prep_read 0 (pos 5) 16 0 ∷ get_sqe ∷ [])
    × (w'.inflight_count ≡ pos 1)
unfolding u64
chain_at_end_unsignalled_example =
    chain_at_end_unsignalled env 3 at both (pos 0) refl refl refl refl (put at got_0 both) refl refl
      refl 8192 refl (omega arith) (omega arith) refl (λ e. cc) refl (inl (omega arith)) refl refl
      (omega arith) refl

-- One operation at most.
successor_lost :
    (w' : World) × (dispatch_cqe (env_with (limited 1)) 4 at EventFlag.none (pos 12) both
      ≡ ok tt w')
    × (w'.tasks at ≡ some (completed got_12))
    × (w'.tasks 8192 ≡ some (record reader { task_state = TaskState.ready }))
    × (w'.ring ≡ [])
    × (w'.inflight_count ≡ pos 0)
successor_lost =
    chain_dropped (env_with (limited 1)) 3 at both (pos 12) refl refl refl refl (put at got_12 both)
      refl refl refl 8192 refl (omega arith) (omega arith) refl (λ e. cc) (omega arith)
      (omega arith) (omega arith)
