-- ===== src/Tests/Interleavings.antt =====
-- Two threads in `AddTask`, one access at a time.
use async_io.Prelude.{
  ℕ, ◌+◌, ◌≡◌, ◌≤◌, refl, List, [], ◌∷◌, pos, ◌≤ℤ◌, length, if◌then◌else◌, arith,
}
use async_io.Constants.{TaskState}
use async_io.Pool.Count.{occ}
use async_io.Handler.Threads.{
  Pc, Action, Shared, is_submitted, advance, fail_exchange, begin, finish, count_one, step, run,
  quiet,
}
use async_io.Handler.Threads.Balance.{IsBalance}
use async_io.Handler.Threads.Bounds.{inflight_count_bounded}

abbrev ready : ℕ → TaskState
ready t = TaskState.ready

-- A limit of one: both threads read the count 0, and the second one's exchange fails. The last move is
-- the `AutoFlush` of the first one.
abbrev race : List Action
race =
    Action.add 0 5
    ∷ Action.add 1 6
    ∷ Action.go 0
    ∷ Action.go 1
    ∷ Action.go 0
    ∷ Action.go 1
    ∷ Action.go 0
    ∷ Action.go 1
    ∷ Action.fail 0
    ∷ Action.go 0
    ∷ Action.go 0
    ∷ Action.go 1
    ∷ Action.go 1
    ∷ Action.go 1
    ∷ Action.go 0
    ∷ Action.go 0
    ∷ []

abbrev raced : Shared
raced = run (pos 1) race (quiet ready)

race_count : raced.inflight_count ≡ pos 1
unfolding run step advance fail_exchange begin
race_count = refl

race_refused : raced.task_state 6 ≡ TaskState.ready
unfolding run step advance fail_exchange begin
race_refused = refl

race_drained :
    let drained =
      run (pos 1) (Action.complete 5 TaskState.success ∷ Action.count_down ∷ []) raced in
    (drained.inflight_count ≡ pos 0) × (drained.ended ≡ 1)
unfolding run step advance fail_exchange begin finish count_one
race_drained = (refl, refl)

-- Another thread's `io_uring_submit` hands the entry over; the task completes, and the event loop
-- (thread 9) has it submitted again while thread 0 is still before its `AutoFlush`.
abbrev resubmitted : Shared
resubmitted =
    run (pos 8)
      (Action.add 0 5
        ∷ Action.go 0
        ∷ Action.go 0
        ∷ Action.go 0
        ∷ Action.go 0
        ∷ Action.go 0
        ∷ Action.flush_ring
        ∷ Action.complete 5 TaskState.success
        ∷ Action.add 9 5
        ∷ Action.go 9
        ∷ [])
      (quiet ready)

still_in_the_call : (resubmitted.pc 0 ≡ Pc.flush 5) × (resubmitted.pc 9 ≡ Pc.gate 5)
unfolding run step advance begin finish
still_in_the_call = (refl, refl)

inflight_count_bounded_example :
    (raced.inflight_count ≤ℤ pos 1)
    × IsBalance raced.inflight_count (length raced.active + raced.ended) raced.counted_down
    × ((t : ℕ) → occ t raced.active ≤ (if is_submitted (raced.task_state t) then 1 else 0))
inflight_count_bounded_example =
    inflight_count_bounded (pos 1) ready race raced (λ t. refl) (omega arith) refl

-- Both threads want task 5, and read that it is ready.
abbrev contend : List Action
contend = Action.add 0 5 ∷ Action.add 1 5 ∷ Action.go 1 ∷ Action.go 0 ∷ Action.go 1 ∷ []

abbrev contended : Shared
contended = run (pos 8) contend (quiet ready)
