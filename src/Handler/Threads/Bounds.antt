-- ===== src/Handler/Threads/Bounds.antt =====
-- What holds in every interleaving of `AddTask` calls with the event loop and the submissions to the
-- ring: the limit on the count of operations in flight, and one submission at a time for each task.
use async_io.Prelude.{
  ℕ, ◌+◌, ◌≡◌, subst, ◌≤◌, Bool, false, List, ℤ, pos, ◌≤ℤ◌, ◌<ℤ◌, length, ◌==◌, Option, some, none,
  if◌then◌else◌, arith,
}
use async_io.Constants.{TaskState}
use async_io.Pool.Count.{occ}
use async_io.Handler.Threads.{Pc, Owner, Shared, Action, is_submitted, run, quiet}
use async_io.Handler.Threads.Balance.{IsBalance}
use async_io.Handler.Threads.Invariant.{is_owned, weight, Inv}
use async_io.Handler.Threads.Steps.{run-Inv, quiet-Inv}

-- The thread is past its exchange on the state of task `t`, and has neither refused the task nor made
-- its entry.
abbrev pub is_past : ℕ → Pc → Bool
is_past t (Pc.gate u) = u == t
is_past t (Pc.loop u cur) = u == t
is_past t (Pc.reserve u cur) = u == t
is_past t (Pc.refuse u) = u == t
is_past t (Pc.submit u) = u == t
is_past t _ = false

thread_of : Owner → Option ℕ
thread_of Owner.nobody = none
thread_of Owner.queued = none
thread_of Owner.kernel = none
thread_of (Owner.entering i) = some i
thread_of (Owner.holding i) = some i

module _ (max_inflight_ops : ℤ) where
  after-Inv :
      (task_state : ℕ → TaskState) (actions : List Action) (s : Shared)
      → ((t : ℕ) → is_submitted (task_state t) ≡ false)
      → run max_inflight_ops actions (quiet task_state) ≡ s
      → Inv max_inflight_ops s
  after-Inv task_state actions s free reached = subst (Inv max_inflight_ops) reached (
      run-Inv max_inflight_ops actions (quiet task_state)
        (quiet-Inv max_inflight_ops task_state free))

  slots_of_state :
      (o : Owner) (st : TaskState) (n : ℕ)
      → is_submitted st ≡ is_owned o
      → n ≡ weight o
      → n ≤ (if is_submitted st then 1 else 0)
  slots_of_state Owner.nobody st n e h = ground (arith, e, h)
  slots_of_state Owner.queued st n e h = ground (arith, e, h)
  slots_of_state Owner.kernel st n e h = ground (arith, e, h)
  slots_of_state (Owner.entering i) st n e h = ground (arith, e, h)
  slots_of_state (Owner.holding i) st n e h = ground (arith, e, h)

  -- However the accesses of any number of threads in `AddTask`, the submissions to the ring, and the
  -- completions and decrements of the event loop interleave, from a quiet start, with a positive
  -- `max_inflight_ops`: `inflight_count_` is never above the limit, also when the event loop takes more
  -- off it than slots have ended. It is the number of tasks that have a slot, and of slots that ended,
  -- less the decrements so far; and a task has one slot at most, and none unless it is `kSubmitted`.
  pub inflight_count_bounded :
      (task_state : ℕ → TaskState) (actions : List Action) (s : Shared)
      → ((t : ℕ) → is_submitted (task_state t) ≡ false)
      → pos 0 <ℤ max_inflight_ops
      → run max_inflight_ops actions (quiet task_state) ≡ s
      → (s.inflight_count ≤ℤ max_inflight_ops)
        × IsBalance s.inflight_count (length s.active + s.ended) s.counted_down
        × ((t : ℕ) → occ t s.active ≤ (if is_submitted (s.task_state t) then 1 else 0))
  inflight_count_bounded task_state actions s free limited reached =
      let v = after-Inv task_state actions s free reached in
      (
        v.bounded limited,
        v.counted,
        λ t. slots_of_state (s.owner t) (s.task_state t) (occ t s.active) (v.states t) (v.slots t),
      )
