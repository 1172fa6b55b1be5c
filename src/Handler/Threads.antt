-- ===== src/Handler/Threads.antt =====
-- `AddTask` in any number of threads at once, with the event loop at work: the exchange on
-- `task_state_`, and the loop that reserves a slot. One access to shared memory at a time, in any
-- order. What a thread does with a task between its reservation and the entry in the submission queue
-- is its own. From the entry on any `io_uring_submit`, of any thread, hands it to the kernel, and the
-- completion may come while the thread is still in `AddTask`.
--
-- Each entry of a task has one completion that changes the state of the task. A further one, which
-- leaves the state alone, is a `count_down`; the second completion of a timeout, which uses the task
-- after its deletion, is in Handler/Expiry.
pub mod Balance
pub mod Invariant
pub mod Steps
pub mod Bounds
use async_io.Prelude.{
  ℕ, zero, suc, ◌+◌, ◌-◌, Bool, true, false, not, ◌&&◌, List, [], ◌∷◌, ℤ, pos, ltb_ℤ, ◌==ℤ◌, suc_ℤ,
  pred_ℤ, ◌==◌, if◌then◌else◌,
}
use async_io.Constants.{TaskState, state_code}
use async_io.Pool.Nodes.{upd}

-- Where a thread stands in `AddTask(t)`: at the exchange with the state it read; before the gate on
-- operations; at the head of the loop and before the exchange, with the count `cur`; before the store
-- of `kReady`; with its slot, before the entry; with the entry in the queue, before `AutoFlush`.
pub data Pc : Type 0 where
  idle : Pc
  transition : (t : ℕ) (e : TaskState) → Pc
  gate : (t : ℕ) → Pc
  loop reserve : (t : ℕ) (cur : ℤ) → Pc
  refuse : (t : ℕ) → Pc
  submit : (t : ℕ) → Pc
  flush : (t : ℕ) → Pc

-- Who is responsible for a task: a thread in `AddTask`, the submission queue with an entry for it, or
-- the kernel.
pub data Owner : Type 0 where
  nobody queued kernel : Owner
  entering holding : (thread : ℕ) → Owner

-- `active` (the tasks that have a slot), `ended` (how many slots have ended: by a completion, or by an
-- entry that was not to be had) and `counted_down` (how often the event loop took one off the count)
-- are there for the proofs only.
pub record Shared : Type 0 where
  pub task_state : ℕ → TaskState
  pub inflight_count : ℤ
  pub pc : ℕ → Pc
  pub owner : ℕ → Owner
  pub active : List ℕ
  pub ended : ℕ
  pub counted_down : ℕ

-- What happens next. `go` is the next access of thread `i`, `fail` a weak exchange that fails for no
-- reason; `no_entry` that `io_uring_get_sqe` gives thread `i` none, also in `QueueFailedTask`, so that
-- `HandleFailedTask` leaves the task in the state `st`; a resubmission that this does is an `add` of the
-- thread. The entry of a task is that of its operation, or the one by which `QueueFailedTask` reports
-- its failure. `flush_ring` is an `io_uring_submit` outside of `AutoFlush`, such as that of `Flush`. The event
-- loop completes task `t` into a state, and at any time takes one off the count.
pub data Action : Type 0 where
  add : (i t : ℕ) → Action
  go fail : (i : ℕ) → Action
  no_entry : (i : ℕ) (st : TaskState) → Action
  complete : (t : ℕ) (st : TaskState) → Action
  flush_ring count_down : Action

abbrev pub is_submitted : TaskState → Bool
is_submitted TaskState.submitted = true
is_submitted _ = false

abbrev pub remove : ℕ → List ℕ → List ℕ
remove t [] = []
remove t (x ∷ xs) = let rest = remove t xs in if x == t then xs else x ∷ rest

abbrev pub move_to : ℕ → Pc → Shared → Shared
move_to i c s = record s { pc = upd s.pc i c }

unfoldable pub fail_exchange : ℕ → Pc → Shared → Shared
fail_exchange i (Pc.reserve t cur) s = move_to i (Pc.loop t s.inflight_count) s
fail_exchange i _ s = s

-- A call starts with the load of the state, and ends at once if the task is submitted.
unfoldable pub begin : ℕ → ℕ → Pc → Shared → Shared
begin i t Pc.idle s =
    if is_submitted (s.task_state t) then s else move_to i (Pc.transition t (s.task_state t)) s
begin i t _ s = s

-- `io_uring_submit` hands every entry in the queue to the kernel.
abbrev pub hand_over : Owner → Owner
hand_over Owner.queued = Owner.kernel
hand_over o = o

abbrev pub submit_all : Shared → Shared
submit_all s = record s { owner = λ t. hand_over (s.owner t) }

-- The slot of task `t` ends, and the task is in the state `st`.
abbrev pub end_slot : ℕ → TaskState → Shared → Shared
end_slot t st s = record s {
  task_state = upd s.task_state t st;
  owner = upd s.owner t Owner.nobody;
  active = remove t s.active;
  ended = suc s.ended;
}

-- The event loop has a completion only for a task that was submitted, and leaves it in another
-- state than `kSubmitted`.
unfoldable pub finish : ℕ → TaskState → Owner → Shared → Shared
finish t st Owner.kernel s = if is_submitted st then s else end_slot t st s
finish t st _ s = s

-- No entry for the task: its slot has ended, but is not given back.
unfoldable pub fail_submit : ℕ → TaskState → Pc → Shared → Shared
fail_submit i st (Pc.submit t) s =
    if is_submitted st then s else move_to i (Pc.flush t) (end_slot t st s)
fail_submit i st _ s = s

-- The `fetch_sub` at the end of `DispatchCqe`.
unfoldable pub count_one : Shared → Shared
count_one s = record s {
  inflight_count = pred_ℤ s.inflight_count;
  counted_down = suc s.counted_down;
}

module _ (max_inflight_ops : ℤ) where
  -- The slot is counted, by the exchange or by `fetch_add`.
  abbrev pub slot_taken : (i t : ℕ) → (count : ℤ) → Shared → Shared
  slot_taken i t count s = record s {
    inflight_count = count;
    owner = upd s.owner t (Owner.holding i);
    active = t ∷ s.active;
    pc = upd s.pc i (Pc.submit t);
  }

  unfoldable pub advance : ℕ → Pc → Shared → Shared
  advance i Pc.idle s = s
  advance i (Pc.transition t e) s =
      if state_code (s.task_state t) == state_code e
      then record s {
        task_state = upd s.task_state t TaskState.submitted;
        owner = upd s.owner t (Owner.entering i);
        pc = upd s.pc i (Pc.gate t);
      }
      else move_to i Pc.idle s
  advance i (Pc.gate t) s =
      if ltb_ℤ (pos 0) max_inflight_ops
      then move_to i (Pc.loop t s.inflight_count) s
      else slot_taken i t (suc_ℤ s.inflight_count) s
  advance i (Pc.loop t cur) s =
      if ltb_ℤ cur max_inflight_ops
      then move_to i (Pc.reserve t cur) s
      else move_to i (Pc.refuse t) s
  advance i (Pc.reserve t cur) s =
      if s.inflight_count ==ℤ cur
      then slot_taken i t (suc_ℤ cur) s
      else move_to i (Pc.loop t s.inflight_count) s
  advance i (Pc.refuse t) s = record s {
    task_state = upd s.task_state t TaskState.ready;
    owner = upd s.owner t Owner.nobody;
    pc = upd s.pc i Pc.idle;
  }
  advance i (Pc.submit t) s = record s {
    owner = upd s.owner t Owner.queued;
    pc = upd s.pc i (Pc.flush t);
  }
  advance i (Pc.flush t) s = move_to i Pc.idle (submit_all s)

  unfoldable pub step : Action → Shared → Shared
  unfolding advance fail_exchange begin fail_submit finish count_one
  step (add i t) s = begin i t (s.pc i) s
  step (go i) s = advance i (s.pc i) s
  step (fail i) s = fail_exchange i (s.pc i) s
  step (complete t st) s = finish t st (s.owner t) s
  step (no_entry i st) s = fail_submit i st (s.pc i) s
  step flush_ring s = submit_all s
  step count_down s = count_one s

  unfoldable pub run : List Action → Shared → Shared
  run [] s = s
  run (a ∷ rest) s = run rest (step a s)

-- No call and no operation is under way; no task is submitted.
abbrev pub quiet : (ℕ → TaskState) → Shared
quiet task_state = record {
  task_state = task_state;
  inflight_count = pos 0;
  pc = λ i. Pc.idle;
  owner = λ t. Owner.nobody;
  active = [];
  ended = 0;
  counted_down = 0;
}
