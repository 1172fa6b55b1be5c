-- ===== src/Result/Protocol.antt =====
-- `DoneState` between two threads: one in `Wait`, with no timeout or a positive one, and one in
-- `Signal()`. A move is one access to the
-- shared state; a move that has to wait for the mutex changes nothing.
pub mod Wakeup
use async_io.Prelude.{
  ◌≡◌, ◌≢◌, refl, ◌⊎◌, inl, inr, Bool, true, false, List, [], ◌∷◌, ◌++◌, if◌then◌else◌, arith,
}
use async_io.Result.{DoneState, idle, waiting, signaled, is_signaled}

-- Where the waiter stands: before the first load, the lock, the second load, the store of `kWaiting`,
-- the test of the predicate, the release that goes with falling asleep; asleep; woken and about to
-- lock; at the end of the timeout about to lock, before the last test of the predicate, and before the
-- store of `kIdle`; returned with true, or with false.
pub data Waiter : Type 0 where
  start lock check store test sleep blocked woken expired last_test give_up returned failed : Waiter

-- Before the exchange, the lock, the unlock, `notify_one`; and at the end.
pub data Signaler : Type 0 where
  start lock unlock notify finished : Signaler

pub data Owner : Type 0 where
  free by_waiter by_signaler : Owner

pub record Sys : Type 0 where
  pub state : DoneState
  pub mtx : Owner
  pub waiter : Waiter
  pub signaler : Signaler
  -- `timeout_ms > 0`
  pub timed : Bool

-- `spurious` wakes a sleeper for no reason, as a condition variable may; `timeout` is the end of the
-- time of a sleeper that has one.
pub data Move : Type 0 where
  of_waiter of_signaler spurious timeout : Move

move_waiter : Waiter → Sys → Sys
move_waiter Waiter.start s =
    if is_signaled s.state
    then record s { waiter = Waiter.returned }
    else record s { waiter = Waiter.lock }
move_waiter Waiter.lock s = elim s.mtx [
  | Owner.free ↦ record s { mtx = Owner.by_waiter; waiter = Waiter.check }
  | _ ↦ s
]
move_waiter Waiter.check s =
    if is_signaled s.state
    then record s { mtx = Owner.free; waiter = Waiter.returned }
    else record s { waiter = Waiter.store }
move_waiter Waiter.store s = record s { state = waiting; waiter = Waiter.test }
move_waiter Waiter.test s =
    if is_signaled s.state
    then record s { mtx = Owner.free; waiter = Waiter.returned }
    else record s { waiter = Waiter.sleep }
move_waiter Waiter.sleep s = record s { mtx = Owner.free; waiter = Waiter.blocked }
move_waiter Waiter.blocked s = s
move_waiter Waiter.woken s = elim s.mtx [
  | Owner.free ↦ record s { mtx = Owner.by_waiter; waiter = Waiter.test }
  | _ ↦ s
]
move_waiter Waiter.expired s = elim s.mtx [
  | Owner.free ↦ record s { mtx = Owner.by_waiter; waiter = Waiter.last_test }
  | _ ↦ s
]
move_waiter Waiter.last_test s =
    if is_signaled s.state
    then record s { mtx = Owner.free; waiter = Waiter.returned }
    else record s { waiter = Waiter.give_up }
move_waiter Waiter.give_up s = record s { state = idle; mtx = Owner.free; waiter = Waiter.failed }
move_waiter Waiter.returned s = s
move_waiter Waiter.failed s = s

wake : Waiter → Waiter
wake Waiter.blocked = Waiter.woken
wake w = w

expire : Bool → Waiter → Waiter
expire true Waiter.blocked = Waiter.expired
expire _ w = w

exchanged : DoneState → Signaler
exchanged waiting = Signaler.lock
exchanged _ = Signaler.finished

move_signaler : Signaler → Sys → Sys
unfolding wake exchanged
move_signaler Signaler.start s = record s { state = signaled; signaler = exchanged s.state }
move_signaler Signaler.lock s = elim s.mtx [
  | Owner.free ↦ record s { mtx = Owner.by_signaler; signaler = Signaler.unlock }
  | _ ↦ s
]
move_signaler Signaler.unlock s = record s { mtx = Owner.free; signaler = Signaler.notify }
move_signaler Signaler.notify s = record s { waiter = wake s.waiter; signaler = Signaler.finished }
move_signaler Signaler.finished s = s

unfoldable pub step : Move → Sys → Sys
unfolding move_waiter move_signaler wake expire is_signaled
step of_waiter s = move_waiter s.waiter s
step of_signaler s = move_signaler s.signaler s
step spurious s = record s { waiter = wake s.waiter }
step timeout s = record s { waiter = expire s.timed s.waiter }

-- Any interleaving is a list of moves.
unfoldable pub run : List Move → Sys → Sys
run [] s = s
run (m ∷ ms) s = run ms (step m s)

abbrev pub init_of : (timed : Bool) → Sys
init_of timed = record {
  state = idle;
  mtx = Owner.free;
  waiter = Waiter.start;
  signaler = Signaler.start;
  timed = timed;
}

-- `Wait(-1)`
abbrev pub init : Sys
init = init_of false

-- The signaler has passed its exchange and has yet to notify.
abbrev pub IsPending : Signaler → Type 0
IsPending Signaler.lock = Unit
IsPending Signaler.unlock = Unit
IsPending Signaler.notify = Unit
IsPending _ = ⊥
