-- ===== src/Result/Protocol/Wakeup.antt =====
-- When a waiter is woken, and when it is not.
use async_io.Prelude.{false, ◌≡◌, ◌≢◌, List, [], ◌∷◌, arith}
use async_io.Result.{idle, waiting, signaled}
use async_io.Result.Protocol.{
  Waiter, Signaler, Owner, Sys, Move, of_waiter, of_signaler, spurious, timeout, step, run, init,
  IsPending,
}

abbrev IsHolding : Waiter → Type 0
IsHolding Waiter.check = Unit
IsHolding Waiter.store = Unit
IsHolding Waiter.test = Unit
IsHolding Waiter.sleep = Unit
IsHolding Waiter.last_test = Unit
IsHolding Waiter.give_up = Unit
IsHolding _ = ⊥

record Inv (s : Sys) : Type 0 where
  check_holds : s.waiter ≡ Waiter.check → s.mtx ≡ Owner.by_waiter
  store_holds : s.waiter ≡ Waiter.store → s.mtx ≡ Owner.by_waiter
  test_holds : s.waiter ≡ Waiter.test → s.mtx ≡ Owner.by_waiter
  sleep_holds : s.waiter ≡ Waiter.sleep → s.mtx ≡ Owner.by_waiter
  last_test_holds : s.waiter ≡ Waiter.last_test → s.mtx ≡ Owner.by_waiter
  give_up_holds : s.waiter ≡ Waiter.give_up → s.mtx ≡ Owner.by_waiter
  unlock_holds : s.signaler ≡ Signaler.unlock → s.mtx ≡ Owner.by_signaler
  by_waiter : s.mtx ≡ Owner.by_waiter → IsHolding s.waiter
  by_signaler : s.mtx ≡ Owner.by_signaler → s.signaler ≡ Signaler.unlock
  test_stored : s.waiter ≡ Waiter.test → s.state ≢ idle
  sleep_stored : s.waiter ≡ Waiter.sleep → s.state ≢ idle
  blocked_stored : s.waiter ≡ Waiter.blocked → s.state ≢ idle
  woken_stored : s.waiter ≡ Waiter.woken → s.state ≢ idle
  asleep_soon : s.waiter ≡ Waiter.sleep → s.state ≡ signaled → s.signaler ≡ Signaler.lock
  asleep : s.waiter ≡ Waiter.blocked → s.state ≡ signaled → IsPending s.signaler

step-Inv : (m : Move) (s : Sys) → Inv s → Inv (step m s)
unfolding step
step-Inv of_waiter s v = ground arith
step-Inv of_signaler s v = ground arith
step-Inv spurious s v = ground arith
step-Inv timeout s v = ground arith

run-Inv : (ms : List Move) (s : Sys) → Inv s → Inv (run ms s)
unfolding run
run-Inv [] s v = v
run-Inv (m ∷ ms) s v = run-Inv ms (step m s) (step-Inv m s v)

init-Inv : Inv init
init-Inv = ground arith

abbrev pub rescue : List Move
rescue = of_signaler ∷ of_signaler ∷ of_signaler ∷ of_waiter ∷ of_waiter ∷ []

rescue-returned :
    (s : Sys)
    → Inv s
    → s.waiter ≡ Waiter.blocked
    → s.state ≡ signaled
    → (run rescue s).waiter ≡ Waiter.returned
unfolding run step
rescue-returned s v blocked done = ground arith

-- In every interleaving of one `Wait(-1)` with one `Signal()`: if the waiter is asleep although the
-- state is signalled, the signaler has yet to notify it, and three moves of the signaler and two of the
-- waiter make `Wait` return.
pub asleep_gets_notified :
    (ms : List Move)
    → let s = run ms init in
      s.waiter ≡ Waiter.blocked
      → s.state ≡ signaled
      → IsPending s.signaler × ((run rescue s).waiter ≡ Waiter.returned)
asleep_gets_notified ms blocked done =
    let v = run-Inv ms init init-Inv in
    (v.asleep blocked done, rescue-returned (run ms init) v blocked done)

abbrev IsStuck : Waiter → Type 0
IsStuck Waiter.test = Unit
IsStuck Waiter.sleep = Unit
IsStuck Waiter.blocked = Unit
IsStuck Waiter.woken = Unit
IsStuck _ = ⊥

record IsLost (s : Sys) : Type 0 where
  overwritten : s.state ≡ waiting
  gone : s.signaler ≡ Signaler.finished
  stuck : IsStuck s.waiter
  untimed : s.timed ≡ false

step-IsLost : (m : Move) (s : Sys) → IsLost s → IsLost (step m s)
unfolding step
step-IsLost of_waiter s v = ground arith
step-IsLost of_signaler s v = ground arith
step-IsLost spurious s v = ground arith
step-IsLost timeout s v = ground arith

run-IsLost : (ms : List Move) (s : Sys) → IsLost s → (run ms s).waiter ≢ Waiter.returned
unfolding run
run-IsLost [] s v = ground arith
run-IsLost (m ∷ ms) s v = run-IsLost ms (step m s) (step-IsLost m s v)

lose-IsLost :
    (s : Sys)
    → s.waiter ≡ Waiter.store
    → s.signaler ≡ Signaler.start
    → s.state ≢ waiting
    → s.timed ≡ false
    → IsLost (run (of_signaler ∷ of_waiter ∷ []) s)
unfolding run step
lose-IsLost s st sg ne untimed = ground arith

-- A signal that comes between the waiter's second load and its store of `kWaiting` is lost: the store
-- overwrites it, nothing notifies, and `Wait(-1)` returns in no continuation.
pub signal_lost :
    (s : Sys) (ms : List Move)
    → s.waiter ≡ Waiter.store
    → s.signaler ≡ Signaler.start
    → s.state ≢ waiting
    → s.timed ≡ false
    → (run ms (run (of_signaler ∷ of_waiter ∷ []) s)).waiter ≢ Waiter.returned
signal_lost s ms st sg ne untimed =
    run-IsLost ms (run (of_signaler ∷ of_waiter ∷ []) s) (lose-IsLost s st sg ne untimed)

record IsGone (s : Sys) : Type 0 where
  overwritten : s.state ≡ idle
  past : s.signaler ≢ Signaler.start
  answered : s.waiter ≡ Waiter.failed

step-IsGone : (m : Move) (s : Sys) → IsGone s → IsGone (step m s)
unfolding step
step-IsGone of_waiter s v = ground arith
step-IsGone of_signaler s v = ground arith
step-IsGone spurious s v = ground arith
step-IsGone timeout s v = ground arith

run-IsGone : (ms : List Move) (s : Sys) → IsGone s → IsGone (run ms s)
unfolding run
run-IsGone [] s v = v
run-IsGone (m ∷ ms) s v = run-IsGone ms (step m s) (step-IsGone m s v)

timed_out-IsGone :
    (s : Sys)
    → s.waiter ≡ Waiter.give_up
    → s.signaler ≡ Signaler.start
    → IsGone (run (of_signaler ∷ of_waiter ∷ []) s)
unfolding run step
timed_out-IsGone s st sg = ground arith

-- A signal that comes when the time of a waiter has ended, between its last test and its store of
-- `kIdle`, is lost: `Wait` returns false, and in every continuation the state stays `kIdle`.
pub signal_lost_at_timeout :
    (s : Sys) (ms : List Move)
    → s.waiter ≡ Waiter.give_up
    → s.signaler ≡ Signaler.start
    → let s' = run ms (run (of_signaler ∷ of_waiter ∷ []) s) in
      (s'.waiter ≡ Waiter.failed) × (s'.state ≡ idle)
signal_lost_at_timeout s ms st sg =
    let gone = run-IsGone ms (run (of_signaler ∷ of_waiter ∷ []) s) (timed_out-IsGone s st sg) in
    (gone.answered, gone.overwritten)
