-- ===== src/Tests/Waiting.antt =====
-- Interleavings of a waiter and a signaler.
use async_io.Prelude.{true, ◌≡◌, ◌≢◌, refl, List, [], ◌∷◌}
use async_io.Result.{idle}
use async_io.Result.Protocol.{
  Waiter, Sys, Move, of_waiter, of_signaler, spurious, timeout, step, run, init, init_of, IsPending,
}
use async_io.Result.Protocol.Wakeup.{
  asleep_gets_notified, signal_lost, signal_lost_at_timeout, rescue,
}

-- The waiter falls asleep, then the signaler makes its exchange.
abbrev slept : List Move
slept = of_waiter ∷ of_waiter ∷ of_waiter ∷ of_waiter ∷ of_waiter ∷ of_waiter ∷ of_signaler ∷ []

asleep_gets_notified_example :
    let s = run slept init in IsPending s.signaler × ((run rescue s).waiter ≡ Waiter.returned)
unfolding run step
asleep_gets_notified_example = asleep_gets_notified slept refl refl

-- The waiter stands before its store.
abbrev before_store : Sys
before_store = run (of_waiter ∷ of_waiter ∷ of_waiter ∷ []) init

signal_lost_example :
    (run
      (spurious ∷ of_waiter ∷ of_waiter ∷ of_signaler ∷ [])
      (run (of_signaler ∷ of_waiter ∷ []) before_store)).waiter
    ≢ Waiter.returned
unfolding run step
signal_lost_example =
    signal_lost before_store (spurious ∷ of_waiter ∷ of_waiter ∷ of_signaler ∷ []) refl refl
      (λ e. cc) refl

-- A signal that comes first is seen by the first load.
signal_first : (run (of_signaler ∷ of_waiter ∷ []) init).waiter ≡ Waiter.returned
unfolding run step
signal_first = refl

-- The waiter slept until its time was over, and found no signal.
abbrev timed_out : Sys
timed_out =
    run
      (of_waiter ∷ of_waiter ∷ of_waiter ∷ of_waiter ∷ of_waiter ∷ of_waiter ∷ timeout ∷ of_waiter
        ∷ of_waiter ∷ [])
      (init_of true)

lost_at_timeout :
    let s' =
      run
        (of_signaler ∷ of_waiter ∷ of_signaler ∷ [])
        (run (of_signaler ∷ of_waiter ∷ []) timed_out) in
    (s'.waiter ≡ Waiter.failed) × (s'.state ≡ idle)
unfolding run step
lost_at_timeout =
    signal_lost_at_timeout timed_out (of_signaler ∷ of_waiter ∷ of_signaler ∷ []) refl refl
