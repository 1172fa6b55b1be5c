-- ===== src/Result.antt =====
-- include/talon/async_io_result.hpp: `IOResult`, and `DoneState` as one thread sees it.
pub mod Protocol
use async_io.Prelude.{
  ℕ, Bool, true, false, String, Option, none, some, ℤ, pos, ltb_ℤ, ◌==ℤ◌, if◌then◌else◌,
}

-- The texts of the sources: a literal, or a literal round a number that `std::to_string` prints.
pub data Message : Type 0 where
  literal : String → Message
  timeout_after_ms : ℤ → Message
  failed_after_retries : ℕ → Message

pub record IoResult : Type 0 where
  pub io_ret : ℤ
  pub event_fd : ℤ
  pub iodone : Bool
  pub err_msg : Message

-- `kIdle`, `kWaiting`, `kSignaled`
pub data DoneState : Type 0 where
  idle waiting signaled : DoneState

pub is_signaled : DoneState → Bool
is_signaled signaled = true
is_signaled _ = false

-- The new state, and whether a waiter is to be notified.
unfoldable pub signal : DoneState → DoneState × Bool
signal waiting = (signaled, true)
signal _ = (signaled, false)

unfoldable pub reset : DoneState → DoneState
reset s = idle

unfoldable pub is_ready : DoneState → Bool
unfolding is_signaled
is_ready s = is_signaled s

-- `Wait(timeout_ms)`. `arrives` says whether `Signal` is called while the caller is blocked on the
-- condition variable (before the deadline, if there is one). `none`: the call never returns.
unfoldable pub wait : ℤ → (arrives : Bool) → DoneState → Option (Bool × DoneState)
unfolding is_signaled signal reset
wait timeout_ms arrives s =
    if is_signaled s
    then some (true, s)
    else if timeout_ms ==ℤ pos 0
    then some (is_signaled s, s)
    else if ltb_ℤ timeout_ms (pos 0)
    then if arrives then some (true, (signal waiting).0) else none
    else if arrives
    then some (true, (signal waiting).0)
    else some (false, reset waiting)
