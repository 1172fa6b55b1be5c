-- ===== src/Handler/UserData.antt =====
-- The 64-bit word that travels with an entry of the ring: a task's address and the kind of event
-- in the three top bits. `|` with one bit, and `&` with the mask or its complement, are written as
-- arithmetic on a word below 2 ^ 64.
pub mod RoundTrip
use async_io.Prelude.{ℕ, ◌+◌, ◌-◌, ◌*◌, ◌/◌, ◌%◌, ◌^◌, ◌==◌, if◌then◌else◌, ℤ, pos, negsuc}
use async_io.Constants.{EventFlag, cancel_bit, timeout_flag, error_flag, cancel_flag}

-- `ud | (1ULL << bit)`
unfoldable pub or_bit : ℕ → (bit : ℕ) → ℕ
or_bit ud bit = if ud / 2 ^ bit % 2 == 1 then ud else ud + 2 ^ bit

-- `ud & kEventMaskFlags`: the three bits from 61 on.
unfoldable pub event_bits : ℕ → ℕ
event_bits ud = ud / 2 ^ cancel_bit * 2 ^ cancel_bit

-- `ud & ~kEventMaskFlags`
unfoldable pub task_bits : ℕ → ℕ
task_bits ud = ud % 2 ^ cancel_bit

-- `static_cast<EventFlag>`, as the `switch` of `DispatchCqe` reads it.
unfoldable pub event_flag : ℕ → EventFlag
event_flag bits =
    if bits == 0
    then EventFlag.none
    else if bits == timeout_flag
    then EventFlag.timeout
    else if bits == error_flag
    then EventFlag.error
    else if bits == cancel_flag
    then EventFlag.cancel
    else EventFlag.mixed

-- The cast of a signed 64-bit value to `__u64`.
unfoldable pub u64 : ℤ → ℕ
u64 (pos n) = n % 2 ^ 64
u64 (negsuc n) = 2 ^ 64 - 1 - n % 2 ^ 64
