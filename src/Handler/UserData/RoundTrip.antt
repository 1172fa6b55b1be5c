-- ===== src/Handler/UserData/RoundTrip.antt =====
-- What is written into the word of an entry is what the event loop reads from it.
use async_io.Prelude.{ℕ, ◌^◌, ◌<◌, ◌≡◌, arith}
use async_io.Constants.{EventFlag, timeout_bit, error_bit, cancel_bit}
use async_io.Handler.UserData.{or_bit, event_bits, task_bits, event_flag}

-- The word for the task at `p`; `mixed` stands for one with two flags.
abbrev pub tagged : EventFlag → ℕ → ℕ
tagged EventFlag.none p = p
tagged EventFlag.timeout p = or_bit p timeout_bit
tagged EventFlag.error p = or_bit p error_bit
tagged EventFlag.cancel p = or_bit p cancel_bit
tagged EventFlag.mixed p = or_bit (or_bit p cancel_bit) timeout_bit

-- For an address below 2 ^ 61 both the address and the kind of event come back.
pub tagged_round_trip :
    (et : EventFlag) (p : ℕ)
    → p < 2 ^ cancel_bit
    → (task_bits (tagged et p) ≡ p) × (event_flag (event_bits (tagged et p)) ≡ et)
unfolding or_bit event_bits task_bits event_flag
tagged_round_trip EventFlag.none p h = ground arith
tagged_round_trip EventFlag.timeout p h = ground arith
tagged_round_trip EventFlag.error p h = ground arith
tagged_round_trip EventFlag.cancel p h = ground arith
tagged_round_trip EventFlag.mixed p h = ground arith
