-- ===== src/Backoff.antt =====
-- `RobotImpl._next_backoff_ms` of karo_x2_sdk/_internal/robot_impl.py: the delay before the next
-- attempt to reconnect. Floats are exact: delays are microseconds, ratios millionths, and the
-- random number is a multiple of 2^-53, as Python's `random.random()` returns it.
pub mod Bounds
use karo_x2_sdk_python.Prelude.{
  ℕ, zero, suc, ◌+◌, ◌-◌, ◌*◌, ◌/◌, ◌^◌, max, leb, ltb, if◌then◌else◌, pos_part,
}
use karo_x2_sdk_python.Options.{ConnectOptions}

-- The loop over `range(attempt)`, which stops at the maximal delay.
pub doubled : ℕ → ℕ → ℕ → ℕ
doubled mx zero exp = exp
doubled mx (suc rounds) exp =
    let rest = doubled mx rounds (exp * 2) in if leb mx exp then exp else rest

-- `exp`, after the loop and the cut.
pub capped : ConnectOptions → ℕ → ℕ
unfolding doubled
capped o attempt =
    let exp = doubled o.reconnect_max_delay attempt o.reconnect_base_delay in
    if ltb o.reconnect_max_delay exp then o.reconnect_max_delay else exp

-- `max(0.05, reconnect_jitter_ratio)`, in millionths.
pub jitter : ConnectOptions → ℕ
jitter o = max 50_000 (pos_part o.reconnect_jitter_ratio)

-- `random` stands for `random / 2 ^ 53`. The subtraction stops at 0, as the code does, and the
-- division cuts off what is below a millisecond.
pub next_backoff_ms : ConnectOptions → ℕ → ℕ → ℕ
unfolding capped jitter
next_backoff_ms o attempt random =
    (capped o attempt * (10 ^ 6 * 2 ^ 53) - capped o attempt * jitter o * random)
    / (1000 * (10 ^ 6 * 2 ^ 53))
