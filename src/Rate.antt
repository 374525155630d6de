-- ===== src/Rate.antt =====
-- `_TokenBucket` of karo_x2_sdk/_internal/robot_impl.py, which keeps `cmd_vel` to 20 Hz.
-- Floats are exact scaled integers: a time is a number of nanoseconds of the monotonic clock, and
-- tokens are counted in units of 10^-9, so that `elapsed * max_hz` is a number of such units.
pub mod Limit
use karo_x2_sdk_python.Prelude.{
  ℕ, ◌+◌, ◌-◌, ◌*◌, ◌^◌, min, Bool, true, false, leb, if◌then◌else◌, List, [], ◌∷◌,
}

-- One token.
abbrev pub token : ℕ
token = 10 ^ 9

pub record TokenBucket : Type 0 where
  pub max_hz : ℕ
  pub burst : ℕ
  pub tokens : ℕ
  pub last : ℕ

-- `_TokenBucket(max_hz, burst)`, made at the time `now`.
unfoldable pub new_bucket : ℕ → ℕ → ℕ → TokenBucket
new_bucket max_hz burst now = record { max_hz = max_hz; burst = burst; tokens = burst; last = now }

-- The bucket of `RobotImpl`: `_TokenBucket(20.0, 1.0)`.
unfoldable pub cmdvel_rate : ℕ → TokenBucket
unfolding new_bucket
cmdvel_rate now = new_bucket 20 token now

-- `min(self._burst, self._tokens + elapsed * self._max_hz)`
unfoldable pub refill : TokenBucket → ℕ → ℕ
refill b now = min b.burst (b.tokens + (now - b.last) * b.max_hz)

-- `try_acquire` at the time `now`.
unfoldable pub try_acquire : TokenBucket → ℕ → TokenBucket × Bool
try_acquire b now =
    if leb token (refill b now)
    then (record b { tokens = refill b now - token; last = now }, true)
    else (record b { tokens = refill b now; last = now }, false)
