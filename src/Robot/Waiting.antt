-- ===== src/Robot/Waiting.antt =====
-- `wait_until_ready` of karo_x2_sdk/_internal/robot_impl.py.
pub mod Settled
use karo_x2_sdk_python.Prelude.{
  Bool, true, false, ◌||◌, List, [], ◌∷◌, Option, some, none, if◌then◌else◌,
}
use karo_x2_sdk_python.Connection.{ConnectionState, is_state}

-- `s in (READY, FATAL, SHUTDOWN)`
unfoldable pub settles : ConnectionState → Bool
unfolding is_state
settles s =
    is_state s ConnectionState.ready
    || (is_state s ConnectionState.fatal || is_state s ConnectionState.shutdown)

-- The states that the loop finds in its rounds, up to the timeout: what it returns, or `none`, which is
-- `asyncio.TimeoutError`, where the time is over first.
unfoldable pub wait_until_ready : List ConnectionState → Option Bool
wait_until_ready [] = none
wait_until_ready (s ∷ states) =
    if settles s then some (is_state s ConnectionState.ready) else wait_until_ready states
