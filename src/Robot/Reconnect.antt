-- ===== src/Robot/Reconnect.antt =====
-- Reconnecting, of karo_x2_sdk/_internal/robot_impl.py: the end of the sleep of `_do_reconnect`, and
-- `_do_estop_replay` up to its wait and from there on.
pub mod EstopReplay
pub mod Shutdown
pub mod Kept
pub mod Recovery
pub mod Asked
pub mod Resumed
use karo_x2_sdk_python.Prelude.{
  ℕ, ◌+◌, Bool, true, false, not, ◌||◌, ◌&&◌, String, ◌<>◌, List, [], ◌∷◌, Option, some, none,
  if◌then◌else◌, ◌==◌, nat_eq,
}
use karo_x2_sdk_python.Error.{ErrorCode, eq_code, SdkException}
use karo_x2_sdk_python.Connection.{ConnectionState, is_state}
use karo_x2_sdk_python.Codec.Decode.{DecodedResponse}
use karo_x2_sdk_python.Codec.Encode.{encode_emergency_stop}
use karo_x2_sdk_python.Robot.{Robot, take_rid, transition, change}
use karo_x2_sdk_python.Robot.Lifecycle.{on_transport_close}
use karo_x2_sdk_python.Robot.Rpc.{
  Outcome, answered, timed_out, raised, Started, waiting, failed, send_rpc,
}
use karo_x2_sdk_python.Robot.Ack.{finish_reconnect}
use karo_x2_sdk_python.Robot.Establish.{establish}

-- The task of the attempt after its sleep.
unfoldable pub do_reconnect : Robot → ℕ → Robot
do_reconnect r attempt =
    let begun : Robot =
      transition (record r { reconnect_attempt = attempt }) ConnectionState.reconnecting
        (change "reconnecting" ErrorCode.ok "") in
    if is_state r.state ConnectionState.transient_failure then establish begun true else r

-- The task in `_reconnect_task` sleeps no more; it is in `_establish` where the state lets it.
unfoldable pub awake : Robot → Robot
awake r = record r {
  reconnect_task = none;
  establish_handled = is_state r.state ConnectionState.transient_failure || r.establish_handled;
}

-- The sleep of the task in `_reconnect_task` is over.
unfoldable pub wake_current : Robot → Robot
unfolding do_reconnect awake
wake_current r = elim r.reconnect_task [ none ↦ r | some attempt ↦ do_reconnect (awake r) attempt ]

unfoldable pub wake_first : List ℕ → Robot → Robot
unfolding do_reconnect
wake_first [] r = r
wake_first (attempt ∷ rest) r =
    do_reconnect
      (record r {
        older_tasks = rest;
        establish_handled =
            not (is_state r.state ConnectionState.transient_failure) && r.establish_handled;
      })
      attempt

-- The sleep of a task without a handle is over.
unfoldable pub wake_older : Robot → Robot
unfolding wake_first
wake_older r = wake_first r.older_tasks r

-- The replay has failed: `_on_transport_close`, whatever the exception was.
unfoldable pub replay_failed : Robot → Robot
replay_failed r =
    on_transport_close (record r { reconnect_estop_pending = false }) ErrorCode.timeout
      "estop replay timeout"

unfoldable pub replay_started : Robot → Started → Robot
unfolding replay_failed
replay_started r waiting = r
replay_started r (failed e) = replay_failed r

-- `_do_estop_replay`, up to its wait.
unfoldable pub do_estop_replay : Robot → Robot
unfolding take_rid replay_started
do_estop_replay r =
    let (called, start) = send_rpc (take_rid r) r.next_request_id "safety.emergency_stop.replay" (
      encode_emergency_stop r.next_request_id true
        (r.last_estop_reason <> " [auto-replayed after reconnect]")) in
    replay_started called start

-- `resp.success and resp.has_rpc and resp.rpc_code == ErrorCode.OK`
unfoldable pub replay_ok : DecodedResponse → Bool
replay_ok resp = resp.success && (resp.has_rpc && eq_code resp.rpc_code ErrorCode.ok)

-- `_do_estop_replay` from its wait on.
unfoldable pub estop_replay_end : Robot → Outcome → Robot
unfolding replay_failed replay_ok
estop_replay_end r timed_out = replay_failed r
estop_replay_end r (raised e) = replay_failed r
estop_replay_end r (answered resp) =
    let done : Robot = record r { reconnect_estop_pending = false } in
    if not (replay_ok resp)
    then on_transport_close done
        (if resp.has_rpc && not (eq_code resp.rpc_code ErrorCode.ok)
          then resp.rpc_code
          else resp.sdk_code)
        "estop replay failed"
    else if r.reconnect_subs_pending == 0
    then finish_reconnect done "reconnect ok (estop replayed)" "estop_replay_ok"
    else done
