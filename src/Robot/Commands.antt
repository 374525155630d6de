-- ===== src/Robot/Commands.antt =====
-- The commands of karo_x2_sdk/_internal/robot_impl.py, each in two parts around its wait: `cmd_vel`,
-- `emergency_stop_rpc`, the navigation tasks, the task commands and `ping`.
pub mod Accepted
pub mod Limited
use karo_x2_sdk_python.Prelude.{
  ℕ, ◌+◌, ◌-◌, ◌/◌, ◌^◌, Bool, true, false, not, ◌&&◌, String, ◌<>◌, Option, some, none,
  if◌then◌else◌,
}
use karo_x2_sdk_python.Error.{ErrorCode, eq_code, SdkException, exception_str}
use karo_x2_sdk_python.Connection.{ConnectionState, is_state}
use karo_x2_sdk_python.Topic.{FloatBits}
use karo_x2_sdk_python.Options.{
  CmdVelResult, EmergencyStopResult, CreateTaskResult, TaskCommandResult, is_empty,
}
use karo_x2_sdk_python.Codec.Decode.{DecodedResponse}
use karo_x2_sdk_python.Codec.Encode.{
  SdkCommand, encode_cmd_vel, encode_emergency_stop, encode_create_nav_task_marker,
  encode_create_nav_task_pose, encode_cancel_task, encode_pause_task, encode_resume_task,
  encode_ping,
}
use karo_x2_sdk_python.Rate.{try_acquire}
use karo_x2_sdk_python.Latency.{record_rtt}
use karo_x2_sdk_python.Robot.{Robot, RpcStats, take_rid}
use karo_x2_sdk_python.Robot.Rpc.{
  Outcome, answered, timed_out, raised, Started, waiting, failed, send_rpc,
}

-- A command has returned its result, or waits for the answer to a call sent at a time.
pub data Command (A : Type 0) : Type 0 where
  returned : A → Command A
  awaiting : ℕ → ℕ → Command A

-- The three checks of every answer: the session's outcome, the payload, and the robot's outcome.
-- `none` where all pass, and else the code and the message of the result.
unfoldable pub check_answer : DecodedResponse → Option (ErrorCode × String)
check_answer resp =
    if not resp.success
    then some (resp.sdk_code, resp.message)
    else if not resp.has_rpc
    then some (ErrorCode.internal_error, "missing rpc payload in response")
    else if not (eq_code resp.rpc_code ErrorCode.ok)
    then some (resp.rpc_code, resp.rpc_message)
    else none

failed_once : RpcStats → RpcStats
failed_once s = record s { error_count = s.error_count + 1 }

pub begun_once : RpcStats → RpcStats
begun_once s = record s { count = s.count + 1 }

pub timed : RpcStats → ℕ → RpcStats
timed s rtt_ms = record s { hist = record_rtt s.hist rtt_ms }

-- `int((_now_steady() - t0) * 1000)`
pub elapsed_ms : Robot → ℕ → ℕ
elapsed_ms r t0 = (r.clock_steady - t0) / 10 ^ 6

-- `cmd_vel`, from its wait on.
unfoldable pub cmd_vel_failed : Robot → ErrorCode → String → ℕ → Robot × CmdVelResult
unfolding failed_once
cmd_vel_failed r code message rtt_ms = (
  record r { cmd_vel_stats = failed_once r.cmd_vel_stats },
  record { accepted = false; code = code; message = message; rtt_ms = rtt_ms },
)

unfoldable pub cmd_vel_checked : Robot → ℕ → Option (ErrorCode × String) → Robot × CmdVelResult
unfolding cmd_vel_failed
cmd_vel_checked r rtt_ms (some (code, message)) = cmd_vel_failed r code message rtt_ms
cmd_vel_checked r rtt_ms none =
    (r, record { accepted = true; code = ErrorCode.ok; message = ""; rtt_ms = rtt_ms })

unfoldable pub cmd_vel_end : Robot → ℕ → Outcome → Robot × CmdVelResult
unfolding cmd_vel_checked timed elapsed_ms
cmd_vel_end r t0 (answered resp) =
    let rtt_ms : ℕ = elapsed_ms r t0 in
    cmd_vel_checked (record r { cmd_vel_stats = timed r.cmd_vel_stats rtt_ms }) rtt_ms
      (check_answer resp)
cmd_vel_end r t0 timed_out = cmd_vel_failed r ErrorCode.timeout "cmd_vel timeout" 0
cmd_vel_end r t0 (raised e) = cmd_vel_failed r e.code (exception_str e) 0

-- A call that has raised at once ends the command; else it waits.
unfoldable pub cmd_vel_started : Robot → ℕ → Started → Robot × Command CmdVelResult
unfolding cmd_vel_end
cmd_vel_started r rid waiting = (r, awaiting rid r.clock_steady)
cmd_vel_started r rid (failed e) =
    let (ended, result) = cmd_vel_end r r.clock_steady (raised e) in (ended, returned result)

unfoldable pub cmd_vel_refused : Robot → ErrorCode → String → Robot × Command CmdVelResult
unfolding cmd_vel_failed
cmd_vel_refused r code message =
    let (ended, result) = cmd_vel_failed r code message 0 in (ended, returned result)

-- `cmd_vel`, up to its wait.
unfoldable pub cmd_vel : Robot → FloatBits → FloatBits → FloatBits → Robot × Command CmdVelResult
unfolding cmd_vel_refused cmd_vel_started take_rid begun_once
cmd_vel r vx vy wz =
    let (bucket, acquired) = try_acquire r.cmdvel_rate r.clock_steady in
    let counted : Robot = record (take_rid r) {
      cmdvel_rate = bucket;
      cmd_vel_stats = begun_once r.cmd_vel_stats;
      cmdvel_seq = r.cmdvel_seq + 1;
    } in
    let rid : ℕ = r.next_request_id in
    let (called, start) =
      send_rpc counted rid "control.cmd_vel"
        (encode_cmd_vel rid vx vy wz (r.cmdvel_seq + 1) r.clock_ms) in
    if not (is_state r.state ConnectionState.ready)
    then cmd_vel_refused r ErrorCode.disconnected "Robot is not Ready"
    else if not acquired
    then cmd_vel_refused (record r { cmdvel_rate = bucket }) ErrorCode.rate_limited
        "client-side rate limit (20 Hz)"
    else cmd_vel_started called rid start

-- `emergency_stop_rpc`, from its wait on. Only a confirmed command changes the intent that a
-- reconnect replays.
unfoldable pub estop_failed : Robot → ErrorCode → String → Robot × EmergencyStopResult
unfolding failed_once
estop_failed r code message = (
  record r { emergency_stop_stats = failed_once r.emergency_stop_stats },
  record { ok = false; code = code; message = message },
)

unfoldable pub estop_checked :
    Robot → Bool → String → Option (ErrorCode × String) → Robot × EmergencyStopResult
unfolding estop_failed
estop_checked r engage reason (some (code, message)) = estop_failed r code message
estop_checked r engage reason none = (
  record r { last_estop_intent = engage; last_estop_reason = reason },
  record { ok = true; code = ErrorCode.ok; message = "" },
)

unfoldable pub emergency_stop_end :
    Robot → Bool → String → ℕ → Outcome → Robot × EmergencyStopResult
unfolding estop_checked timed elapsed_ms
emergency_stop_end r engage reason t0 (answered resp) =
    estop_checked
      (record r { emergency_stop_stats = timed r.emergency_stop_stats (elapsed_ms r t0) }) engage
      reason (check_answer resp)
emergency_stop_end r engage reason t0 timed_out = estop_failed r ErrorCode.timeout "estop timeout"
emergency_stop_end r engage reason t0 (raised e) = estop_failed r e.code (exception_str e)

unfoldable pub estop_started :
    Robot → Bool → String → ℕ → Started → Robot × Command EmergencyStopResult
unfolding emergency_stop_end
estop_started r engage reason rid waiting = (r, awaiting rid r.clock_steady)
estop_started r engage reason rid (failed e) =
    let (ended, result) = emergency_stop_end r engage reason r.clock_steady (raised e) in
    (ended, returned result)

-- `emergency_stop_rpc`, up to its wait.
unfoldable pub emergency_stop_rpc : Robot → Bool → String → Robot × Command EmergencyStopResult
unfolding estop_started take_rid begun_once
emergency_stop_rpc r engage reason =
    let rid : ℕ = r.next_request_id in
    let (called, start) =
      send_rpc (record (take_rid r) { emergency_stop_stats = begun_once r.emergency_stop_stats })
        rid "safety.emergency_stop" (encode_emergency_stop rid engage reason) in
    if is_state r.state ConnectionState.ready
    then estop_started called engage reason rid start
    else (
      r,
      returned
          (record { ok = false; code = ErrorCode.disconnected; message = "Robot is not Ready" }),
    )
