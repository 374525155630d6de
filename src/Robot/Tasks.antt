-- ===== src/Robot/Tasks.antt =====
-- The task commands of karo_x2_sdk/_internal/robot_impl.py: `create_navigation_task_to_marker`,
-- `create_navigation_task_to_pose`, `cancel_task`, `pause_task`, `resume_task`, and `ping`.
use karo_x2_sdk_python.Prelude.{
  ℕ, ◌+◌, ◌-◌, ◌/◌, ◌^◌, true, false, String, ◌<>◌, Option, some, none, if◌then◌else◌,
}
use karo_x2_sdk_python.Error.{ErrorCode, exception_str}
use karo_x2_sdk_python.Connection.{ConnectionState, is_state}
use karo_x2_sdk_python.Topic.{FloatBits}
use karo_x2_sdk_python.Options.{CreateTaskResult, TaskCommandResult, is_empty}
use karo_x2_sdk_python.Codec.Wire.{Parsers}
use karo_x2_sdk_python.Codec.Decode.{DecodedResponse}
use karo_x2_sdk_python.Codec.Payload.{decode_create_task_response}
use karo_x2_sdk_python.Codec.Encode.{
  SdkCommand, encode_create_nav_task_marker, encode_create_nav_task_pose, encode_cancel_task,
  encode_pause_task, encode_resume_task, encode_ping,
}
use karo_x2_sdk_python.Latency.{record_rtt}
use karo_x2_sdk_python.Robot.{Robot, take_rid}
use karo_x2_sdk_python.Robot.Rpc.{
  Outcome, answered, timed_out, raised, Started, waiting, failed, send_rpc,
}
use karo_x2_sdk_python.Robot.Commands.{Command, returned, awaiting, check_answer}

no_task : ErrorCode → String → CreateTaskResult
no_task code message = record { accepted = false; code = code; message = message; task_id = "" }

task_named : Option String → CreateTaskResult
unfolding no_task
task_named none = no_task ErrorCode.internal_error "malformed CreateNavigationTask response"
task_named (some task_id) =
    if is_empty task_id
    then no_task ErrorCode.internal_error "malformed CreateNavigationTask response"
    else record { accepted = true; code = ErrorCode.ok; message = ""; task_id = task_id }

task_checked : Parsers → DecodedResponse → Option (ErrorCode × String) → CreateTaskResult
unfolding no_task task_named
task_checked p resp (some (code, message)) = no_task code message
task_checked p resp none = task_named (decode_create_task_response p resp.rpc_payload)

-- `_await_create_task`, from its wait on.
unfoldable pub create_task_end : Robot → Outcome → CreateTaskResult
unfolding task_checked
create_task_end r (answered resp) = task_checked r.env.parsers resp (check_answer resp)
create_task_end r timed_out = no_task ErrorCode.timeout "move.create_task timeout"
create_task_end r (raised e) = no_task e.code (exception_str e)

unfoldable pub create_task_started : Robot → ℕ → Started → Robot × Command CreateTaskResult
create_task_started r rid waiting = (r, awaiting rid r.clock_steady)
create_task_started r rid (failed e) = (r, returned (create_task_end r (raised e)))

-- `_await_create_task`, up to its wait, for a robot that is ready.
unfoldable pub create_task : Robot → SdkCommand → Robot × Command CreateTaskResult
unfolding create_task_started no_task take_rid
create_task r command =
    let (called, start) = send_rpc (take_rid r) r.next_request_id "move.create_task" command in
    if is_state r.state ConnectionState.ready
    then create_task_started called r.next_request_id start
    else (r, returned (no_task ErrorCode.disconnected "Robot is not Ready"))

unfoldable pub create_navigation_task_to_marker : Robot → String → Robot × Command CreateTaskResult
unfolding create_task
create_navigation_task_to_marker r marker_id =
    create_task r (encode_create_nav_task_marker r.next_request_id marker_id)

unfoldable pub create_navigation_task_to_pose :
    Robot → FloatBits → FloatBits → FloatBits → Robot × Command CreateTaskResult
unfolding create_task
create_navigation_task_to_pose r x y theta =
    create_task r (encode_create_nav_task_pose r.next_request_id x y theta)

task_result : Option (ErrorCode × String) → TaskCommandResult
task_result (some (code, message)) = record { ok = false; code = code; message = message }
task_result none = record { ok = true; code = ErrorCode.ok; message = "" }

-- `_task_command`, from its wait on.
unfoldable pub task_command_end : String → Outcome → TaskCommandResult
unfolding task_result
task_command_end method (answered resp) = task_result (check_answer resp)
task_command_end method timed_out = record {
  ok = false;
  code = ErrorCode.timeout;
  message = method <> " timeout";
}
task_command_end method (raised e) = record { ok = false; code = e.code; message = exception_str e }

unfoldable pub task_command_started :
    Robot → String → ℕ → Started → Robot × Command TaskCommandResult
task_command_started r method rid waiting = (r, awaiting rid r.clock_steady)
task_command_started r method rid (failed e) = (r, returned (task_command_end method (raised e)))

-- `_task_command`, up to its wait.
unfoldable pub task_command :
    Robot → String → (ℕ → String → SdkCommand) → String → Robot × Command TaskCommandResult
unfolding task_command_started take_rid
task_command r method encoder task_id =
    let (called, start) =
      send_rpc (take_rid r) r.next_request_id method (encoder r.next_request_id task_id) in
    if is_state r.state ConnectionState.ready
    then task_command_started called method r.next_request_id start
    else (
      r,
      returned
          (record { ok = false; code = ErrorCode.disconnected; message = "Robot is not Ready" }),
    )

unfoldable pub cancel_task : Robot → String → Robot × Command TaskCommandResult
unfolding task_command
cancel_task r task_id = task_command r "task_actions.cancel_task" encode_cancel_task task_id

unfoldable pub pause_task : Robot → String → Robot × Command TaskCommandResult
unfolding task_command
pause_task r task_id = task_command r "task_actions.pause_task" encode_pause_task task_id

unfoldable pub resume_task : Robot → String → Robot × Command TaskCommandResult
unfolding task_command
resume_task r task_id = task_command r "task_actions.resume_task" encode_resume_task task_id

-- `ping`, from its wait on: the round trip time in nanoseconds, or `none` for -1.0.
unfoldable pub ping_end : Robot → ℕ → Outcome → Robot × Option ℕ
ping_end r t0 (answered resp) = (
  record r {
    rtt_hist = record_rtt r.rtt_hist ((r.clock_steady - t0) / 10 ^ 6);
    last_ping_sent_ms = some r.clock_ms;
  },
  some (r.clock_steady - t0),
)
ping_end r t0 _ = (
  record r { ping_stats = record r.ping_stats { error_count = r.ping_stats.error_count + 1 } },
  none,
)

unfoldable pub ping_started : Robot → ℕ → Started → Robot × Command (Option ℕ)
unfolding ping_end
ping_started r rid waiting = (r, awaiting rid r.clock_steady)
ping_started r rid (failed e) =
    let (ended, result) = ping_end r r.clock_steady (raised e) in (ended, returned result)

-- `ping`, up to its wait.
unfoldable pub ping : Robot → Robot × Command (Option ℕ)
unfolding ping_started take_rid
ping r =
    let rid : ℕ = r.next_request_id in
    let (called, start) =
      send_rpc
        (record (take_rid r) {
          ping_stats = record r.ping_stats { count = r.ping_stats.count + 1 };
        })
        rid "ping" (encode_ping rid r.clock_ms) in
    if is_state r.state ConnectionState.ready
    then ping_started called rid start
    else (r, returned none)
