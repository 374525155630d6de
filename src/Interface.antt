-- ===== src/Interface.antt =====
-- The class `Robot` of karo_x2_sdk/robot.py, which the application uses. Each method calls the one of
-- `RobotImpl`; a method that waits is given up to its wait, as that one is.
use karo_x2_sdk_python.Prelude.{true, ℕ, Bool, String, List, Option}
use karo_x2_sdk_python.Connection.{ConnectionState, is_state}
use karo_x2_sdk_python.Topic.{FloatBits}
use karo_x2_sdk_python.Options.{
  ConnectOptions, RobotInfo, CmdVelResult, EmergencyStopResult, CreateTaskResult, TaskCommandResult,
}
use karo_x2_sdk_python.Diagnostics.Report.{Diagnostics}
use karo_x2_sdk_python.Robot.{Env, Robot}
use karo_x2_sdk_python.Robot.New
use karo_x2_sdk_python.Robot.Lifecycle
use karo_x2_sdk_python.Robot.Establish
use karo_x2_sdk_python.Robot.Waiting
use karo_x2_sdk_python.Robot.Streams
use karo_x2_sdk_python.Robot.Commands
use karo_x2_sdk_python.Robot.Tasks
use karo_x2_sdk_python.Robot.Reporting

-- `Robot(opts)`: the object, or what `_validate_opts` raises.
abbrev pub new : Env → ConnectOptions → ℕ → ℕ → New.Constructed
new env opts clock_ms clock_steady = New.construct env opts clock_ms clock_steady

abbrev pub on_connection_state : Robot → Robot
on_connection_state impl = New.set_connection_state_handler impl

abbrev pub on_log : Robot → Robot
on_log impl = New.set_log_handler impl true

abbrev pub connect : Robot → Robot
connect impl = Establish.connect impl

-- Over the states that the wait finds up to its timeout; `none` is `asyncio.TimeoutError`.
abbrev pub wait_until_ready : List ConnectionState → Option Bool
wait_until_ready states = Waiting.wait_until_ready states

abbrev pub close : Robot → Robot
close impl = Lifecycle.close impl

abbrev pub state : Robot → ConnectionState
state impl = impl.state

abbrev pub is_connected : Robot → Bool
is_connected impl = is_state impl.state ConnectionState.ready

abbrev pub info : Robot → Option RobotInfo
info impl = impl.robot_info

abbrev pub subscribe_robot_status : Robot → FloatBits → Bool → Robot × ℕ
subscribe_robot_status impl desired_hz on_status =
    Streams.subscribe_robot_status impl desired_hz on_status

abbrev pub subscribe_task_events : Robot → Bool → Robot × ℕ
subscribe_task_events impl on_status = Streams.subscribe_task_events impl on_status

abbrev pub subscribe_safety_events : Robot → Bool → Robot × ℕ
subscribe_safety_events impl on_status = Streams.subscribe_safety_events impl on_status

abbrev pub cmd_vel :
    Robot → FloatBits → FloatBits → FloatBits → Robot × Commands.Command CmdVelResult
cmd_vel impl linear_x linear_y angular_z = Commands.cmd_vel impl linear_x linear_y angular_z

abbrev pub emergency_stop : Robot → Bool → String → Robot × Commands.Command EmergencyStopResult
emergency_stop impl engage reason = Commands.emergency_stop_rpc impl engage reason

abbrev pub create_navigation_task_to_marker :
    Robot → String → Robot × Commands.Command CreateTaskResult
create_navigation_task_to_marker impl marker_id =
    Tasks.create_navigation_task_to_marker impl marker_id

abbrev pub create_navigation_task_to_pose :
    Robot → FloatBits → FloatBits → FloatBits → Robot × Commands.Command CreateTaskResult
create_navigation_task_to_pose impl x y theta = Tasks.create_navigation_task_to_pose impl x y theta

abbrev pub cancel_task : Robot → String → Robot × Commands.Command TaskCommandResult
cancel_task impl task_id = Tasks.cancel_task impl task_id

abbrev pub pause_task : Robot → String → Robot × Commands.Command TaskCommandResult
pause_task impl task_id = Tasks.pause_task impl task_id

abbrev pub resume_task : Robot → String → Robot × Commands.Command TaskCommandResult
resume_task impl task_id = Tasks.resume_task impl task_id

abbrev pub ping : Robot → Robot × Commands.Command (Option ℕ)
ping impl = Tasks.ping impl

abbrev pub get_diagnostics : Robot → Robot × Diagnostics
get_diagnostics impl = Reporting.get_diagnostics impl

-- `__aenter__`, up to the wait of `wait_until_ready`, whose result it does not look at.
abbrev pub aenter : Robot → Robot
aenter impl = connect impl

abbrev pub aexit : Robot → Robot
aexit impl = close impl
