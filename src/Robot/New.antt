-- ===== src/Robot/New.antt =====
-- `RobotImpl.__init__` of karo_x2_sdk/_internal/robot_impl.py: a connection object at its start.
use karo_x2_sdk_python.Prelude.{ℕ, Bool, true, false, [], Option, some, none}
use karo_x2_sdk_python.Error.{ErrorCode, SdkException}
use karo_x2_sdk_python.Connection.{ConnectionState}
use karo_x2_sdk_python.Options.{ConnectOptions, validate_opts}
use karo_x2_sdk_python.Latency.{new_hist}
use karo_x2_sdk_python.Rate.{cmdvel_rate}
use karo_x2_sdk_python.Robot.{Env, Robot, RpcStats, nowhere}

new_stats : RpcStats
new_stats = record { count = 0; error_count = 0; hist = new_hist 1024 }

-- The fields that `__init__` sets, at a time of the two clocks. No handler is registered yet.
unfoldable pub new_robot : Env → ConnectOptions → ℕ → ℕ → Robot
unfolding new_stats
new_robot env opts clock_ms clock_steady = record {
  env = env;
  opts = opts;
  clock_ms = clock_ms;
  clock_steady = clock_steady;
  draws = 0;
  state = ConnectionState.idle;
  ws = none;
  connection_state_handler = false;
  log_handler = false;
  robot_info = none;
  next_request_id = 1;
  inflight = [];
  subs = [];
  retired = [];
  next_ident = 0;
  inflight_sub = [];
  sub_ack_timers = [];
  heartbeat_task = false;
  last_inbound = clock_steady;
  miss_count = 0;
  establishing = nowhere;
  reconnect_attempt = 0;
  reconnect_total_count = 0;
  reconnect_task = none;
  older_tasks = [];
  establish_handled = false;
  last_estop_intent = false;
  last_estop_reason = "";
  reconnect_subs_pending = 0;
  reconnect_estop_pending = false;
  cmdvel_rate = cmdvel_rate clock_steady;
  cmdvel_seq = 0;
  last_state_change_ms = clock_ms;
  last_error_code = ErrorCode.ok;
  last_error_msg = "";
  bytes_sent = 0;
  bytes_received = 0;
  last_ping_sent_ms = none;
  rtt_hist = new_hist 1024;
  cmd_vel_stats = new_stats;
  emergency_stop_stats = new_stats;
  ping_stats = new_stats;
  connect_invoked = false;
  trace = [];
}

-- The constructor returns an object, or raises what `_validate_opts` raises.
pub data Constructed : Type 0 where
  built : Robot → Constructed
  refused : SdkException → Constructed

build : Option SdkException → Robot → Constructed
build none r = built r
build (some e) r = refused e

unfoldable pub construct : Env → ConnectOptions → ℕ → ℕ → Constructed
unfolding build new_robot
construct env opts clock_ms clock_steady =
    build (validate_opts opts) (new_robot env opts clock_ms clock_steady)

-- `set_connection_state_handler`
unfoldable pub set_connection_state_handler : Robot → Robot
set_connection_state_handler r = record r { connection_state_handler = true }

-- `set_log_handler`; without a handler, `none` in the source, the lines go to the error output.
unfoldable pub set_log_handler : Robot → Bool → Robot
set_log_handler r handler = record r { log_handler = handler }
