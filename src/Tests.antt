-- ===== src/Tests.antt =====
-- Concrete values for the tests and the examples of the modules below: options as an application
-- gives them, a subscription, a response, and a connection object.
mod Units
mod Slots
mod Connections
mod Steps
mod Clients
mod Links
use karo_x2_sdk_python.Prelude.{
  ℕ, Bool, true, false, String, List, [], ◌∷◌, Option, some, none, ℤ, pos, negsuc, replicate,
}
use karo_x2_sdk_python.Error.{ErrorCode}
use karo_x2_sdk_python.Connection.{ConnectionState}
use karo_x2_sdk_python.Topic.{DeliverySemantics}
use karo_x2_sdk_python.Subscription.{SubscriptionState, DropPolicy, CallbackMode}
use karo_x2_sdk_python.Options.{ConnectOptions}
use karo_x2_sdk_python.Codec.Wire.{Parsers}
use karo_x2_sdk_python.Codec.Codes.{SubscribeRejectReason}
use karo_x2_sdk_python.Codec.Decode.{DecodedResponse, DecodedTopicPush, no_capabilities}
use karo_x2_sdk_python.Slot.{SubSlot, FrameDispatcher}
use karo_x2_sdk_python.Robot.{Env, Robot, RpcStats, malformed, nowhere}

-- A token, and otherwise the defaults of `ConnectOptions`.
abbrev options : ConnectOptions
options = record {
  host = "192.168.1.10";
  cert = record { cert_pem = ""; key_pem = ""; ca_pem = ""; insecure_skip_verify = false };
  access_token = record { token = 7 ∷ [] };
  client_id = "app";
  sdk_version = "";
  connect_timeout = 10_000_000;
  heartbeat_interval = pos 15_000_000;
  ping_timeout = 5_000_000;
  max_missed_pings = 2;
  reconnect_max_attempts = negsuc 0;
  reconnect_base_delay = 500_000;
  reconnect_max_delay = 30_000_000;
  reconnect_jitter_ratio = pos 200_000;
  reconnect_replay_history = true;
  history_limit = 0;
  subscribe_ack_timeout = 5_000_000;
  subscription_queue_size = pos 2;
  drop_policy = DropPolicy.drop_oldest;
  callback_mode = CallbackMode.dispatched;
  cmdvel_rpc_timeout = 500_000;
  estop_rpc_timeout = 2_000_000;
}

-- An event subscription that has seen message 4 and holds one message for the application.
abbrev push : ℕ → DecodedTopicPush
push seq = record { topic = "task_events"; timestamp_ms = 0; seq = seq; payload = [] }

abbrev slot : SubSlot
slot = record {
  ident = 1;
  topic = "task_events";
  desired_hz = 0;
  semantics = DeliverySemantics.event;
  callback_mode = CallbackMode.dispatched;
  drop_policy = DropPolicy.drop_oldest;
  queue_size = 2;
  frame_dispatcher = some FrameDispatcher.task_event;
  status_callback = true;
  state = SubscriptionState.active;
  last_seq = 4;
  drop_count = 0;
  error_code = ErrorCode.ok;
  pending_buffer = [];
  inflight_subscribe_request_id = 0;
  fresh_retry_done = false;
  expected_resume_seq = 0;
  ever_active = true;
  is_reconnect_resume = false;
  unsubscribe_sent = false;
  user_closed = false;
  messages_received = 4;
  last_message_at = 0;
  hz_buckets = replicate 60 0;
  hz_last_epoch_ms = 0;
  dispatch_queue = some (push 4 ∷ []);
  dispatch_worker = true;
}

-- A slot whose subscribe is on the way, with a full buffer.
abbrev waiting_slot : SubSlot
waiting_slot = record slot {
  state = SubscriptionState.pending;
  pending_buffer = push 5 ∷ push 6 ∷ [];
  inflight_subscribe_request_id = 9;
  expected_resume_seq = 5;
}

abbrev response : DecodedResponse
response = record {
  request_id = 9;
  success = true;
  sdk_code = ErrorCode.ok;
  message = "";
  server_ts_ms = 0;
  has_handshake = true;
  has_rpc = true;
  has_subscribe = true;
  protocol_version = "1";
  robot_sn = "KX2";
  robot_model = "X2";
  session_token = "";
  granted_capabilities = no_capabilities;
  available_topics = [];
  rpc_id = 9;
  rpc_code = ErrorCode.ok;
  rpc_message = "";
  rpc_payload = [];
  sub_topic = "task_events";
  sub_accepted = true;
  sub_reject_reason = SubscribeRejectReason.accepted;
  sub_next_seq = 5;
  sub_message = "";
}

-- Nothing is parsed, and every send goes through.
abbrev parsers : Parsers
parsers = record {
  sdk_response = λ _. none;
  sdk_topic_push = λ _. none;
  robot_state = λ _. none;
  task_event = λ _. none;
  safety_state = λ _. none;
  create_task_id = λ _. none;
  cmd_vel_response = λ _. none;
  ping_response = λ _. none;
}

abbrev env : Env
env = record {
  send_ok = λ _. true;
  byte_length = λ _. 16;
  random = λ _. 0;
  parsers = parsers;
  load_certificate = λ _. malformed "no PEM";
  encode_error = λ _. none;
}

abbrev no_stats : RpcStats
no_stats = record { count = 0; error_count = 0; hist = record { cap = 1024; samples = [] } }

-- A connection that is READY, with the event subscription and one call in flight.
abbrev robot : Robot
robot = record {
  env = env;
  opts = options;
  clock_ms = 1_700_000_000_000;
  clock_steady = 20_000_000_000;
  draws = 0;
  state = ConnectionState.ready;
  ws = some true;
  connection_state_handler = true;
  log_handler = false;
  robot_info = none;
  next_request_id = 10;
  inflight = (8, record { method = "ping"; done = false }) ∷ [];
  subs = ("task_events", slot) ∷ [];
  retired = [];
  next_ident = 2;
  inflight_sub = [];
  sub_ack_timers = [];
  heartbeat_task = true;
  last_inbound = 0;
  miss_count = 0;
  establishing = nowhere;
  reconnect_attempt = 0;
  reconnect_total_count = 0;
  reconnect_task = none;
  older_tasks = [];
  establish_handled = false;
  last_estop_intent = false;
  last_estop_reason = "";
  reconnect_subs_pending = 0;
  reconnect_estop_pending = false;
  cmdvel_rate = record { max_hz = 20; burst = 1_000_000_000; tokens = 1_000_000_000; last = 0 };
  cmdvel_seq = 0;
  last_state_change_ms = 0;
  last_error_code = ErrorCode.ok;
  last_error_msg = "";
  bytes_sent = 0;
  bytes_received = 0;
  last_ping_sent_ms = none;
  rtt_hist = record { cap = 1024; samples = [] };
  cmd_vel_stats = no_stats;
  emergency_stop_stats = no_stats;
  ping_stats = no_stats;
  connect_invoked = true;
  trace = [];
}
