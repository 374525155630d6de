-- ===== src/Robot/Steps.antt =====
-- What can happen to a `RobotImpl` of karo_x2_sdk/_internal/robot_impl.py: the calls of the
-- application, the messages of the robot, the timers and the tasks of the event loop, each as one
-- step, in any order. A task that waits goes on only where the state says that it waits; the
-- end of a call may come at any time, with any outcome.
pub mod Orderly
pub mod RoundTrip
pub mod Subscriptions
use karo_x2_sdk_python.Prelude.{
  ℕ, ◌+◌, ◌≡◌, Bool, true, false, String, List, [], ◌∷◌, Option, none, some, insert, lookup, nat_eq,
  string_eq, if◌then◌else◌,
}
use karo_x2_sdk_python.Error.{ErrorCode, SdkException}
use karo_x2_sdk_python.Topic.{FloatBits}
use karo_x2_sdk_python.Codec.Wire.{Bytes}
use karo_x2_sdk_python.Slot.{SubSlot, FrameDispatcher}
use karo_x2_sdk_python.Slot.Deliver.{worker_round}
use karo_x2_sdk_python.Options.{ConnectOptions}
use karo_x2_sdk_python.Robot.New.{new_robot, set_connection_state_handler, set_log_handler}
use karo_x2_sdk_python.Robot.{
  Env, Robot, InflightRpc, Establishing, at_connect, at_handshake, emit, on_slots, put_slot,
}
use karo_x2_sdk_python.Robot.Lifecycle.{close, abort_to_fatal, on_transport_close}
use karo_x2_sdk_python.Robot.Rpc.{Outcome, rpc_timeout}
use karo_x2_sdk_python.Robot.Subscribe.{subscribe_internal, handle_subscribe_ack_timeout}
use karo_x2_sdk_python.Robot.Unsubscribe.{unsubscribe_request, unsubscribe_end}
use karo_x2_sdk_python.Robot.Facade.{unsubscribe, finalize}
use karo_x2_sdk_python.Robot.Establish.{
  connect, establish_crashed, connect_failed, connected, handshake_end,
}
use karo_x2_sdk_python.Robot.Reconnect.{wake_current, wake_older, do_estop_replay, estop_replay_end}
use karo_x2_sdk_python.Robot.Link.{peer_closed, task_crashed}
use karo_x2_sdk_python.Robot.Inbound.{on_inbound_message}
use karo_x2_sdk_python.Robot.Commands.{cmd_vel, cmd_vel_end, emergency_stop_rpc, emergency_stop_end}
use karo_x2_sdk_python.Robot.Tasks.{
  create_navigation_task_to_marker, create_navigation_task_to_pose, cancel_task, pause_task,
  resume_task, ping, ping_end,
}
use karo_x2_sdk_python.Robot.Reporting.{get_diagnostics}
use karo_x2_sdk_python.Robot.Heartbeat.{heartbeat_turn, ping_round, ping_alive, ping_missed}

-- A round of the worker of a slot that stands in `_subs`.
worker_on : Robot → Option SubSlot → Robot
worker_on r none = r
worker_on r (some slot) =
    let (slot', effects) = worker_round slot in emit (put_slot r slot') (on_slots slot effects)

unfoldable pub worker_turn : Robot → String → Robot
unfolding worker_on
worker_turn r topic = worker_on r (lookup topic r.subs)

-- Time passes on both clocks.
unfoldable pub tick : Robot → ℕ → ℕ → Robot
tick r ms steady = record r { clock_ms = r.clock_ms + ms; clock_steady = r.clock_steady + steady }

-- The caller of a call in flight is cancelled, and its future with it.
cancelled_call : Robot → ℕ → Option InflightRpc → Robot
cancelled_call r rid none = r
cancelled_call r rid (some entry) = record r {
  inflight = insert rid (record entry { done = true }) r.inflight;
}

unfoldable pub cancel_caller : Robot → ℕ → Robot
unfolding cancelled_call
cancel_caller r rid = cancelled_call r rid (lookup rid r.inflight)

-- A new object, with or without a handler for the changes of the state, which is set before the
-- connection is.
unfoldable pub start_robot : Bool → Env → ConnectOptions → ℕ → ℕ → Robot
start_robot false env opts clock_ms clock_steady = new_robot env opts clock_ms clock_steady
start_robot true env opts clock_ms clock_steady =
    set_connection_state_handler (new_robot env opts clock_ms clock_steady)

pub data Step (r : Robot) : Robot → Type 0 where
  -- the application
  connects : Step r (connect r)
  closes : Step r (close r)
  subscribes :
      (topic : String) (desired_hz : FloatBits) (dispatcher : FrameDispatcher) (on_status : Bool)
      → Step r (subscribe_internal r topic desired_hz dispatcher on_status).0
  unsubscribes : (topic : String) (ident : ℕ) → Step r (unsubscribe r topic ident).0
  drops_facade : (ident : ℕ) (loop_runs : Bool) → Step r (finalize r ident loop_runs).0
  drives : (vx vy wz : FloatBits) → Step r (cmd_vel r vx vy wz).0
  stops : (engage : Bool) (reason : String) → Step r (emergency_stop_rpc r engage reason).0
  goes_to_marker : (marker_id : String) → Step r (create_navigation_task_to_marker r marker_id).0
  goes_to_pose : (x y theta : FloatBits) → Step r (create_navigation_task_to_pose r x y theta).0
  cancels_task : (task_id : String) → Step r (cancel_task r task_id).0
  pauses_task : (task_id : String) → Step r (pause_task r task_id).0
  resumes_task : (task_id : String) → Step r (resume_task r task_id).0
  pings : Step r (ping r).0
  cancels_call : (rid : ℕ) → Step r (cancel_caller r rid)
  sets_log_handler : (handler : Bool) → Step r (set_log_handler r handler)
  reports : Step r (get_diagnostics r).0
  -- the ends of its calls
  driven : (t0 : ℕ) (o : Outcome) → Step r (cmd_vel_end r t0 o).0
  estop_done :
      (engage : Bool) (reason : String) (t0 : ℕ) (o : Outcome)
      → Step r (emergency_stop_end r engage reason t0 o).0
  pinged : (t0 : ℕ) (o : Outcome) → Step r (ping_end r t0 o).0
  unsubscribed :
      (topic : String) (ident : ℕ) (o : Outcome) → Step r (unsubscribe_end r topic ident o).0
  -- the websocket and the robot
  opens :
      (is_reconnect : Bool)
      → r.establishing ≡ at_connect is_reconnect
      → Step r (connected r is_reconnect)
  open_fails :
      (is_reconnect : Bool) (e : SdkException)
      → r.establishing ≡ at_connect is_reconnect
      → Step r (connect_failed r e)
  crashes : (text : String) → r.establishing ≡ at_connect false → Step r (establish_crashed r text)
  crashes_unheard :
      (text : String) → r.establishing ≡ at_connect true → Step r (task_crashed r true text)
  shakes_hands :
      (is_reconnect : Bool) (rid : ℕ) (o : Outcome)
      → r.establishing ≡ at_handshake is_reconnect rid
      → Step r (handshake_end r is_reconnect o)
  peer_closes : Step r (peer_closed r)
  receives : (bytes : Bytes) → Step r (on_inbound_message r bytes)
  transport_closes : (reason : ErrorCode) (msg : String) → Step r (on_transport_close r reason msg)
  -- the timers and the tasks
  times_out : (rid : ℕ) → Step r (rpc_timeout r rid)
  ack_times_out : (rid : ℕ) (topic : String) → Step r (handle_subscribe_ack_timeout r rid topic)
  wakes : Step r (wake_current r)
  wakes_older : Step r (wake_older r)
  aborts : (code : ErrorCode) (message : String) → Step r (abort_to_fatal r code message)
  replays_estop : Step r (do_estop_replay r)
  estop_replayed : (o : Outcome) → Step r (estop_replay_end r o)
  unsubscribes_dropped : (topic : String) → Step r (unsubscribe_request r topic false).0
  heart_turns : Step r (heartbeat_turn r).0
  heart_pings : Step r (ping_round r).0
  heart_answered : (rid send_t : ℕ) (answered : Bool) → Step r (ping_alive r rid send_t answered)
  heart_misses : (rid : ℕ) → Step r (ping_missed r rid).0
  works : (topic : String) → Step r (worker_turn r topic)
  passes : (ms steady : ℕ) → Step r (tick r ms steady)

-- What a sequence of steps leads to.
pub data Reach (start : Robot) : Robot → Type 0 where
  here : Reach start start
  next : {r t : Robot} → Reach start r → Step r t → Reach start t
