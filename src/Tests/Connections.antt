-- ===== src/Tests/Connections.antt =====
-- Tests and examples of the connection object.
use karo_x2_sdk_python.Prelude.{
  List, arith, ◌*◌, ◌-◌, ◌^◌, ◌≤◌, lookup, string_eq, ℕ, ◌+◌, ◌≡◌, refl, true, false, [], ◌∷◌, none,
  ◌↔◌, All, if◌then◌else◌,
}
use karo_x2_sdk_python.Error.{ErrorCode, eq_code}
use karo_x2_sdk_python.Options.{is_empty}
use karo_x2_sdk_python.Connection.{ConnectionState, is_state}
use karo_x2_sdk_python.Robot.{Robot, transition, at_connect, at_handshake}
use karo_x2_sdk_python.Robot.Rpc.{answered}
use karo_x2_sdk_python.Robot.Lifecycle.{is_final, close, on_transport_close, pause_slots}
use karo_x2_sdk_python.Robot.Lifecycle.Failed.{failed}
use karo_x2_sdk_python.Robot.Lifecycle.Cleanup.{
  IsDisconnected, IsQuiet, IsTornDown, on_transport_close_lem, close-IsTornDown,
}
use karo_x2_sdk_python.Robot.Ack.{handle_subscribe_ack, finish_reconnect}
use karo_x2_sdk_python.Robot.Unsubscribe.{unsubscribe_request}
use karo_x2_sdk_python.Robot.Unsubscribe.Waiting.{unsubscribe_loses_ack}
use karo_x2_sdk_python.Robot.Ack.Ready.{NotReady, handle_subscribe_ack-NotReady}
use karo_x2_sdk_python.Robot.Reconnect.{estop_replay_end}
use karo_x2_sdk_python.Robot.Reconnect.EstopReplay.{estop_replay_end-ready}
use karo_x2_sdk_python.Robot.Commands.{cmd_vel_end, emergency_stop_end}
use karo_x2_sdk_python.Rate.{cmdvel_rate, new_bucket, try_acquire, refill}
use karo_x2_sdk_python.Rate.Limit.{end_time}
use karo_x2_sdk_python.Robot.{emit, take_rid}
use karo_x2_sdk_python.Robot.Rpc.{send_rpc, send_on, count_sent, register}
use karo_x2_sdk_python.Robot.Commands.{cmd_vel, cmd_vel_refused, cmd_vel_failed, cmd_vel_started}
use karo_x2_sdk_python.Robot.Commands.Limited.{
  sends_of, Drive, times_of, drive_all, cmd_vel-limited,
}
use karo_x2_sdk_python.Robot.Commands.Accepted.{
  Confirmed, cmd_vel_end-accepted, emergency_stop_end-intent,
}
use karo_x2_sdk_python.Robot.Heartbeat.{heartbeat_turn, ends, ws_open}
use karo_x2_sdk_python.Robot.Heartbeat.Silence.{
  IsUp, silent_rounds, silence_is_noticed, reconnect_loses_heartbeat,
}
use karo_x2_sdk_python.Robot.Establish.{connected, handshake_end}
use karo_x2_sdk_python.Robot.Establish.Shutdown.{close_misses_connect}
use karo_x2_sdk_python.Tests.{robot, response, waiting_slot}

robot_goes_on : is_final robot.state ≡ false
unfolding is_final
robot_goes_on = refl

not_shutdown : is_state robot.state ConnectionState.shutdown ≡ false
unfolding is_state
not_shutdown = refl

on_transport_close_lem_example :
    let r' = on_transport_close robot ErrorCode.transport_failure "lost" in
    (r'.state ≡ ConnectionState.transient_failure)
    × IsDisconnected r'
    × (r'.subs ≡ pause_slots robot.subs)
    × All (λ e. IsQuiet e.1) r'.subs
    × (failed r'.trace ≡ 8 ∷ [])
on_transport_close_lem_example =
    on_transport_close_lem robot ErrorCode.transport_failure "lost" robot_goes_on

-- A reconnect waits for its handshake, and somebody for another call.
abbrev asking_again : Robot
asking_again = record robot {
  state = ConnectionState.reconnecting;
  establishing = at_handshake true 9;
  establish_handled = true;
  inflight =
      (8, record { method = "ping"; done = false })
      ∷ (9, record { method = "handshake"; done = false })
      ∷ [];
}

asking_yet : is_state asking_again.state ConnectionState.shutdown ≡ false
unfolding is_state
asking_yet = refl

close-IsTornDown_example :
    ((close asking_again).state ≡ ConnectionState.shutdown)
    × IsTornDown asking_again ErrorCode.cancelled (8 ∷ []) (close asking_again)
close-IsTornDown_example = close-IsTornDown asking_again asking_yet

-- A reconnect with one subscription to be answered and an emergency stop to be replayed.
abbrev reconnecting : Robot
reconnecting = record robot {
  state = ConnectionState.reconnecting;
  subs = ("task_events", waiting_slot) ∷ [];
  inflight_sub = (9, "task_events") ∷ [];
  sub_ack_timers = (9, "task_events") ∷ [];
  last_estop_intent = true;
  reconnect_subs_pending = 1;
  reconnect_estop_pending = true;
}

handle_subscribe_ack-NotReady_example : NotReady (handle_subscribe_ack reconnecting response)
handle_subscribe_ack-NotReady_example =
    handle_subscribe_ack-NotReady reconnecting response refl (λ h. cc)

unsubscribe_loses_ack_example :
    let r' = (unsubscribe_request reconnecting "task_events" true).0 in
    (lookup "task_events" r'.subs ≡ none)
    × ((handle_subscribe_ack r' response).reconnect_subs_pending ≡ 1)
    × ((handle_subscribe_ack r' response).state ≡ ConnectionState.reconnecting)
unsubscribe_loses_ack_example =
    unsubscribe_loses_ack reconnecting waiting_slot response refl refl refl

-- The ack has come, and the replay is what is left.
abbrev replaying : Robot
replaying = record reconnecting { reconnect_subs_pending = 0 }

replay_makes_ready : (estop_replay_end replaying (answered response)).state ≡ ConnectionState.ready
unfolding estop_replay_end eq_code finish_reconnect transition is_state
replay_makes_ready = refl

estop_replay_end-ready_example :
    ((estop_replay_end replaying (answered response)).state ≡ ConnectionState.ready)
    ↔ (Confirmed (answered response) × (◌≡◌ {A = ℕ} 0 0))
estop_replay_end-ready_example = estop_replay_end-ready replaying (answered response) (λ h. cc)

abbrev fresh_robot : Robot
fresh_robot = record robot { cmdvel_rate = cmdvel_rate 1_000_000_000 }

-- The second of three calls comes 10 ms after the first.
abbrev some_drives : List Drive
some_drives = (1_060_000_000, 1, 0, 0) ∷ (1_070_000_000, 2, 0, 0) ∷ (1_200_000_000, 3, 0, 0) ∷ []

two_are_sent : sends_of (drive_all fresh_robot some_drives).trace ≡ 2
unfolding drive_all cmdvel_rate new_bucket cmd_vel cmd_vel_refused cmd_vel_failed cmd_vel_started
    send_rpc send_on count_sent register emit take_rid try_acquire refill is_state
two_are_sent = refl

cmd_vel-limited_example :
    sends_of (drive_all fresh_robot some_drives).trace * 10 ^ 9
    ≤ sends_of fresh_robot.trace * 10 ^ 9
      + 10 ^ 9
      + (end_time 1_000_000_000 (times_of some_drives) - 1_000_000_000) * 20
cmd_vel-limited_example = cmd_vel-limited 1_000_000_000 fresh_robot some_drives refl (omega arith)

cmd_vel_end-accepted_example :
    let (r', result) = cmd_vel_end robot 0 (answered response) in
    ((result.accepted ≡ true) ↔ Confirmed (answered response))
    × (r'.cmd_vel_stats.error_count + (if result.accepted then 1 else 0) ≡ 1)
cmd_vel_end-accepted_example = cmd_vel_end-accepted robot 0 (answered response)

emergency_stop_end-intent_example :
    let (r', result) = emergency_stop_end robot true "obstacle" 0 (answered response) in
    ((result.ok ≡ true) ↔ Confirmed (answered response))
    × (r'.last_estop_intent ≡ (if result.ok then true else false))
    × (r'.last_estop_reason ≡ (if result.ok then "obstacle" else ""))
emergency_stop_end-intent_example =
    emergency_stop_end-intent robot true "obstacle" 0 (answered response)

robot-IsUp : IsUp robot
unfolding ws_open
robot-IsUp = record { ready = refl; opened = refl; sends = λ rid. refl }

silence_is_noticed_example :
    ((silent_rounds 3 robot).1 ≡ true)
    × ((silent_rounds 3 robot).0.state ≡ ConnectionState.transient_failure)
silence_is_noticed_example = silence_is_noticed robot robot-IsUp

reconnect_loses_heartbeat_example :
    let (r', turn) = heartbeat_turn reconnecting in
    (turn ≡ ends)
    × (r'.heartbeat_task ≡ false)
    × ((finish_reconnect r' "reconnect ok" "").state ≡ ConnectionState.ready)
    × ((finish_reconnect r' "reconnect ok" "").heartbeat_task ≡ false)
reconnect_loses_heartbeat_example = reconnect_loses_heartbeat reconnecting "reconnect ok" "" refl

-- An object whose first connection waits for the websocket.
abbrev connecting : Robot
connecting = record robot {
  state = ConnectionState.connecting;
  ws = none;
  inflight = [];
  subs = [];
  heartbeat_task = false;
  establishing = at_connect false;
}

connecting_not_shutdown : is_state connecting.state ConnectionState.shutdown ≡ false
unfolding is_state
connecting_not_shutdown = refl

without_certificate : is_empty connecting.opts.cert.cert_pem ≡ true
unfolding is_empty
without_certificate = refl

close_misses_connect_example :
    let c = close connecting in
    (c.state ≡ ConnectionState.shutdown)
    × (c.establishing ≡ at_connect false)
    × ((connected c false).establishing ≡ at_handshake false c.next_request_id)
    × ((handshake_end (connected c false) false (answered response)).state ≡ ConnectionState.ready)
close_misses_connect_example =
    close_misses_connect connecting response connecting_not_shutdown refl without_certificate
      (λ rid. refl) (refl, refl)
