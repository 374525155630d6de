-- ===== src/Tests/Links.antt =====
-- Tests and examples of a connection object on its websocket, and of its subscriptions.
use karo_x2_sdk_python.Prelude.{◌+◌, ◌++◌, arith}
use karo_x2_sdk_python.Error.{ErrorCode}
use karo_x2_sdk_python.Topic.{DeliverySemantics}
use karo_x2_sdk_python.Codec.Decode.{DecodedResponse}
use karo_x2_sdk_python.Codec.Encode.{encode_subscribe}
use karo_x2_sdk_python.Robot.{send}
use karo_x2_sdk_python.Robot.Lifecycle.{is_final, attempts_exhausted, on_transport_close}
use karo_x2_sdk_python.Robot.Rpc.{answered}
use karo_x2_sdk_python.Robot.Subscribe.{semantics_in}
use karo_x2_sdk_python.Robot.Ack.{handle_subscribe_ack}
use karo_x2_sdk_python.Robot.Ack.Last.{GoesOn}
use karo_x2_sdk_python.Robot.Establish.{connected, handshake_end}
use karo_x2_sdk_python.Robot.Lifecycle
use karo_x2_sdk_python.Robot.Ack.{maybe_finish_reconnect}
use karo_x2_sdk_python.Robot.Ack.Missed.{IsIdle, subscribe_misses_reconnect}
use karo_x2_sdk_python.Robot.Reconnect.{replay_ok, estop_replay_end}
use karo_x2_sdk_python.Robot.Reconnect.Shutdown.{close_misses_replay}
use karo_x2_sdk_python.Error.{eq_code}
use karo_x2_sdk_python.Robot.Reconnect.Resumed.{lost_subscription_resumes}
use karo_x2_sdk_python.Prelude.{
  ◌≡◌, ◌≢◌, ◌≤◌, ◌⊎◌, refl, true, false, [], ◌∷◌, none, some, lookup, string_eq, length,
}
use karo_x2_sdk_python.Connection.{ConnectionState, is_state}
use karo_x2_sdk_python.Subscription.{SubscriptionState}
use karo_x2_sdk_python.Options.{is_empty, validate_opts, has_colon, no_bytes}
use karo_x2_sdk_python.Slot.{SubSlot, FrameDispatcher}
use karo_x2_sdk_python.Slot.Deliver.Queues.{queue_length}
use karo_x2_sdk_python.Client.{WsClient, binary, text, connection_closed, Dial}
use karo_x2_sdk_python.Client.Reading.{IsListening, report}
use karo_x2_sdk_python.Robot.{Robot, nowhere, put_slot}
use karo_x2_sdk_python.Robot.Subscribe.{new_slot, start_sub_worker, subscribe_internal}
use karo_x2_sdk_python.Robot.Establish.{connect}
use karo_x2_sdk_python.Robot.Reconnect.{wake_current, wake_older}
use karo_x2_sdk_python.Robot.Link.{open_client, read_task, run_calls}
use karo_x2_sdk_python.Robot.Link.Broken.{inbound_all, IsDown, broken_link}
use karo_x2_sdk_python.Robot.Link.Crashed.{reconnect_crash_stalls}
use karo_x2_sdk_python.Robot.New.{new_robot, set_connection_state_handler}
use karo_x2_sdk_python.Robot.Steps.{subscribes, here, next, start_robot}
use karo_x2_sdk_python.Robot.Steps.Subscriptions.{subscriptions_stay_sound}
use karo_x2_sdk_python.Tests.{robot, options, env, slot, response}

abbrev client : WsClient
client = record {
  ws = some false;
  read_task = true;
  closed = false;
  on_message = true;
  on_close = true;
}

client-IsListening : IsListening client
client-IsListening = record { connected = refl; messages = refl; closes = refl; first = refl }

broken_link_example :
    let after =
      read_task robot client
        (binary (1 ∷ 2 ∷ []) ∷ text "hi" ∷ [])
        (connection_closed 1006 "lost") in
    (after
      ≡ run_calls (inbound_all robot ((1 ∷ 2 ∷ []) ∷ [])) (report (connection_closed 1006 "lost")))
    × IsDown after
broken_link_example =
    broken_link robot client (binary (1 ∷ 2 ∷ []) ∷ text "hi" ∷ []) (connection_closed 1006 "lost")
      client-IsListening refl

-- A connection object that sleeps before its first reconnect.
abbrev asleep : Robot
asleep = record robot {
  state = ConnectionState.transient_failure;
  ws = none;
  heartbeat_task = false;
  reconnect_task = some 1;
}

asleep_has_token : is_empty asleep.opts.cert.cert_pem ≡ true
unfolding is_empty
asleep_has_token = refl

reconnect_crash_stalls_example :
    let crashed =
      open_client (wake_current asleep) true none none (Dial.other_error "InvalidURI") in
    (crashed.state ≡ ConnectionState.reconnecting)
    × (crashed.establishing ≡ nowhere)
    × (wake_current crashed ≡ crashed)
    × (wake_older crashed ≡ crashed)
    × (connect crashed ≡ crashed)
reconnect_crash_stalls_example =
    reconnect_crash_stalls asleep 1 "InvalidURI" refl refl refl refl asleep_has_token

-- A new connection object with one subscription.
abbrev fresh : Robot
fresh = start_robot true env options 1_700_000_000_000 1_000

abbrev subscribed : Robot
subscribed = (subscribe_internal fresh "robot_status" 0 FrameDispatcher.robot_status true).0

abbrev subscribed_slot : SubSlot
subscribed_slot =
    start_sub_worker options.callback_mode
      (new_slot fresh "robot_status" 0 FrameDispatcher.robot_status true)

subscribed_valid : validate_opts subscribed.opts ≡ none
unfolding subscribe_internal start_robot new_robot set_connection_state_handler validate_opts
    is_state put_slot is_empty has_colon no_bytes
subscribed_valid = refl

subscribed_found : lookup "robot_status" subscribed.subs ≡ some subscribed_slot
unfolding subscribe_internal start_robot new_robot set_connection_state_handler is_state put_slot
    new_slot start_sub_worker
subscribed_found = refl

subscriptions_stay_sound_example :
    (subscribed_slot.topic ≡ "robot_status")
    × (subscribed_slot.state ≢ SubscriptionState.closed)
    × (length subscribed_slot.pending_buffer ≤ subscribed_slot.queue_size)
    × (queue_length subscribed_slot.dispatch_queue ≤ subscribed_slot.queue_size)
    × ((subscribed_slot.state ≡ SubscriptionState.pending) ⊎ (subscribed_slot.pending_buffer ≡ []))
subscriptions_stay_sound_example =
    subscriptions_stay_sound true env options 1_700_000_000_000 1_000 subscribed "robot_status"
      subscribed_slot (next here (subscribes "robot_status" 0 FrameDispatcher.robot_status true))
      subscribed_valid subscribed_found

-- The connection of the tests is lost, with its subscription.
abbrev offering : DecodedResponse
offering = record response {
  available_topics =
      record {
        name = "task_events";
        description = "";
        default_hz = 0;
        max_hz = 0;
        delivery_semantics = DeliverySemantics.event;
      }
      ∷ [];
}

abbrev accepting : DecodedResponse
accepting = record response { sub_next_seq = 7 }

robot_goes_on : is_final robot.state ≡ false
unfolding is_final is_state
robot_goes_on = refl

robot_may_retry :
    attempts_exhausted robot.opts.reconnect_max_attempts (robot.reconnect_attempt + 1) ≡ false
unfolding attempts_exhausted
robot_may_retry = refl

robot_has_token : is_empty robot.opts.cert.cert_pem ≡ true
unfolding is_empty
robot_has_token = refl

topic_offered : semantics_in offering.available_topics slot.topic ≡ DeliverySemantics.event
unfolding semantics_in
topic_offered = refl

lost_subscription_resumes_example :
    let gone = on_transport_close robot ErrorCode.transport_failure "lost" in
    let up = connected (wake_current gone) true in
    let rid = up.next_request_id in
    let asked = handshake_end up true (answered offering) in
    let done = handle_subscribe_ack asked (record accepting { request_id = rid }) in
    (gone.state ≡ ConnectionState.transient_failure)
    × (gone.subs
        ≡ (
          "task_events",
          record slot {
            state = SubscriptionState.paused;
            pending_buffer = [];
            inflight_subscribe_request_id = 0;
          },
        )
          ∷ [])
    × (asked.state ≡ ConnectionState.reconnecting)
    × (asked.trace ≡ up.trace ++ send (encode_subscribe rid "task_events" 0 5 0) ∷ [])
    × (done.state ≡ ConnectionState.ready)
    × ((slot' : SubSlot) × (lookup "task_events" done.subs ≡ some slot') × GoesOn slot' 7)
lost_subscription_resumes_example =
    lost_subscription_resumes robot slot ErrorCode.transport_failure "lost" offering accepting
      robot_goes_on robot_may_retry refl refl (omega arith) refl refl robot_has_token (λ rid. refl)
      (λ c. refl) (refl, refl) topic_offered (refl, refl) (omega arith)

-- A reconnect that waits for an answer.
abbrev reconnecting : Robot
reconnecting = record robot {
  state = ConnectionState.reconnecting;
  inflight_sub = (9, "task_events") ∷ [];
  reconnect_subs_pending = 1;
}

subscribe_misses_reconnect_example :
    let after =
      (subscribe_internal reconnecting "robot_status" 0 FrameDispatcher.robot_status true).0 in
    let done = maybe_finish_reconnect after true in
    (after.trace ≡ reconnecting.trace)
    × (after.inflight_sub ≡ reconnecting.inflight_sub)
    × (done.state ≡ ConnectionState.ready)
    × (done.establishing ≡ nowhere)
    × (done.reconnect_subs_pending ≡ 0)
    × (done.inflight_sub ≡ reconnecting.inflight_sub)
    × ((idle : SubSlot) × (lookup "robot_status" done.subs ≡ some idle) × IsIdle idle)
subscribe_misses_reconnect_example =
    subscribe_misses_reconnect reconnecting "robot_status" 0 FrameDispatcher.robot_status true refl
      refl refl refl refl

robot_not_closed : is_state robot.state ConnectionState.shutdown ≡ false
unfolding is_state
robot_not_closed = refl

replay_confirmed : replay_ok response ≡ true
unfolding replay_ok eq_code
replay_confirmed = refl

close_misses_replay_example :
    ((Lifecycle.close robot).state ≡ ConnectionState.shutdown)
    × ((estop_replay_end (Lifecycle.close robot) (answered response)).state ≡ ConnectionState.ready)
close_misses_replay_example =
    close_misses_replay robot response robot_not_closed refl replay_confirmed
