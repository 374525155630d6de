-- ===== src/Tests/Steps.antt =====
-- Tests and examples of a connection object as a whole, from its start.
use karo_x2_sdk_python.Prelude.{
  inl, inr, ◌+◌, ◌≡◌, refl, true, false, [], ◌∷◌, ◌++◌, none, some, arith, lookup, string_eq,
}
use karo_x2_sdk_python.Connection.{ConnectionState, is_state}
use karo_x2_sdk_python.Codec.Decode.{DecodedResponse}
use karo_x2_sdk_python.Codec.Encode.{encode_ping}
use karo_x2_sdk_python.Options.{is_empty}
use karo_x2_sdk_python.Robot.{
  Robot, at_connect, at_handshake, send, set_result, take_rid, transition,
}
use karo_x2_sdk_python.Robot.New.{new_robot, set_connection_state_handler}
use karo_x2_sdk_python.Robot.Rpc.{send_rpc, send_on}
use karo_x2_sdk_python.Robot.Inbound.{handle_sdk_response}
use karo_x2_sdk_python.Robot.Establish.{handshake_end, connect, establish, connected}
use karo_x2_sdk_python.Robot.Waiting.{wait_until_ready}
use karo_x2_sdk_python.Robot.Waiting.Settled.{wait_until_ready-first}
use karo_x2_sdk_python.Robot.Reporting.{get_diagnostics}
use karo_x2_sdk_python.Robot.Reporting.Again.{get_diagnostics-again}
use karo_x2_sdk_python.Robot.Orderly.{IsOrderly, Ascends, Below, Chain, seen}
use karo_x2_sdk_python.Robot.Steps.{connects, opens, Reach, here, next, start_robot}
use karo_x2_sdk_python.Robot.Steps.Orderly.{request_ids_ascend, told_without_gap}
use karo_x2_sdk_python.Robot.Steps.RoundTrip.{call_round_trip}
use karo_x2_sdk_python.Error.{ErrorCode}
use karo_x2_sdk_python.Robot.Unsubscribe.{returned}
use karo_x2_sdk_python.Robot.Lifecycle.{is_final, attempts_exhausted, on_transport_close}
use karo_x2_sdk_python.Robot.Rpc.{answered}
use karo_x2_sdk_python.Robot.Reconnect.{wake_current}
use karo_x2_sdk_python.Robot.Reconnect.Recovery.{lost_connection_recovers}
use karo_x2_sdk_python.Robot.Facade.{unsubscribe}
use karo_x2_sdk_python.Robot.Facade.Stale.{unsubscribe_hits_other}
use karo_x2_sdk_python.Tests.{robot, slot, response, options, env}

-- A robot that is started, dials, and sends its handshake.
abbrev started : Robot
started = start_robot true env options 1_700_000_000_000 1_000

abbrev dialling : Robot
dialling = connect started

abbrev shaking : Robot
shaking = connected dialling false

waits_for_websocket : dialling.establishing ≡ at_connect false
unfolding connect establish start_robot new_robot set_connection_state_handler is_state transition
waits_for_websocket = refl

shaking_reached : Reach started shaking
shaking_reached = next (next here connects) (opens false waits_for_websocket)

request_ids_ascend_example :
    Ascends 1 shaking.next_request_id (seen shaking.trace)
    × Below shaking.next_request_id shaking.inflight
    × Below shaking.next_request_id shaking.inflight_sub
request_ids_ascend_example =
    request_ids_ascend true env options 1_700_000_000_000 1_000 shaking shaking_reached

shaking_handled : shaking.connection_state_handler ≡ true
unfolding connected connect establish start_robot new_robot set_connection_state_handler is_state
    transition is_empty send_rpc send_on take_rid
shaking_handled = refl

told_without_gap_example : Chain ConnectionState.idle (seen shaking.trace) shaking.state
told_without_gap_example =
    told_without_gap true env options 1_700_000_000_000 1_000 shaking shaking_reached
      shaking_handled

-- A robot without a handler and subscriptions, one call in flight, and an answer to the next.
abbrev silent : Robot
silent = record robot { connection_state_handler = false; subs = [] }

abbrev answer : DecodedResponse
answer = record response { request_id = 10; has_subscribe = false }

silent-IsOrderly : IsOrderly silent
silent-IsOrderly = record {
  order = omega arith;
  calls = (omega arith, tt);
  subs = tt;
  told = tt;
  filed = λ roomy. tt;
}

call_round_trip_example :
    let called : Robot = (send_rpc (take_rid silent) 10 "ping" (encode_ping 10 0)).0 in
    ((handle_sdk_response called answer).inflight ≡ silent.inflight)
    × ((handle_sdk_response called answer).trace
        ≡ silent.trace ++ send (encode_ping 10 0) ∷ set_result 10 answer ∷ [])
call_round_trip_example =
    call_round_trip silent "ping" (encode_ping 10 0) answer silent-IsOrderly refl refl refl refl

wait_until_ready-first_example :
    (wait_until_ready (ConnectionState.connecting ∷ ConnectionState.fatal ∷ [])
      ≡ some (is_state ConnectionState.fatal ConnectionState.ready))
    × (wait_until_ready (ConnectionState.connecting ∷ []) ≡ none)
wait_until_ready-first_example =
    wait_until_ready-first (ConnectionState.connecting ∷ []) [] ConnectionState.fatal
      (λ e. cc, λ e. cc, λ e. cc, tt) (inr (inl refl))

get_diagnostics-again_example : get_diagnostics (get_diagnostics robot).0 ≡ get_diagnostics robot
get_diagnostics-again_example = get_diagnostics-again robot

-- The facade of an older subscription of the topic, while the connection is to be made again.
abbrev lost : Robot
lost = record robot { state = ConnectionState.transient_failure }

lost_away : is_state lost.state ConnectionState.ready ≡ false
unfolding is_state
lost_away = refl

unsubscribe_hits_other_example :
    let (r', request) = unsubscribe lost "task_events" 0 in
    (lookup "task_events" r'.subs ≡ none) × (request ≡ returned ErrorCode.disconnected)
unsubscribe_hits_other_example =
    unsubscribe_hits_other lost "task_events" 0 slot refl refl (λ e. omega (arith, e)) lost_away

-- A connection without subscriptions, which is lost.
abbrev plain : Robot
plain = record robot { subs = [] }

plain_goes_on : is_final plain.state ≡ false
unfolding is_final is_state
plain_goes_on = refl

plain_may_retry :
    attempts_exhausted plain.opts.reconnect_max_attempts (plain.reconnect_attempt + 1) ≡ false
unfolding attempts_exhausted
plain_may_retry = refl

plain_has_token : is_empty plain.opts.cert.cert_pem ≡ true
unfolding is_empty
plain_has_token = refl

lost_connection_recovers_example :
    let gone = on_transport_close plain ErrorCode.transport_failure "lost" in
    let woken = wake_current gone in
    let up = connected woken true in
    let done = handshake_end up true (answered response) in
    (gone.state ≡ ConnectionState.transient_failure)
    × (gone.reconnect_task ≡ some 1)
    × (woken.state ≡ ConnectionState.reconnecting)
    × (woken.establishing ≡ at_connect true)
    × (up.establishing ≡ at_handshake true woken.next_request_id)
    × (done.state ≡ ConnectionState.ready)
    × (done.reconnect_attempt ≡ 0)
    × (done.reconnect_total_count ≡ 1)
lost_connection_recovers_example =
    lost_connection_recovers plain ErrorCode.transport_failure "lost" response plain_goes_on
      plain_may_retry refl refl plain_has_token (λ rid. refl) (refl, refl)
