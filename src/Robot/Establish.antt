-- ===== src/Robot/Establish.antt =====
-- Connecting, of karo_x2_sdk/_internal/robot_impl.py: `connect`, `_establish` in its three parts (to
-- the websocket, to the answer of the handshake, and from there on) and
-- `_start_heartbeat`.
pub mod Shutdown
use karo_x2_sdk_python.Prelude.{
  ℕ, zero, suc, ◌+◌, Bool, true, false, not, ◌||◌, ◌&&◌, String, ◌<>◌, List, [], ◌∷◌, ◌++◌, map,
  Option, some, none, Dict, lookup, erase, if◌then◌else◌, ◌==◌, nat_eq, string_eq, length, ℤ, pos,
  negsuc, ltb,
}
use karo_x2_sdk_python.Error.{
  ErrorCode, ErrorCategory, SdkException, classify, eq_code, exception_str,
}
use karo_x2_sdk_python.Connection.{ConnectionState, is_state}
use karo_x2_sdk_python.Subscription.{SubscriptionState}
use karo_x2_sdk_python.Options.{RobotInfo, is_empty}
use karo_x2_sdk_python.Codec.Wire.{Bytes}
use karo_x2_sdk_python.Codec.Decode.{DecodedResponse}
use karo_x2_sdk_python.Codec.Encode.{
  SdkCommand, encode_handshake_cert, encode_handshake_token, encode_emergency_stop,
}
use karo_x2_sdk_python.Slot.{SubSlot, is_sub_state}
use karo_x2_sdk_python.Robot.{
  Robot, Certificate, der_form, malformed, Establishing, nowhere, at_connect, at_handshake, Effect,
  start_estop_replay, emit, take_rid, transition, change,
}
use karo_x2_sdk_python.Robot.Lifecycle.{
  abort_to_fatal, fail_transient, close_ws, schedule_reconnect, on_transport_close,
}
use karo_x2_sdk_python.Robot.Rpc.{
  Outcome, answered, timed_out, raised, Started, waiting, failed, send_rpc,
}
use karo_x2_sdk_python.Robot.Subscribe.{
  send_subscribe, resolve_semantics, resubscribe_all_after_reconnect, topics_of,
}
use karo_x2_sdk_python.Robot.Ack.{finish_reconnect}

-- `_establish(is_reconnect)`, up to the wait for the websocket.
unfoldable pub establish : Robot → Bool → Robot
establish r false =
    if is_state r.state ConnectionState.idle
    then record (transition r ConnectionState.connecting (change "connect()" ErrorCode.ok "")) {
      establishing = at_connect false;
    }
    else r
establish r true =
    if is_state r.state ConnectionState.reconnecting
    then record r { establishing = at_connect true }
    else r

-- `connect`: the first call starts the task of `_establish`.
unfoldable pub connect : Robot → Robot
unfolding establish
connect r = if r.connect_invoked then r else establish (record r { connect_invoked = true }) false

-- The next attempt is announced and scheduled.
unfoldable pub retry : Robot → ErrorCode → String → String → Robot
retry r code reason message =
    schedule_reconnect (close_ws (fail_transient r reason code message)) (r.reconnect_attempt + 1)

-- The failure of an attempt: a fatal code aborts, any other goes on to the next attempt.
unfoldable pub failed_as : ErrorCategory → Robot → ErrorCode → String → String → String → Robot
unfolding retry
failed_as ErrorCategory.fatal r code fatal_message reason message =
    abort_to_fatal r code fatal_message
failed_as _ r code fatal_message reason message = retry r code reason message

unfoldable pub attempt_failed : Robot → ErrorCode → String → String → String → Robot
unfolding failed_as
attempt_failed r code fatal_message reason message =
    failed_as (classify code) r code fatal_message reason message

-- The wait for the websocket has raised.
unfoldable pub connect_failed_as : ErrorCategory → Robot → SdkException → Robot
connect_failed_as ErrorCategory.fatal r e =
    abort_to_fatal r e.code ("ws connect fatal: " <> exception_str e)
connect_failed_as _ r e =
    schedule_reconnect (fail_transient r "ws connect failed" e.code (exception_str e))
      (r.reconnect_attempt + 1)

unfoldable pub connect_failed : Robot → SdkException → Robot
unfolding connect_failed_as
connect_failed r e = connect_failed_as (classify e.code) (record r { establishing = nowhere }) e

-- The handshake has raised after it was sent, or while it was.
unfoldable pub handshake_raised : Robot → SdkException → Robot
unfolding attempt_failed
handshake_raised r e =
    attempt_failed (record r { establishing = nowhere }) e.code
      ("handshake error: " <> exception_str e) "handshake transport failed" (exception_str e)

-- `_on_done` of `connect`: the task of the first connection has raised an exception with a text.
unfoldable pub establish_crashed : Robot → String → Robot
establish_crashed r text =
    abort_to_fatal (record r { establishing = nowhere }) ErrorCode.internal_error
      ("establish task crashed: " <> text)

abbrev pub sdk_version : String
sdk_version = "3.3.1"

-- `self.opts.sdk_version or sdk_version()`
unfoldable pub version_of : String → String
version_of String.[] = sdk_version
version_of (String.◌∷◌ c s) = String.◌∷◌ c s

-- The handshake command, or the text of the exception that `pem_to_der` raises.
pub data Handshake : Type 0 where
  encoded : SdkCommand → Handshake
  refused : String → Handshake

unfoldable pub certificate_command : Robot → Certificate → Handshake
unfolding version_of
certificate_command r (malformed text) = refused ("PEM → DER failed: " <> text)
certificate_command r (der_form der) =
    encoded
      (encode_handshake_cert r.next_request_id (version_of r.opts.sdk_version) r.opts.client_id der)

unfoldable pub handshake_command : Robot → Handshake
unfolding version_of certificate_command
handshake_command r =
    if is_empty r.opts.cert.cert_pem
    then encoded (
        encode_handshake_token r.next_request_id (version_of r.opts.sdk_version) r.opts.client_id
          r.opts.access_token.token)
    else certificate_command r (r.env.load_certificate r.opts.cert.cert_pem)

unfoldable pub handshake_started : Robot → Bool → ℕ → Started → Robot
unfolding handshake_raised
handshake_started r is_reconnect rid waiting = record r {
  establishing = at_handshake is_reconnect rid;
}
handshake_started r is_reconnect rid (failed e) = handshake_raised r e

unfoldable pub send_handshake : Robot → Bool → Handshake → Robot
unfolding handshake_started take_rid
send_handshake r is_reconnect (refused text) =
    abort_to_fatal (record (take_rid r) { establishing = nowhere }) ErrorCode.auth_failed
      ("handshake encode: "
        <> exception_str (record { code = ErrorCode.auth_failed; message = text }))
send_handshake r is_reconnect (encoded command) =
    let (called, start) = send_rpc (take_rid r) r.next_request_id "handshake" command in
    handshake_started called is_reconnect r.next_request_id start

-- The websocket is open: from there up to the wait for the answer.
unfoldable pub connected : Robot → Bool → Robot
unfolding send_handshake handshake_command
connected r is_reconnect =
    let opened : Robot = record r {
      ws = some true;
      bytes_sent = if is_reconnect then r.bytes_sent else 0;
      bytes_received = if is_reconnect then r.bytes_received else 0;
    } in
    send_handshake opened is_reconnect (handshake_command opened)

-- `heartbeat_interval <= 0` starts none.
beats : ℤ → Bool
beats (pos n) = ltb 0 n
beats (negsuc n) = false

-- `_start_heartbeat`
unfoldable pub start_heartbeat : Robot → Robot
unfolding beats
start_heartbeat r = record r {
  last_inbound = r.clock_steady;
  miss_count = 0;
  heartbeat_task = beats r.opts.heartbeat_interval;
}

-- `slot.semantics = self._resolve_semantics(slot.topic)` for every slot.
unfoldable pub resolve_slots : Robot → Dict String SubSlot → Dict String SubSlot
resolve_slots r [] = []
resolve_slots r ((topic, slot) ∷ subs) =
    (topic, record slot { semantics = resolve_semantics r slot.topic }) ∷ resolve_slots r subs

-- A slot that waits since before the connection was READY.
unfoldable pub subscribe_pending : Robot → Option SubSlot → Robot
unfolding is_sub_state
subscribe_pending r none = r
subscribe_pending r (some slot) =
    if is_sub_state slot.state SubscriptionState.pending && slot.inflight_subscribe_request_id == 0
    then send_subscribe r slot 0
    else r

unfoldable pub subscribe_all_pending : Robot → List String → Robot
unfolding subscribe_pending
subscribe_all_pending r [] = r
subscribe_all_pending r (topic ∷ topics) =
    subscribe_all_pending (subscribe_pending r (lookup topic r.subs)) topics

-- What the handshake tells of the robot.
unfoldable pub with_info : Robot → DecodedResponse → Robot
unfolding start_heartbeat resolve_slots
with_info r resp =
    let informed : Robot = start_heartbeat (record r {
      establishing = nowhere;
      robot_info = some (record {
        sn = resp.robot_sn;
        model = resp.robot_model;
        protocol_version = resp.protocol_version;
        granted_capabilities = resp.granted_capabilities;
        available_topics = resp.available_topics;
      });
    }) in
    record informed { subs = resolve_slots informed informed.subs }

-- `create_task(_do_estop_replay())`, if the replay is still wanted.
unfoldable pub replay_if_pending : Bool → Robot → Robot
unfolding emit
replay_if_pending false r = r
replay_if_pending true r = emit r (start_estop_replay ∷ [])

-- The handshake of a reconnect is accepted.
unfoldable pub reconnected : Robot → Robot
unfolding replay_if_pending
reconnected r =
    let counted : Robot = record r {
      reconnect_subs_pending = length r.subs;
      reconnect_estop_pending = r.last_estop_intent;
    } in
    let again : Robot = resubscribe_all_after_reconnect counted in
    if length r.subs == 0 && not r.last_estop_intent
    then finish_reconnect counted "reconnect ok" ""
    else replay_if_pending again.reconnect_estop_pending again

unfoldable pub accepted : Robot → Bool → Robot
unfolding reconnected
accepted r false =
    let ready : Robot =
      transition r ConnectionState.ready (change "handshake ok" ErrorCode.ok "") in
    subscribe_all_pending ready (topics_of ready.subs)
accepted r true = reconnected r

-- The wait for the answer has ended.
unfoldable pub handshake_end : Robot → Bool → Outcome → Robot
unfolding retry attempt_failed handshake_raised accepted with_info
handshake_end r is_reconnect timed_out =
    retry (record r { establishing = nowhere }) ErrorCode.timeout "handshake timeout" ""
handshake_end r is_reconnect (raised e) = handshake_raised r e
handshake_end r is_reconnect (answered resp) =
    if resp.success && resp.has_handshake
    then accepted (with_info r resp) is_reconnect
    else attempt_failed (record r { establishing = nowhere })
        (if resp.success then ErrorCode.internal_error else resp.sdk_code)
        ("handshake rejected: " <> resp.message) "handshake failed" resp.message
