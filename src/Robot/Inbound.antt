-- ===== src/Robot/Inbound.antt =====
-- What comes from the robot, of karo_x2_sdk/_internal/robot_impl.py: `_on_inbound_message`,
-- `_reset_liveness_on_inbound`, `_handle_sdk_response` and `_handle_sdk_topic_push`.
use karo_x2_sdk_python.Prelude.{
  ◌+◌, Bool, not, ◌||◌, ◌<>◌, str, [], ◌∷◌, Option, some, none, lookup, contains, if◌then◌else◌,
  ◌==◌, nat_eq, string_eq, length,
}
use karo_x2_sdk_python.Options.{is_empty}
use karo_x2_sdk_python.Diagnostics.{LogLevel}
use karo_x2_sdk_python.Codec.Wire.{Bytes}
use karo_x2_sdk_python.Codec.Decode.{
  DecodedResponse, DecodedTopicPush, decode_response, decode_topic_push,
}
use karo_x2_sdk_python.Slot.{SubSlot}
use karo_x2_sdk_python.Slot.Deliver.{push_to_slot}
use karo_x2_sdk_python.Robot.{Robot, log, emit, put_slot, on_slots}
use karo_x2_sdk_python.Robot.Rpc.{rpc_response}
use karo_x2_sdk_python.Robot.Ack.{handle_subscribe_ack}

-- `_handle_sdk_response`
unfoldable pub handle_sdk_response : Robot → DecodedResponse → Robot
unfolding emit
handle_sdk_response r resp =
    if resp.has_subscribe
    then handle_subscribe_ack r resp
    else if contains resp.request_id r.inflight
    then rpc_response r resp
    else emit r
        (log LogLevel.debug ("response for unknown request_id=" <> str resp.request_id) ∷ [])

unfoldable pub push_for : Robot → Option SubSlot → DecodedTopicPush → Robot
unfolding emit put_slot
push_for r none push =
    emit r (log LogLevel.debug ("topic push for unknown sub: " <> push.topic) ∷ [])
push_for r (some slot) push =
    let (slot', effects) = push_to_slot slot.state slot push r.clock_steady r.clock_ms in
    emit (put_slot r slot') (on_slots slot effects)

-- `_handle_sdk_topic_push`
unfoldable pub handle_sdk_topic_push : Robot → DecodedTopicPush → Robot
unfolding push_for
handle_sdk_topic_push r push = push_for r (lookup push.topic r.subs) push

-- `_reset_liveness_on_inbound`; the two events that it sets wake the heartbeat.
unfoldable pub reset_liveness : Robot → Robot
reset_liveness r = record r { last_inbound = r.clock_steady; miss_count = 0 }

unfoldable pub unknown_message : Robot → Bytes → Robot
unfolding emit
unknown_message r bytes =
    emit r (log LogLevel.warn ("unknown wire message (" <> (str (length bytes) <> " bytes)")) ∷ [])

unfoldable pub push_or_unknown : Robot → Bytes → Option DecodedTopicPush → Robot
unfolding unknown_message
push_or_unknown r bytes none = unknown_message r bytes
push_or_unknown r bytes (some push) =
    if is_empty push.topic then unknown_message r bytes else handle_sdk_topic_push r push

-- Whether a message that parses as a response is one.
unfoldable pub is_response : DecodedResponse → Bool
is_response resp =
    resp.has_handshake || (resp.has_rpc || (resp.has_subscribe || not (resp.request_id == 0)))

unfoldable pub dispatch : Robot → Bytes → Option DecodedResponse → Robot
unfolding push_or_unknown is_response
dispatch r bytes none = push_or_unknown r bytes (decode_topic_push r.env.parsers bytes)
dispatch r bytes (some resp) =
    if is_response resp
    then handle_sdk_response r resp
    else push_or_unknown r bytes (decode_topic_push r.env.parsers bytes)

-- `_on_inbound_message`
unfoldable pub on_inbound_message : Robot → Bytes → Robot
unfolding reset_liveness dispatch
on_inbound_message r bytes =
    dispatch (reset_liveness (record r { bytes_received = r.bytes_received + length bytes })) bytes
      (decode_response r.env.parsers bytes)
