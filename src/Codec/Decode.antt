-- ===== src/Codec/Decode.antt =====
-- karo_x2_sdk/_internal/proto_codec.py: from the parsed messages to what the SDK works with.
pub mod Laws
use karo_x2_sdk_python.Prelude.{
  ℕ, Bool, true, false, String, ◌<>◌, str, Option, some, none, List, [], ◌∷◌, map, ◌==◌, nat_eq,
  if◌then◌else◌, Dict,
}
use mathlib.Core.Option
use karo_x2_sdk_python.Error.{ErrorCode}
use karo_x2_sdk_python.Topic.{DeliverySemantics, TopicDescriptor, Capabilities}
use karo_x2_sdk_python.Messages.{
  ChargeType, ServiceState, RobotStatus, SafetyEvent, TaskType, TaskState, TaskCancelReason,
  TaskPauseReason, TaskEvent,
}
use karo_x2_sdk_python.Codec.Codes.{
  get_or_default, map_sdk_error_code, map_v1_error_code, SubscribeRejectReason,
}
use karo_x2_sdk_python.Codec.Wire.{
  Bytes, Parsers, SdkCapabilitySet, SdkTopicDescriptor, SdkHandshakeResponse, RpcResponse,
  SdkSubscribeAck, ResponsePayload, SdkResponse, SdkTopicPush, SdkRobotStateUpdate, Task,
  TaskDetails, TaskEventKind, SafetyStateUpdate,
}

pub record DecodedResponse : Type 0 where
  pub request_id : ℕ
  pub success : Bool
  pub sdk_code : ErrorCode
  pub message : String
  pub server_ts_ms : ℕ
  pub has_handshake : Bool
  pub has_rpc : Bool
  pub has_subscribe : Bool
  pub protocol_version : String
  pub robot_sn : String
  pub robot_model : String
  pub session_token : String
  pub granted_capabilities : Capabilities
  pub available_topics : List TopicDescriptor
  pub rpc_id : ℕ
  pub rpc_code : ErrorCode
  pub rpc_message : String
  pub rpc_payload : Bytes
  pub sub_topic : String
  pub sub_accepted : Bool
  pub sub_reject_reason : SubscribeRejectReason
  pub sub_next_seq : ℕ
  pub sub_message : String

pub record DecodedTopicPush : Type 0 where
  pub topic : String
  pub timestamp_ms : ℕ
  pub seq : ℕ
  pub payload : Bytes

-- `Capabilities()`
abbrev pub no_capabilities : Capabilities
no_capabilities = record {
  chassis_control = false;
  telemetry_read = false;
  image_stream = false;
  map_read = false;
  map_write = false;
  task_control = false;
}

pub convert_capabilities : SdkCapabilitySet → Capabilities
convert_capabilities src = record {
  chassis_control = src.chassis_control;
  telemetry_read = src.telemetry_read;
  image_stream = src.image_stream;
  map_read = src.map_read;
  map_write = src.map_write;
  task_control = src.task_control;
}

-- TOPIC_EVENT is 1.
pub convert_delivery_semantics : ℕ → DeliverySemantics
convert_delivery_semantics wire =
    if wire == 1 then DeliverySemantics.event else DeliverySemantics.telemetry

pub convert_topic : SdkTopicDescriptor → TopicDescriptor
unfolding convert_delivery_semantics
convert_topic t = record {
  name = t.name;
  description = t.description;
  default_hz = t.default_hz;
  max_hz = t.max_hz;
  delivery_semantics = convert_delivery_semantics t.delivery_semantics;
}

-- `SubscribeRejectReason(n)`; `none` where it raises ValueError.
pub reject_reason_of : ℕ → Option SubscribeRejectReason
reject_reason_of n =
    if n == 0
    then some SubscribeRejectReason.accepted
    else if n == 1
    then some SubscribeRejectReason.topic_not_found
    else if n == 2
    then some SubscribeRejectReason.capability_denied
    else if n == 3
    then some SubscribeRejectReason.already_subscribed
    else if n == 4
    then some SubscribeRejectReason.invalid_hz
    else if n == 10
    then some SubscribeRejectReason.history_too_old
    else if n == 11
    then some SubscribeRejectReason.replay_not_supported
    else none

-- What `decode_response` makes before it looks at the payload.
response_head : SdkResponse → DecodedResponse
response_head resp = record {
  request_id = resp.request_id;
  success = resp.success;
  sdk_code = map_sdk_error_code resp.error_code;
  message = resp.message;
  server_ts_ms = resp.server_timestamp_ms;
  has_handshake = false;
  has_rpc = false;
  has_subscribe = false;
  protocol_version = "";
  robot_sn = "";
  robot_model = "";
  session_token = "";
  granted_capabilities = no_capabilities;
  available_topics = [];
  rpc_id = 0;
  rpc_code = ErrorCode.ok;
  rpc_message = "";
  rpc_payload = [];
  sub_topic = "";
  sub_accepted = false;
  sub_reject_reason = SubscribeRejectReason.accepted;
  sub_next_seq = 0;
  sub_message = "";
}

with_handshake : DecodedResponse → SdkHandshakeResponse → DecodedResponse
unfolding convert_capabilities convert_topic
with_handshake out hs = record out {
  has_handshake = true;
  protocol_version = hs.protocol_version;
  robot_sn = hs.robot_sn;
  robot_model = hs.robot_model;
  session_token = hs.session_token;
  granted_capabilities = convert_capabilities hs.granted_capabilities;
  available_topics = map convert_topic hs.available_topics;
}

with_rpc : DecodedResponse → RpcResponse → DecodedResponse
with_rpc out r = record out {
  has_rpc = true;
  rpc_id = r.id;
  rpc_code = map_v1_error_code r.code;
  rpc_message = r.message;
  rpc_payload = r.payload;
}

-- The `try` around `SubscribeRejectReason(a.reject_reason)`.
with_reject_reason : DecodedResponse → SdkSubscribeAck → DecodedResponse
unfolding reject_reason_of
with_reject_reason out a = elim (reject_reason_of a.reject_reason) [
  | some reason ↦ record out { sub_reject_reason = reason }
  | none ↦ record out {
    sub_reject_reason = SubscribeRejectReason.unknown;
    sub_message = a.message <> (" [unknown reject_reason=" <> (str a.reject_reason <> "]"));
  }
]

with_subscribe : DecodedResponse → SdkSubscribeAck → DecodedResponse
unfolding with_reject_reason
with_subscribe out a =
    let topic : DecodedResponse = record out {
      has_subscribe = true;
      sub_topic = a.topic;
      sub_accepted = a.accepted;
    } in
    record (with_reject_reason topic a) { sub_next_seq = a.next_seq; sub_message = a.message }

with_payload : DecodedResponse → ResponsePayload → DecodedResponse
unfolding with_handshake with_rpc with_subscribe
with_payload out ResponsePayload.empty = out
with_payload out (ResponsePayload.handshake hs) = with_handshake out hs
with_payload out (ResponsePayload.rpc r) = with_rpc out r
with_payload out (ResponsePayload.subscribe a) = with_subscribe out a

push_of : SdkTopicPush → DecodedTopicPush
push_of push = record {
  topic = push.topic;
  timestamp_ms = push.timestamp_ms;
  seq = push.seq;
  payload = push.payload;
}

-- The decoders. Each returns `none` where the generated parser raises.
module _ (p : Parsers) where
  pub decode_response : Bytes → Option DecodedResponse
  unfolding response_head with_payload
  decode_response bytes =
      Option.map (λ resp. with_payload (response_head resp) resp.payload) (p.sdk_response bytes)

  pub decode_topic_push : Bytes → Option DecodedTopicPush
  unfolding push_of
  decode_topic_push bytes = Option.map push_of (p.sdk_topic_push bytes)
