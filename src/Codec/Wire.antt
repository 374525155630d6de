-- ===== src/Codec/Wire.antt =====
-- The protobuf messages that the codec reads, as proto/sdk/session.proto, proto/sdk/common.proto,
-- proto/sdk/v1/telemetry.proto and proto/karo/v1/{rpc,move,tasks,events,telemetry_stream}.proto
-- declare them, without the fields that no code of the SDK reads. The parsers of these messages
-- are generated code: `Parsers` is what the codec takes of them. `none` stands for an exception.
use karo_x2_sdk_python.Prelude.{ℕ, ℤ, Bool, String, List, Option}
use karo_x2_sdk_python.Topic.{FloatBits}

abbrev pub Bytes : Type 0
Bytes = List ℕ

pub record SdkCapabilitySet : Type 0 where
  pub chassis_control : Bool
  pub telemetry_read : Bool
  pub image_stream : Bool
  pub map_read : Bool
  pub map_write : Bool
  pub task_control : Bool

pub record SdkTopicDescriptor : Type 0 where
  pub name : String
  pub description : String
  pub default_hz : FloatBits
  pub max_hz : FloatBits
  pub delivery_semantics : ℕ

pub record SdkHandshakeResponse : Type 0 where
  pub protocol_version : String
  pub robot_sn : String
  pub robot_model : String
  pub granted_capabilities : SdkCapabilitySet
  pub available_topics : List SdkTopicDescriptor
  pub session_token : String

-- `karo.v1.Response`
pub record RpcResponse : Type 0 where
  pub id : ℕ
  pub code : ℕ
  pub message : String
  pub payload : Bytes

pub record SdkSubscribeAck : Type 0 where
  pub topic : String
  pub accepted : Bool
  pub reject_reason : ℕ
  pub next_seq : ℕ
  pub message : String

pub data ResponsePayload : Type 0 where
  empty : ResponsePayload
  handshake : SdkHandshakeResponse → ResponsePayload
  rpc : RpcResponse → ResponsePayload
  subscribe : SdkSubscribeAck → ResponsePayload

pub record SdkResponse : Type 0 where
  pub request_id : ℕ
  pub success : Bool
  pub error_code : ℕ
  pub message : String
  pub server_timestamp_ms : ℕ
  pub payload : ResponsePayload

pub record SdkTopicPush : Type 0 where
  pub topic : String
  pub timestamp_ms : ℕ
  pub payload : Bytes
  pub seq : ℕ

pub record SdkRobotStateUpdate : Type 0 where
  pub robot_id : String
  pub health_score : ℕ
  pub sequence : ℕ
  pub battery_level : ℕ
  pub charge_type : ℕ
  pub service_state : ℕ
  pub is_estop : Bool
  pub is_hw_estop : Bool
  pub is_sw_estop : Bool
  pub errors : List ℕ
  pub active_map_id : String
  pub active_map_name : String
  pub active_floor : ℕ
  pub current_task_id : String
  pub uptime_seconds : ℕ
  pub idle_seconds : ℕ
  pub charging_seconds : ℕ

pub record MoveTaskDetails : Type 0 where
  pub marker_id : String
  pub planned_distance : FloatBits
  pub distance_traveled : FloatBits

-- `details`; the other members of the oneof are not read.
pub data TaskDetails : Type 0 where
  other : TaskDetails
  move : MoveTaskDetails → TaskDetails

pub record Task : Type 0 where
  pub task_id : String
  pub task_type : ℕ
  pub state : ℕ
  pub cancel_reason : ℕ
  pub pause_reason : ℕ
  pub created_at_ms : ℕ
  pub started_at_ms : ℕ
  pub completed_at_ms : ℕ
  pub error_code : ℕ
  pub error_message : String
  pub details : TaskDetails

pub data TaskEventKind : Type 0 where
  unset state_changed deleted : TaskEventKind
  created : Task → TaskEventKind
  updated : Task → TaskEventKind

pub record SafetyStateUpdate : Type 0 where
  pub code : ℕ
  pub level : ℕ
  pub severity : ℕ
  pub mode : String
  pub active_source : String

-- The generated parsers, `ParseFromString`.
-- karo.v1.CmdVelResponse
pub record CmdVelResponse : Type 0 where
  pub accepted : Bool
  pub device_timestamp_ms : ℕ

-- karo.v1.PingResponse, without its `echo`.
pub record PingResponse : Type 0 where
  pub client_timestamp_ms : ℤ
  pub server_timestamp_ms : ℤ
  pub device_sn : String
  pub protocol_version : String

pub record Parsers : Type 0 where
  pub sdk_response : Bytes → Option SdkResponse
  pub sdk_topic_push : Bytes → Option SdkTopicPush
  pub robot_state : Bytes → Option SdkRobotStateUpdate
  pub task_event : Bytes → Option TaskEventKind
  pub safety_state : Bytes → Option SafetyStateUpdate
  -- the `task.task_id` of a CreateMoveTaskResponse
  pub create_task_id : Bytes → Option String
  pub cmd_vel_response : Bytes → Option CmdVelResponse
  pub ping_response : Bytes → Option PingResponse
