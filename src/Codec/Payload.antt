-- ===== src/Codec/Payload.antt =====
-- karo_x2_sdk/_internal/proto_codec.py: the decoders of what a push or an answer carries.
use karo_x2_sdk_python.Prelude.{
  ℕ, ℤ, Bool, String, Option, some, none, [], ◌∷◌, ◌==◌, nat_eq, if◌then◌else◌, Dict,
}
use mathlib.Core.Option
use karo_x2_sdk_python.Messages.{
  ChargeType, ServiceState, RobotStatus, SafetyEvent, TaskType, TaskState, TaskCancelReason,
  TaskPauseReason, TaskEvent,
}
use karo_x2_sdk_python.Codec.Codes.{get_or_default, map_v1_error_code}
use karo_x2_sdk_python.Codec.Wire.{
  Bytes, Parsers, SdkRobotStateUpdate, Task, TaskDetails, TaskEventKind, SafetyStateUpdate,
}

-- The fields of TaskEvent that a `move` task has.
with_details : TaskEvent → TaskDetails → TaskEvent
with_details ev TaskDetails.other = ev
with_details ev (TaskDetails.move m) = record ev {
  marker_id = m.marker_id;
  planned_distance = m.planned_distance;
  traveled_distance = m.distance_traveled;
}

-- `_TASK_TYPE_MAP`, over the numbers of proto/karo/v1/tasks.proto; so the next three.
abbrev task_type_map : Dict ℕ TaskType
task_type_map = (1, TaskType.navigation) ∷ (2, TaskType.patrol) ∷ (3, TaskType.go_back) ∷ []

abbrev task_state_map : Dict ℕ TaskState
task_state_map =
    (1, TaskState.pending)
    ∷ (2, TaskState.running)
    ∷ (3, TaskState.paused)
    ∷ (4, TaskState.cancelling)
    ∷ (10, TaskState.succeeded)
    ∷ (11, TaskState.failed)
    ∷ (12, TaskState.cancelled)
    ∷ []

abbrev task_cancel_map : Dict ℕ TaskCancelReason
task_cancel_map =
    (1, TaskCancelReason.user)
    ∷ (2, TaskCancelReason.estop)
    ∷ (3, TaskCancelReason.timeout)
    ∷ (4, TaskCancelReason.pause_timeout)
    ∷ (5, TaskCancelReason.resume_failed)
    ∷ (6, TaskCancelReason.error)
    ∷ []

abbrev task_pause_map : Dict ℕ TaskPauseReason
task_pause_map = (1, TaskPauseReason.user) ∷ (2, TaskPauseReason.estop) ∷ []

flatten_task : Task → TaskEvent
unfolding with_details
flatten_task t =
    with_details
      (record {
        task_id = t.task_id;
        task_type = get_or_default task_type_map t.task_type TaskType.unspecified;
        state = get_or_default task_state_map t.state TaskState.unspecified;
        cancel_reason = get_or_default task_cancel_map t.cancel_reason TaskCancelReason.unspecified;
        pause_reason = get_or_default task_pause_map t.pause_reason TaskPauseReason.unspecified;
        error_code = map_v1_error_code t.error_code;
        error_message = t.error_message;
        marker_id = "";
        planned_distance = 0;
        traveled_distance = 0;
        created_at_ms = t.created_at_ms;
        started_at_ms = t.started_at_ms;
        completed_at_ms = t.completed_at_ms;
        timestamp_ms = 0;
      })
      t.details

task_event_of : TaskEventKind → Option TaskEvent
unfolding flatten_task
task_event_of (TaskEventKind.created t) = some (flatten_task t)
task_event_of (TaskEventKind.updated t) = some (flatten_task t)
task_event_of _ = none

charge_type_of : ℕ → ChargeType
charge_type_of n =
    if n == 1 then ChargeType.wire else if n == 2 then ChargeType.dock else ChargeType.none

abbrev service_states : Dict ℕ ServiceState
service_states =
    (0, ServiceState.idle)
    ∷ (1, ServiceState.task)
    ∷ (2, ServiceState.mapping)
    ∷ (3, ServiceState.starting)
    ∷ (4, ServiceState.shutting_down)
    ∷ (5, ServiceState.upgrading)
    ∷ (6, ServiceState.remote_control)
    ∷ (7, ServiceState.goto_charging)
    ∷ []

robot_status_of : SdkRobotStateUpdate → RobotStatus
unfolding charge_type_of
robot_status_of src = record {
  robot_id = src.robot_id;
  sequence = src.sequence;
  timestamp_ms = 0;
  health_score = src.health_score;
  battery_percent = src.battery_level;
  charge_type = charge_type_of src.charge_type;
  service_state = get_or_default service_states src.service_state ServiceState.idle;
  is_estop = src.is_estop;
  is_hw_estop = src.is_hw_estop;
  is_sw_estop = src.is_sw_estop;
  active_map_id = src.active_map_id;
  active_map_name = src.active_map_name;
  active_floor = src.active_floor;
  current_task_id = src.current_task_id;
  uptime_seconds = src.uptime_seconds;
  idle_seconds = src.idle_seconds;
  charging_seconds = src.charging_seconds;
  error_codes = src.errors;
}

safety_event_of : SafetyStateUpdate → SafetyEvent
safety_event_of s = record {
  code = s.code;
  level = s.level;
  severity = s.severity;
  mode = s.mode;
  active_source = s.active_source;
  timestamp_ms = 0;
}

-- Each returns `none` where the generated parser raises.
module _ (p : Parsers) where
  pub decode_robot_status : Bytes → Option RobotStatus
  unfolding robot_status_of
  decode_robot_status payload = Option.map robot_status_of (p.robot_state payload)

  pub decode_task_event : Bytes → Option TaskEvent
  unfolding task_event_of
  decode_task_event payload = Option.bind (p.task_event payload) task_event_of

  pub decode_safety_event : Bytes → Option SafetyEvent
  unfolding safety_event_of
  decode_safety_event payload = Option.map safety_event_of (p.safety_state payload)

  pub decode_create_task_response : Bytes → Option String
  decode_create_task_response payload = p.create_task_id payload

pub record DecodedCmdVelResponse : Type 0 where
  pub accepted : Bool
  pub device_timestamp_ms : ℕ

pub record DecodedPingResponse : Type 0 where
  pub client_timestamp_ms : ℤ
  pub server_timestamp_ms : ℤ
  pub protocol_version : String
  pub device_sn : String

unfoldable pub decode_cmd_vel_response : Parsers → Bytes → Option DecodedCmdVelResponse
decode_cmd_vel_response p payload =
    Option.map (λ m. record { accepted = m.accepted; device_timestamp_ms = m.device_timestamp_ms })
      (p.cmd_vel_response payload)

unfoldable pub decode_ping_response : Parsers → Bytes → Option DecodedPingResponse
decode_ping_response p payload =
    Option.map
      (λ m. record {
        client_timestamp_ms = m.client_timestamp_ms;
        server_timestamp_ms = m.server_timestamp_ms;
        protocol_version = m.protocol_version;
        device_sn = m.device_sn;
      })
      (p.ping_response payload)
