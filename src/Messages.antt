-- ===== src/Messages.antt =====
-- karo_x2_sdk/messages: the messages that the data callbacks of an application receive.
use karo_x2_sdk_python.Prelude.{ℕ, Bool, String, List}
use karo_x2_sdk_python.Error.{ErrorCode}
use karo_x2_sdk_python.Topic.{FloatBits}

pub data ChargeType : Type 0 where
  none wire dock : ChargeType

pub data ServiceState : Type 0 where
  idle task mapping starting shutting_down upgrading remote_control goto_charging : ServiceState

-- `active_floor` is an int32; it is only passed on, as its bit pattern.
pub record RobotStatus : Type 0 where
  pub robot_id : String
  pub sequence : ℕ
  pub timestamp_ms : ℕ
  pub health_score : ℕ
  pub battery_percent : ℕ
  pub charge_type : ChargeType
  pub service_state : ServiceState
  pub is_estop : Bool
  pub is_hw_estop : Bool
  pub is_sw_estop : Bool
  pub active_map_id : String
  pub active_map_name : String
  pub active_floor : ℕ
  pub current_task_id : String
  pub uptime_seconds : ℕ
  pub idle_seconds : ℕ
  pub charging_seconds : ℕ
  pub error_codes : List ℕ

pub record SafetyEvent : Type 0 where
  pub code : ℕ
  pub level : ℕ
  pub severity : ℕ
  pub mode : String
  pub active_source : String
  pub timestamp_ms : ℕ

pub data TaskType : Type 0 where
  unspecified navigation patrol go_back : TaskType

pub data TaskState : Type 0 where
  unspecified pending running paused cancelling succeeded failed cancelled : TaskState

pub data TaskCancelReason : Type 0 where
  unspecified user estop timeout pause_timeout resume_failed error : TaskCancelReason

pub data TaskPauseReason : Type 0 where
  unspecified user estop : TaskPauseReason

pub record TaskEvent : Type 0 where
  pub task_id : String
  pub task_type : TaskType
  pub state : TaskState
  pub cancel_reason : TaskCancelReason
  pub pause_reason : TaskPauseReason
  pub error_code : ErrorCode
  pub error_message : String
  pub marker_id : String
  pub planned_distance : FloatBits
  pub traveled_distance : FloatBits
  pub created_at_ms : ℕ
  pub started_at_ms : ℕ
  pub completed_at_ms : ℕ
  pub timestamp_ms : ℕ
