-- ===== src/Options.antt =====
-- karo_x2_sdk/robot.py: the options of a connection and the results of the commands; and
-- `RobotImpl._validate_opts` of karo_x2_sdk/_internal/robot_impl.py.
-- Durations are microseconds. Those that the checks compare with 0 are signed; the others are
-- taken to be at least 0, as are `max_missed_pings` and `history_limit`.
pub mod Valid
use Prim.Native.Char.{code}
use karo_x2_sdk_python.Prelude.{
  ℕ, ◌^◌, ℤ, is_negative, pos_part, Bool, true, false, not, ◌&&◌, ◌||◌, String, Option, some, none,
  ltb, leb, ◌==◌, nat_eq, if◌then◌else◌, List,
}
use karo_x2_sdk_python.Error.{ErrorCode, SdkException}
use karo_x2_sdk_python.Topic.{Capabilities, TopicDescriptor}
use karo_x2_sdk_python.Subscription.{DropPolicy, CallbackMode}
use karo_x2_sdk_python.Codec.Wire.{Bytes}

pub record CertCredentials : Type 0 where
  pub cert_pem : String
  pub key_pem : String
  pub ca_pem : String
  pub insecure_skip_verify : Bool

pub record AccessTokenCredentials : Type 0 where
  pub token : Bytes

-- `reconnect_jitter_ratio` is in millionths.
pub record ConnectOptions : Type 0 where
  pub host : String
  pub cert : CertCredentials
  pub access_token : AccessTokenCredentials
  pub client_id : String
  pub sdk_version : String
  pub connect_timeout : ℕ
  pub heartbeat_interval : ℤ
  pub ping_timeout : ℕ
  pub max_missed_pings : ℕ
  pub reconnect_max_attempts : ℤ
  pub reconnect_base_delay : ℕ
  pub reconnect_max_delay : ℕ
  pub reconnect_jitter_ratio : ℤ
  pub reconnect_replay_history : Bool
  pub history_limit : ℕ
  pub subscribe_ack_timeout : ℕ
  pub subscription_queue_size : ℤ
  pub drop_policy : DropPolicy
  pub callback_mode : CallbackMode
  pub cmdvel_rpc_timeout : ℕ
  pub estop_rpc_timeout : ℕ

pub record RobotInfo : Type 0 where
  pub sn : String
  pub model : String
  pub protocol_version : String
  pub granted_capabilities : Capabilities
  pub available_topics : List TopicDescriptor

pub record CmdVelResult : Type 0 where
  pub accepted : Bool
  pub code : ErrorCode
  pub message : String
  pub rtt_ms : ℕ

pub record EmergencyStopResult : Type 0 where
  pub ok : Bool
  pub code : ErrorCode
  pub message : String

pub record CreateTaskResult : Type 0 where
  pub accepted : Bool
  pub code : ErrorCode
  pub message : String
  pub task_id : String

pub record TaskCommandResult : Type 0 where
  pub ok : Bool
  pub code : ErrorCode
  pub message : String

-- `not text`
unfoldable pub is_empty : String → Bool
is_empty String.[] = true
is_empty (String.◌∷◌ c s) = false

unfoldable pub no_bytes : Bytes → Bool
no_bytes List.[] = true
no_bytes (List.◌∷◌ b bs) = false

-- `":" in text`
unfoldable pub has_colon : String → Bool
has_colon String.[] = false
has_colon (String.◌∷◌ c s) = code c == b':' || has_colon s

-- The exception that the code raises, if it raises one.
pub raised : ErrorCode → String → Option SdkException
raised code message = some (record { code = code; message = message })

-- `_validate_opts`: `none` where it returns.
unfoldable pub validate_opts : ConnectOptions → Option SdkException
unfolding raised
validate_opts o =
    if is_empty o.host
    then raised ErrorCode.transport_failure "ConnectOptions.host is empty"
    else if has_colon o.host
    then raised ErrorCode.transport_failure
        "ConnectOptions.host must not contain port; SDK uses fixed port 4434"
    else if is_empty o.cert.cert_pem && no_bytes o.access_token.token
    then raised ErrorCode.auth_failed "neither CertCredentials nor AccessTokenCredentials provided"
    else if not (is_empty o.cert.cert_pem) && is_empty o.cert.key_pem
    then raised ErrorCode.auth_failed "CertCredentials.cert_pem provided but key_pem empty"
    else if is_negative o.heartbeat_interval
    then raised ErrorCode.internal_error "heartbeat_interval must be >= 0"
    else if ltb o.reconnect_max_delay o.reconnect_base_delay
    then raised ErrorCode.internal_error "reconnect_max_delay < reconnect_base_delay"
    else if is_negative o.reconnect_jitter_ratio || ltb (10 ^ 6) (pos_part o.reconnect_jitter_ratio)
    then raised ErrorCode.internal_error "reconnect_jitter_ratio out of [0, 1]"
    else if leb (pos_part o.subscription_queue_size) 0
    then raised ErrorCode.internal_error "subscription_queue_size must be >= 1"
    else none
