-- ===== src/Error.antt =====
-- karo_x2_sdk/error.py: the error codes, their numbers, names and categories, and SdkException.
pub mod Laws
use Prim.Native.Nat.{ℕ}
use karo_x2_sdk_python.Prelude.{◌==◌, nat_eq, Bool, ◌≡◌, String, ◌<>◌, Option, some, none}

pub data ErrorCode : Type 0 where
  ok auth_failed auth_cn_not_allowed auth_serial_revoked auth_token_invalid auth_token_expired :
      ErrorCode
  session_token_invalid session_token_expired handshake_required capability_denied rate_limited :
      ErrorCode
  unsupported_version topic_not_found topic_already_subscribed topic_not_subscribed : ErrorCode
  control_e_stop_active control_publisher_unavailable control_invalid_twist task_running : ErrorCode
  task_not_found task_invalid_state nav_marker_not_found nav_no_active_map nav_goal_unreachable :
      ErrorCode
  nav_low_battery transport_failure timeout cancelled disconnected would_deadlock : ErrorCode
  internal_error : ErrorCode

-- The number of the IntEnum member.
unfoldable pub value : ErrorCode → ℕ
value ok = 0
value auth_failed = 1
value auth_cn_not_allowed = 2
value auth_serial_revoked = 3
value auth_token_invalid = 4
value auth_token_expired = 5
value session_token_invalid = 10
value session_token_expired = 11
value handshake_required = 12
value capability_denied = 20
value rate_limited = 21
value unsupported_version = 22
value topic_not_found = 30
value topic_already_subscribed = 31
value topic_not_subscribed = 32
value control_e_stop_active = 9300
value control_publisher_unavailable = 9301
value control_invalid_twist = 9302
value task_running = 9400
value task_not_found = 9401
value task_invalid_state = 9402
value nav_marker_not_found = 9403
value nav_no_active_map = 9404
value nav_goal_unreachable = 9405
value nav_low_battery = 9406
value transport_failure = 10000
value timeout = 10001
value cancelled = 10002
value disconnected = 10003
value would_deadlock = 10004
value internal_error = 10999

-- `_PASCAL_NAMES`, which `__str__` looks up.
unfoldable pub pascal_name : ErrorCode → String
pascal_name ok = "Ok"
pascal_name auth_failed = "AuthFailed"
pascal_name auth_cn_not_allowed = "AuthCnNotAllowed"
pascal_name auth_serial_revoked = "AuthSerialRevoked"
pascal_name auth_token_invalid = "AuthTokenInvalid"
pascal_name auth_token_expired = "AuthTokenExpired"
pascal_name session_token_invalid = "SessionTokenInvalid"
pascal_name session_token_expired = "SessionTokenExpired"
pascal_name handshake_required = "HandshakeRequired"
pascal_name capability_denied = "CapabilityDenied"
pascal_name rate_limited = "RateLimited"
pascal_name unsupported_version = "UnsupportedVersion"
pascal_name topic_not_found = "TopicNotFound"
pascal_name topic_already_subscribed = "TopicAlreadySubscribed"
pascal_name topic_not_subscribed = "TopicNotSubscribed"
pascal_name control_e_stop_active = "ControlEStopActive"
pascal_name control_publisher_unavailable = "ControlPublisherUnavailable"
pascal_name control_invalid_twist = "ControlInvalidTwist"
pascal_name task_running = "TaskRunning"
pascal_name task_not_found = "TaskNotFound"
pascal_name task_invalid_state = "TaskInvalidState"
pascal_name nav_marker_not_found = "NavMarkerNotFound"
pascal_name nav_no_active_map = "NavNoActiveMap"
pascal_name nav_goal_unreachable = "NavGoalUnreachable"
pascal_name nav_low_battery = "NavLowBattery"
pascal_name transport_failure = "TransportFailure"
pascal_name timeout = "Timeout"
pascal_name cancelled = "Cancelled"
pascal_name disconnected = "Disconnected"
pascal_name would_deadlock = "WouldDeadlock"
pascal_name internal_error = "InternalError"

pub data ErrorCategory : Type 0 where
  ok transient application fatal local : ErrorCategory

-- `_CATEGORY`, which has every code, so that the default of `classify` is never taken.
unfoldable pub classify : ErrorCode → ErrorCategory
classify ErrorCode.ok = ErrorCategory.ok
classify ErrorCode.auth_failed = ErrorCategory.fatal
classify ErrorCode.auth_cn_not_allowed = ErrorCategory.fatal
classify ErrorCode.auth_serial_revoked = ErrorCategory.fatal
classify ErrorCode.auth_token_invalid = ErrorCategory.fatal
classify ErrorCode.auth_token_expired = ErrorCategory.fatal
classify ErrorCode.session_token_invalid = ErrorCategory.transient
classify ErrorCode.session_token_expired = ErrorCategory.transient
classify ErrorCode.handshake_required = ErrorCategory.transient
classify ErrorCode.capability_denied = ErrorCategory.application
classify ErrorCode.rate_limited = ErrorCategory.application
classify ErrorCode.unsupported_version = ErrorCategory.fatal
classify ErrorCode.topic_not_found = ErrorCategory.application
classify ErrorCode.topic_already_subscribed = ErrorCategory.application
classify ErrorCode.topic_not_subscribed = ErrorCategory.application
classify ErrorCode.control_e_stop_active = ErrorCategory.application
classify ErrorCode.control_publisher_unavailable = ErrorCategory.application
classify ErrorCode.control_invalid_twist = ErrorCategory.application
classify ErrorCode.task_running = ErrorCategory.application
classify ErrorCode.task_not_found = ErrorCategory.application
classify ErrorCode.task_invalid_state = ErrorCategory.application
classify ErrorCode.nav_marker_not_found = ErrorCategory.application
classify ErrorCode.nav_no_active_map = ErrorCategory.application
classify ErrorCode.nav_goal_unreachable = ErrorCategory.application
classify ErrorCode.nav_low_battery = ErrorCategory.application
classify ErrorCode.transport_failure = ErrorCategory.transient
classify ErrorCode.timeout = ErrorCategory.transient
classify ErrorCode.cancelled = ErrorCategory.local
classify ErrorCode.disconnected = ErrorCategory.local
classify ErrorCode.would_deadlock = ErrorCategory.local
classify ErrorCode.internal_error = ErrorCategory.local

pub record SdkException : Type 0 where
  pub code : ErrorCode
  pub message : String

-- `SdkException.__str__`
unfoldable pub exception_str : SdkException → String
unfolding pascal_name
exception_str e = pascal_name e.code <> (": " <> e.message)

-- `==` on the codes.
unfoldable pub eq_code : ErrorCode → ErrorCode → Bool
unfolding value
eq_code a b = value a == value b
