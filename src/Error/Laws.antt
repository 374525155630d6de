-- ===== src/Error/Laws.antt =====
-- What the tables of karo_x2_sdk/error.py guarantee to the rest of the SDK.
use karo_x2_sdk_python.Prelude.{
  ℕ, ◌==◌, nat_eq, nat_beq_iff, ◌≡◌, ◌↔◌, refl, true, Option, some, none, ap, if◌then◌else◌, String,
  string_eq,
}
use karo_x2_sdk_python.Error.{ErrorCode, value, eq_code, pascal_name}

-- `ErrorCode(n)`: the member with the number `n`; `none` where Python raises ValueError.
pub from_value : ℕ → Option ErrorCode
from_value n =
    if n == 0
    then some ErrorCode.ok
    else if n == 1
    then some ErrorCode.auth_failed
    else if n == 2
    then some ErrorCode.auth_cn_not_allowed
    else if n == 3
    then some ErrorCode.auth_serial_revoked
    else if n == 4
    then some ErrorCode.auth_token_invalid
    else if n == 5
    then some ErrorCode.auth_token_expired
    else if n == 10
    then some ErrorCode.session_token_invalid
    else if n == 11
    then some ErrorCode.session_token_expired
    else if n == 12
    then some ErrorCode.handshake_required
    else if n == 20
    then some ErrorCode.capability_denied
    else if n == 21
    then some ErrorCode.rate_limited
    else if n == 22
    then some ErrorCode.unsupported_version
    else if n == 30
    then some ErrorCode.topic_not_found
    else if n == 31
    then some ErrorCode.topic_already_subscribed
    else if n == 32
    then some ErrorCode.topic_not_subscribed
    else if n == 9300
    then some ErrorCode.control_e_stop_active
    else if n == 9301
    then some ErrorCode.control_publisher_unavailable
    else if n == 9302
    then some ErrorCode.control_invalid_twist
    else if n == 9400
    then some ErrorCode.task_running
    else if n == 9401
    then some ErrorCode.task_not_found
    else if n == 9402
    then some ErrorCode.task_invalid_state
    else if n == 9403
    then some ErrorCode.nav_marker_not_found
    else if n == 9404
    then some ErrorCode.nav_no_active_map
    else if n == 9405
    then some ErrorCode.nav_goal_unreachable
    else if n == 9406
    then some ErrorCode.nav_low_battery
    else if n == 10000
    then some ErrorCode.transport_failure
    else if n == 10001
    then some ErrorCode.timeout
    else if n == 10002
    then some ErrorCode.cancelled
    else if n == 10003
    then some ErrorCode.disconnected
    else if n == 10004
    then some ErrorCode.would_deadlock
    else if n == 10999
    then some ErrorCode.internal_error
    else none

-- Looking up the number of a code gives the code back.
pub from_value-value : (c : ErrorCode) → from_value (value c) ≡ some c
unfolding from_value value
from_value-value ErrorCode.ok = refl
from_value-value ErrorCode.auth_failed = refl
from_value-value ErrorCode.auth_cn_not_allowed = refl
from_value-value ErrorCode.auth_serial_revoked = refl
from_value-value ErrorCode.auth_token_invalid = refl
from_value-value ErrorCode.auth_token_expired = refl
from_value-value ErrorCode.session_token_invalid = refl
from_value-value ErrorCode.session_token_expired = refl
from_value-value ErrorCode.handshake_required = refl
from_value-value ErrorCode.capability_denied = refl
from_value-value ErrorCode.rate_limited = refl
from_value-value ErrorCode.unsupported_version = refl
from_value-value ErrorCode.topic_not_found = refl
from_value-value ErrorCode.topic_already_subscribed = refl
from_value-value ErrorCode.topic_not_subscribed = refl
from_value-value ErrorCode.control_e_stop_active = refl
from_value-value ErrorCode.control_publisher_unavailable = refl
from_value-value ErrorCode.control_invalid_twist = refl
from_value-value ErrorCode.task_running = refl
from_value-value ErrorCode.task_not_found = refl
from_value-value ErrorCode.task_invalid_state = refl
from_value-value ErrorCode.nav_marker_not_found = refl
from_value-value ErrorCode.nav_no_active_map = refl
from_value-value ErrorCode.nav_goal_unreachable = refl
from_value-value ErrorCode.nav_low_battery = refl
from_value-value ErrorCode.transport_failure = refl
from_value-value ErrorCode.timeout = refl
from_value-value ErrorCode.cancelled = refl
from_value-value ErrorCode.disconnected = refl
from_value-value ErrorCode.would_deadlock = refl
from_value-value ErrorCode.internal_error = refl

pub value-injective : (a b : ErrorCode) → value a ≡ value b → a ≡ b
value-injective a b h = cc (from_value-value a, from_value-value b, ap from_value h)

-- `==` on the codes decides equality: no two members share a number.
pub eq_code_iff : (a b : ErrorCode) → (eq_code a b ≡ true) ↔ (a ≡ b)
unfolding eq_code
eq_code_iff a b = (
  λ h. value-injective a b ((nat_beq_iff (value a) (value b)).0 h),
  λ p. (nat_beq_iff (value a) (value b)).1 (ap value p),
)

-- The member that a printed name stands for.
from_name : String → Option ErrorCode
from_name s =
    if s == "Ok"
    then some ErrorCode.ok
    else if s == "AuthFailed"
    then some ErrorCode.auth_failed
    else if s == "AuthCnNotAllowed"
    then some ErrorCode.auth_cn_not_allowed
    else if s == "AuthSerialRevoked"
    then some ErrorCode.auth_serial_revoked
    else if s == "AuthTokenInvalid"
    then some ErrorCode.auth_token_invalid
    else if s == "AuthTokenExpired"
    then some ErrorCode.auth_token_expired
    else if s == "SessionTokenInvalid"
    then some ErrorCode.session_token_invalid
    else if s == "SessionTokenExpired"
    then some ErrorCode.session_token_expired
    else if s == "HandshakeRequired"
    then some ErrorCode.handshake_required
    else if s == "CapabilityDenied"
    then some ErrorCode.capability_denied
    else if s == "RateLimited"
    then some ErrorCode.rate_limited
    else if s == "UnsupportedVersion"
    then some ErrorCode.unsupported_version
    else if s == "TopicNotFound"
    then some ErrorCode.topic_not_found
    else if s == "TopicAlreadySubscribed"
    then some ErrorCode.topic_already_subscribed
    else if s == "TopicNotSubscribed"
    then some ErrorCode.topic_not_subscribed
    else if s == "ControlEStopActive"
    then some ErrorCode.control_e_stop_active
    else if s == "ControlPublisherUnavailable"
    then some ErrorCode.control_publisher_unavailable
    else if s == "ControlInvalidTwist"
    then some ErrorCode.control_invalid_twist
    else if s == "TaskRunning"
    then some ErrorCode.task_running
    else if s == "TaskNotFound"
    then some ErrorCode.task_not_found
    else if s == "TaskInvalidState"
    then some ErrorCode.task_invalid_state
    else if s == "NavMarkerNotFound"
    then some ErrorCode.nav_marker_not_found
    else if s == "NavNoActiveMap"
    then some ErrorCode.nav_no_active_map
    else if s == "NavGoalUnreachable"
    then some ErrorCode.nav_goal_unreachable
    else if s == "NavLowBattery"
    then some ErrorCode.nav_low_battery
    else if s == "TransportFailure"
    then some ErrorCode.transport_failure
    else if s == "Timeout"
    then some ErrorCode.timeout
    else if s == "Cancelled"
    then some ErrorCode.cancelled
    else if s == "Disconnected"
    then some ErrorCode.disconnected
    else if s == "WouldDeadlock"
    then some ErrorCode.would_deadlock
    else if s == "InternalError"
    then some ErrorCode.internal_error
    else none

from_name-pascal_name : (c : ErrorCode) → from_name (pascal_name c) ≡ some c
unfolding from_name pascal_name
from_name-pascal_name ErrorCode.ok = refl
from_name-pascal_name ErrorCode.auth_failed = refl
from_name-pascal_name ErrorCode.auth_cn_not_allowed = refl
from_name-pascal_name ErrorCode.auth_serial_revoked = refl
from_name-pascal_name ErrorCode.auth_token_invalid = refl
from_name-pascal_name ErrorCode.auth_token_expired = refl
from_name-pascal_name ErrorCode.session_token_invalid = refl
from_name-pascal_name ErrorCode.session_token_expired = refl
from_name-pascal_name ErrorCode.handshake_required = refl
from_name-pascal_name ErrorCode.capability_denied = refl
from_name-pascal_name ErrorCode.rate_limited = refl
from_name-pascal_name ErrorCode.unsupported_version = refl
from_name-pascal_name ErrorCode.topic_not_found = refl
from_name-pascal_name ErrorCode.topic_already_subscribed = refl
from_name-pascal_name ErrorCode.topic_not_subscribed = refl
from_name-pascal_name ErrorCode.control_e_stop_active = refl
from_name-pascal_name ErrorCode.control_publisher_unavailable = refl
from_name-pascal_name ErrorCode.control_invalid_twist = refl
from_name-pascal_name ErrorCode.task_running = refl
from_name-pascal_name ErrorCode.task_not_found = refl
from_name-pascal_name ErrorCode.task_invalid_state = refl
from_name-pascal_name ErrorCode.nav_marker_not_found = refl
from_name-pascal_name ErrorCode.nav_no_active_map = refl
from_name-pascal_name ErrorCode.nav_goal_unreachable = refl
from_name-pascal_name ErrorCode.nav_low_battery = refl
from_name-pascal_name ErrorCode.transport_failure = refl
from_name-pascal_name ErrorCode.timeout = refl
from_name-pascal_name ErrorCode.cancelled = refl
from_name-pascal_name ErrorCode.disconnected = refl
from_name-pascal_name ErrorCode.would_deadlock = refl
from_name-pascal_name ErrorCode.internal_error = refl

-- Printed names tell the codes apart, so a log line or a diagnostics entry names one code only.
pub pascal_name-injective : (a b : ErrorCode) → pascal_name a ≡ pascal_name b → a ≡ b
pascal_name-injective a b h = cc (from_name-pascal_name a, from_name-pascal_name b, ap from_name h)
