-- ===== src/Codec/Codes.antt =====
-- karo_x2_sdk/_internal/proto_codec.py: the three tables from the robot's error codes to ErrorCode.
-- A wire enum is its number; negative numbers are not modelled (every table sends them to
-- INTERNAL_ERROR). The numbers behind the names of `_SDK_TO_PUBLIC` are those of
-- proto/sdk/common.proto.
pub mod Laws
use karo_x2_sdk_python.Prelude.{
  ℕ, Dict, lookup, List, [], ◌∷◌, Option, some, none, ◌==◌, nat_eq, if◌then◌else◌, ◌||◌, Bool,
  String,
}
use karo_x2_sdk_python.Error.{ErrorCode}

-- `d.get(key, default)`
abbrev pub get_or_default : {A : Type 0} → Dict ℕ A → ℕ → A → A
get_or_default d key default = elim (lookup key d) [ none ↦ default | some v ↦ v ]

-- `_SDK_TO_PUBLIC`
abbrev pub sdk_to_public : Dict ℕ ErrorCode
sdk_to_public =
    (0, ErrorCode.ok)
    ∷ (1, ErrorCode.auth_failed)
    ∷ (2, ErrorCode.auth_cn_not_allowed)
    ∷ (3, ErrorCode.auth_serial_revoked)
    ∷ (4, ErrorCode.auth_token_invalid)
    ∷ (5, ErrorCode.auth_token_expired)
    ∷ (10, ErrorCode.session_token_invalid)
    ∷ (11, ErrorCode.session_token_expired)
    ∷ (12, ErrorCode.handshake_required)
    ∷ (20, ErrorCode.capability_denied)
    ∷ (21, ErrorCode.rate_limited)
    ∷ (22, ErrorCode.unsupported_version)
    ∷ (30, ErrorCode.topic_not_found)
    ∷ (31, ErrorCode.topic_already_subscribed)
    ∷ (32, ErrorCode.topic_not_subscribed)
    ∷ (40, ErrorCode.disconnected)
    ∷ (41, ErrorCode.would_deadlock)
    ∷ (900, ErrorCode.control_e_stop_active)
    ∷ (901, ErrorCode.control_e_stop_active)
    ∷ (905, ErrorCode.task_running)
    ∷ (906, ErrorCode.control_e_stop_active)
    ∷ (907, ErrorCode.control_e_stop_active)
    ∷ (908, ErrorCode.control_e_stop_active)
    ∷ (902, ErrorCode.control_publisher_unavailable)
    ∷ (903, ErrorCode.control_publisher_unavailable)
    ∷ (904, ErrorCode.control_publisher_unavailable)
    ∷ (910, ErrorCode.control_publisher_unavailable)
    ∷ []

unfoldable pub map_sdk_error_code : ℕ → ErrorCode
map_sdk_error_code code = get_or_default sdk_to_public code ErrorCode.internal_error

unfoldable pub map_v1_error_code : ℕ → ErrorCode
map_v1_error_code code =
    if code == 0
    then ErrorCode.ok
    else if code == 201
    then ErrorCode.capability_denied
    else if code == 202
    then ErrorCode.auth_failed
    else if code == 203
    then ErrorCode.control_invalid_twist
    else if code == 204
    then ErrorCode.cancelled
    else if code == 205
    then ErrorCode.timeout
    else if code == 1200
    then ErrorCode.nav_marker_not_found
    else if code == 1201
    then ErrorCode.nav_no_active_map
    else if code == 1202 || code == 1208
    then ErrorCode.task_running
    else if code == 1203
    then ErrorCode.nav_low_battery
    else if code == 1204
    then ErrorCode.control_e_stop_active
    else if code == 1205 || code == 1206 || code == 1211 || code == 1212
    then ErrorCode.nav_goal_unreachable
    else if code == 1207
    then ErrorCode.timeout
    else if code == 1209
    then ErrorCode.task_not_found
    else if code == 1210
    then ErrorCode.control_publisher_unavailable
    else if code == 9300
    then ErrorCode.control_e_stop_active
    else if code == 9301
    then ErrorCode.control_publisher_unavailable
    else if code == 9302
    then ErrorCode.control_invalid_twist
    else ErrorCode.internal_error

-- The member of the IntEnum, with the number -1 as `unknown`.
pub data SubscribeRejectReason : Type 0 where
  accepted topic_not_found capability_denied already_subscribed invalid_hz : SubscribeRejectReason
  history_too_old replay_not_supported unknown : SubscribeRejectReason

unfoldable pub reject_reason_to_error : SubscribeRejectReason → ErrorCode
reject_reason_to_error SubscribeRejectReason.accepted = ErrorCode.ok
reject_reason_to_error SubscribeRejectReason.topic_not_found = ErrorCode.topic_not_found
reject_reason_to_error SubscribeRejectReason.capability_denied = ErrorCode.capability_denied
reject_reason_to_error SubscribeRejectReason.already_subscribed = ErrorCode.topic_already_subscribed
reject_reason_to_error SubscribeRejectReason.invalid_hz = ErrorCode.control_invalid_twist
reject_reason_to_error _ = ErrorCode.internal_error
