-- ===== src/Codec/Codes/Laws.antt =====
-- The error tables keep the meaning of the robot's codes.
use karo_x2_sdk_python.Prelude.{ℕ, nat_eq, ◌≡◌, ◌↔◌, arith, ◌≤◌, ◌⊎◌}
use karo_x2_sdk_python.Error.{ErrorCode, ErrorCategory, classify}
use karo_x2_sdk_python.Codec.Codes.{map_sdk_error_code, map_v1_error_code}

-- A session code is OK only where the robot sent SDK_ERROR_NONE.
pub map_sdk_error_code-ok : (n : ℕ) → (map_sdk_error_code n ≡ ErrorCode.ok) ↔ (n ≡ 0)
unfolding map_sdk_error_code
map_sdk_error_code-ok n = ground arith

-- A task or control code is OK only where the robot sent 0.
pub map_v1_error_code-ok : (n : ℕ) → (map_v1_error_code n ≡ ErrorCode.ok) ↔ (n ≡ 0)
unfolding map_v1_error_code
map_v1_error_code-ok n = ground arith

-- The session codes that end the connection for good: the authentication failures and a version
-- that the robot does not speak. No other number of the wire, known or not, does.
pub map_sdk_error_code-fatal :
    (n : ℕ)
    → (classify (map_sdk_error_code n) ≡ ErrorCategory.fatal) ↔ (((1 ≤ n) × (n ≤ 5)) ⊎ (n ≡ 22))
unfolding map_sdk_error_code classify
map_sdk_error_code-fatal n = ground arith
