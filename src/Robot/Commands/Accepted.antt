-- ===== src/Robot/Commands/Accepted.antt =====
-- When a command is reported as accepted, and what it leaves behind.
use karo_x2_sdk_python.Prelude.{
  ℕ, ◌+◌, Bool, true, Option, some, none, ◌≡◌, ◌↔◌, arith, String, if◌then◌else◌,
}
use karo_x2_sdk_python.Error.{ErrorCode}
use karo_x2_sdk_python.Error.Laws.{eq_code_iff}
use karo_x2_sdk_python.Codec.Decode.{DecodedResponse}
use karo_x2_sdk_python.Robot.{Robot}
use karo_x2_sdk_python.Robot.Rpc.{Outcome, answered, timed_out, raised}
use karo_x2_sdk_python.Robot.Commands.{
  check_answer, cmd_vel_end, emergency_stop_end, cmd_vel_checked, estop_checked, timed, elapsed_ms,
}

-- The robot has confirmed the command: the session and the robot itself say OK.
abbrev pub Confirmed : Outcome → Type 0
Confirmed (answered resp) =
    (resp.success ≡ true) × (resp.has_rpc ≡ true) × (resp.rpc_code ≡ ErrorCode.ok)
Confirmed timed_out = ⊥
Confirmed (raised e) = ⊥

pub check_answer_iff :
    (resp : DecodedResponse) → (check_answer resp ≡ none) ↔ Confirmed (answered resp)
unfolding check_answer
check_answer_iff resp = (
  λ h. ground (arith, eq_code_iff resp.rpc_code ErrorCode.ok),
  λ c. ground (arith, eq_code_iff resp.rpc_code ErrorCode.ok),
)

cmd_vel_checked_lem :
    (r : Robot) (rtt_ms : ℕ) (o : Option (ErrorCode × String))
    → let (r', result) = cmd_vel_checked r rtt_ms o in
      ((result.accepted ≡ true) ↔ (o ≡ none))
      × (r'.cmd_vel_stats.error_count + (if result.accepted then 1 else 0)
          ≡ r.cmd_vel_stats.error_count + 1)
unfolding cmd_vel_checked
cmd_vel_checked_lem r rtt_ms none = ground arith
cmd_vel_checked_lem r rtt_ms (some (code, message)) = ground arith

-- The end of a `cmd_vel` that was sent: it reports the command as accepted exactly when the call was
-- answered with OK, of the session and of the robot, whatever the payload says, and counts every
-- other end as an error: a refusal, an answer without a payload, a timeout, and a transport that
-- broke.
pub cmd_vel_end-accepted :
    (r : Robot) (t0 : ℕ) (o : Outcome)
    → let (r', result) = cmd_vel_end r t0 o in
      ((result.accepted ≡ true) ↔ Confirmed o)
      × (r'.cmd_vel_stats.error_count + (if result.accepted then 1 else 0)
          ≡ r.cmd_vel_stats.error_count + 1)
unfolding cmd_vel_end
cmd_vel_end-accepted r t0 timed_out = ground arith
cmd_vel_end-accepted r t0 (raised e) = ground arith
cmd_vel_end-accepted r t0 (answered resp) =
    let iff = check_answer_iff resp in
    let rtt_ms : ℕ = elapsed_ms r t0 in
    let checked =
      cmd_vel_checked_lem (record r { cmd_vel_stats = timed r.cmd_vel_stats rtt_ms }) rtt_ms
        (check_answer resp) in
    ((λ h. iff.0 (checked.0.0 h), λ c. checked.0.1 (iff.1 c)), checked.1)

estop_checked_lem :
    (r : Robot) (engage : Bool) (reason : String) (o : Option (ErrorCode × String))
    → let (r', result) = estop_checked r engage reason o in
      ((result.ok ≡ true) ↔ (o ≡ none))
      × (r'.last_estop_intent ≡ (if result.ok then engage else r.last_estop_intent))
      × (r'.last_estop_reason ≡ (if result.ok then reason else r.last_estop_reason))
unfolding estop_checked
estop_checked_lem r engage reason none = ground arith
estop_checked_lem r engage reason (some (code, message)) = ground arith

-- The intent that a reconnect replays is that of the last emergency stop command that the robot has
-- confirmed: a confirmed one sets the intent and its reason, and any other end, such as a timeout,
-- leaves both as they were. The result is ok exactly when the robot has confirmed.
pub emergency_stop_end-intent :
    (r : Robot) (engage : Bool) (reason : String) (t0 : ℕ) (o : Outcome)
    → let (r', result) = emergency_stop_end r engage reason t0 o in
      ((result.ok ≡ true) ↔ Confirmed o)
      × (r'.last_estop_intent ≡ (if result.ok then engage else r.last_estop_intent))
      × (r'.last_estop_reason ≡ (if result.ok then reason else r.last_estop_reason))
unfolding emergency_stop_end
emergency_stop_end-intent r engage reason t0 timed_out = ground arith
emergency_stop_end-intent r engage reason t0 (raised e) = ground arith
emergency_stop_end-intent r engage reason t0 (answered resp) =
    let iff = check_answer_iff resp in
    let checked =
      estop_checked_lem
        (record r { emergency_stop_stats = timed r.emergency_stop_stats (elapsed_ms r t0) }) engage
        reason (check_answer resp) in
    ((λ h. iff.0 (checked.0.0 h), λ c. checked.0.1 (iff.1 c)), checked.1, checked.2)
