-- ===== src/Robot/Orderly/Connecting.antt =====
-- Connecting and reconnecting keep the ids in order.
use karo_x2_sdk_python.Prelude.{
  ◌+◌, refl, Bool, true, false, Bool-cases, inl, inr, ◌<>◌, String, nat_eq,
}
use karo_x2_sdk_python.Error.{ErrorCode, ErrorCategory, SdkException, classify, exception_str}
use karo_x2_sdk_python.Connection.{ConnectionState, is_state, is_state_iff}
use karo_x2_sdk_python.Robot.{Robot, nowhere, at_connect, transition, change}
use karo_x2_sdk_python.Robot.Lifecycle.{fail_transient, close_ws, schedule_reconnect}
use karo_x2_sdk_python.Robot.Establish.{
  establish, establish_crashed, connect, retry, failed_as, attempt_failed, connect_failed_as,
  connect_failed, handshake_raised,
}
use karo_x2_sdk_python.Robot.Orderly.{IsOrderly}
use karo_x2_sdk_python.Robot.Orderly.Quiet.{Quiet, Quiet-trans, Quiet-IsOrderly, transition-Quiet}
use karo_x2_sdk_python.Robot.Orderly.Ending.{
  fail_transient-Quiet, close_ws-Quiet, schedule_reconnect-Quiet, abort_to_fatal-Quiet,
}
use karo_x2_sdk_python.Robot.Orderly.Sending.{if-IsOrderly}

pub establish-IsOrderly :
    (is_reconnect : Bool) (r : Robot) → IsOrderly r → IsOrderly (establish r is_reconnect)
unfolding establish
establish-IsOrderly false r h =
    let info = change "connect()" ErrorCode.ok "" in
    elim (Bool-cases (is_state r.state ConnectionState.idle)) [
      | inl e ↦
          let g : IsOrderly (transition r ConnectionState.connecting info) =
            Quiet-IsOrderly
              (transition-Quiet r ConnectionState.connecting info
                ((is_state_iff r.state ConnectionState.idle).0 e))
              h in
          rw e (record {
            order = g.order;
            calls = g.calls;
            subs = g.subs;
            told = g.told;
            filed = g.filed;
          })
      | inr e ↦ rw e h
    ]
establish-IsOrderly true r h =
    if-IsOrderly (is_state r.state ConnectionState.reconnecting)
      (record r { establishing = at_connect true }) r
      (record { order = h.order; calls = h.calls; subs = h.subs; told = h.told; filed = h.filed }) h

pub connect-IsOrderly : (r : Robot) → IsOrderly r → IsOrderly (connect r)
unfolding connect
connect-IsOrderly r h =
    let first : Robot = record r { connect_invoked = true } in
    if-IsOrderly r.connect_invoked r (establish first false) h (
      establish-IsOrderly false first (record {
        order = h.order;
        calls = h.calls;
        subs = h.subs;
        told = h.told;
        filed = h.filed;
      }))

pub retry-Quiet :
    (r : Robot) (code : ErrorCode) (reason message : String) → Quiet r (retry r code reason message)
unfolding retry
retry-Quiet r code reason message =
    let told : Robot = fail_transient r reason code message in
    Quiet-trans (fail_transient-Quiet r reason code message) (
      Quiet-trans (close_ws-Quiet told)
        (schedule_reconnect-Quiet (close_ws told) (r.reconnect_attempt + 1)))

failed_as-Quiet :
    (c : ErrorCategory) (r : Robot) (code : ErrorCode) (fatal_message reason message : String)
    → Quiet r (failed_as c r code fatal_message reason message)
unfolding failed_as
failed_as-Quiet ErrorCategory.fatal r code f reason message = abort_to_fatal-Quiet r code f
failed_as-Quiet ErrorCategory.ok r code f reason message = retry-Quiet r code reason message
failed_as-Quiet ErrorCategory.transient r code f reason message = retry-Quiet r code reason message
failed_as-Quiet ErrorCategory.application r code f reason message =
    retry-Quiet r code reason message
failed_as-Quiet ErrorCategory.local r code f reason message = retry-Quiet r code reason message

pub attempt_failed-Quiet :
    (r : Robot) (code : ErrorCode) (fatal_message reason message : String)
    → Quiet r (attempt_failed r code fatal_message reason message)
unfolding attempt_failed
attempt_failed-Quiet r code fatal_message reason message =
    failed_as-Quiet (classify code) r code fatal_message reason message

pub over-Quiet : (r : Robot) → Quiet r (record r { establishing = nowhere })
over-Quiet r = record {
  next = refl;
  order = λ n h. h;
  told = λ h. h;
  filed = λ h. h;
  calls = λ n h. h;
  subs = λ n h. h;
}

again-Quiet :
    (r : Robot) (e : SdkException)
    → Quiet r (
        schedule_reconnect
          (fail_transient r "ws connect failed" e.code (exception_str e))
          (r.reconnect_attempt + 1))
again-Quiet r e =
    Quiet-trans (fail_transient-Quiet r "ws connect failed" e.code (exception_str e)) (
      schedule_reconnect-Quiet (fail_transient r "ws connect failed" e.code (exception_str e))
        (r.reconnect_attempt + 1))

connect_failed_as-Quiet :
    (c : ErrorCategory) (r : Robot) (e : SdkException) → Quiet r (connect_failed_as c r e)
unfolding connect_failed_as
connect_failed_as-Quiet ErrorCategory.fatal r e =
    abort_to_fatal-Quiet r e.code ("ws connect fatal: " <> exception_str e)
connect_failed_as-Quiet ErrorCategory.ok r e = again-Quiet r e
connect_failed_as-Quiet ErrorCategory.transient r e = again-Quiet r e
connect_failed_as-Quiet ErrorCategory.application r e = again-Quiet r e
connect_failed_as-Quiet ErrorCategory.local r e = again-Quiet r e

pub connect_failed-Quiet : (r : Robot) (e : SdkException) → Quiet r (connect_failed r e)
unfolding connect_failed
connect_failed-Quiet r e =
    Quiet-trans (over-Quiet r)
      (connect_failed_as-Quiet (classify e.code) (record r { establishing = nowhere }) e)

pub establish_crashed-Quiet : (r : Robot) (crash : String) → Quiet r (establish_crashed r crash)
unfolding establish_crashed
establish_crashed-Quiet r crash = Quiet-trans (over-Quiet r) (
    abort_to_fatal-Quiet (record r { establishing = nowhere }) ErrorCode.internal_error
      ("establish task crashed: " <> crash))

pub handshake_raised-Quiet : (r : Robot) (e : SdkException) → Quiet r (handshake_raised r e)
unfolding handshake_raised
handshake_raised-Quiet r e = Quiet-trans (over-Quiet r) (
    attempt_failed-Quiet (record r { establishing = nowhere }) e.code
      ("handshake error: " <> exception_str e) "handshake transport failed" (exception_str e))
