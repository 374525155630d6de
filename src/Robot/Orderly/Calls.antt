-- ===== src/Robot/Orderly/Calls.antt =====
-- The commands keep the ids in order.
use karo_x2_sdk_python.Prelude.{
  ℕ, ◌+◌, refl, Bool, not, Option, some, none, Bool-cases, inl, inr, String,
}
use karo_x2_sdk_python.Error.{ErrorCode, exception_str}
use karo_x2_sdk_python.Connection.{ConnectionState, is_state}
use karo_x2_sdk_python.Topic.{FloatBits}
use karo_x2_sdk_python.Codec.Encode.{SdkCommand, encode_cmd_vel, encode_emergency_stop}
use karo_x2_sdk_python.Rate.{try_acquire}
use karo_x2_sdk_python.Robot.{Robot, take_rid}
use karo_x2_sdk_python.Robot.Rpc.{
  Outcome, answered, timed_out, raised, Started, waiting, failed, send_rpc,
}
use karo_x2_sdk_python.Robot.Commands.{
  check_answer, cmd_vel_failed, cmd_vel_checked, cmd_vel_end, cmd_vel_started, cmd_vel_refused,
  cmd_vel, estop_failed, estop_checked, emergency_stop_end, estop_started, emergency_stop_rpc,
  begun_once, timed, elapsed_ms,
}
use karo_x2_sdk_python.Robot.Orderly.{IsOrderly}
use karo_x2_sdk_python.Robot.Orderly.Sending.{Taken, take_rid-Taken, send_rpc-IsOrderly}

cmd_vel_failed-IsOrderly :
    (r : Robot) (code : ErrorCode) (message : String) (rtt_ms : ℕ)
    → IsOrderly r
    → IsOrderly (cmd_vel_failed r code message rtt_ms).0
unfolding cmd_vel_failed
cmd_vel_failed-IsOrderly r code message rtt_ms h = record {
  order = h.order;
  calls = h.calls;
  subs = h.subs;
  told = h.told;
  filed = h.filed;
}

cmd_vel_checked-IsOrderly :
    (o : Option (ErrorCode × String)) (r : Robot) (rtt_ms : ℕ)
    → IsOrderly r
    → IsOrderly (cmd_vel_checked r rtt_ms o).0
unfolding cmd_vel_checked
cmd_vel_checked-IsOrderly (some failure) r rtt_ms h =
    cmd_vel_failed-IsOrderly r failure.0 failure.1 rtt_ms h
cmd_vel_checked-IsOrderly none r rtt_ms h = h

pub cmd_vel_end-IsOrderly :
    (o : Outcome) (r : Robot) (t0 : ℕ) → IsOrderly r → IsOrderly (cmd_vel_end r t0 o).0
unfolding cmd_vel_end
cmd_vel_end-IsOrderly (answered resp) r t0 h =
    let rtt_ms : ℕ = elapsed_ms r t0 in
    cmd_vel_checked-IsOrderly (check_answer resp)
      (record r { cmd_vel_stats = timed r.cmd_vel_stats rtt_ms }) rtt_ms
      (record { order = h.order; calls = h.calls; subs = h.subs; told = h.told; filed = h.filed })
cmd_vel_end-IsOrderly timed_out r t0 h =
    cmd_vel_failed-IsOrderly r ErrorCode.timeout "cmd_vel timeout" 0 h
cmd_vel_end-IsOrderly (raised e) r t0 h = cmd_vel_failed-IsOrderly r e.code (exception_str e) 0 h

cmd_vel_started-IsOrderly :
    (s : Started) (r : Robot) (rid : ℕ) → IsOrderly r → IsOrderly (cmd_vel_started r rid s).0
unfolding cmd_vel_started
cmd_vel_started-IsOrderly waiting r rid h = h
cmd_vel_started-IsOrderly (failed e) r rid h = cmd_vel_end-IsOrderly (raised e) r r.clock_steady h

pub cmd_vel-IsOrderly :
    (r : Robot) (vx vy wz : FloatBits) → IsOrderly r → IsOrderly (cmd_vel r vx vy wz).0
unfolding cmd_vel cmd_vel_refused encode_cmd_vel
cmd_vel-IsOrderly r vx vy wz h =
    let bucket = (try_acquire r.cmdvel_rate r.clock_steady).0 in
    let acquired : Bool = (try_acquire r.cmdvel_rate r.clock_steady).1 in
    let counted : Robot = record (take_rid r) {
      cmdvel_rate = bucket;
      cmd_vel_stats = begun_once r.cmd_vel_stats;
      cmdvel_seq = r.cmdvel_seq + 1;
    } in
    let limited : Robot = record r { cmdvel_rate = bucket } in
    let rid : ℕ = r.next_request_id in
    let command : SdkCommand = encode_cmd_vel rid vx vy wz (r.cmdvel_seq + 1) r.clock_ms in
    let taken : Taken (take_rid r) rid = take_rid-Taken r h in
    let sent_off = send_rpc counted rid "control.cmd_vel" command in
    elim (Bool-cases (not (is_state r.state ConnectionState.ready))) [
      | inl e ↦ rw e (cmd_vel_failed-IsOrderly r ErrorCode.disconnected "Robot is not Ready" 0 h)
      | inr e ↦ elim (Bool-cases (not acquired)) [
        | inl x ↦
            rw (e, x)
              (cmd_vel_failed-IsOrderly limited ErrorCode.rate_limited
                "client-side rate limit (20 Hz)" 0
                (record {
                  order = h.order;
                  calls = h.calls;
                  subs = h.subs;
                  told = h.told;
                  filed = h.filed;
                }))
        | inr x ↦
            rw (e, x)
              (cmd_vel_started-IsOrderly sent_off.1 sent_off.0 rid (
                send_rpc-IsOrderly counted rid "control.cmd_vel" command
                  (record {
                    next = taken.next;
                    order = taken.order;
                    calls = taken.calls;
                    subs = taken.subs;
                    told = taken.told;
                    filed = taken.filed;
                  })
                  refl))
      ]
    ]

estop_failed-IsOrderly :
    (r : Robot) (code : ErrorCode) (message : String)
    → IsOrderly r
    → IsOrderly (estop_failed r code message).0
unfolding estop_failed
estop_failed-IsOrderly r code message h = record {
  order = h.order;
  calls = h.calls;
  subs = h.subs;
  told = h.told;
  filed = h.filed;
}

estop_checked-IsOrderly :
    (o : Option (ErrorCode × String)) (r : Robot) (engage : Bool) (reason : String)
    → IsOrderly r
    → IsOrderly (estop_checked r engage reason o).0
unfolding estop_checked
estop_checked-IsOrderly (some failure) r engage reason h =
    estop_failed-IsOrderly r failure.0 failure.1 h
estop_checked-IsOrderly none r engage reason h = record {
  order = h.order;
  calls = h.calls;
  subs = h.subs;
  told = h.told;
  filed = h.filed;
}

pub emergency_stop_end-IsOrderly :
    (o : Outcome) (r : Robot) (engage : Bool) (reason : String) (t0 : ℕ)
    → IsOrderly r
    → IsOrderly (emergency_stop_end r engage reason t0 o).0
unfolding emergency_stop_end
emergency_stop_end-IsOrderly (answered resp) r engage reason t0 h =
    estop_checked-IsOrderly (check_answer resp)
      (record r { emergency_stop_stats = timed r.emergency_stop_stats (elapsed_ms r t0) }) engage
      reason
      (record { order = h.order; calls = h.calls; subs = h.subs; told = h.told; filed = h.filed })
emergency_stop_end-IsOrderly timed_out r engage reason t0 h =
    estop_failed-IsOrderly r ErrorCode.timeout "estop timeout" h
emergency_stop_end-IsOrderly (raised e) r engage reason t0 h =
    estop_failed-IsOrderly r e.code (exception_str e) h

estop_started-IsOrderly :
    (s : Started) (r : Robot) (engage : Bool) (reason : String) (rid : ℕ)
    → IsOrderly r
    → IsOrderly (estop_started r engage reason rid s).0
unfolding estop_started
estop_started-IsOrderly waiting r engage reason rid h = h
estop_started-IsOrderly (failed e) r engage reason rid h =
    emergency_stop_end-IsOrderly (raised e) r engage reason r.clock_steady h

pub emergency_stop_rpc-IsOrderly :
    (r : Robot) (engage : Bool) (reason : String)
    → IsOrderly r
    → IsOrderly (emergency_stop_rpc r engage reason).0
unfolding emergency_stop_rpc encode_emergency_stop
emergency_stop_rpc-IsOrderly r engage reason h =
    let rid : ℕ = r.next_request_id in
    let counted : Robot = record (take_rid r) {
      emergency_stop_stats = begun_once r.emergency_stop_stats;
    } in
    let taken : Taken (take_rid r) rid = take_rid-Taken r h in
    let command : SdkCommand = encode_emergency_stop rid engage reason in
    let sent_off = send_rpc counted rid "safety.emergency_stop" command in
    elim (Bool-cases (is_state r.state ConnectionState.ready)) [
      | inl e ↦ rw e (
          estop_started-IsOrderly sent_off.1 sent_off.0 engage reason rid (
            send_rpc-IsOrderly counted rid "safety.emergency_stop" command
              (record {
                next = taken.next;
                order = taken.order;
                calls = taken.calls;
                subs = taken.subs;
                told = taken.told;
                filed = taken.filed;
              })
              refl))
      | inr e ↦ rw e h
    ]
