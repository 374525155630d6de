-- ===== src/Robot/Orderly/Reconnecting.antt =====
-- A reconnect and its emergency stop keep the ids in order.
use karo_x2_sdk_python.Prelude.{
  ℕ, refl, true, false, not, ◌&&◌, if◌then◌else◌, Option, some, none, Bool-cases, inl, inr, List,
  [], ◌∷◌, ◌<>◌, ◌==◌, nat_eq,
}
use karo_x2_sdk_python.Error.{ErrorCode, eq_code}
use karo_x2_sdk_python.Connection.{ConnectionState, is_state, is_state_iff}
use karo_x2_sdk_python.Codec.Encode.{encode_emergency_stop}
use karo_x2_sdk_python.Robot.{Robot, take_rid, transition, change}
use karo_x2_sdk_python.Robot.Lifecycle.{on_transport_close}
use karo_x2_sdk_python.Robot.Rpc.{
  Outcome, answered, timed_out, raised, Started, waiting, failed, send_rpc,
}
use karo_x2_sdk_python.Robot.Ack.{finish_reconnect}
use karo_x2_sdk_python.Robot.Reconnect.{
  do_reconnect, awake, wake_current, wake_first, wake_older, replay_failed, replay_started,
  do_estop_replay, replay_ok, estop_replay_end,
}
use karo_x2_sdk_python.Robot.Orderly.{IsOrderly}
use karo_x2_sdk_python.Robot.Orderly.Quiet.{Quiet-IsOrderly, transition-Quiet}
use karo_x2_sdk_python.Robot.Orderly.Ending.{on_transport_close-Quiet}
use karo_x2_sdk_python.Robot.Orderly.Sending.{if-IsOrderly, take_rid-Taken, send_rpc-IsOrderly}
use karo_x2_sdk_python.Robot.Orderly.Acks.{finish_reconnect-Quiet}
use karo_x2_sdk_python.Robot.Orderly.Connecting.{establish-IsOrderly}

do_reconnect-IsOrderly :
    (r : Robot) (attempt : ℕ) → IsOrderly r → IsOrderly (do_reconnect r attempt)
unfolding do_reconnect
do_reconnect-IsOrderly r attempt h =
    let info = change "reconnecting" ErrorCode.ok "" in
    let counted : Robot = record r { reconnect_attempt = attempt } in
    let begun : Robot = transition counted ConnectionState.reconnecting info in
    let g : IsOrderly counted = record {
      order = h.order;
      calls = h.calls;
      subs = h.subs;
      told = h.told;
      filed = h.filed;
    } in
    elim (Bool-cases (is_state r.state ConnectionState.transient_failure)) [
      | inl e ↦ rw e (
          establish-IsOrderly true begun (
            Quiet-IsOrderly
              (transition-Quiet counted ConnectionState.reconnecting info
                ((is_state_iff r.state ConnectionState.transient_failure).0 e))
              g))
      | inr e ↦ rw e h
    ]

wake_task-IsOrderly :
    (o : Option ℕ) (r : Robot)
    → IsOrderly r
    → IsOrderly (elim o [ none ↦ r | some attempt ↦ do_reconnect (awake r) attempt ])
unfolding awake
wake_task-IsOrderly none r h = h
wake_task-IsOrderly (some attempt) r h =
    do_reconnect-IsOrderly (awake r) attempt
      (record { order = h.order; calls = h.calls; subs = h.subs; told = h.told; filed = h.filed })

pub wake_current-IsOrderly : (r : Robot) → IsOrderly r → IsOrderly (wake_current r)
unfolding wake_current
wake_current-IsOrderly r h = wake_task-IsOrderly r.reconnect_task r h

wake_first-IsOrderly : (tasks : List ℕ) (r : Robot) → IsOrderly r → IsOrderly (wake_first tasks r)
unfolding wake_first
wake_first-IsOrderly [] r h = h
wake_first-IsOrderly (attempt ∷ rest) r h =
    do_reconnect-IsOrderly
      (record r {
        older_tasks = rest;
        establish_handled =
            not (is_state r.state ConnectionState.transient_failure) && r.establish_handled;
      })
      attempt
      (record { order = h.order; calls = h.calls; subs = h.subs; told = h.told; filed = h.filed })

pub wake_older-IsOrderly : (r : Robot) → IsOrderly r → IsOrderly (wake_older r)
unfolding wake_older
wake_older-IsOrderly r h = wake_first-IsOrderly r.older_tasks r h

replay_failed-IsOrderly : (r : Robot) → IsOrderly r → IsOrderly (replay_failed r)
unfolding replay_failed
replay_failed-IsOrderly r h =
    let done : Robot = record r { reconnect_estop_pending = false } in
    Quiet-IsOrderly (on_transport_close-Quiet done ErrorCode.timeout "estop replay timeout")
      (record { order = h.order; calls = h.calls; subs = h.subs; told = h.told; filed = h.filed })

replay_started-IsOrderly : (s : Started) (r : Robot) → IsOrderly r → IsOrderly (replay_started r s)
unfolding replay_started
replay_started-IsOrderly waiting r h = h
replay_started-IsOrderly (failed e) r h = replay_failed-IsOrderly r h

pub do_estop_replay-IsOrderly : (r : Robot) → IsOrderly r → IsOrderly (do_estop_replay r)
unfolding do_estop_replay encode_emergency_stop
do_estop_replay-IsOrderly r h =
    let rid : ℕ = r.next_request_id in
    let command =
      encode_emergency_stop rid true (r.last_estop_reason <> " [auto-replayed after reconnect]") in
    let sent_off = send_rpc (take_rid r) rid "safety.emergency_stop.replay" command in
    replay_started-IsOrderly sent_off.1 sent_off.0 (
      send_rpc-IsOrderly (take_rid r) rid "safety.emergency_stop.replay" command
        (take_rid-Taken r h) refl)

pub estop_replay_end-IsOrderly :
    (o : Outcome) (r : Robot) → IsOrderly r → IsOrderly (estop_replay_end r o)
unfolding estop_replay_end
estop_replay_end-IsOrderly timed_out r h = replay_failed-IsOrderly r h
estop_replay_end-IsOrderly (raised e) r h = replay_failed-IsOrderly r h
estop_replay_end-IsOrderly (answered resp) r h =
    let done : Robot = record r { reconnect_estop_pending = false } in
    let code : ErrorCode =
      if resp.has_rpc && not (eq_code resp.rpc_code ErrorCode.ok)
      then resp.rpc_code
      else resp.sdk_code in
    let over : Robot = finish_reconnect done "reconnect ok (estop replayed)" "estop_replay_ok" in
    let g : IsOrderly done = record {
      order = h.order;
      calls = h.calls;
      subs = h.subs;
      told = h.told;
      filed = h.filed;
    } in
    if-IsOrderly (not (replay_ok resp)) (on_transport_close done code "estop replay failed")
      (if r.reconnect_subs_pending == 0 then over else done)
      (Quiet-IsOrderly (on_transport_close-Quiet done code "estop replay failed") g)
      (if-IsOrderly (r.reconnect_subs_pending == 0) over done
        (Quiet-IsOrderly
          (finish_reconnect-Quiet done "reconnect ok (estop replayed)" "estop_replay_ok") g)
        g)
