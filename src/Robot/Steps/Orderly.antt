-- ===== src/Robot/Steps/Orderly.antt =====
-- Every step keeps the ids, the state changes and the subscriptions in order.
use mathlib.Core.Path.{subst}
use karo_x2_sdk_python.Prelude.{
  ℕ, ◌<◌, ◌≡◌, refl, Bool, true, false, Bool-cases, inl, inr, Option, some, none, [], ◌∷◌, lookup,
  nat_eq, string_eq, arith, ◌==◌, Dict,
}
use karo_x2_sdk_python.Connection.{ConnectionState}
use karo_x2_sdk_python.Options.{ConnectOptions}
use karo_x2_sdk_python.Slot.{SubSlot}
use karo_x2_sdk_python.Slot.Deliver.{worker_round}
use karo_x2_sdk_python.Robot.{Robot, Env, InflightRpc, put_slot, on_slots}
use karo_x2_sdk_python.Robot.New.{new_robot, set_connection_state_handler, set_log_handler}
use karo_x2_sdk_python.Robot.Reporting.{get_diagnostics}
use karo_x2_sdk_python.Robot.Steps.{
  Step, connects, closes, subscribes, unsubscribes, drops_facade, drives, stops, goes_to_marker,
  goes_to_pose, cancels_task, pauses_task, resumes_task, pings, cancels_call, reports,
  sets_log_handler, driven, estop_done, pinged, unsubscribed, opens, open_fails, peer_closes,
  crashes, crashes_unheard, shakes_hands, receives, transport_closes, times_out, ack_times_out,
  wakes, wakes_older, aborts, replays_estop, estop_replayed, unsubscribes_dropped, heart_turns,
  heart_pings, heart_answered, heart_misses, works, passes, start_robot, Reach, here, next,
  worker_on, worker_turn, tick, cancelled_call, cancel_caller,
}
use karo_x2_sdk_python.Robot.Filed.Changes.{AllFiled-slide}
use karo_x2_sdk_python.Robot.Link.{peer_closed, task_crashed}
use karo_x2_sdk_python.Robot.Filed.{SoundAt, Filed-lookup}
use karo_x2_sdk_python.Slot.Deliver.Sound.{worker_round-IsSound}
use karo_x2_sdk_python.Robot.Orderly.{IsOrderly, Ascends, Chain, IsTold, seen, Below, Below-insert}
use karo_x2_sdk_python.Robot.Orderly.Quiet.{Quiet-IsOrderly, emit-Quiet, seen-on_slots}
use karo_x2_sdk_python.Robot.Orderly.Ending.{
  close-Quiet, abort_to_fatal-Quiet, on_transport_close-Quiet,
}
use karo_x2_sdk_python.Robot.Orderly.Sending.{put_slot-IsOrderly}
use karo_x2_sdk_python.Robot.Orderly.Connecting.{
  connect-IsOrderly, connect_failed-Quiet, establish_crashed-Quiet,
}
use karo_x2_sdk_python.Robot.Orderly.Handshake.{connected-IsOrderly, handshake_end-IsOrderly}
use karo_x2_sdk_python.Robot.Orderly.Reconnecting.{
  wake_current-IsOrderly, wake_older-IsOrderly, do_estop_replay-IsOrderly,
  estop_replay_end-IsOrderly,
}
use karo_x2_sdk_python.Robot.Orderly.Heartbeat.{
  heartbeat_turn-IsOrderly, ping_round-IsOrderly, ping_alive-IsOrderly, ping_missed-IsOrderly,
}
use karo_x2_sdk_python.Robot.Orderly.Calls.{
  cmd_vel-IsOrderly, cmd_vel_end-IsOrderly, emergency_stop_rpc-IsOrderly,
  emergency_stop_end-IsOrderly,
}
use karo_x2_sdk_python.Robot.Orderly.Tasks.{
  create_navigation_task_to_marker-IsOrderly, create_navigation_task_to_pose-IsOrderly,
  cancel_task-IsOrderly, pause_task-IsOrderly, resume_task-IsOrderly, ping-IsOrderly,
  ping_end-IsOrderly,
}
use karo_x2_sdk_python.Robot.Orderly.Messages.{
  on_inbound_message-IsOrderly, rpc_timeout-IsOrderly, handle_subscribe_ack_timeout-IsOrderly,
  subscribe_internal-IsOrderly,
}
use karo_x2_sdk_python.Robot.Orderly.Unsubscribing.{
  unsubscribe-IsOrderly, unsubscribe_request-IsOrderly, unsubscribe_end-IsOrderly,
  finalize-IsOrderly,
}

worker_on-IsOrderly :
    (o : Option SubSlot) (r : Robot) → IsOrderly r → SoundAt r.opts o → IsOrderly (worker_on r o)
unfolding worker_on
worker_on-IsOrderly none r h sound = h
worker_on-IsOrderly (some slot) r h sound =
    let turned = worker_round slot in
    Quiet-IsOrderly
      (emit-Quiet (put_slot r turned.0) (on_slots slot turned.1)
        (seen-on_slots slot.ident turned.1))
      (put_slot-IsOrderly r turned.0 h (λ roomy. (worker_round-IsSound slot (sound roomy)).0))

-- A key that is in the dictionary is below the bound of its keys.
found-below :
    (n k : ℕ) (d : Dict ℕ InflightRpc) (v : InflightRpc) → Below n d → lookup k d ≡ some v → k < n
found-below n k [] v h found = cc
found-below n k ((j, w) ∷ d) v h found = elim (Bool-cases (j == k)) [
  | inl e ↦ ground arith
  | inr e ↦ found-below n k d v h.1 (grind arith)
]

cancelled_call-IsOrderly :
    (o : Option InflightRpc) (r : Robot) (rid : ℕ)
    → lookup rid r.inflight ≡ o
    → IsOrderly r
    → IsOrderly (cancelled_call r rid o)
unfolding cancelled_call
cancelled_call-IsOrderly none r rid found h = h
cancelled_call-IsOrderly (some entry) r rid found h = record {
  order = h.order;
  calls =
      Below-insert r.next_request_id rid (record entry { done = true }) r.inflight
        (found-below r.next_request_id rid r.inflight entry h.calls found) h.calls;
  subs = h.subs;
  told = h.told;
  filed = h.filed;
}

get_diagnostics-IsOrderly : (r : Robot) → IsOrderly r → IsOrderly (get_diagnostics r).0
unfolding get_diagnostics
get_diagnostics-IsOrderly r h = record {
  order = h.order;
  calls = h.calls;
  subs = h.subs;
  told = h.told;
  filed = λ roomy. AllFiled-slide r.clock_ms r.subs (h.filed roomy);
}

pub Step-IsOrderly : {r t : Robot} → Step r t → IsOrderly r → IsOrderly t
unfolding worker_turn cancel_caller tick set_log_handler peer_closed task_crashed
Step-IsOrderly {r} connects h = connect-IsOrderly r h
Step-IsOrderly {r} closes h = Quiet-IsOrderly (close-Quiet r) h
Step-IsOrderly {r} (subscribes topic desired_hz dispatcher on_status) h =
    subscribe_internal-IsOrderly r topic desired_hz dispatcher on_status h
Step-IsOrderly {r} (unsubscribes topic ident) h = unsubscribe-IsOrderly r topic ident h
Step-IsOrderly {r} (drops_facade ident loop_runs) h = finalize-IsOrderly r ident loop_runs h
Step-IsOrderly {r} (drives vx vy wz) h = cmd_vel-IsOrderly r vx vy wz h
Step-IsOrderly {r} (stops engage reason) h = emergency_stop_rpc-IsOrderly r engage reason h
Step-IsOrderly {r} (goes_to_marker marker_id) h =
    create_navigation_task_to_marker-IsOrderly r marker_id h
Step-IsOrderly {r} (goes_to_pose x y theta) h =
    create_navigation_task_to_pose-IsOrderly r x y theta h
Step-IsOrderly {r} (cancels_task task_id) h = cancel_task-IsOrderly r task_id h
Step-IsOrderly {r} (pauses_task task_id) h = pause_task-IsOrderly r task_id h
Step-IsOrderly {r} (resumes_task task_id) h = resume_task-IsOrderly r task_id h
Step-IsOrderly {r} pings h = ping-IsOrderly r h
Step-IsOrderly {r} (cancels_call rid) h =
    cancelled_call-IsOrderly (lookup rid r.inflight) r rid refl h
Step-IsOrderly {r} (sets_log_handler handler) h = record {
  order = h.order;
  calls = h.calls;
  subs = h.subs;
  told = h.told;
  filed = h.filed;
}
Step-IsOrderly {r} reports h = get_diagnostics-IsOrderly r h
Step-IsOrderly {r} (driven t0 o) h = cmd_vel_end-IsOrderly o r t0 h
Step-IsOrderly {r} (estop_done engage reason t0 o) h =
    emergency_stop_end-IsOrderly o r engage reason t0 h
Step-IsOrderly {r} (pinged t0 o) h = ping_end-IsOrderly o r t0 h
Step-IsOrderly {r} (unsubscribed topic ident o) h = unsubscribe_end-IsOrderly r topic ident o h
Step-IsOrderly {r} (opens is_reconnect at) h = connected-IsOrderly r is_reconnect h
Step-IsOrderly {r} (open_fails is_reconnect e at) h = Quiet-IsOrderly (connect_failed-Quiet r e) h
Step-IsOrderly {r} (crashes text at) h = Quiet-IsOrderly (establish_crashed-Quiet r text) h
Step-IsOrderly {r} (crashes_unheard text at) h = record {
  order = h.order;
  calls = h.calls;
  subs = h.subs;
  told = h.told;
  filed = h.filed;
}
Step-IsOrderly {r} (shakes_hands is_reconnect rid o at) h =
    handshake_end-IsOrderly o r is_reconnect h
Step-IsOrderly {r} peer_closes h = record {
  order = h.order;
  calls = h.calls;
  subs = h.subs;
  told = h.told;
  filed = h.filed;
}
Step-IsOrderly {r} (receives bytes) h = on_inbound_message-IsOrderly r bytes h
Step-IsOrderly {r} (transport_closes reason msg) h =
    Quiet-IsOrderly (on_transport_close-Quiet r reason msg) h
Step-IsOrderly {r} (times_out rid) h = rpc_timeout-IsOrderly r rid h
Step-IsOrderly {r} (ack_times_out rid topic) h =
    handle_subscribe_ack_timeout-IsOrderly r rid topic h
Step-IsOrderly {r} wakes h = wake_current-IsOrderly r h
Step-IsOrderly {r} wakes_older h = wake_older-IsOrderly r h
Step-IsOrderly {r} (aborts code message) h = Quiet-IsOrderly (abort_to_fatal-Quiet r code message) h
Step-IsOrderly {r} replays_estop h = do_estop_replay-IsOrderly r h
Step-IsOrderly {r} (estop_replayed o) h = estop_replay_end-IsOrderly o r h
Step-IsOrderly {r} (unsubscribes_dropped topic) h = unsubscribe_request-IsOrderly r topic false h
Step-IsOrderly {r} heart_turns h = heartbeat_turn-IsOrderly r h
Step-IsOrderly {r} heart_pings h = ping_round-IsOrderly r h
Step-IsOrderly {r} (heart_answered rid send_t is_answer) h =
    ping_alive-IsOrderly r rid send_t is_answer h
Step-IsOrderly {r} (heart_misses rid) h = ping_missed-IsOrderly r rid h
Step-IsOrderly {r} (works topic) h =
    worker_on-IsOrderly (lookup topic r.subs) r h (Filed-lookup r.opts topic r.subs h.filed)
Step-IsOrderly {r} (passes ms steady) h = record {
  order = h.order;
  calls = h.calls;
  subs = h.subs;
  told = h.told;
  filed = h.filed;
}

pub start_robot-IsOrderly :
    (handler : Bool) (env : Env) (opts : ConnectOptions) (clock_ms clock_steady : ℕ)
    → IsOrderly (start_robot handler env opts clock_ms clock_steady)
unfolding start_robot new_robot set_connection_state_handler
start_robot-IsOrderly true env opts clock_ms clock_steady = record {
  order = omega arith;
  calls = tt;
  subs = tt;
  told = refl;
  filed = λ roomy. tt;
}
start_robot-IsOrderly false env opts clock_ms clock_steady = record {
  order = omega arith;
  calls = tt;
  subs = tt;
  told = tt;
  filed = λ roomy. tt;
}

pub Reach-IsOrderly : {start r : Robot} → IsOrderly start → Reach start r → IsOrderly r
Reach-IsOrderly h here = h
Reach-IsOrderly h (next reached step) = Step-IsOrderly step (Reach-IsOrderly h reached)

-- Whatever happens to a new robot, in any order: the ids of the commands that it sent go up
-- strictly in the order of sending, from 1 on, so that no id is used twice, and they are below the
-- next id, as are the ids of the calls and of the subscribes that it waits for.
pub request_ids_ascend :
    (handler : Bool) (env : Env) (opts : ConnectOptions) (clock_ms clock_steady : ℕ) (r : Robot)
    → Reach (start_robot handler env opts clock_ms clock_steady) r
    → Ascends 1 r.next_request_id (seen r.trace)
      × Below r.next_request_id r.inflight
      × Below r.next_request_id r.inflight_sub
request_ids_ascend handler env opts clock_ms clock_steady r reached =
    let h : IsOrderly r =
      Reach-IsOrderly (start_robot-IsOrderly handler env opts clock_ms clock_steady) reached in
    (h.order, h.calls, h.subs)

-- Whatever happens to a new robot, in any order: where it has a handler for the changes of the
-- state, the changes that the handler was told lead from IDLE to the state that the robot is in.
-- Each begins where the one before ended and ends in another state; none ends in IDLE, one that
-- ends in CONNECTING begins in IDLE, and one that ends in RECONNECTING in TRANSIENT_FAILURE.
pub told_without_gap :
    (handler : Bool) (env : Env) (opts : ConnectOptions) (clock_ms clock_steady : ℕ) (r : Robot)
    → Reach (start_robot handler env opts clock_ms clock_steady) r
    → r.connection_state_handler ≡ true
    → Chain ConnectionState.idle (seen r.trace) r.state
told_without_gap handler env opts clock_ms clock_steady r reached handled =
    let h : IsOrderly r =
      Reach-IsOrderly (start_robot-IsOrderly handler env opts clock_ms clock_steady) reached in
    subst (λ b. IsTold b (seen r.trace) r.state) handled h.told
