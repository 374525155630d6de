-- ===== src/Robot/Orderly/Tasks.antt =====
-- The tasks and the ping keep the ids in order.
use karo_x2_sdk_python.Prelude.{ℕ, ◌+◌, ◌≡◌, refl, Bool-cases, inl, inr, String}
use karo_x2_sdk_python.Connection.{ConnectionState, is_state}
use karo_x2_sdk_python.Topic.{FloatBits}
use karo_x2_sdk_python.Codec.Encode.{
  SdkCommand, encode_create_nav_task_marker, encode_create_nav_task_pose, encode_cancel_task,
  encode_pause_task, encode_resume_task, encode_ping,
}
use karo_x2_sdk_python.Robot.{Robot, take_rid}
use karo_x2_sdk_python.Robot.Rpc.{
  Outcome, answered, timed_out, raised, Started, waiting, failed, send_rpc,
}
use karo_x2_sdk_python.Robot.Tasks.{
  create_task_started, create_task, create_navigation_task_to_marker,
  create_navigation_task_to_pose, task_command_started, task_command, cancel_task, pause_task,
  resume_task, ping_end, ping_started, ping,
}
use karo_x2_sdk_python.Robot.Orderly.{IsOrderly}
use karo_x2_sdk_python.Robot.Orderly.Sending.{Taken, take_rid-Taken, send_rpc-IsOrderly}

create_task_started-IsOrderly :
    (s : Started) (r : Robot) (rid : ℕ) → IsOrderly r → IsOrderly (create_task_started r rid s).0
unfolding create_task_started
create_task_started-IsOrderly waiting r rid h = h
create_task_started-IsOrderly (failed e) r rid h = h

create_task-IsOrderly :
    (r : Robot) (command : SdkCommand)
    → IsOrderly r
    → command.request_id ≡ r.next_request_id
    → IsOrderly (create_task r command).0
unfolding create_task
create_task-IsOrderly r command h same =
    let rid : ℕ = r.next_request_id in
    let sent_off = send_rpc (take_rid r) rid "move.create_task" command in
    elim (Bool-cases (is_state r.state ConnectionState.ready)) [
      | inl e ↦ rw e (
          create_task_started-IsOrderly sent_off.1 sent_off.0 rid (
            send_rpc-IsOrderly (take_rid r) rid "move.create_task" command (take_rid-Taken r h)
              same))
      | inr e ↦ rw e h
    ]

pub create_navigation_task_to_marker-IsOrderly :
    (r : Robot) (marker_id : String)
    → IsOrderly r
    → IsOrderly (create_navigation_task_to_marker r marker_id).0
unfolding create_navigation_task_to_marker encode_create_nav_task_marker
create_navigation_task_to_marker-IsOrderly r marker_id h =
    create_task-IsOrderly r (encode_create_nav_task_marker r.next_request_id marker_id) h refl

pub create_navigation_task_to_pose-IsOrderly :
    (r : Robot) (x y theta : FloatBits)
    → IsOrderly r
    → IsOrderly (create_navigation_task_to_pose r x y theta).0
unfolding create_navigation_task_to_pose encode_create_nav_task_pose
create_navigation_task_to_pose-IsOrderly r x y theta h =
    create_task-IsOrderly r (encode_create_nav_task_pose r.next_request_id x y theta) h refl

task_command_started-IsOrderly :
    (s : Started) (r : Robot) (method : String) (rid : ℕ)
    → IsOrderly r
    → IsOrderly (task_command_started r method rid s).0
unfolding task_command_started
task_command_started-IsOrderly waiting r method rid h = h
task_command_started-IsOrderly (failed e) r method rid h = h

task_command-IsOrderly :
    (r : Robot) (method : String) (encoder : ℕ → String → SdkCommand) (task_id : String)
    → IsOrderly r
    → (encoder r.next_request_id task_id).request_id ≡ r.next_request_id
    → IsOrderly (task_command r method encoder task_id).0
unfolding task_command
task_command-IsOrderly r method encoder task_id h same =
    let rid : ℕ = r.next_request_id in
    let command : SdkCommand = encoder rid task_id in
    let sent_off = send_rpc (take_rid r) rid method command in
    elim (Bool-cases (is_state r.state ConnectionState.ready)) [
      | inl e ↦ rw e (
          task_command_started-IsOrderly sent_off.1 sent_off.0 method rid
            (send_rpc-IsOrderly (take_rid r) rid method command (take_rid-Taken r h) same))
      | inr e ↦ rw e h
    ]

pub cancel_task-IsOrderly :
    (r : Robot) (task_id : String) → IsOrderly r → IsOrderly (cancel_task r task_id).0
unfolding cancel_task encode_cancel_task
cancel_task-IsOrderly r task_id h =
    task_command-IsOrderly r "task_actions.cancel_task" encode_cancel_task task_id h refl

pub pause_task-IsOrderly :
    (r : Robot) (task_id : String) → IsOrderly r → IsOrderly (pause_task r task_id).0
unfolding pause_task encode_pause_task
pause_task-IsOrderly r task_id h =
    task_command-IsOrderly r "task_actions.pause_task" encode_pause_task task_id h refl

pub resume_task-IsOrderly :
    (r : Robot) (task_id : String) → IsOrderly r → IsOrderly (resume_task r task_id).0
unfolding resume_task encode_resume_task
resume_task-IsOrderly r task_id h =
    task_command-IsOrderly r "task_actions.resume_task" encode_resume_task task_id h refl

pub ping_end-IsOrderly :
    (o : Outcome) (r : Robot) (t0 : ℕ) → IsOrderly r → IsOrderly (ping_end r t0 o).0
unfolding ping_end
ping_end-IsOrderly (answered resp) r t0 h = record {
  order = h.order;
  calls = h.calls;
  subs = h.subs;
  told = h.told;
  filed = h.filed;
}
ping_end-IsOrderly timed_out r t0 h = record {
  order = h.order;
  calls = h.calls;
  subs = h.subs;
  told = h.told;
  filed = h.filed;
}
ping_end-IsOrderly (raised e) r t0 h = record {
  order = h.order;
  calls = h.calls;
  subs = h.subs;
  told = h.told;
  filed = h.filed;
}

ping_started-IsOrderly :
    (s : Started) (r : Robot) (rid : ℕ) → IsOrderly r → IsOrderly (ping_started r rid s).0
unfolding ping_started
ping_started-IsOrderly waiting r rid h = h
ping_started-IsOrderly (failed e) r rid h = ping_end-IsOrderly (raised e) r r.clock_steady h

pub ping-IsOrderly : (r : Robot) → IsOrderly r → IsOrderly (ping r).0
unfolding ping encode_ping
ping-IsOrderly r h =
    let rid : ℕ = r.next_request_id in
    let counted : Robot = record (take_rid r) {
      ping_stats = record r.ping_stats { count = r.ping_stats.count + 1 };
    } in
    let taken : Taken (take_rid r) rid = take_rid-Taken r h in
    let sent_off = send_rpc counted rid "ping" (encode_ping rid r.clock_ms) in
    elim (Bool-cases (is_state r.state ConnectionState.ready)) [
      | inl e ↦ rw e (
          ping_started-IsOrderly sent_off.1 sent_off.0 rid (
            send_rpc-IsOrderly counted rid "ping" (encode_ping rid r.clock_ms)
              (record {
                next = taken.next;
                order = taken.order;
                calls = taken.calls;
                subs = taken.subs;
                told = taken.told;
                filed = taken.filed;
              })
              refl))
      | inr e ↦ rw e h
    ]
