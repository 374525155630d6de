-- ===== src/Robot/Link/Broken.antt =====
-- A websocket that breaks.
use karo_x2_sdk_python.Prelude.{
  String, ◌≡◌, refl, ap, ◌∙◌, ◌⊎◌, inl, inr, true, Bool-cases, List, [], ◌∷◌, ◌++◌, map, ◌==◌,
  nat_eq, if◌then◌else◌, arith,
}
use karo_x2_sdk_python.Error.{ErrorCode}
use karo_x2_sdk_python.Connection.{ConnectionState}
use karo_x2_sdk_python.Codec.Wire.{Bytes}
use karo_x2_sdk_python.Client.{
  WsClient, Message, ReadEnd, finished, connection_closed, read_failed, HandlerCall,
}
use karo_x2_sdk_python.Client.Reading.{IsListening, breaks, binaries, report, read_loop-calls}
use karo_x2_sdk_python.Robot.{Robot}
use karo_x2_sdk_python.Robot.Lifecycle.{is_final, on_transport_close}
use karo_x2_sdk_python.Robot.Lifecycle.Cleanup.{on_transport_close_lem}
use karo_x2_sdk_python.Robot.Inbound.{on_inbound_message}
use karo_x2_sdk_python.Robot.Link.{run_calls, read_task}

-- The robot after messages, one after the other.
unfoldable pub inbound_all : Robot → List Bytes → Robot
inbound_all r [] = r
inbound_all r (bytes ∷ messages) = inbound_all (on_inbound_message r bytes) messages

-- Over, or on the way to a reconnect.
abbrev pub IsDown : Robot → Type 0
IsDown r = (is_final r.state ≡ true) ⊎ (r.state ≡ ConnectionState.transient_failure)

on_transport_close-IsDown :
    (r : Robot) (reason : ErrorCode) (msg : String) → IsDown (on_transport_close r reason msg)
unfolding on_transport_close
on_transport_close-IsDown r reason msg = elim (Bool-cases (is_final r.state)) [
  | inl over ↦ rw over (inl over)
  | inr live ↦ inr (on_transport_close_lem r reason msg live).0
]

run_calls-messages :
    (r : Robot) (messages : List Bytes) (calls : List HandlerCall)
    → run_calls r (map HandlerCall.message messages ++ calls)
      ≡ run_calls (inbound_all r messages) calls
unfolding run_calls inbound_all
run_calls-messages r [] calls = refl
run_calls-messages r (bytes ∷ messages) calls =
    run_calls-messages (on_inbound_message r bytes) messages calls

read_task-runs :
    (r : Robot) (c : WsClient) (messages : List Message) (end : ReadEnd)
    → IsListening c
    → read_task r c messages end ≡ run_calls (inbound_all r (binaries messages)) (report end)
unfolding read_task
read_task-runs r c messages end l =
    ap (run_calls r) (read_loop-calls c messages end l)
    ∙ run_calls-messages r (binaries messages) (report end)

run_report-IsDown : (r : Robot) (end : ReadEnd) → breaks end ≡ 1 → IsDown (run_calls r (report end))
unfolding run_calls
run_report-IsDown r finished broken = absurd (omega (arith, broken))
run_report-IsDown r (connection_closed code msg) broken =
    on_transport_close-IsDown r
      (if code == 1000 then ErrorCode.cancelled else ErrorCode.transport_failure) msg
run_report-IsDown r (read_failed msg) broken =
    on_transport_close-IsDown r ErrorCode.transport_failure msg

-- Where an exception ends the iteration over the websocket of a client with both handlers set, the
-- connection object has first taken every binary message, in order, and nothing else, then the
-- report of the end, and is then down: FATAL or SHUTDOWN, or TRANSIENT_FAILURE, whatever state it
-- was in and whatever the messages were.
pub broken_link :
    (r : Robot) (c : WsClient) (messages : List Message) (end : ReadEnd)
    → IsListening c
    → breaks end ≡ 1
    → (read_task r c messages end ≡ run_calls (inbound_all r (binaries messages)) (report end))
      × IsDown (read_task r c messages end)
broken_link r c messages end l broken =
    let runs = read_task-runs r c messages end l in
    (runs, rw runs (run_report-IsDown (inbound_all r (binaries messages)) end broken))
