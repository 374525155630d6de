-- ===== src/Robot/Orderly/Handshake.antt =====
-- The handshake, and what it leads to, keep the ids in order.
use karo_x2_sdk_python.Prelude.{
  ℕ, ◌≡◌, refl, Bool, true, false, not, ◌&&◌, if◌then◌else◌, Option, some, none, Bool-cases, inl,
  inr, List, [], ◌∷◌, ◌<>◌, String, lookup, ◌==◌, nat_eq, length, string_eq,
}
use karo_x2_sdk_python.Error.{ErrorCode, exception_str}
use karo_x2_sdk_python.Connection.{ConnectionState}
use karo_x2_sdk_python.Subscription.{SubscriptionState}
use karo_x2_sdk_python.Options.{is_empty}
use karo_x2_sdk_python.Codec.Decode.{DecodedResponse}
use karo_x2_sdk_python.Codec.Encode.{encode_handshake_cert, encode_handshake_token}
use karo_x2_sdk_python.Slot.{SubSlot, is_sub_state}
use karo_x2_sdk_python.Robot.{
  Robot, Certificate, der_form, malformed, nowhere, start_estop_replay, take_rid, transition,
  change,
}
use karo_x2_sdk_python.Robot.Rpc.{
  Outcome, answered, timed_out, raised, Started, waiting, failed, send_rpc,
}
use karo_x2_sdk_python.Robot.Subscribe.{send_subscribe, resubscribe_all_after_reconnect, topics_of}
use karo_x2_sdk_python.Robot.Ack.{finish_reconnect}
use karo_x2_sdk_python.Robot.Establish.{
  attempt_failed, Handshake, encoded, refused, certificate_command, handshake_command,
  handshake_started, send_handshake, connected, start_heartbeat, subscribe_pending,
  subscribe_all_pending, with_info, replay_if_pending, reconnected, accepted, handshake_end,
}
use karo_x2_sdk_python.Robot.Filed.Changes.{AllFiled-resolve}
use karo_x2_sdk_python.Robot.Filed.{SoundAt, Filed-lookup}
use karo_x2_sdk_python.Robot.Orderly.{IsOrderly}
use karo_x2_sdk_python.Robot.Orderly.Quiet.{
  Quiet-trans, Quiet-IsOrderly, transition-Quiet, emit-Quiet,
}
use karo_x2_sdk_python.Robot.Orderly.Ending.{abort_to_fatal-Quiet}
use karo_x2_sdk_python.Robot.Orderly.Sending.{
  if-IsOrderly, take_rid-Taken, Taken-IsOrderly, send_rpc-IsOrderly, send_subscribe-IsOrderly,
  resubscribe_topics-IsOrderly,
}
use karo_x2_sdk_python.Robot.Orderly.Acks.{finish_reconnect-Quiet}
use karo_x2_sdk_python.Robot.Orderly.Connecting.{
  over-Quiet, retry-Quiet, attempt_failed-Quiet, handshake_raised-Quiet,
}

handshake_started-IsOrderly :
    (s : Started) (r : Robot) (is_reconnect : Bool) (rid : ℕ)
    → IsOrderly r
    → IsOrderly (handshake_started r is_reconnect rid s)
unfolding handshake_started
handshake_started-IsOrderly waiting r is_reconnect rid h = record {
  order = h.order;
  calls = h.calls;
  subs = h.subs;
  told = h.told;
  filed = h.filed;
}
handshake_started-IsOrderly (failed e) r is_reconnect rid h =
    Quiet-IsOrderly (handshake_raised-Quiet r e) h

-- The command of a handshake has the id that was taken for it.
abbrev HasId : Handshake → ℕ → Type 0
HasId (encoded command) rid = command.request_id ≡ rid
HasId (refused text) rid = Unit

certificate_command-HasId :
    (c : Certificate) (r : Robot) → HasId (certificate_command r c) r.next_request_id
unfolding certificate_command encode_handshake_cert
certificate_command-HasId (malformed text) r = tt
certificate_command-HasId (der_form der) r = refl

handshake_command-HasId : (r : Robot) → HasId (handshake_command r) r.next_request_id
unfolding handshake_command encode_handshake_token
handshake_command-HasId r = elim (Bool-cases (is_empty r.opts.cert.cert_pem)) [
  | inl e ↦ rw e refl
  | inr e ↦ rw e (certificate_command-HasId (r.env.load_certificate r.opts.cert.cert_pem) r)
]

send_handshake-IsOrderly :
    (command : Handshake) (r : Robot) (is_reconnect : Bool)
    → IsOrderly r
    → HasId command r.next_request_id
    → IsOrderly (send_handshake r is_reconnect command)
unfolding send_handshake
send_handshake-IsOrderly (refused text) r is_reconnect h same =
    let taken : Robot = take_rid r in
    Quiet-IsOrderly
      (Quiet-trans (over-Quiet taken) (
        abort_to_fatal-Quiet (record taken { establishing = nowhere }) ErrorCode.auth_failed
          ("handshake encode: "
            <> exception_str (record { code = ErrorCode.auth_failed; message = text }))))
      (Taken-IsOrderly taken r.next_request_id (take_rid-Taken r h))
send_handshake-IsOrderly (encoded command) r is_reconnect h same =
    let rid : ℕ = r.next_request_id in
    let sent_off = send_rpc (take_rid r) rid "handshake" command in
    handshake_started-IsOrderly sent_off.1 sent_off.0 is_reconnect rid
      (send_rpc-IsOrderly (take_rid r) rid "handshake" command (take_rid-Taken r h) same)

pub connected-IsOrderly :
    (r : Robot) (is_reconnect : Bool) → IsOrderly r → IsOrderly (connected r is_reconnect)
unfolding connected
connected-IsOrderly r is_reconnect h =
    let opened : Robot = record r {
      ws = some true;
      bytes_sent = if is_reconnect then r.bytes_sent else 0;
      bytes_received = if is_reconnect then r.bytes_received else 0;
    } in
    send_handshake-IsOrderly (handshake_command opened) opened is_reconnect
      (record { order = h.order; calls = h.calls; subs = h.subs; told = h.told; filed = h.filed })
      (handshake_command-HasId opened)

subscribe_pending-IsOrderly :
    (o : Option SubSlot) (r : Robot)
    → IsOrderly r
    → SoundAt r.opts o
    → IsOrderly (subscribe_pending r o)
unfolding subscribe_pending
subscribe_pending-IsOrderly none r h sound = h
subscribe_pending-IsOrderly (some slot) r h sound =
    if-IsOrderly
      (is_sub_state slot.state SubscriptionState.pending && slot.inflight_subscribe_request_id == 0)
      (send_subscribe r slot 0) r (send_subscribe-IsOrderly r slot 0 h sound) h

subscribe_all_pending-IsOrderly :
    (topics : List String) (r : Robot) → IsOrderly r → IsOrderly (subscribe_all_pending r topics)
unfolding subscribe_all_pending
subscribe_all_pending-IsOrderly [] r h = h
subscribe_all_pending-IsOrderly (topic ∷ topics) r h =
    subscribe_all_pending-IsOrderly topics (subscribe_pending r (lookup topic r.subs)) (
      subscribe_pending-IsOrderly (lookup topic r.subs) r h
        (Filed-lookup r.opts topic r.subs h.filed))

replay_if_pending-IsOrderly :
    (b : Bool) (r : Robot) → IsOrderly r → IsOrderly (replay_if_pending b r)
unfolding replay_if_pending
replay_if_pending-IsOrderly false r h = h
replay_if_pending-IsOrderly true r h =
    Quiet-IsOrderly (emit-Quiet r (start_estop_replay ∷ []) refl) h

reconnected-IsOrderly : (r : Robot) → IsOrderly r → IsOrderly (reconnected r)
unfolding reconnected resubscribe_all_after_reconnect
reconnected-IsOrderly r h =
    let counted : Robot = record r {
      reconnect_subs_pending = length r.subs;
      reconnect_estop_pending = r.last_estop_intent;
    } in
    let again : Robot = resubscribe_all_after_reconnect counted in
    let g : IsOrderly counted = record {
      order = h.order;
      calls = h.calls;
      subs = h.subs;
      told = h.told;
      filed = h.filed;
    } in
    if-IsOrderly (length r.subs == 0 && not r.last_estop_intent)
      (finish_reconnect counted "reconnect ok" "")
      (replay_if_pending again.reconnect_estop_pending again)
      (Quiet-IsOrderly (finish_reconnect-Quiet counted "reconnect ok" "") g)
      (replay_if_pending-IsOrderly again.reconnect_estop_pending again
        (resubscribe_topics-IsOrderly (topics_of counted.subs) counted g))

accepted-IsOrderly : (b : Bool) (r : Robot) → IsOrderly r → IsOrderly (accepted r b)
unfolding accepted
accepted-IsOrderly false r h =
    let info = change "handshake ok" ErrorCode.ok "" in
    let ready : Robot = transition r ConnectionState.ready info in
    subscribe_all_pending-IsOrderly (topics_of ready.subs) ready
      (Quiet-IsOrderly (transition-Quiet r ConnectionState.ready info tt) h)
accepted-IsOrderly true r h = reconnected-IsOrderly r h

with_info-IsOrderly :
    (r : Robot) (resp : DecodedResponse) → IsOrderly r → IsOrderly (with_info r resp)
unfolding with_info start_heartbeat
with_info-IsOrderly r resp h = record {
  order = h.order;
  calls = h.calls;
  subs = h.subs;
  told = h.told;
  filed = λ roomy. AllFiled-resolve _ r.subs (h.filed roomy);
}

pub handshake_end-IsOrderly :
    (o : Outcome) (r : Robot) (is_reconnect : Bool)
    → IsOrderly r
    → IsOrderly (handshake_end r is_reconnect o)
unfolding handshake_end
handshake_end-IsOrderly timed_out r is_reconnect h =
    let over : Robot = record r { establishing = nowhere } in
    Quiet-IsOrderly
      (Quiet-trans (over-Quiet r) (retry-Quiet over ErrorCode.timeout "handshake timeout" "")) h
handshake_end-IsOrderly (raised e) r is_reconnect h = Quiet-IsOrderly (handshake_raised-Quiet r e) h
handshake_end-IsOrderly (answered resp) r is_reconnect h =
    let over : Robot = record r { establishing = nowhere } in
    let code : ErrorCode = if resp.success then ErrorCode.internal_error else resp.sdk_code in
    let text : String = "handshake rejected: " <> resp.message in
    if-IsOrderly (resp.success && resp.has_handshake) (accepted (with_info r resp) is_reconnect)
      (attempt_failed over code text "handshake failed" resp.message)
      (accepted-IsOrderly is_reconnect (with_info r resp) (with_info-IsOrderly r resp h))
      (Quiet-IsOrderly
        (Quiet-trans (over-Quiet r)
          (attempt_failed-Quiet over code text "handshake failed" resp.message))
        h)
