-- ===== src/Robot/Orderly/Messages.antt =====
-- What comes in, the timeouts, and the subscriptions of the application keep the ids in order.
use karo_x2_sdk_python.Prelude.{
  ℕ, ◌+◌, ◌≡◌, refl, Bool, if◌then◌else◌, Option, some, none, Bool-cases, inl, inr, List, [], ◌∷◌,
  ◌++◌, ◌<>◌, String, str, nat_eq, string_eq, lookup, contains, length,
}
use karo_x2_sdk_python.Error.{ErrorCode}
use karo_x2_sdk_python.Connection.{ConnectionState, is_state}
use karo_x2_sdk_python.Topic.{FloatBits}
use karo_x2_sdk_python.Subscription.{StreamStatusKind}
use karo_x2_sdk_python.Diagnostics.{LogLevel}
use karo_x2_sdk_python.Options.{is_empty}
use karo_x2_sdk_python.Codec.Wire.{Bytes}
use karo_x2_sdk_python.Codec.Decode.{
  DecodedResponse, DecodedTopicPush, decode_response, decode_topic_push,
}
use karo_x2_sdk_python.Slot.{SubSlot, SlotEffect, FrameDispatcher}
use karo_x2_sdk_python.Slot.Deliver.{status, push_to_slot}
use karo_x2_sdk_python.Robot.{
  Robot, Effect, log, emit, put_slot, closed_slot, on_slots, InflightRpc, set_timeout, set_result,
}
use karo_x2_sdk_python.Robot.Lifecycle.{on_transport_close}
use karo_x2_sdk_python.Robot.Rpc.{resolve, rpc_timeout, rpc_response}
use karo_x2_sdk_python.Robot.Subscribe.{
  new_slot, start_sub_worker, send_subscribe, subscribe_internal, handle_subscribe_ack_timeout,
}
use karo_x2_sdk_python.Robot.Ack.{handle_subscribe_ack}
use karo_x2_sdk_python.Robot.Inbound.{
  handle_sdk_response, push_for, handle_sdk_topic_push, reset_liveness, unknown_message,
  push_or_unknown, is_response, dispatch, on_inbound_message,
}
use karo_x2_sdk_python.Robot.Filed.Changes.{started-IsSound}
use karo_x2_sdk_python.Robot.Filed.{SoundIn, SoundAt, Filed-lookup}
use karo_x2_sdk_python.Slot.Deliver.Sound.{push_to_slot-IsSound}
use karo_x2_sdk_python.Robot.Orderly.{seen, Below-erase, IsOrderly}
use karo_x2_sdk_python.Robot.Orderly.Quiet.{
  Silent-Quiet, Quiet-IsOrderly, emit-Quiet, seen-quiet, seen-on_slots,
}
use karo_x2_sdk_python.Robot.Orderly.Ending.{on_transport_close-Quiet}
use karo_x2_sdk_python.Robot.Orderly.Sending.{
  if-IsOrderly, send_subscribe-IsOrderly, put_slot-IsOrderly,
}
use karo_x2_sdk_python.Robot.Orderly.Acks.{handle_subscribe_ack-IsOrderly}

seen-resolve : (o : Option InflightRpc) (e : Effect) → seen (e ∷ []) ≡ [] → seen (resolve o e) ≡ []
unfolding resolve
seen-resolve none e quiet = refl
seen-resolve (some entry) e quiet = elim (Bool-cases entry.done) [
  | inl x ↦ rw x refl
  | inr x ↦ rw x quiet
]

pub rpc_timeout-IsOrderly : (r : Robot) (rid : ℕ) → IsOrderly r → IsOrderly (rpc_timeout r rid)
unfolding rpc_timeout
rpc_timeout-IsOrderly r rid h =
    Quiet-IsOrderly
      (Silent-Quiet (record {
        next = refl;
        handler = refl;
        state = refl;
        filed = λ h. h;
        marks =
            (seen-quiet r.trace (resolve (lookup rid r.inflight) (set_timeout rid))
              (seen-resolve (lookup rid r.inflight) (set_timeout rid) refl));
        calls = λ n b. Below-erase n rid r.inflight b;
        subs = λ n b. b;
      }))
      h

rpc_response-IsOrderly :
    (r : Robot) (resp : DecodedResponse) → IsOrderly r → IsOrderly (rpc_response r resp)
unfolding rpc_response
rpc_response-IsOrderly r resp h =
    let rid : ℕ = resp.request_id in
    Quiet-IsOrderly
      (Silent-Quiet (record {
        next = refl;
        handler = refl;
        state = refl;
        filed = λ h. h;
        marks =
            (seen-quiet r.trace (resolve (lookup rid r.inflight) (set_result rid resp))
              (seen-resolve (lookup rid r.inflight) (set_result rid resp) refl));
        calls = λ n b. Below-erase n rid r.inflight b;
        subs = λ n b. b;
      }))
      h

handle_sdk_response-IsOrderly :
    (r : Robot) (resp : DecodedResponse) → IsOrderly r → IsOrderly (handle_sdk_response r resp)
unfolding handle_sdk_response
handle_sdk_response-IsOrderly r resp h =
    let line = log LogLevel.debug ("response for unknown request_id=" <> str resp.request_id) in
    let other : Robot =
      if contains resp.request_id r.inflight then rpc_response r resp else emit r (line ∷ []) in
    if-IsOrderly resp.has_subscribe (handle_subscribe_ack r resp) other
      (handle_subscribe_ack-IsOrderly r resp h)
      (if-IsOrderly (contains resp.request_id r.inflight) (rpc_response r resp) (emit r (line ∷ []))
        (rpc_response-IsOrderly r resp h) (Quiet-IsOrderly (emit-Quiet r (line ∷ []) refl) h))

push_for-IsOrderly :
    (o : Option SubSlot) (r : Robot) (push : DecodedTopicPush)
    → IsOrderly r
    → SoundAt r.opts o
    → IsOrderly (push_for r o push)
unfolding push_for
push_for-IsOrderly none r push h sound = Quiet-IsOrderly (emit-Quiet r _ refl) h
push_for-IsOrderly (some slot) r push h sound =
    let pushed = push_to_slot slot.state slot push r.clock_steady r.clock_ms in
    Quiet-IsOrderly
      (emit-Quiet (put_slot r pushed.0) (on_slots slot pushed.1)
        (seen-on_slots slot.ident pushed.1))
      (put_slot-IsOrderly r pushed.0 h
        (λ roomy. (push_to_slot-IsSound slot push r.clock_steady r.clock_ms (sound roomy)).0))

unknown_message-IsOrderly :
    (r : Robot) (bytes : Bytes) → IsOrderly r → IsOrderly (unknown_message r bytes)
unfolding unknown_message
unknown_message-IsOrderly r bytes h = Quiet-IsOrderly (emit-Quiet r _ refl) h

push_or_unknown-IsOrderly :
    (o : Option DecodedTopicPush) (r : Robot) (bytes : Bytes)
    → IsOrderly r
    → IsOrderly (push_or_unknown r bytes o)
unfolding push_or_unknown handle_sdk_topic_push
push_or_unknown-IsOrderly none r bytes h = unknown_message-IsOrderly r bytes h
push_or_unknown-IsOrderly (some push) r bytes h =
    if-IsOrderly (is_empty push.topic) (unknown_message r bytes) (handle_sdk_topic_push r push)
      (unknown_message-IsOrderly r bytes h)
      (push_for-IsOrderly (lookup push.topic r.subs) r push h
        (Filed-lookup r.opts push.topic r.subs h.filed))

dispatch-IsOrderly :
    (o : Option DecodedResponse) (r : Robot) (bytes : Bytes)
    → IsOrderly r
    → IsOrderly (dispatch r bytes o)
unfolding dispatch
dispatch-IsOrderly none r bytes h =
    push_or_unknown-IsOrderly (decode_topic_push r.env.parsers bytes) r bytes h
dispatch-IsOrderly (some resp) r bytes h =
    let push : Option DecodedTopicPush = decode_topic_push r.env.parsers bytes in
    if-IsOrderly (is_response resp) (handle_sdk_response r resp) (push_or_unknown r bytes push)
      (handle_sdk_response-IsOrderly r resp h) (push_or_unknown-IsOrderly push r bytes h)

pub on_inbound_message-IsOrderly :
    (r : Robot) (bytes : Bytes) → IsOrderly r → IsOrderly (on_inbound_message r bytes)
unfolding on_inbound_message reset_liveness
on_inbound_message-IsOrderly r bytes h =
    dispatch-IsOrderly (decode_response r.env.parsers bytes)
      (reset_liveness (record r { bytes_received = r.bytes_received + length bytes })) bytes
      (record { order = h.order; calls = h.calls; subs = h.subs; told = h.told; filed = h.filed })

pub handle_subscribe_ack_timeout-IsOrderly :
    (r : Robot) (rid : ℕ) (topic : String)
    → IsOrderly r
    → IsOrderly (handle_subscribe_ack_timeout r rid topic)
unfolding handle_subscribe_ack_timeout
handle_subscribe_ack_timeout-IsOrderly r rid topic h =
    let told : Robot = emit r (log LogLevel.warn ("SubscribeAck timeout for " <> topic) ∷ []) in
    if-IsOrderly (contains rid r.sub_ack_timers)
      (on_transport_close told ErrorCode.timeout "SubscribeAck timeout") r
      (Quiet-IsOrderly (on_transport_close-Quiet told ErrorCode.timeout "SubscribeAck timeout")
        (Quiet-IsOrderly (emit-Quiet r _ refl) h))
      h

pub subscribe_internal-IsOrderly :
    (r : Robot) (topic : String) (desired_hz : FloatBits) (dispatcher : FrameDispatcher)
    (on_status : Bool)
    → IsOrderly r
    → IsOrderly (subscribe_internal r topic desired_hz dispatcher on_status).0
unfolding subscribe_internal
subscribe_internal-IsOrderly r topic desired_hz dispatcher on_status h =
    let slot : SubSlot = new_slot r topic desired_hz dispatcher on_status in
    let counted : Robot = record r { next_ident = r.next_ident + 1 } in
    let started : SubSlot = start_sub_worker slot.callback_mode slot in
    let told : List SlotEffect =
      status slot StreamStatusKind.closed none ErrorCode.topic_already_subscribed
        "already subscribed" in
    let rejected : Robot = record counted {
      retired = closed_slot slot ErrorCode.topic_already_subscribed ∷ r.retired;
      trace = r.trace ++ on_slots slot told;
    } in
    let asked : Robot = send_subscribe (put_slot counted started) started 0 in
    let g : IsOrderly counted = record {
      order = h.order;
      calls = h.calls;
      subs = h.subs;
      told = h.told;
      filed = h.filed;
    } in
    let new : SoundIn r.opts started =
      λ roomy. started-IsSound r topic desired_hz dispatcher on_status roomy in
    let p : IsOrderly (put_slot counted started) = put_slot-IsOrderly counted started g new in
    if-IsOrderly (contains topic r.subs) rejected
      (if is_state r.state ConnectionState.ready then asked else put_slot counted started)
      (Quiet-IsOrderly
        (Silent-Quiet (record {
          next = refl;
          handler = refl;
          state = refl;
          filed = λ h. h;
          marks = seen-quiet r.trace (on_slots slot told) (seen-on_slots slot.ident told);
          calls = λ n b. b;
          subs = λ n b. b;
        }))
        h)
      (if-IsOrderly (is_state r.state ConnectionState.ready) asked (put_slot counted started)
        (send_subscribe-IsOrderly (put_slot counted started) started 0 p new) p)
