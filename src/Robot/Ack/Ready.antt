-- ===== src/Robot/Ack/Ready.antt =====
-- An ack makes the connection READY only at the end of a reconnect, and not before a pending replay
-- of an emergency stop.
use karo_x2_sdk_python.Prelude.{
  ℕ, ◌-◌, ◌≡◌, ◌≢◌, refl, sym, Bool, true, false, ◌&&◌, if◌then◌else◌, Option, some, none,
  Bool-cases, inl, inr, ltb, ◌==◌, nat_eq, ◌∙◌, String, lookup, erase, string_eq, ◌++◌,
}
use karo_x2_sdk_python.Error.{ErrorCode, ErrorCategory, classify}
use karo_x2_sdk_python.Connection.{ConnectionState, is_state}
use karo_x2_sdk_python.Topic.{DeliverySemantics}
use karo_x2_sdk_python.Subscription.{SubscriptionState, StreamStatusKind}
use karo_x2_sdk_python.Codec.Codes.{reject_reason_to_error}
use karo_x2_sdk_python.Codec.Decode.{DecodedResponse}
use karo_x2_sdk_python.Codec.Encode.{SdkCommand}
use karo_x2_sdk_python.Slot.{SubSlot}
use karo_x2_sdk_python.Slot.Deliver.{status, drain_pending_buffer}
use karo_x2_sdk_python.Robot.{Robot, end_slot, emit, put_slot, on_slots}
use karo_x2_sdk_python.Robot.Lifecycle.{is_final, on_transport_close, abort_to_fatal}
use karo_x2_sdk_python.Robot.Lifecycle.Cleanup.{on_transport_close_lem, abort_to_fatal-IsTornDown}
use karo_x2_sdk_python.Robot.Subscribe.{send_subscribe, after_encoding, request_slot}
use karo_x2_sdk_python.Robot.Ack.{
  maybe_finish_reconnect, end_and_finish, refused_as, refused, activate, telemetry_ack,
  event_rejected, event_ack, granted, started_or_resumed, is_replay_refused, resume, process_ack,
  ack_for_slot, ack_for_topic, handle_subscribe_ack,
}

-- The connection is not READY.
abbrev pub NotReady : Robot → Type 0
NotReady r = r.state ≢ ConnectionState.ready

ne_of : {s t : ConnectionState} → s ≡ t → t ≢ ConnectionState.ready → s ≢ ConnectionState.ready
ne_of e h k = h (sym e ∙ k)

pub on_transport_close-final :
    (r : Robot) (reason : ErrorCode) (msg : String)
    → is_final r.state ≡ true
    → on_transport_close r reason msg ≡ r
unfolding on_transport_close
on_transport_close-final r reason msg e = rw e refl

pub on_transport_close-NotReady :
    (r : Robot) (reason : ErrorCode) (msg : String)
    → NotReady r
    → NotReady (on_transport_close r reason msg)
on_transport_close-NotReady r reason msg h = elim (Bool-cases (is_final r.state)) [
  | inl e ↦ rw (on_transport_close-final r reason msg e) h
  | inr e ↦ ne_of (on_transport_close_lem r reason msg e).0 (λ k. cc)
]

pub abort_to_fatal-NotReady :
    (r : Robot) (code : ErrorCode) (message : String) → NotReady (abort_to_fatal r code message)
abort_to_fatal-NotReady r code message =
    ne_of (abort_to_fatal-IsTornDown r code message).0 (λ k. cc)

-- While the replay is pending the end of a subscription changes the counters only.
maybe_finish_reconnect-NotReady :
    (r : Robot) (phase : Bool)
    → r.reconnect_estop_pending ≡ true
    → NotReady r
    → NotReady (maybe_finish_reconnect r phase)
unfolding maybe_finish_reconnect
maybe_finish_reconnect-NotReady r phase pending h =
    elim (Bool-cases (phase && ltb 0 r.reconnect_subs_pending)) [
      | inl e ↦ elim (Bool-cases (r.reconnect_subs_pending - 1 == 0)) [
        | inl z ↦ rw (e, z, pending) h
        | inr z ↦ rw (e, z) h
      ]
      | inr e ↦ rw e h
    ]

-- Whichever way a test goes.
if-NotReady : (b : Bool) (x y : Robot) → NotReady x → NotReady y → NotReady (if b then x else y)
if-NotReady true x y hx hy = hx
if-NotReady false x y hx hy = hy

request_slot-NotReady :
    (r : Robot) (slot : SubSlot) (since : ℕ) (command : SdkCommand)
    → NotReady r
    → NotReady (request_slot r slot since command)
unfolding request_slot
request_slot-NotReady r slot since command h =
    if-NotReady _ _ _ h (on_transport_close-NotReady _ _ _ h)

after_encoding-NotReady :
    (o : Option String) (r : Robot) (slot : SubSlot) (since : ℕ) (command : SdkCommand)
    → NotReady r
    → NotReady (after_encoding o r slot since command)
unfolding after_encoding
after_encoding-NotReady (some text) r slot since command h = h
after_encoding-NotReady none r slot since command h = request_slot-NotReady r slot since command h

pub send_subscribe-NotReady :
    (r : Robot) (slot : SubSlot) (since : ℕ) → NotReady r → NotReady (send_subscribe r slot since)
unfolding send_subscribe
send_subscribe-NotReady r slot since h = after_encoding-NotReady _ r slot _ _ h

-- The robot is not READY, and the replay of an emergency stop is still to be confirmed.
abbrev pub Holds : Robot → Type 0
Holds r = (r.reconnect_estop_pending ≡ true) × NotReady r

end_and_finish-NotReady :
    (r : Robot) (slot : SubSlot) (phase : Bool) (code : ErrorCode) (reason : String)
    → Holds r
    → NotReady (end_and_finish r slot phase code reason)
unfolding end_and_finish end_slot
end_and_finish-NotReady r slot phase code reason h =
    maybe_finish_reconnect-NotReady (end_slot r slot code reason) phase h.0 h.1

refused_as-NotReady :
    (c : ErrorCategory) (r : Robot) (slot : SubSlot) (phase : Bool) (resp : DecodedResponse)
    → Holds r
    → NotReady (refused_as c r slot phase resp)
unfolding refused_as end_slot
refused_as-NotReady ErrorCategory.fatal r slot phase resp h = abort_to_fatal-NotReady _ _ _
refused_as-NotReady ErrorCategory.transient r slot phase resp h =
    if-NotReady phase (on_transport_close r resp.sdk_code resp.message)
      (end_slot r slot resp.sdk_code resp.message)
      (on_transport_close-NotReady r resp.sdk_code resp.message h.1) h.1
refused_as-NotReady ErrorCategory.ok r slot phase resp h =
    end_and_finish-NotReady r slot phase resp.sdk_code resp.message h
refused_as-NotReady ErrorCategory.application r slot phase resp h =
    end_and_finish-NotReady r slot phase resp.sdk_code resp.message h
refused_as-NotReady ErrorCategory.local r slot phase resp h =
    end_and_finish-NotReady r slot phase resp.sdk_code resp.message h

activate-NotReady :
    (r : Robot) (slot : SubSlot) (phase : Bool) (kind : StreamStatusKind) (gap : Option ℕ) (k : ℕ)
    → Holds r
    → NotReady (activate r slot phase kind gap k)
unfolding activate emit put_slot
activate-NotReady r slot phase kind gap k h =
    let active : SubSlot = record slot { state = SubscriptionState.active } in
    let drained = drain_pending_buffer active k r.clock_steady r.clock_ms in
    let done : SubSlot = record drained.0 { ever_active = true; is_reconnect_resume = false } in
    maybe_finish_reconnect-NotReady
      (emit (put_slot r done)
        (on_slots slot (status slot kind gap ErrorCode.ok "") ++ on_slots slot drained.1))
      phase h.0 h.1

event_rejected-NotReady :
    (r : Robot) (slot : SubSlot) (phase : Bool) (resp : DecodedResponse)
    → Holds r
    → NotReady (event_rejected r slot phase resp)
unfolding event_rejected put_slot
event_rejected-NotReady r slot phase resp h =
    let fresh : SubSlot = record slot { last_seq = 0; fresh_retry_done = true } in
    let asked : Robot = send_subscribe (put_slot r fresh) fresh 0 in
    let over : Robot =
      end_and_finish r slot phase ErrorCode.internal_error
        "fresh subscribe rejected after replay fallback" in
    if-NotReady (is_replay_refused resp.sub_reject_reason)
      (if slot.fresh_retry_done then over else asked)
      (end_and_finish r slot phase (reject_reason_to_error resp.sub_reject_reason) resp.sub_message)
      (if-NotReady slot.fresh_retry_done over asked
        (end_and_finish-NotReady r slot phase ErrorCode.internal_error
          "fresh subscribe rejected after replay fallback" h)
        (send_subscribe-NotReady (put_slot r fresh) fresh 0 h.1))
      (end_and_finish-NotReady r slot phase (reject_reason_to_error resp.sub_reject_reason)
        resp.sub_message h)

granted-NotReady :
    (d : DeliverySemantics) (r : Robot) (slot : SubSlot) (phase : Bool) (resp : DecodedResponse)
    → Holds r
    → NotReady (granted d r slot phase resp)
unfolding granted telemetry_ack event_ack
granted-NotReady DeliverySemantics.telemetry r slot phase resp h =
    let again : SubSlot = record slot { last_seq = 0 } in
    let kind : StreamStatusKind = started_or_resumed slot.is_reconnect_resume in
    if-NotReady resp.sub_accepted (activate r again phase kind none 0)
      (end_and_finish r slot phase (reject_reason_to_error resp.sub_reject_reason) resp.sub_message)
      (activate-NotReady r again phase kind none 0 h)
      (end_and_finish-NotReady r slot phase (reject_reason_to_error resp.sub_reject_reason)
        resp.sub_message h)
granted-NotReady DeliverySemantics.event r slot phase resp h =
    let resumed = resume slot resp.sub_next_seq in
    if-NotReady resp.sub_accepted (activate r resumed.0 phase resumed.1 resumed.2 resp.sub_next_seq)
      (event_rejected r slot phase resp)
      (activate-NotReady r resumed.0 phase resumed.1 resumed.2 resp.sub_next_seq h)
      (event_rejected-NotReady r slot phase resp h)

process_ack-NotReady :
    (r : Robot) (slot : SubSlot) (resp : DecodedResponse)
    → Holds r
    → NotReady (process_ack r slot resp)
unfolding process_ack refused
process_ack-NotReady r slot resp h =
    let phase : Bool = is_state r.state ConnectionState.reconnecting in
    if-NotReady resp.success (granted slot.semantics r slot phase resp)
      (refused_as (classify resp.sdk_code) r slot phase resp)
      (granted-NotReady slot.semantics r slot phase resp h)
      (refused_as-NotReady (classify resp.sdk_code) r slot phase resp h)

ack_for_slot-NotReady :
    (o : Option SubSlot) (r : Robot) (resp : DecodedResponse)
    → Holds r
    → NotReady (ack_for_slot r o resp)
unfolding ack_for_slot put_slot
ack_for_slot-NotReady none r resp h = h.1
ack_for_slot-NotReady (some slot) r resp h =
    let answered : SubSlot = record slot { inflight_subscribe_request_id = 0 } in
    if-NotReady (slot.inflight_subscribe_request_id == resp.request_id)
      (process_ack (put_slot r answered) answered resp) r
      (process_ack-NotReady (put_slot r answered) answered resp h) h.1

ack_for_topic-NotReady :
    (o : Option String) (r : Robot) (resp : DecodedResponse)
    → Holds r
    → NotReady (ack_for_topic r o resp)
unfolding ack_for_topic emit
ack_for_topic-NotReady none r resp h = h.1
ack_for_topic-NotReady (some topic) r resp h =
    ack_for_slot-NotReady (lookup topic r.subs)
      (record r {
        inflight_sub = erase resp.request_id r.inflight_sub;
        sub_ack_timers = erase resp.request_id r.sub_ack_timers;
      })
      resp h

-- No answer to a subscribe, whatever it says and whether it was expected, makes a connection READY
-- that is not READY and still has the replay of an emergency stop to confirm.
pub handle_subscribe_ack-NotReady :
    (r : Robot) (resp : DecodedResponse)
    → r.reconnect_estop_pending ≡ true
    → NotReady r
    → NotReady (handle_subscribe_ack r resp)
unfolding handle_subscribe_ack
handle_subscribe_ack-NotReady r resp pending h =
    ack_for_topic-NotReady (lookup resp.request_id r.inflight_sub) r resp (pending, h)
