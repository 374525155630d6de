-- ===== src/Robot/Orderly/Acks.antt =====
-- An answer to a subscribe keeps the ids in order.
use karo_x2_sdk_python.Prelude.{
  arith, ℕ, ◌+◌, not, ◌-◌, ◌≡◌, refl, Bool, true, false, ◌&&◌, if◌then◌else◌, Option, some, none,
  List, [], ◌<>◌, ltb, ◌==◌, nat_eq, ◌∙◌, String, lookup, erase, string_eq, ◌++◌,
}
use karo_x2_sdk_python.Error.{ErrorCode, ErrorCategory, classify}
use karo_x2_sdk_python.Connection.{ConnectionState, is_state}
use karo_x2_sdk_python.Topic.{DeliverySemantics}
use karo_x2_sdk_python.Subscription.{SubscriptionState, StreamStatusKind}
use karo_x2_sdk_python.Codec.Codes.{reject_reason_to_error}
use karo_x2_sdk_python.Codec.Decode.{DecodedResponse}
use karo_x2_sdk_python.Slot.{SubSlot}
use karo_x2_sdk_python.Slot.Deliver.{status, drain_pending_buffer}
use karo_x2_sdk_python.Robot.{Robot, end_slot, emit, put_slot, on_slots, change}
use karo_x2_sdk_python.Robot.Lifecycle.{on_transport_close}
use karo_x2_sdk_python.Robot.Subscribe.{send_subscribe}
use karo_x2_sdk_python.Robot.Ack.{
  finish_reconnect, maybe_finish_reconnect, end_and_finish, refused_as, refused, activate,
  telemetry_ack, event_rejected, event_ack, granted, started_or_resumed, is_replay_refused, resume,
  process_ack, ack_for_slot, ack_for_topic, handle_subscribe_ack,
}
use karo_x2_sdk_python.Robot.{Effect}
use karo_x2_sdk_python.Robot.Filed.Changes.{drained_active-IsSound, resume-IsSound}
use karo_x2_sdk_python.Robot.Filed.{SoundIn, SoundAt, Filed-lookup, SameBuffers-IsSound}
use karo_x2_sdk_python.Robot.Orderly.{seen, Below-erase, IsOrderly}
use karo_x2_sdk_python.Robot.Orderly.Quiet.{
  Quiet, Quiet-IsOrderly, end_slot-Quiet, emit-Quiet, transition-Quiet, seen-quiet, seen-on_slots,
}
use karo_x2_sdk_python.Robot.Orderly.Ending.{on_transport_close-Quiet, abort_to_fatal-Quiet}
use karo_x2_sdk_python.Robot.Orderly.Sending.{
  if-IsOrderly, send_subscribe-IsOrderly, put_slot-IsOrderly,
}

pub finish_reconnect-Quiet :
    (r : Robot) (reason action : String) → Quiet r (finish_reconnect r reason action)
unfolding finish_reconnect
finish_reconnect-Quiet r reason action =
    let over : Robot = record r {
      reconnect_attempt = 0;
      reconnect_total_count = r.reconnect_total_count + 1;
    } in
    let moved : Quiet over (finish_reconnect r reason action) =
      transition-Quiet over ConnectionState.ready
        (record (change reason ErrorCode.ok "") { last_action = action }) tt in
    record {
      next = moved.next;
      order = moved.order;
      told = moved.told;
      filed = moved.filed;
      calls = moved.calls;
      subs = moved.subs;
    }

maybe_finish_reconnect-IsOrderly :
    (r : Robot) (phase : Bool) → IsOrderly r → IsOrderly (maybe_finish_reconnect r phase)
unfolding maybe_finish_reconnect
maybe_finish_reconnect-IsOrderly r phase f =
    let counted : Robot = record r { reconnect_subs_pending = r.reconnect_subs_pending - 1 } in
    let counted_fresh : IsOrderly counted = record {
      order = f.order;
      calls = f.calls;
      subs = f.subs;
      told = f.told;
      filed = f.filed;
    } in
    let over : Robot = finish_reconnect counted "reconnect ok" "" in
    let last : Bool = counted.reconnect_subs_pending == 0 && not r.reconnect_estop_pending in
    if-IsOrderly (phase && ltb 0 r.reconnect_subs_pending) (if last then over else counted) r
      (if-IsOrderly last over counted
        (Quiet-IsOrderly (finish_reconnect-Quiet counted "reconnect ok" "") counted_fresh)
        counted_fresh)
      f

end_and_finish-IsOrderly :
    (r : Robot) (slot : SubSlot) (phase : Bool) (code : ErrorCode) (reason : String)
    → IsOrderly r
    → IsOrderly (end_and_finish r slot phase code reason)
unfolding end_and_finish
end_and_finish-IsOrderly r slot phase code reason h =
    maybe_finish_reconnect-IsOrderly (end_slot r slot code reason) phase
      (Quiet-IsOrderly (end_slot-Quiet r slot code reason) h)

refused_as-IsOrderly :
    (c : ErrorCategory) (r : Robot) (slot : SubSlot) (phase : Bool) (resp : DecodedResponse)
    → IsOrderly r
    → IsOrderly (refused_as c r slot phase resp)
unfolding refused_as
refused_as-IsOrderly ErrorCategory.fatal r slot phase resp h =
    Quiet-IsOrderly (abort_to_fatal-Quiet r resp.sdk_code ("subscribe fatal: " <> resp.message)) h
refused_as-IsOrderly ErrorCategory.transient r slot phase resp h =
    if-IsOrderly phase (on_transport_close r resp.sdk_code resp.message)
      (end_slot r slot resp.sdk_code resp.message)
      (Quiet-IsOrderly (on_transport_close-Quiet r resp.sdk_code resp.message) h)
      (Quiet-IsOrderly (end_slot-Quiet r slot resp.sdk_code resp.message) h)
refused_as-IsOrderly ErrorCategory.ok r slot phase resp h =
    end_and_finish-IsOrderly r slot phase resp.sdk_code resp.message h
refused_as-IsOrderly ErrorCategory.application r slot phase resp h =
    end_and_finish-IsOrderly r slot phase resp.sdk_code resp.message h
refused_as-IsOrderly ErrorCategory.local r slot phase resp h =
    end_and_finish-IsOrderly r slot phase resp.sdk_code resp.message h

activate-IsOrderly :
    (r : Robot) (slot : SubSlot) (phase : Bool) (kind : StreamStatusKind) (gap : Option ℕ) (k : ℕ)
    → IsOrderly r
    → SoundIn r.opts slot
    → IsOrderly (activate r slot phase kind gap k)
unfolding activate
activate-IsOrderly r slot phase kind gap k h sound =
    let active : SubSlot = record slot { state = SubscriptionState.active } in
    let drained = drain_pending_buffer active k r.clock_steady r.clock_ms in
    let done : SubSlot = record drained.0 { ever_active = true; is_reconnect_resume = false } in
    let told : List Effect =
      on_slots slot (status slot kind gap ErrorCode.ok "") ++ on_slots slot drained.1 in
    let quiet : seen told ≡ [] =
      seen-quiet (on_slots slot (status slot kind gap ErrorCode.ok "")) (on_slots slot drained.1)
        (seen-on_slots slot.ident drained.1)
      ∙ seen-on_slots slot.ident (status slot kind gap ErrorCode.ok "") in
    let done_sound : SoundIn r.opts done = λ roomy.
      SameBuffers-IsSound (ground arith)
        (drained_active-IsSound slot k r.clock_steady r.clock_ms (sound roomy)) in
    maybe_finish_reconnect-IsOrderly (emit (put_slot r done) told) phase (
      Quiet-IsOrderly (emit-Quiet (put_slot r done) told quiet)
        (put_slot-IsOrderly r done h done_sound))

event_rejected-IsOrderly :
    (r : Robot) (slot : SubSlot) (phase : Bool) (resp : DecodedResponse)
    → IsOrderly r
    → SoundIn r.opts slot
    → IsOrderly (event_rejected r slot phase resp)
unfolding event_rejected
event_rejected-IsOrderly r slot phase resp h sound =
    let fresh : SubSlot = record slot { last_seq = 0; fresh_retry_done = true } in
    let fresh_sound : SoundIn r.opts fresh =
      λ roomy. SameBuffers-IsSound (ground arith) (sound roomy) in
    let asked : Robot = send_subscribe (put_slot r fresh) fresh 0 in
    let over : Robot =
      end_and_finish r slot phase ErrorCode.internal_error
        "fresh subscribe rejected after replay fallback" in
    if-IsOrderly (is_replay_refused resp.sub_reject_reason)
      (if slot.fresh_retry_done then over else asked)
      (end_and_finish r slot phase (reject_reason_to_error resp.sub_reject_reason) resp.sub_message)
      (if-IsOrderly slot.fresh_retry_done over asked
        (end_and_finish-IsOrderly r slot phase ErrorCode.internal_error
          "fresh subscribe rejected after replay fallback" h)
        (send_subscribe-IsOrderly (put_slot r fresh) fresh 0
          (put_slot-IsOrderly r fresh h fresh_sound) fresh_sound))
      (end_and_finish-IsOrderly r slot phase (reject_reason_to_error resp.sub_reject_reason)
        resp.sub_message h)

granted-IsOrderly :
    (d : DeliverySemantics) (r : Robot) (slot : SubSlot) (phase : Bool) (resp : DecodedResponse)
    → IsOrderly r
    → SoundIn r.opts slot
    → IsOrderly (granted d r slot phase resp)
unfolding granted telemetry_ack event_ack
granted-IsOrderly DeliverySemantics.telemetry r slot phase resp h sound =
    let again : SubSlot = record slot { last_seq = 0 } in
    let kind : StreamStatusKind = started_or_resumed slot.is_reconnect_resume in
    if-IsOrderly resp.sub_accepted (activate r again phase kind none 0)
      (end_and_finish r slot phase (reject_reason_to_error resp.sub_reject_reason) resp.sub_message)
      (activate-IsOrderly r again phase kind none 0 h
        (λ roomy. SameBuffers-IsSound (ground arith) (sound roomy)))
      (end_and_finish-IsOrderly r slot phase (reject_reason_to_error resp.sub_reject_reason)
        resp.sub_message h)
granted-IsOrderly DeliverySemantics.event r slot phase resp h sound =
    let resumed = resume slot resp.sub_next_seq in
    if-IsOrderly resp.sub_accepted
      (activate r resumed.0 phase resumed.1 resumed.2 resp.sub_next_seq)
      (event_rejected r slot phase resp)
      (activate-IsOrderly r resumed.0 phase resumed.1 resumed.2 resp.sub_next_seq h
        (λ roomy. resume-IsSound slot resp.sub_next_seq (sound roomy)))
      (event_rejected-IsOrderly r slot phase resp h sound)

process_ack-IsOrderly :
    (r : Robot) (slot : SubSlot) (resp : DecodedResponse)
    → IsOrderly r
    → SoundIn r.opts slot
    → IsOrderly (process_ack r slot resp)
unfolding process_ack refused
process_ack-IsOrderly r slot resp h sound =
    let phase : Bool = is_state r.state ConnectionState.reconnecting in
    if-IsOrderly resp.success (granted slot.semantics r slot phase resp)
      (refused_as (classify resp.sdk_code) r slot phase resp)
      (granted-IsOrderly slot.semantics r slot phase resp h sound)
      (refused_as-IsOrderly (classify resp.sdk_code) r slot phase resp h)

ack_for_slot-IsOrderly :
    (o : Option SubSlot) (r : Robot) (resp : DecodedResponse)
    → IsOrderly r
    → SoundAt r.opts o
    → IsOrderly (ack_for_slot r o resp)
unfolding ack_for_slot
ack_for_slot-IsOrderly none r resp h sound = h
ack_for_slot-IsOrderly (some slot) r resp h sound =
    let answered : SubSlot = record slot { inflight_subscribe_request_id = 0 } in
    let free : SoundIn r.opts answered =
      λ roomy. SameBuffers-IsSound (ground arith) (sound roomy) in
    if-IsOrderly (slot.inflight_subscribe_request_id == resp.request_id)
      (process_ack (put_slot r answered) answered resp) r
      (process_ack-IsOrderly (put_slot r answered) answered resp
        (put_slot-IsOrderly r answered h free) free)
      h

ack_for_topic-IsOrderly :
    (o : Option String) (r : Robot) (resp : DecodedResponse)
    → IsOrderly r
    → IsOrderly (ack_for_topic r o resp)
unfolding ack_for_topic
ack_for_topic-IsOrderly none r resp h = Quiet-IsOrderly (emit-Quiet r _ refl) h
ack_for_topic-IsOrderly (some topic) r resp h =
    ack_for_slot-IsOrderly (lookup topic r.subs)
      (record r {
        inflight_sub = erase resp.request_id r.inflight_sub;
        sub_ack_timers = erase resp.request_id r.sub_ack_timers;
      })
      resp
      (record {
        order = h.order;
        calls = h.calls;
        subs = Below-erase r.next_request_id resp.request_id r.inflight_sub h.subs;
        told = h.told;
        filed = h.filed;
      })
      (Filed-lookup r.opts topic r.subs h.filed)

pub handle_subscribe_ack-IsOrderly :
    (r : Robot) (resp : DecodedResponse) → IsOrderly r → IsOrderly (handle_subscribe_ack r resp)
unfolding handle_subscribe_ack
handle_subscribe_ack-IsOrderly r resp h =
    ack_for_topic-IsOrderly (lookup resp.request_id r.inflight_sub) r resp h
