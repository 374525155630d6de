-- ===== src/Robot/Ack.antt =====
-- The answer to a subscribe, of karo_x2_sdk/_internal/robot_impl.py: `_handle_subscribe_ack` with
-- its `_maybe_finish_reconnect`.
pub mod Resume
pub mod Ready
pub mod Last
pub mod Missed
use karo_x2_sdk_python.Prelude.{
  ℕ, zero, suc, ◌+◌, ◌-◌, Bool, true, false, not, ◌||◌, ◌&&◌, String, ◌<>◌, str, List, [], ◌∷◌,
  ◌++◌, Option, some, none, lookup, insert, erase, if◌then◌else◌, ltb, ◌==◌, nat_eq, string_eq,
}
use karo_x2_sdk_python.Error.{ErrorCode, ErrorCategory, classify}
use karo_x2_sdk_python.Connection.{ConnectionState, is_state}
use karo_x2_sdk_python.Topic.{DeliverySemantics}
use karo_x2_sdk_python.Subscription.{SubscriptionState, StreamStatusKind}
use karo_x2_sdk_python.Diagnostics.{LogLevel}
use karo_x2_sdk_python.Codec.Codes.{SubscribeRejectReason, reject_reason_to_error}
use karo_x2_sdk_python.Codec.Decode.{DecodedResponse}
use karo_x2_sdk_python.Slot.{SubSlot, SlotEffect}
use karo_x2_sdk_python.Slot.Deliver.{status, drain_pending_buffer}
use karo_x2_sdk_python.Robot.{
  Robot, Effect, log, emit, transition, change, put_slot, end_slot, on_slots,
}
use karo_x2_sdk_python.Robot.Lifecycle.{on_transport_close, abort_to_fatal}
use karo_x2_sdk_python.Robot.Subscribe.{send_subscribe}

-- The reconnect is over: the counters, and READY.
unfoldable pub finish_reconnect : Robot → String → String → Robot
finish_reconnect r reason action =
    transition
      (record r { reconnect_attempt = 0; reconnect_total_count = r.reconnect_total_count + 1 })
      ConnectionState.ready (record (change reason ErrorCode.ok "") { last_action = action })

-- `_maybe_finish_reconnect`, where `phase` is `is_reconnect_phase`.
unfoldable pub maybe_finish_reconnect : Robot → Bool → Robot
unfolding finish_reconnect
maybe_finish_reconnect r phase =
    let counted : Robot = record r { reconnect_subs_pending = r.reconnect_subs_pending - 1 } in
    if phase && ltb 0 r.reconnect_subs_pending
    then (if counted.reconnect_subs_pending == 0 && not r.reconnect_estop_pending
        then finish_reconnect counted "reconnect ok" ""
        else counted)
    else r

-- The slot has ended; the reconnect may be over.
unfoldable pub end_and_finish : Robot → SubSlot → Bool → ErrorCode → String → Robot
end_and_finish r slot phase code reason = maybe_finish_reconnect (end_slot r slot code reason) phase

-- A response without `success`, by the category of its code.
unfoldable pub refused_as : ErrorCategory → Robot → SubSlot → Bool → DecodedResponse → Robot
unfolding end_and_finish
refused_as ErrorCategory.fatal r slot phase resp =
    abort_to_fatal r resp.sdk_code ("subscribe fatal: " <> resp.message)
refused_as ErrorCategory.transient r slot phase resp =
    if phase
    then on_transport_close r resp.sdk_code resp.message
    else end_slot r slot resp.sdk_code resp.message
refused_as _ r slot phase resp = end_and_finish r slot phase resp.sdk_code resp.message

unfoldable pub refused : Robot → SubSlot → Bool → DecodedResponse → Robot
unfolding refused_as
refused r slot phase resp = refused_as (classify resp.sdk_code) r slot phase resp

-- The slot goes on: the status, the buffer, and the flags.
unfoldable pub activate : Robot → SubSlot → Bool → StreamStatusKind → Option ℕ → ℕ → Robot
unfolding put_slot
activate r slot phase kind gap next_seq =
    let active : SubSlot = record slot { state = SubscriptionState.active } in
    let (drained, effects) = drain_pending_buffer active next_seq r.clock_steady r.clock_ms in
    let done : SubSlot = record drained { ever_active = true; is_reconnect_resume = false } in
    maybe_finish_reconnect
      (emit (put_slot r done)
        (on_slots slot (status slot kind gap ErrorCode.ok "") ++ on_slots slot effects))
      phase

abbrev pub started_or_resumed : Bool → StreamStatusKind
started_or_resumed true = StreamStatusKind.resumed
started_or_resumed false = StreamStatusKind.started

unfoldable pub telemetry_ack : Robot → SubSlot → Bool → DecodedResponse → Robot
unfolding end_and_finish activate
telemetry_ack r slot phase resp =
    if resp.sub_accepted
    then activate r (record slot { last_seq = 0 }) phase
        (started_or_resumed slot.is_reconnect_resume) none 0
    else end_and_finish r slot phase (reject_reason_to_error resp.sub_reject_reason)
        resp.sub_message

-- `resp.sub_reject_reason in (HISTORY_TOO_OLD, REPLAY_NOT_SUPPORTED)`
unfoldable pub is_replay_refused : SubscribeRejectReason → Bool
is_replay_refused SubscribeRejectReason.history_too_old = true
is_replay_refused SubscribeRejectReason.replay_not_supported = true
is_replay_refused _ = false

-- A rejected subscribe of an event topic: one fresh attempt without history.
unfoldable pub event_rejected : Robot → SubSlot → Bool → DecodedResponse → Robot
unfolding end_and_finish put_slot is_replay_refused
event_rejected r slot phase resp =
    let fresh : SubSlot = record slot { last_seq = 0; fresh_retry_done = true } in
    if is_replay_refused resp.sub_reject_reason
    then (if slot.fresh_retry_done
        then end_and_finish r slot phase ErrorCode.internal_error
            "fresh subscribe rejected after replay fallback"
        else send_subscribe (put_slot r fresh) fresh 0)
    else end_and_finish r slot phase (reject_reason_to_error resp.sub_reject_reason)
        resp.sub_message

-- How an accepted event stream goes on: the slot, the status and its gap, for the number `k` of the
-- next message.
unfoldable pub resume : SubSlot → ℕ → SubSlot × StreamStatusKind × Option ℕ
resume slot k =
    if slot.expected_resume_seq == 0
    then (record slot { last_seq = k - 1 }, started_or_resumed slot.is_reconnect_resume, none)
    else if k == slot.expected_resume_seq
    then (slot, StreamStatusKind.resumed, some 0)
    else if ltb slot.expected_resume_seq k
    then (
      record slot { last_seq = k - 1 },
      StreamStatusKind.resumed,
      some (k - slot.expected_resume_seq),
    )
    else (record slot { last_seq = k - 1 }, StreamStatusKind.resumed, none)

unfoldable pub event_ack : Robot → SubSlot → Bool → DecodedResponse → Robot
unfolding event_rejected activate
event_ack r slot phase resp =
    let (resumed, kind, gap) = resume slot resp.sub_next_seq in
    if resp.sub_accepted
    then activate r resumed phase kind gap resp.sub_next_seq
    else event_rejected r slot phase resp

unfoldable pub granted : DeliverySemantics → Robot → SubSlot → Bool → DecodedResponse → Robot
unfolding telemetry_ack event_ack
granted DeliverySemantics.telemetry r slot phase resp = telemetry_ack r slot phase resp
granted DeliverySemantics.event r slot phase resp = event_ack r slot phase resp

-- The ack of the slot that waits for it.
unfoldable pub process_ack : Robot → SubSlot → DecodedResponse → Robot
unfolding refused granted
process_ack r slot resp =
    let phase : Bool = is_state r.state ConnectionState.reconnecting in
    if resp.success then granted slot.semantics r slot phase resp else refused r slot phase resp

-- The slot of the topic, if it still waits for this ack.
unfoldable pub ack_for_slot : Robot → Option SubSlot → DecodedResponse → Robot
unfolding put_slot process_ack
ack_for_slot r none resp = r
ack_for_slot r (some slot) resp =
    let answered : SubSlot = record slot { inflight_subscribe_request_id = 0 } in
    if slot.inflight_subscribe_request_id == resp.request_id
    then process_ack (put_slot r answered) answered resp
    else r

unfoldable pub ack_for_topic : Robot → Option String → DecodedResponse → Robot
unfolding ack_for_slot emit
ack_for_topic r none resp =
    emit r (log LogLevel.debug ("SubscribeAck for unknown request_id=" <> str resp.request_id) ∷ [])
ack_for_topic r (some topic) resp =
    ack_for_slot
      (record r {
        inflight_sub = erase resp.request_id r.inflight_sub;
        sub_ack_timers = erase resp.request_id r.sub_ack_timers;
      })
      (lookup topic r.subs) resp

-- `_handle_subscribe_ack`
unfoldable pub handle_subscribe_ack : Robot → DecodedResponse → Robot
unfolding ack_for_topic
handle_subscribe_ack r resp = ack_for_topic r (lookup resp.request_id r.inflight_sub) resp
