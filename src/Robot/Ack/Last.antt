-- ===== src/Robot/Ack/Last.antt =====
-- The answer to the last subscribe that a reconnect waits for.
use karo_x2_sdk_python.Prelude.{
  ℕ, ◌+◌, ◌≤◌, ◌≡◌, refl, ap, ◌∙◌, true, false, String, [], ◌++◌, List, Option, some, arith, lookup,
  erase, string_eq, nat_eq, nat_beq_iff, ◌==◌, lookup-insert, Dict, Bool-cases, inl, inr,
}
use mathlib.Core.Path.{subst}
use karo_x2_sdk_python.Error.{ErrorCode}
use karo_x2_sdk_python.Connection.{ConnectionState, StateChangeInfo, is_state}
use karo_x2_sdk_python.Topic.{DeliverySemantics}
use karo_x2_sdk_python.Subscription.{SubscriptionState, StreamStatusKind}
use karo_x2_sdk_python.Codec.Decode.{DecodedResponse}
use karo_x2_sdk_python.Slot.{SubSlot}
use karo_x2_sdk_python.Slot.Deliver.{status}
use karo_x2_sdk_python.Slot.Deliver.Sound.{drain_pending_buffer-empty}
use karo_x2_sdk_python.Robot.{Robot, Effect, put_slot, on_slots, emit, transition}
use karo_x2_sdk_python.Robot.Lifecycle.Links.{transition-state}
use karo_x2_sdk_python.Robot.Ack.{
  finish_reconnect, maybe_finish_reconnect, activate, resume, event_ack, granted, process_ack,
  ack_for_slot, ack_for_topic, handle_subscribe_ack,
}

-- The slot of an event stream that goes on before the message `k`.
abbrev pub GoesOn : SubSlot → ℕ → Type 0
GoesOn slot k = (slot.state ≡ SubscriptionState.active) × (slot.last_seq + 1 ≡ k)

pub same_text : (text : String) → (text == text) ≡ true
same_text text = (string_eq.equals_iff text text).1 refl

transition-subs :
    (r : Robot) (new : ConnectionState) (info : StateChangeInfo)
    → ((transition r new info).subs ≡ r.subs)
      × ((transition r new info).inflight_sub ≡ r.inflight_sub)
unfolding transition
transition-subs r new info = elim (Bool-cases (is_state r.state new)) [
  | inl e ↦ rw e (refl, refl)
  | inr e ↦ rw e (refl, refl)
]

pub finish_reconnect-Ready :
    (r : Robot) (reason action : String)
    → ((finish_reconnect r reason action).state ≡ ConnectionState.ready)
      × ((finish_reconnect r reason action).subs ≡ r.subs)
      × ((finish_reconnect r reason action).inflight_sub ≡ r.inflight_sub)
unfolding finish_reconnect
finish_reconnect-Ready r reason action =
    let kept = transition-subs _ ConnectionState.ready _ in
    (transition-state _ ConnectionState.ready _, kept.0, kept.1)

last_one-Ready :
    (r : Robot)
    → r.reconnect_subs_pending ≡ 1
    → r.reconnect_estop_pending ≡ false
    → ((maybe_finish_reconnect r true).state ≡ ConnectionState.ready)
      × ((maybe_finish_reconnect r true).subs ≡ r.subs)
unfolding maybe_finish_reconnect
last_one-Ready r last calm =
    let counted : Robot = record r {
      reconnect_subs_pending = 0;
      reconnect_estop_pending = false;
    } in
    let over = finish_reconnect-Ready counted "reconnect ok" "" in rw (last, calm) (over.0, over.1)

-- The slot that was put stands under its topic.
pub lookup-put : (r : Robot) (slot : SubSlot) → lookup slot.topic (put_slot r slot).subs ≡ some slot
unfolding put_slot
lookup-put r slot = lookup-insert slot.topic slot.topic slot r.subs ∙ rw (same_text slot.topic) refl

activate-last :
    (r : Robot) (slot : SubSlot) (kind : StreamStatusKind) (gap : Option ℕ) (k : ℕ)
    → slot.pending_buffer ≡ []
    → r.reconnect_subs_pending ≡ 1
    → r.reconnect_estop_pending ≡ false
    → let done = activate r slot true kind gap k in
      (done.state ≡ ConnectionState.ready)
      × (lookup slot.topic done.subs
          ≡ some (record slot {
            state = SubscriptionState.active;
            ever_active = true;
            is_reconnect_resume = false;
          }))
unfolding activate emit
activate-last r slot kind gap k empty last calm =
    let active : SubSlot = record slot { state = SubscriptionState.active } in
    let done : SubSlot = record active { ever_active = true; is_reconnect_resume = false } in
    let told : List Effect = on_slots slot (status slot kind gap ErrorCode.ok "") ++ [] in
    let over : Robot = emit (put_slot r done) told in
    let drained = drain_pending_buffer-empty active k r.clock_steady r.clock_ms empty in
    let ready = last_one-Ready over last calm in
    rw drained
      (ready.0, ap (λ (d : Dict String SubSlot). lookup slot.topic d) ready.1 ∙ lookup-put r done)

resume-keeps :
    (slot : SubSlot) (k : ℕ)
    → 1 ≤ slot.expected_resume_seq
    → slot.expected_resume_seq ≡ slot.last_seq + 1
    → slot.expected_resume_seq ≤ k
    → let slot' = (resume slot k).0 in
      (slot'.topic ≡ slot.topic)
      × (slot'.pending_buffer ≡ slot.pending_buffer)
      × (slot'.last_seq + 1 ≡ k)
unfolding resume
resume-keeps slot k asked next later = ground arith

-- The subscribe of an event stream is accepted, with the number of the next message.
event_ack-last :
    (r : Robot) (slot : SubSlot) (resp : DecodedResponse)
    → resp.sub_accepted ≡ true
    → slot.pending_buffer ≡ []
    → 1 ≤ slot.expected_resume_seq
    → slot.expected_resume_seq ≡ slot.last_seq + 1
    → slot.expected_resume_seq ≤ resp.sub_next_seq
    → r.reconnect_subs_pending ≡ 1
    → r.reconnect_estop_pending ≡ false
    → let done = event_ack r slot true resp in
      (done.state ≡ ConnectionState.ready)
      × ((slot' : SubSlot) × (lookup slot.topic done.subs ≡ some slot')
          × GoesOn slot' resp.sub_next_seq)
unfolding event_ack
event_ack-last r slot resp granted_it empty asked next later last calm =
    let k : ℕ = resp.sub_next_seq in
    let resumed = resume slot k in
    let kept = resume-keeps slot k asked next later in
    let on = activate-last r resumed.0 resumed.1 resumed.2 k (kept.1 ∙ empty) last calm in
    let done : Robot = activate r resumed.0 true resumed.1 resumed.2 k in
    let slot' : SubSlot = record resumed.0 {
      state = SubscriptionState.active;
      ever_active = true;
      is_reconnect_resume = false;
    } in
    rw granted_it (
      on.0,
      (slot', subst (λ (t : String). lookup t done.subs ≡ some slot') kept.0 on.1, (refl, kept.2)),
    )

process_ack-last :
    (semantics : DeliverySemantics) (r : Robot) (slot : SubSlot) (resp : DecodedResponse)
    → slot.semantics ≡ semantics
    → semantics ≡ DeliverySemantics.event
    → resp.success ≡ true
    → r.state ≡ ConnectionState.reconnecting
    → process_ack r slot resp ≡ event_ack r slot true resp
unfolding process_ack granted is_state
process_ack-last DeliverySemantics.telemetry r slot resp e event good phase = absurd (cc)
process_ack-last DeliverySemantics.event r slot resp e event good phase = rw (good, phase, e) refl

mine_acked :
    (r : Robot) (slot : SubSlot) (resp : DecodedResponse)
    → slot.inflight_subscribe_request_id ≡ resp.request_id
    → let answered : SubSlot = record slot { inflight_subscribe_request_id = 0 } in
      ack_for_slot r (some slot) resp ≡ process_ack (put_slot r answered) answered resp
unfolding ack_for_slot
mine_acked r slot resp mine =
    rw ((nat_beq_iff slot.inflight_subscribe_request_id resp.request_id).1 mine) refl

-- In RECONNECTING, while one subscribe is still to be answered and no emergency stop to be confirmed,
-- the answer that accepts the subscribe of an event stream, which asked for the message after its
-- last one, at that message or a later one, makes the connection READY and the subscription ACTIVE,
-- right before the next message.
pub last_ack-Ready :
    (r : Robot) (slot : SubSlot) (resp : DecodedResponse)
    → r.state ≡ ConnectionState.reconnecting
    → r.reconnect_subs_pending ≡ 1
    → r.reconnect_estop_pending ≡ false
    → lookup resp.request_id r.inflight_sub ≡ some slot.topic
    → lookup slot.topic r.subs ≡ some slot
    → slot.inflight_subscribe_request_id ≡ resp.request_id
    → slot.semantics ≡ DeliverySemantics.event
    → slot.pending_buffer ≡ []
    → slot.expected_resume_seq ≡ slot.last_seq + 1
    → (resp.success ≡ true) × (resp.sub_accepted ≡ true)
    → slot.expected_resume_seq ≤ resp.sub_next_seq
    → let done = handle_subscribe_ack r resp in
      (done.state ≡ ConnectionState.ready)
      × ((slot' : SubSlot) × (lookup slot.topic done.subs ≡ some slot')
          × GoesOn slot' resp.sub_next_seq)
unfolding handle_subscribe_ack ack_for_topic
last_ack-Ready r slot resp phase last calm waits here mine event empty next good later =
    let answered : SubSlot = record slot { inflight_subscribe_request_id = 0 } in
    let taken : Robot = record r {
      inflight_sub = erase resp.request_id r.inflight_sub;
      sub_ack_timers = erase resp.request_id r.sub_ack_timers;
    } in
    let put : Robot = put_slot taken answered in
    let goes = process_ack-last slot.semantics put answered resp refl event good.0 phase in
    let ended =
      event_ack-last put answered resp good.1 empty (omega (arith, next)) next later last calm in
    let same : handle_subscribe_ack r resp ≡ event_ack put answered true resp =
      ap (λ o. ack_for_topic r o resp) waits
      ∙ (ap (λ o. ack_for_slot taken o resp) here ∙ (mine_acked taken slot resp mine ∙ goes)) in
    rw same ended
