-- ===== src/Robot/Reconnect/Resumed.antt =====
-- A connection that is lost with a subscription, and the subscription that comes back.
use karo_x2_sdk_python.Prelude.{
  ℕ, ◌+◌, ◌≤◌, ◌≡◌, refl, ap, ◌∙◌, true, false, ◌||◌, String, [], ◌∷◌, ◌++◌, none, some, lookup,
  string_eq, Dict, if◌then◌else◌,
}
use karo_x2_sdk_python.Error.{ErrorCode}
use karo_x2_sdk_python.Connection.{ConnectionState}
use karo_x2_sdk_python.Topic.{DeliverySemantics}
use karo_x2_sdk_python.Subscription.{SubscriptionState}
use karo_x2_sdk_python.Options.{ConnectOptions, is_empty}
use karo_x2_sdk_python.Codec.Decode.{DecodedResponse}
use karo_x2_sdk_python.Codec.Encode.{SdkCommand, encode_subscribe}
use karo_x2_sdk_python.Slot.{SubSlot, is_sub_state}
use karo_x2_sdk_python.Robot.{Robot, Env, send}
use karo_x2_sdk_python.Robot.Lifecycle.{
  is_final, attempts_exhausted, pause_subs, pause_slots, paused_slot, on_transport_close,
}
use karo_x2_sdk_python.Robot.Lifecycle.Cleanup.{on_transport_close_lem}
use karo_x2_sdk_python.Robot.Rpc.{answered}
use karo_x2_sdk_python.Robot.Subscribe.{semantics_in, semantics_of, resolve_semantics}
use karo_x2_sdk_python.Robot.Ack.{handle_subscribe_ack}
use karo_x2_sdk_python.Robot.Ack.Last.{GoesOn, last_ack-Ready}
use karo_x2_sdk_python.Robot.Establish.{
  start_heartbeat, resolve_slots, connected, with_info, accepted, reconnected, handshake_end,
}
use karo_x2_sdk_python.Robot.Reconnect.{wake_current}
use karo_x2_sdk_python.Robot.Reconnect.Kept.{
  Kept, Kept-trans, on_transport_close-Kept, wake_current-goes, connected-waits,
}
use karo_x2_sdk_python.Robot.Reconnect.Asked.{AwaitsOne, awaiting_slot, reconnected-AwaitsOne}

-- The slot of a topic that the robot offers, after the loss and the handshake.
abbrev offered_slot : SubSlot → DecodedResponse → SubSlot
offered_slot slot resp = record slot {
  state = SubscriptionState.paused;
  pending_buffer = [];
  inflight_subscribe_request_id = 0;
  semantics = semantics_in resp.available_topics slot.topic;
}

paused_slot-active :
    (slot : SubSlot)
    → slot.state ≡ SubscriptionState.active
    → paused_slot slot ≡ record slot {
      state = SubscriptionState.paused;
      pending_buffer = [];
      inflight_subscribe_request_id = 0;
    }
unfolding paused_slot is_sub_state
paused_slot-active slot active =
    ap
      (λ (s : SubscriptionState). record slot {
        state =
            if is_sub_state s SubscriptionState.active || is_sub_state s SubscriptionState.pending
            then SubscriptionState.paused
            else s;
        pending_buffer = [];
        inflight_subscribe_request_id = 0;
      })
      active

-- What the accepted handshake of a reconnect makes of the one subscription.
handshake_end-AwaitsOne :
    (up : Robot) (slot : SubSlot) (resp : DecodedResponse)
    → (resp.success ≡ true) × (resp.has_handshake ≡ true)
    → up.subs
      ≡ (
        slot.topic,
        record slot {
          state = SubscriptionState.paused;
          pending_buffer = [];
          inflight_subscribe_request_id = 0;
        },
      )
        ∷ []
    → semantics_in resp.available_topics slot.topic ≡ DeliverySemantics.event
    → 1 ≤ slot.last_seq
    → up.opts.reconnect_replay_history ≡ true
    → up.last_estop_intent ≡ false
    → up.ws ≡ some true
    → up.env.send_ok up.next_request_id ≡ true
    → ((c : SdkCommand) → up.env.encode_error c ≡ none)
    → AwaitsOne up (offered_slot slot resp) (handshake_end up true (answered resp))
unfolding handshake_end accepted with_info start_heartbeat resolve_slots resolve_semantics
    semantics_of
handshake_end-AwaitsOne up slot resp ok subs event seen_some replay calm there sent plain =
    let informed : Robot = with_info up resp in
    let asked : AwaitsOne informed (offered_slot slot resp) (reconnected informed) =
      reconnected-AwaitsOne informed (offered_slot slot resp)
        (ap (λ (d : Dict String SubSlot). resolve_slots informed d) subs) refl event seen_some
        replay calm there sent plain in
    rw (ok.0, ok.1)
      (record {
        state = asked.state;
        pending = asked.pending;
        calm = asked.calm;
        waits = asked.waits;
        there = asked.there;
        told = asked.told;
      })

-- A connection with one ACTIVE subscription of an event topic, which has seen a message, is lost
-- while it is not over, with an attempt left, a token, no emergency stop to replay and the history
-- asked for. When the sleep of the task is over, the websocket opens and every send goes through,
-- the robot accepts the handshake, still offers the topic, and accepts the subscribe at the message
-- asked for or a later one: then the subscription was PAUSED with an empty buffer, the subscribe
-- asked for the message after its last one and is all that was sent after the handshake, and the
-- connection is READY with the subscription ACTIVE, right before the next message.
pub lost_subscription_resumes :
    (r : Robot) (slot : SubSlot) (reason : ErrorCode) (msg : String) (resp answer : DecodedResponse)
    → is_final r.state ≡ false
    → attempts_exhausted r.opts.reconnect_max_attempts (r.reconnect_attempt + 1) ≡ false
    → r.subs ≡ (slot.topic, slot) ∷ []
    → slot.state ≡ SubscriptionState.active
    → 1 ≤ slot.last_seq
    → r.opts.reconnect_replay_history ≡ true
    → r.last_estop_intent ≡ false
    → is_empty r.opts.cert.cert_pem ≡ true
    → ((rid : ℕ) → r.env.send_ok rid ≡ true)
    → ((c : SdkCommand) → r.env.encode_error c ≡ none)
    → (resp.success ≡ true) × (resp.has_handshake ≡ true)
    → semantics_in resp.available_topics slot.topic ≡ DeliverySemantics.event
    → (answer.success ≡ true) × (answer.sub_accepted ≡ true)
    → slot.last_seq + 1 ≤ answer.sub_next_seq
    → let gone = on_transport_close r reason msg in
      let up = connected (wake_current gone) true in
      let rid = up.next_request_id in
      let asked = handshake_end up true (answered resp) in
      let done = handle_subscribe_ack asked (record answer { request_id = rid }) in
      (gone.state ≡ ConnectionState.transient_failure)
      × (gone.subs
          ≡ (
            slot.topic,
            record slot {
              state = SubscriptionState.paused;
              pending_buffer = [];
              inflight_subscribe_request_id = 0;
            },
          )
            ∷ [])
      × (asked.state ≡ ConnectionState.reconnecting)
      × (asked.trace
          ≡ up.trace
            ++ send (
                encode_subscribe rid slot.topic slot.desired_hz
                  (slot.last_seq + 1)
                  r.opts.history_limit)
              ∷ [])
      × (done.state ≡ ConnectionState.ready)
      × ((slot' : SubSlot) × (lookup slot.topic done.subs ≡ some slot')
          × GoesOn slot' answer.sub_next_seq)
unfolding pause_subs pause_slots
lost_subscription_resumes r slot reason msg resp answer live left subs active seen_some replay calm
      token sent plain ok offered granted later =
    let paused : Robot = pause_subs r reason msg in
    let gone : Robot = on_transport_close r reason msg in
    let woken : Robot = wake_current gone in
    let up : Robot = connected woken true in
    let rid : ℕ = up.next_request_id in
    let asked : Robot = handshake_end up true (answered resp) in
    let closed = on_transport_close_lem r reason msg live in
    let lost = on_transport_close-Kept r reason msg live left in
    let wakes = wake_current-goes gone (r.reconnect_attempt + 1) closed.0 lost.1 in
    let till : Kept paused woken = Kept-trans lost.0 wakes.0 in
    let opens =
      connected-waits woken
        (ap (λ (o : ConnectOptions). is_empty o.cert.cert_pem) till.opts ∙ token)
        (ap (λ (e : Env). e.send_ok woken.next_request_id) till.env ∙ sent _) in
    let kept : Kept paused up = Kept-trans till opens.0 in
    let one =
      ap pause_slots subs ∙ ap (λ s. (slot.topic, s) ∷ []) (paused_slot-active slot active) in
    let awaits : AwaitsOne up (offered_slot slot resp) asked =
      handshake_end-AwaitsOne up slot resp ok (kept.subs ∙ one) offered seen_some
        (ap (λ (o : ConnectOptions). o.reconnect_replay_history) kept.opts ∙ replay)
        (kept.intent ∙ calm) opens.3 (ap (λ (e : Env). e.send_ok rid) kept.env ∙ sent rid)
        (λ c. ap (λ (e : Env). e.encode_error c) kept.env ∙ plain c) in
    let phase : asked.state ≡ ConnectionState.reconnecting = awaits.state ∙ (opens.2 ∙ wakes.1) in
    let ends =
      last_ack-Ready asked (awaiting_slot (offered_slot slot resp) rid)
        (record answer { request_id = rid }) phase awaits.pending awaits.calm awaits.waits
        awaits.there refl offered refl refl granted later in
    (
      closed.0,
      lost.0.subs ∙ one,
      phase,
      awaits.told
          ∙ ap
              (λ (o : ConnectOptions).
                up.trace
                ++ send (
                    encode_subscribe rid slot.topic slot.desired_hz (slot.last_seq + 1)
                      o.history_limit)
                  ∷ [])
              kept.opts,
      ends.0,
      ends.1,
    )
