-- ===== src/Robot/Reconnect/Asked.antt =====
-- What a reconnect asks for, where there is one subscription of an event topic.
use karo_x2_sdk_python.Prelude.{
  ℕ, ◌+◌, ◌≤◌, ◌≡◌, refl, ap, ◌∙◌, true, false, Bool, String, [], ◌∷◌, ◌++◌, Option, none, some,
  arith, lookup, insert, string_eq, nat_eq, ltb, ◌==◌, Dict, lookup-insert, if◌then◌else◌, length,
  not, ◌&&◌, ◌||◌,
}
use karo_x2_sdk_python.Connection.{ConnectionState, is_state}
use karo_x2_sdk_python.Topic.{DeliverySemantics}
use karo_x2_sdk_python.Subscription.{SubscriptionState}
use karo_x2_sdk_python.Slot.{SubSlot, is_sub_state}
use karo_x2_sdk_python.Codec.Encode.{SdkCommand, encode_subscribe}
use karo_x2_sdk_python.Robot.{Robot, send, take_rid, put_slot, emit}
use karo_x2_sdk_python.Robot.Rpc.{count_sent}
use karo_x2_sdk_python.Robot.Subscribe.{
  since_for, subscribe_command, requested_slot, request_slot, sends, after_encoding, send_subscribe,
  resume_from, resubscribe, resubscribe_topics, topics_of, resubscribe_all_after_reconnect,
}
use karo_x2_sdk_python.Robot.Establish.{replay_if_pending, reconnected}
use karo_x2_sdk_python.Robot.Ack.{finish_reconnect}
use karo_x2_sdk_python.Robot.Ack.Last.{same_text}

-- The subscribe is encoded and sent.
asked_of : Robot → SubSlot → ℕ → Robot
unfolding count_sent put_slot take_rid
asked_of r slot since =
    let rid : ℕ = r.next_request_id in
    count_sent
      (record (put_slot (take_rid r) (requested_slot r slot since)) {
        inflight_sub = insert rid slot.topic r.inflight_sub;
        sub_ack_timers = insert rid slot.topic r.sub_ack_timers;
      })
      (subscribe_command r slot since)

sends-ok : (ws : Option Bool) (ok : Bool) → ws ≡ some true → ok ≡ true → sends ws ok ≡ true
unfolding sends
sends-ok none ok there good = absurd (cc)
sends-ok (some true) ok there good = good
sends-ok (some false) ok there good = absurd (cc)

send_subscribe-asked :
    (r : Robot) (slot : SubSlot) (since : ℕ)
    → slot.semantics ≡ DeliverySemantics.event
    → r.ws ≡ some true
    → r.env.send_ok r.next_request_id ≡ true
    → ((c : SdkCommand) → r.env.encode_error c ≡ none)
    → send_subscribe r slot since ≡ asked_of r slot since
unfolding send_subscribe after_encoding request_slot since_for asked_of
send_subscribe-asked r slot since event there sent plain =
    ap (λ (d : DeliverySemantics). send_since r slot (since_for d since)) event
    ∙ (ap (λ o. after_encoding o r slot since (subscribe_command r slot since))
          (plain (subscribe_command r slot since))
        ∙ rw (sends-ok r.ws (r.env.send_ok r.next_request_id) there sent) refl)
  where
    send_since : Robot → SubSlot → ℕ → Robot
    send_since r slot since =
        let command : SdkCommand = subscribe_command r slot since in
        after_encoding (r.env.encode_error command) r slot since command

resume_from-next :
    (r : Robot) (slot : SubSlot)
    → slot.semantics ≡ DeliverySemantics.event
    → 1 ≤ slot.last_seq
    → r.opts.reconnect_replay_history ≡ true
    → resume_from r slot.semantics slot.last_seq ≡ slot.last_seq + 1
unfolding resume_from
resume_from-next r slot event seen_some replay =
    ap (λ (d : DeliverySemantics). resume_from r d slot.last_seq) event
    ∙ rw (replay, positive slot.last_seq seen_some) refl
  where
    positive : (n : ℕ) → 1 ≤ n → ltb 0 n ≡ true
    positive n h = ground arith

-- The slot that waits for the answer of the subscribe under an id.
abbrev pub awaiting_slot : SubSlot → ℕ → SubSlot
awaiting_slot slot rid = record slot {
  state = SubscriptionState.pending;
  fresh_retry_done = false;
  expected_resume_seq = slot.last_seq + 1;
  is_reconnect_resume = true;
  inflight_subscribe_request_id = rid;
}

-- One subscription of an event topic, paused, is asked for again from the message after its last one.
resubscribe-asked :
    (r : Robot) (slot : SubSlot)
    → r.subs ≡ (slot.topic, slot) ∷ []
    → slot.semantics ≡ DeliverySemantics.event
    → 1 ≤ slot.last_seq
    → r.opts.reconnect_replay_history ≡ true
    → r.ws ≡ some true
    → r.env.send_ok r.next_request_id ≡ true
    → ((c : SdkCommand) → r.env.encode_error c ≡ none)
    → resubscribe_all_after_reconnect r
      ≡ asked_of
          (put_slot r (record slot { fresh_retry_done = false }))
          (record slot { fresh_retry_done = false })
          (slot.last_seq + 1)
unfolding resubscribe_all_after_reconnect resubscribe_topics resubscribe resume_from put_slot
resubscribe-asked r slot subs event seen_some replay there sent plain =
    let renewed : SubSlot = record slot { fresh_retry_done = false } in
    let put : Robot = put_slot r renewed in
    ap (λ (d : Dict String SubSlot). resubscribe_topics r (topics_of d)) subs
    ∙ (ap (λ (d : Dict String SubSlot). resubscribe r (lookup slot.topic d)) subs
        ∙ (ap (λ b. resubscribe r (if b then some slot else none)) (same_text slot.topic)
            ∙ (ap (λ n. send_subscribe put renewed n)
                  (resume_from-next r slot event seen_some replay)
                ∙ send_subscribe-asked put renewed (slot.last_seq + 1) event there sent plain)))

-- A reconnect waits for the answer to one subscribe, which asked for the message after the last one.
pub record AwaitsOne (r : Robot) (slot : SubSlot) (q : Robot) : Type 0 where
  pub state : q.state ≡ r.state
  pub pending : q.reconnect_subs_pending ≡ 1
  pub calm : q.reconnect_estop_pending ≡ false
  pub waits : lookup r.next_request_id q.inflight_sub ≡ some slot.topic
  pub there : lookup slot.topic q.subs ≡ some (awaiting_slot slot r.next_request_id)
  pub told :
      q.trace
      ≡ r.trace
        ++ send (
            encode_subscribe r.next_request_id slot.topic slot.desired_hz
              (slot.last_seq + 1)
              r.opts.history_limit)
          ∷ []

requested-awaiting :
    (r : Robot) (slot : SubSlot)
    → slot.state ≡ SubscriptionState.paused
    → requested_slot r (record slot { fresh_retry_done = false }) (slot.last_seq + 1)
      ≡ awaiting_slot slot r.next_request_id
unfolding requested_slot is_sub_state
requested-awaiting r slot paused =
    ap
      (λ (s : SubscriptionState). record (awaiting_slot slot r.next_request_id) {
        is_reconnect_resume =
            is_sub_state s SubscriptionState.paused
            || (slot.ever_active && is_state r.state ConnectionState.reconnecting);
      })
      paused

same_id : (rid : ℕ) → (rid == rid) ≡ true
same_id rid = ground arith

not_nothing : (n : ℕ) → ltb 0 (n + 1) ≡ true
not_nothing n = ground arith

asked_of-AwaitsOne :
    (r : Robot) (slot : SubSlot)
    → slot.state ≡ SubscriptionState.paused
    → let renewed : SubSlot = record slot { fresh_retry_done = false } in
      let counted : Robot = record r {
        reconnect_subs_pending = 1;
        reconnect_estop_pending = false;
      } in
      AwaitsOne r slot (asked_of (put_slot counted renewed) renewed (slot.last_seq + 1))
unfolding asked_of count_sent emit take_rid put_slot subscribe_command requested_slot
asked_of-AwaitsOne r slot paused =
    let renewed : SubSlot = record slot { fresh_retry_done = false } in
    let rid : ℕ = r.next_request_id in
    let asked : SubSlot = requested_slot r renewed (slot.last_seq + 1) in
    record {
      state = refl;
      pending = refl;
      calm = refl;
      waits = lookup-insert rid rid slot.topic r.inflight_sub ∙ rw (same_id rid) refl;
      there =
          lookup-insert slot.topic slot.topic asked (insert slot.topic renewed r.subs)
          ∙ (rw (same_text slot.topic) (ap some (requested-awaiting r slot paused)));
      told = rw (not_nothing slot.last_seq) refl;
    }

-- The handshake of a reconnect is accepted, and no emergency stop is to be replayed.
pub reconnected-AwaitsOne :
    (r : Robot) (slot : SubSlot)
    → r.subs ≡ (slot.topic, slot) ∷ []
    → slot.state ≡ SubscriptionState.paused
    → slot.semantics ≡ DeliverySemantics.event
    → 1 ≤ slot.last_seq
    → r.opts.reconnect_replay_history ≡ true
    → r.last_estop_intent ≡ false
    → r.ws ≡ some true
    → r.env.send_ok r.next_request_id ≡ true
    → ((c : SdkCommand) → r.env.encode_error c ≡ none)
    → AwaitsOne r slot (reconnected r)
unfolding reconnected replay_if_pending asked_of count_sent emit take_rid put_slot
reconnected-AwaitsOne r slot subs paused event seen_some replay calm there sent plain =
    let renewed : SubSlot = record slot { fresh_retry_done = false } in
    let counted : Robot = record r {
      reconnect_subs_pending = 1;
      reconnect_estop_pending = false;
    } in
    let asked : Robot = asked_of (put_slot counted renewed) renewed (slot.last_seq + 1) in
    let same : reconnected r ≡ asked =
      ap (λ (d : Dict String SubSlot). counting r (length d) r.last_estop_intent) subs
      ∙ (ap (counting r 1) calm
          ∙ ap (λ (q : Robot). replay_if_pending q.reconnect_estop_pending q)
              (resubscribe-asked counted slot subs event seen_some replay there sent plain)) in
    rw same (asked_of-AwaitsOne r slot paused)
  where
    counting : Robot → ℕ → Bool → Robot
    counting r n intent =
        let counted : Robot = record r {
          reconnect_subs_pending = n;
          reconnect_estop_pending = intent;
        } in
        let again : Robot = resubscribe_all_after_reconnect counted in
        if n == 0 && not intent
        then finish_reconnect counted "reconnect ok" ""
        else replay_if_pending again.reconnect_estop_pending again
