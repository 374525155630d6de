-- ===== src/Robot/Unsubscribe/Waiting.antt =====
-- An unsubscribe while a reconnect waits for the ack of the same subscription.
use karo_x2_sdk_python.Prelude.{
  ◌≡◌, refl, true, false, String, some, none, lookup, string_eq, nat_eq, lookup-erase_self, ◌∙◌,
}
use karo_x2_sdk_python.Error.{ErrorCode}
use karo_x2_sdk_python.Connection.{ConnectionState, is_state}
use karo_x2_sdk_python.Codec.Decode.{DecodedResponse}
use karo_x2_sdk_python.Slot.{SubSlot}
use karo_x2_sdk_python.Robot.{Robot, end_slot}
use karo_x2_sdk_python.Robot.Ack.{handle_subscribe_ack}
use karo_x2_sdk_python.Robot.Unsubscribe.{unsubscribe_request}

not_ready :
    {s : ConnectionState}
    → s ≡ ConnectionState.reconnecting
    → is_state s ConnectionState.ready ≡ false
unfolding is_state
not_ready e = rw e refl

-- A request that finds the connection not READY ends the subscription at once.
unsubscribe_request-end_slot :
    (r : Robot) (topic : String) (slot : SubSlot)
    → r.state ≡ ConnectionState.reconnecting
    → lookup topic r.subs ≡ some slot
    → (unsubscribe_request r topic true).0
      ≡ end_slot r slot ErrorCode.disconnected "Unsubscribe() while disconnected"
unfolding unsubscribe_request
unsubscribe_request-end_slot r topic slot e found = rw (found, not_ready e) refl

-- The answer for a topic without a slot changes no count and no state.
ack_without_slot :
    (r : Robot) (topic : String) (resp : DecodedResponse)
    → lookup resp.request_id r.inflight_sub ≡ some topic
    → lookup topic r.subs ≡ none
    → ((handle_subscribe_ack r resp).reconnect_subs_pending ≡ r.reconnect_subs_pending)
      × ((handle_subscribe_ack r resp).state ≡ r.state)
unfolding handle_subscribe_ack
ack_without_slot r topic resp asked gone = rw (asked, gone) (refl, refl)

-- An unsubscribe in RECONNECTING, of a slot that stands under its topic and whose subscribe is on the
-- way, takes the slot away. The answer to its subscribe then counts for nothing, so that the number
-- of answers that the reconnect waits for stays as it was, and so does the state.
pub unsubscribe_loses_ack :
    (r : Robot) (slot : SubSlot) (resp : DecodedResponse)
    → r.state ≡ ConnectionState.reconnecting
    → lookup slot.topic r.subs ≡ some slot
    → lookup resp.request_id r.inflight_sub ≡ some slot.topic
    → let r' = (unsubscribe_request r slot.topic true).0 in
      (lookup slot.topic r'.subs ≡ none)
      × ((handle_subscribe_ack r' resp).reconnect_subs_pending ≡ r.reconnect_subs_pending)
      × ((handle_subscribe_ack r' resp).state ≡ ConnectionState.reconnecting)
unfolding end_slot
unsubscribe_loses_ack r slot resp e found asked =
    let gone : Robot = end_slot r slot ErrorCode.disconnected "Unsubscribe() while disconnected" in
    let none_left : lookup slot.topic gone.subs ≡ none = lookup-erase_self slot.topic r.subs in
    let quiet = ack_without_slot gone slot.topic resp asked none_left in
    rw (unsubscribe_request-end_slot r slot.topic slot e found) (none_left, quiet.0, quiet.1 ∙ e)
