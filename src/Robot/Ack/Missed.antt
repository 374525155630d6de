-- ===== src/Robot/Ack/Missed.antt =====
-- A subscription that is made while a reconnect waits for its last answer.
use karo_x2_sdk_python.Prelude.{
  ◌+◌, ◌≡◌, refl, ap, ◌∙◌, true, false, Bool, String, some, Bool-cases, inl, inr, nat_eq, lookup,
  contains, string_eq, Dict,
}
use mathlib.Core.Path.{subst}
use karo_x2_sdk_python.Connection.{ConnectionState, StateChangeInfo, is_state}
use karo_x2_sdk_python.Topic.{FloatBits}
use karo_x2_sdk_python.Subscription.{SubscriptionState, CallbackMode}
use karo_x2_sdk_python.Slot.{SubSlot, FrameDispatcher}
use karo_x2_sdk_python.Robot.{Robot, nowhere, put_slot, transition}
use karo_x2_sdk_python.Robot.Subscribe.{new_slot, start_sub_worker, subscribe_internal}
use karo_x2_sdk_python.Robot.Ack.{finish_reconnect, maybe_finish_reconnect}
use karo_x2_sdk_python.Robot.Ack.Last.{lookup-put, finish_reconnect-Ready}

-- The slot waits, and no subscribe of it is on the way.
abbrev pub IsIdle : SubSlot → Type 0
IsIdle slot = (slot.state ≡ SubscriptionState.pending) × (slot.inflight_subscribe_request_id ≡ 0)

start_sub_worker-keeps :
    (mode : CallbackMode) (slot : SubSlot)
    → let started : SubSlot = start_sub_worker mode slot in
      (started.topic ≡ slot.topic)
      × (started.state ≡ slot.state)
      × (started.inflight_subscribe_request_id ≡ slot.inflight_subscribe_request_id)
unfolding start_sub_worker
start_sub_worker-keeps CallbackMode.inline slot = (refl, refl, refl)
start_sub_worker-keeps CallbackMode.dispatched slot = (refl, refl, refl)

not_ready :
    {s : ConnectionState}
    → s ≡ ConnectionState.reconnecting
    → is_state s ConnectionState.ready ≡ false
unfolding is_state
not_ready e = rw e refl

subscribed_away :
    (r : Robot) (topic : String) (desired_hz : FloatBits) (dispatcher : FrameDispatcher)
    (on_status : Bool)
    → r.state ≡ ConnectionState.reconnecting
    → contains topic r.subs ≡ false
    → let slot : SubSlot = new_slot r topic desired_hz dispatcher on_status in
      (subscribe_internal r topic desired_hz dispatcher on_status).0
      ≡ put_slot
          (record r { next_ident = r.next_ident + 1 })
          (start_sub_worker slot.callback_mode slot)
unfolding subscribe_internal
subscribed_away r topic desired_hz dispatcher on_status phase fresh =
    rw (fresh, not_ready phase) refl

transition-waits :
    (r : Robot) (new : ConnectionState) (info : StateChangeInfo)
    → let told = transition r new info in
      (told.establishing ≡ r.establishing)
      × (told.reconnect_subs_pending ≡ r.reconnect_subs_pending)
unfolding transition
transition-waits r new info = elim (Bool-cases (is_state r.state new)) [
  | inl e ↦ rw e (refl, refl)
  | inr e ↦ rw e (refl, refl)
]

finish_reconnect-waits :
    (r : Robot) (reason action : String)
    → let done = finish_reconnect r reason action in
      (done.establishing ≡ r.establishing)
      × (done.reconnect_subs_pending ≡ r.reconnect_subs_pending)
unfolding finish_reconnect
finish_reconnect-waits r reason action = transition-waits _ ConnectionState.ready _

-- The end of the last answer that a reconnect waits for.
last_answer :
    (r : Robot)
    → r.reconnect_subs_pending ≡ 1
    → r.reconnect_estop_pending ≡ false
    → let done = maybe_finish_reconnect r true in
      (done.state ≡ ConnectionState.ready)
      × (done.establishing ≡ r.establishing)
      × (done.reconnect_subs_pending ≡ 0)
      × (done.inflight_sub ≡ r.inflight_sub)
      × (done.subs ≡ r.subs)
unfolding maybe_finish_reconnect
last_answer r last calm =
    let counted : Robot = record r {
      reconnect_subs_pending = 0;
      reconnect_estop_pending = false;
    } in
    let over = finish_reconnect-Ready counted "reconnect ok" "" in
    let waits = finish_reconnect-waits counted "reconnect ok" "" in
    rw (last, calm) (over.0, waits.0, waits.1, over.2, over.1)

-- A subscription of a new topic in RECONNECTING, after the answer to the handshake and while the
-- last answer to a subscribe is waited for, with no emergency stop to be confirmed: nothing is sent
-- for it, and no answer of it is waited for. The end of that last answer makes the connection READY
-- and leaves the subscription so: it is PENDING without a subscribe on the way, no further answer is
-- waited for, and no handshake is on the way whose answer would subscribe again.
pub subscribe_misses_reconnect :
    (r : Robot) (topic : String) (desired_hz : FloatBits) (dispatcher : FrameDispatcher)
    (on_status : Bool)
    → r.state ≡ ConnectionState.reconnecting
    → r.establishing ≡ nowhere
    → r.reconnect_subs_pending ≡ 1
    → r.reconnect_estop_pending ≡ false
    → contains topic r.subs ≡ false
    → let r' = (subscribe_internal r topic desired_hz dispatcher on_status).0 in
      let done = maybe_finish_reconnect r' true in
      (r'.trace ≡ r.trace)
      × (r'.inflight_sub ≡ r.inflight_sub)
      × (done.state ≡ ConnectionState.ready)
      × (done.establishing ≡ nowhere)
      × (done.reconnect_subs_pending ≡ 0)
      × (done.inflight_sub ≡ r.inflight_sub)
      × ((slot : SubSlot) × (lookup topic done.subs ≡ some slot) × IsIdle slot)
unfolding new_slot put_slot
subscribe_misses_reconnect r topic desired_hz dispatcher on_status phase told last calm fresh =
    let slot : SubSlot = new_slot r topic desired_hz dispatcher on_status in
    let started : SubSlot = start_sub_worker slot.callback_mode slot in
    let counted : Robot = record r { next_ident = r.next_ident + 1 } in
    let put : Robot = put_slot counted started in
    let same = subscribed_away r topic desired_hz dispatcher on_status phase fresh in
    let kept = start_sub_worker-keeps slot.callback_mode slot in
    let over = last_answer put last calm in
    let stands : lookup topic put.subs ≡ some started =
      subst (λ (t : String). lookup t put.subs ≡ some started) kept.0
        (lookup-put counted started) in
    rw same (
      refl,
      refl,
      over.0,
      over.1 ∙ told,
      over.2,
      over.3,
      (started, ap (λ (d : Dict String SubSlot). lookup topic d) over.4 ∙ stands, (kept.1, kept.2)),
    )
