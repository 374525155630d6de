-- ===== src/Robot/Orderly/Sending.antt =====
-- What takes a request id: the start of a call, and a subscribe.
use karo_x2_sdk_python.Prelude.{
  ◌&&◌, ℕ, ◌+◌, ◌≡◌, refl, List, [], ◌∷◌, ◌++◌, Option, none, some, true, false, Bool, Bool-cases,
  inl, inr, String, if◌then◌else◌, insert, erase, lookup, nat_eq, string_eq, arith,
}
use karo_x2_sdk_python.Error.{ErrorCode}
use karo_x2_sdk_python.Slot.{SubSlot}
use karo_x2_sdk_python.Codec.Encode.{SdkCommand, encode_subscribe}
use karo_x2_sdk_python.Robot.{Robot, send, InflightRpc, take_rid, put_slot}
use karo_x2_sdk_python.Robot.Lifecycle.{on_transport_close}
use karo_x2_sdk_python.Robot.Rpc.{count_sent, send_on, send_rpc}
use karo_x2_sdk_python.Robot.Subscribe.{
  sends, since_for, subscribe_command, requested_slot, request_slot, after_encoding, send_subscribe,
  resume_from, resubscribe, resubscribe_topics,
}
use karo_x2_sdk_python.Robot.Filed.Changes.{requested_slot-IsSound}
use karo_x2_sdk_python.Robot.Filed.{
  Filed, SoundIn, SoundAt, Filed-insert, Filed-lookup, SameBuffers-IsSound,
}
use karo_x2_sdk_python.Robot.Orderly.{
  sent, IsTold, IsTold-sends, seen, seen-append, Ascends, Ascends-weaken, Ascends-append, Below,
  Below-weaken, Below-insert, Below-erase, IsOrderly,
}
use karo_x2_sdk_python.Robot.Orderly.Quiet.{Quiet-IsOrderly, end_slot-Quiet}
use karo_x2_sdk_python.Robot.Orderly.Ending.{on_transport_close-Quiet}

-- Whichever way a test goes.
pub if-IsOrderly :
    (b : Bool) (x y : Robot) → IsOrderly x → IsOrderly y → IsOrderly (if b then x else y)
if-IsOrderly true x y hx hy = hx
if-IsOrderly false x y hx hy = hy

-- The id `rid` has been taken, and nothing was sent under it yet.
pub record Taken (q : Robot) (rid : ℕ) : Type 0 where
  pub next : q.next_request_id ≡ rid + 1
  pub order : Ascends 1 rid (seen q.trace)
  pub calls : Below rid q.inflight
  pub subs : Below rid q.inflight_sub
  pub told : IsTold q.connection_state_handler (seen q.trace) q.state
  pub filed : Filed q.opts q.subs

pub take_rid-Taken : (r : Robot) → IsOrderly r → Taken (take_rid r) r.next_request_id
unfolding take_rid
take_rid-Taken r f = record {
  next = refl;
  order = f.order;
  calls = f.calls;
  subs = f.subs;
  told = f.told;
  filed = f.filed;
}

-- An id that is not used is lost, and does no harm.
pub Taken-IsOrderly : (q : Robot) (rid : ℕ) → Taken q rid → IsOrderly q
Taken-IsOrderly q rid t = record {
  order = Ascends-weaken 1 rid q.next_request_id (seen q.trace) t.order (omega (arith, t.next));
  calls = Below-weaken rid q.next_request_id q.inflight t.calls (omega (arith, t.next));
  subs = Below-weaken rid q.next_request_id q.inflight_sub t.subs (omega (arith, t.next));
  told = t.told;
  filed = t.filed;
}

sent_order :
    (q : Robot) (rid : ℕ) (command : SdkCommand)
    → Taken q rid
    → command.request_id ≡ rid
    → Ascends 1 q.next_request_id (seen q.trace ++ sent command.request_id ∷ [])
sent_order q rid command t same = rw (same, t.next) (Ascends-append 1 rid (seen q.trace) t.order)

pub count_sent-order :
    (q : Robot) (rid : ℕ) (command : SdkCommand)
    → Taken q rid
    → command.request_id ≡ rid
    → Ascends 1 q.next_request_id (seen (count_sent q command).trace)
unfolding count_sent
count_sent-order q rid command t same =
    rw (seen-append q.trace (send command ∷ [])) (sent_order q rid command t same)

pub count_sent-IsTold :
    (q : Robot) (command : SdkCommand)
    → IsTold q.connection_state_handler (seen q.trace) q.state
    → IsTold q.connection_state_handler (seen (count_sent q command).trace) q.state
unfolding count_sent
count_sent-IsTold q command h =
    rw (seen-append q.trace (send command ∷ []))
      (IsTold-sends q.connection_state_handler (seen q.trace) q.state command.request_id h)

-- The start of a call under the id that was taken for it.
send_on-IsOrderly :
    (ws : Option Bool) (q : Robot) (rid : ℕ) (method : String) (command : SdkCommand)
    → Taken q rid
    → command.request_id ≡ rid
    → IsOrderly (send_on ws q rid method command).0
unfolding send_on
send_on-IsOrderly none q rid method command t same = Taken-IsOrderly q rid t
send_on-IsOrderly (some is_open) q rid method command t same =
    let entry : InflightRpc = record { method = method; done = false } in
    let small : rid + 1 ≡ q.next_request_id = omega (arith, t.next) in
    let fresh : IsOrderly q = Taken-IsOrderly q rid t in
    let more : Below q.next_request_id (insert rid entry q.inflight) =
      Below-insert q.next_request_id rid entry q.inflight (omega (arith, t.next)) fresh.calls in
    elim (Bool-cases (is_open && q.env.send_ok rid)) [
      | inl e ↦ rw e (record {
        order = count_sent-order q rid command t same;
        told = count_sent-IsTold q command t.told;
        filed = t.filed;
        calls = more;
        subs = fresh.subs;
      })
      | inr e ↦ rw e (record {
        order = fresh.order;
        calls = Below-erase q.next_request_id rid (insert rid entry q.inflight) more;
        subs = fresh.subs;
        told = t.told;
        filed = t.filed;
      })
    ]

pub send_rpc-IsOrderly :
    (q : Robot) (rid : ℕ) (method : String) (command : SdkCommand)
    → Taken q rid
    → command.request_id ≡ rid
    → IsOrderly (send_rpc q rid method command).0
unfolding send_rpc
send_rpc-IsOrderly q rid method command t same = send_on-IsOrderly q.ws q rid method command t same

request_slot-IsOrderly :
    (r : Robot) (slot : SubSlot) (since : ℕ) (command : SdkCommand)
    → IsOrderly r
    → command.request_id ≡ r.next_request_id
    → SoundIn r.opts slot
    → IsOrderly (request_slot r slot since command)
unfolding request_slot
request_slot-IsOrderly r slot since command f same sound =
    let rid : ℕ = r.next_request_id in
    let taken : Taken (take_rid r) rid = take_rid-Taken r f in
    let fresh : IsOrderly (take_rid r) = Taken-IsOrderly (take_rid r) rid taken in
    let asked : SubSlot = requested_slot r slot since in
    let more : Below (rid + 1) (insert rid slot.topic r.inflight_sub) =
      Below-insert (rid + 1) rid slot.topic r.inflight_sub (omega arith) fresh.subs in
    let waiting_for : Robot = record (put_slot (take_rid r) asked) {
      inflight_sub = insert rid slot.topic r.inflight_sub;
      sub_ack_timers = insert rid slot.topic r.sub_ack_timers;
    } in
    let unsent : Robot =
      put_slot
        (record (take_rid r) {
          inflight_sub = erase rid (insert rid slot.topic r.inflight_sub);
          sub_ack_timers = erase rid (insert rid slot.topic r.sub_ack_timers);
        })
        (record asked { inflight_subscribe_request_id = 0 }) in
    let later : SoundIn r.opts asked = λ roomy. requested_slot-IsSound r slot since (sound roomy) in
    let unsent_fresh : IsOrderly unsent = record {
      order = fresh.order;
      calls = fresh.calls;
      subs = Below-erase (rid + 1) rid (insert rid slot.topic r.inflight_sub) more;
      told = f.told;
      filed =
          Filed-insert r.opts (record asked { inflight_subscribe_request_id = 0 }) r.subs
            (λ roomy. SameBuffers-IsSound (ground arith) (later roomy)) f.filed;
    } in
    if-IsOrderly (sends r.ws (r.env.send_ok rid)) (count_sent waiting_for command)
      (on_transport_close unsent ErrorCode.transport_failure "SendSubscribe failed")
      (record {
        order = count_sent-order (take_rid r) rid command taken same;
        calls = fresh.calls;
        subs = more;
        told = count_sent-IsTold (take_rid r) command f.told;
        filed = Filed-insert r.opts asked r.subs later f.filed;
      })
      (Quiet-IsOrderly
        (on_transport_close-Quiet unsent ErrorCode.transport_failure "SendSubscribe failed")
        unsent_fresh)

after_encoding-IsOrderly :
    (o : Option String) (r : Robot) (slot : SubSlot) (since : ℕ) (command : SdkCommand)
    → IsOrderly r
    → command.request_id ≡ r.next_request_id
    → SoundIn r.opts slot
    → IsOrderly (after_encoding o r slot since command)
unfolding after_encoding
after_encoding-IsOrderly (some text) r slot since command f same sound =
    Quiet-IsOrderly (end_slot-Quiet (take_rid r) slot ErrorCode.internal_error text)
      (Taken-IsOrderly (take_rid r) r.next_request_id (take_rid-Taken r f))
after_encoding-IsOrderly none r slot since command f same sound =
    request_slot-IsOrderly r slot since command f same sound

pub send_subscribe-IsOrderly :
    (r : Robot) (slot : SubSlot) (since : ℕ)
    → IsOrderly r
    → SoundIn r.opts slot
    → IsOrderly (send_subscribe r slot since)
unfolding send_subscribe subscribe_command encode_subscribe
send_subscribe-IsOrderly r slot since_seq f sound =
    let since : ℕ = since_for slot.semantics since_seq in
    let command : SdkCommand = subscribe_command r slot since in
    after_encoding-IsOrderly (r.env.encode_error command) r slot since command f refl sound

pub put_slot-IsOrderly :
    (r : Robot) (slot : SubSlot) → IsOrderly r → SoundIn r.opts slot → IsOrderly (put_slot r slot)
unfolding put_slot
put_slot-IsOrderly r slot f sound = record {
  order = f.order;
  calls = f.calls;
  subs = f.subs;
  told = f.told;
  filed = Filed-insert r.opts slot r.subs sound f.filed;
}

resubscribe-IsOrderly :
    (o : Option SubSlot) (r : Robot) → IsOrderly r → SoundAt r.opts o → IsOrderly (resubscribe r o)
unfolding resubscribe
resubscribe-IsOrderly none r f sound = f
resubscribe-IsOrderly (some slot) r f sound =
    let renewed : SubSlot = record slot { fresh_retry_done = false } in
    let again : SoundIn r.opts renewed =
      λ roomy. SameBuffers-IsSound (ground arith) (sound roomy) in
    send_subscribe-IsOrderly (put_slot r renewed) renewed
      (resume_from r slot.semantics slot.last_seq) (put_slot-IsOrderly r renewed f again) again

pub resubscribe_topics-IsOrderly :
    (topics : List String) (r : Robot) → IsOrderly r → IsOrderly (resubscribe_topics r topics)
unfolding resubscribe_topics
resubscribe_topics-IsOrderly [] r f = f
resubscribe_topics-IsOrderly (topic ∷ topics) r f =
    resubscribe_topics-IsOrderly topics (resubscribe r (lookup topic r.subs))
      (resubscribe-IsOrderly (lookup topic r.subs) r f (Filed-lookup r.opts topic r.subs f.filed))
