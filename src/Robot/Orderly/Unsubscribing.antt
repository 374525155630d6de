-- ===== src/Robot/Orderly/Unsubscribing.antt =====
-- Unsubscribing keeps the ids in order.
use karo_x2_sdk_python.Prelude.{
  ℕ, arith, ◌≡◌, refl, Bool, true, false, not, ◌||◌, if◌then◌else◌, Option, some, none, Bool-cases,
  inl, inr, List, [], ◌∷◌, String, ◌==◌, nat_eq, string_eq, lookup,
}
use karo_x2_sdk_python.Error.{ErrorCode, exception_str}
use karo_x2_sdk_python.Connection.{ConnectionState, is_state}
use karo_x2_sdk_python.Subscription.{StreamStatusKind}
use karo_x2_sdk_python.Codec.Encode.{SdkCommand, encode_unsubscribe}
use karo_x2_sdk_python.Slot.{SubSlot}
use karo_x2_sdk_python.Slot.Deliver.{status}
use karo_x2_sdk_python.Robot.{Robot, take_rid, put_slot, end_slot}
use karo_x2_sdk_python.Robot.Rpc.{
  Outcome, answered, timed_out, raised, Started, waiting, failed, send_rpc, count_sent,
}
use karo_x2_sdk_python.Robot.Unsubscribe.{
  ws_closed, unsubscribe_async, retired_effects, mark_sent, finish_on, finish_unsubscribe,
  unsubscribe_end, after_start, unsubscribe_slot, unsubscribe_request,
}
use karo_x2_sdk_python.Robot.Facade.{
  mark_user_closed, unsubscribe, finalize, finalize_slot, slot_of,
}
use karo_x2_sdk_python.Robot.Filed.Changes.{AllFiled-mark}
use karo_x2_sdk_python.Robot.Filed.{
  SoundIn, SoundAt, Filed-lookup, Filed-erase, Filed-insert, SameBuffers-IsSound,
}
use karo_x2_sdk_python.Robot.Orderly.{seen, IsOrderly}
use karo_x2_sdk_python.Robot.Orderly.Quiet.{
  Quiet, Silent-Quiet, Quiet-IsOrderly, emit-Quiet, end_slot-Quiet, seen-quiet, seen-on_slots,
}
use karo_x2_sdk_python.Robot.Orderly.Sending.{
  if-IsOrderly, Taken, take_rid-Taken, Taken-IsOrderly, send_rpc-IsOrderly, count_sent-order,
  count_sent-IsTold,
}

seen-retired_effects :
    (slots : List SubSlot) (ident : ℕ) (code : ErrorCode) (reason : String)
    → seen (retired_effects slots ident code reason) ≡ []
unfolding retired_effects
seen-retired_effects [] ident code reason = refl
seen-retired_effects (slot ∷ slots) ident code reason = elim (Bool-cases (slot.ident == ident)) [
  | inl e ↦ rw e (seen-on_slots slot.ident (status slot StreamStatusKind.closed none code reason))
  | inr e ↦ rw e (seen-retired_effects slots ident code reason)
]

finish_on-Quiet :
    (o : Option SubSlot) (r : Robot) (topic : String) (ident : ℕ) (told : Bool) (code : ErrorCode)
    (reason : String)
    → Quiet r (finish_on o r topic ident told code reason)
unfolding finish_on
finish_on-Quiet none r topic ident told code reason = Silent-Quiet (record {
  handler = refl;
  state = refl;
  filed = λ h. h;
  next = refl;
  marks =
      seen-quiet r.trace (retired_effects r.retired ident code reason)
        (seen-retired_effects r.retired ident code reason);
  calls = λ n h. h;
  subs = λ n h. h;
})
finish_on-Quiet (some slot) r topic ident told code reason =
    elim (Bool-cases (slot.ident == ident)) [
      | inl e ↦ rw e (end_slot-Quiet r (mark_sent slot told) code reason)
      | inr e ↦ rw e (
          Silent-Quiet (record {
            handler = refl;
            state = refl;
            filed = λ h. Filed-erase r.opts topic r.subs h;
            next = refl;
            marks =
                seen-quiet r.trace (retired_effects r.retired ident code reason)
                  (seen-retired_effects r.retired ident code reason);
            calls = λ n h. h;
            subs = λ n h. h;
          }))
    ]

unsubscribe_end-Quiet :
    (o : Outcome) (r : Robot) (topic : String) (ident : ℕ)
    → Quiet r (unsubscribe_end r topic ident o).0
unfolding unsubscribe_end finish_unsubscribe
unsubscribe_end-Quiet (answered resp) r topic ident =
    finish_on-Quiet (lookup topic r.subs) r topic ident true
      (if resp.success then ErrorCode.ok else resp.sdk_code) resp.message
unsubscribe_end-Quiet timed_out r topic ident =
    finish_on-Quiet (lookup topic r.subs) r topic ident false ErrorCode.timeout
      "Unsubscribe timeout"
unsubscribe_end-Quiet (raised e) r topic ident =
    finish_on-Quiet (lookup topic r.subs) r topic ident false e.code (exception_str e)

pub unsubscribe_end-IsOrderly :
    (r : Robot) (topic : String) (ident : ℕ) (o : Outcome)
    → IsOrderly r
    → IsOrderly (unsubscribe_end r topic ident o).0
unsubscribe_end-IsOrderly r topic ident o h =
    Quiet-IsOrderly (unsubscribe_end-Quiet o r topic ident) h

after_start-IsOrderly :
    (s : Started) (r : Robot) (slot : SubSlot) (rid : ℕ)
    → IsOrderly r
    → IsOrderly (after_start r slot rid s).0
unfolding after_start
after_start-IsOrderly waiting r slot rid h = h
after_start-IsOrderly (failed e) r slot rid h =
    Quiet-IsOrderly (unsubscribe_end-Quiet (raised e) r slot.topic slot.ident) h

unsubscribe_async-IsOrderly :
    (r : Robot) (slot : SubSlot)
    → IsOrderly r
    → SoundIn r.opts slot
    → IsOrderly (unsubscribe_async r slot)
unfolding unsubscribe_async encode_unsubscribe
unsubscribe_async-IsOrderly r slot h sound =
    let rid : ℕ = r.next_request_id in
    let command : SdkCommand = encode_unsubscribe rid slot.topic in
    let told : SubSlot = record slot { unsubscribe_sent = true } in
    let taken : Taken (take_rid r) rid = take_rid-Taken r h in
    let fresh : IsOrderly (take_rid r) = Taken-IsOrderly (take_rid r) rid taken in
    let informed : Robot = count_sent (put_slot (take_rid r) told) command in
    let one : Robot = end_slot informed told ErrorCode.ok "Unsubscribe()" in
    let other : Robot = end_slot (take_rid r) slot ErrorCode.ok "Unsubscribe()" in
    let over : Robot = if r.env.send_ok rid then one else other in
    let g : IsOrderly informed = record {
      order = count_sent-order (take_rid r) rid command taken refl;
      calls = fresh.calls;
      subs = fresh.subs;
      told = count_sent-IsTold (take_rid r) command h.told;
      filed =
          Filed-insert r.opts told r.subs
            (λ roomy. SameBuffers-IsSound (ground arith) (sound roomy)) h.filed;
    } in
    Quiet-IsOrderly (emit-Quiet over _ refl) (
      if-IsOrderly (r.env.send_ok rid) one other
        (Quiet-IsOrderly (end_slot-Quiet informed told ErrorCode.ok "Unsubscribe()") g)
        (Quiet-IsOrderly (end_slot-Quiet (take_rid r) slot ErrorCode.ok "Unsubscribe()") fresh))

unsubscribe_slot-IsOrderly :
    (o : Option SubSlot) (r : Robot) (sync_wait : Bool)
    → IsOrderly r
    → SoundAt r.opts o
    → IsOrderly (unsubscribe_slot r o sync_wait).0
unfolding unsubscribe_slot encode_unsubscribe
unsubscribe_slot-IsOrderly none r sync_wait h sound = h
unsubscribe_slot-IsOrderly (some slot) r sync_wait h sound =
    let rid : ℕ = r.next_request_id in
    let command : SdkCommand = encode_unsubscribe rid slot.topic in
    let sent_off = send_rpc (take_rid r) rid "unsubscribe" command in
    elim (Bool-cases (not (is_state r.state ConnectionState.ready) || ws_closed r.ws)) [
      | inl e ↦ rw e (
          Quiet-IsOrderly
            (end_slot-Quiet r slot ErrorCode.disconnected "Unsubscribe() while disconnected") h)
      | inr e ↦ elim (Bool-cases sync_wait) [
        | inl x ↦
            rw (e, x)
              (after_start-IsOrderly sent_off.1 sent_off.0 slot rid (
                send_rpc-IsOrderly (take_rid r) rid "unsubscribe" command (take_rid-Taken r h)
                  refl))
        | inr x ↦ rw (e, x) (unsubscribe_async-IsOrderly r slot h sound)
      ]
    ]

pub unsubscribe_request-IsOrderly :
    (r : Robot) (topic : String) (sync_wait : Bool)
    → IsOrderly r
    → IsOrderly (unsubscribe_request r topic sync_wait).0
unfolding unsubscribe_request
unsubscribe_request-IsOrderly r topic sync_wait h =
    unsubscribe_slot-IsOrderly (lookup topic r.subs) r sync_wait h
      (Filed-lookup r.opts topic r.subs h.filed)

mark_user_closed-Quiet : (r : Robot) (ident : ℕ) → Quiet r (mark_user_closed r ident)
unfolding mark_user_closed
mark_user_closed-Quiet r ident = record {
  next = refl;
  order = λ n h. h;
  told = λ h. h;
  filed = λ h. λ roomy. AllFiled-mark r.subs ident (h roomy);
  calls = λ n h. h;
  subs = λ n h. h;
}

pub unsubscribe-IsOrderly :
    (r : Robot) (topic : String) (ident : ℕ) → IsOrderly r → IsOrderly (unsubscribe r topic ident).0
unfolding unsubscribe
unsubscribe-IsOrderly r topic ident h =
    unsubscribe_request-IsOrderly (mark_user_closed r ident) topic true
      (Quiet-IsOrderly (mark_user_closed-Quiet r ident) h)

finalize_slot-IsOrderly :
    (o : Option SubSlot) (r : Robot) (ident : ℕ) (loop_runs : Bool)
    → IsOrderly r
    → IsOrderly (finalize_slot r ident o loop_runs).0
unfolding finalize_slot
finalize_slot-IsOrderly none r ident loop_runs h = h
finalize_slot-IsOrderly (some slot) r ident loop_runs h =
    Quiet-IsOrderly (mark_user_closed-Quiet r ident) h

pub finalize-IsOrderly :
    (r : Robot) (ident : ℕ) (loop_runs : Bool)
    → IsOrderly r
    → IsOrderly (finalize r ident loop_runs).0
unfolding finalize
finalize-IsOrderly r ident loop_runs h =
    finalize_slot-IsOrderly (slot_of r ident) r ident loop_runs h
