-- ===== src/Slot/Deliver/Sequence.antt =====
-- What `_deliver_push_to_sub` guarantees on the sequence numbers of an event topic.
pub mod Order
pub mod Turns
use karo_x2_sdk_python.Prelude.{
  ℕ, ◌+◌, ◌≤◌, ◌<◌, ◌≡◌, ◌≢◌, true, List, [], ◌∷◌, ◌++◌, Option, some, none, arith, All, ◌∙◌,
}
use karo_x2_sdk_python.Topic.{DeliverySemantics}
use karo_x2_sdk_python.Subscription.{CallbackMode}
use karo_x2_sdk_python.Codec.Decode.{DecodedTopicPush}
use karo_x2_sdk_python.Slot.{SubSlot, SlotEffect, fire_status, post_log, frame, FrameDispatcher}
use karo_x2_sdk_python.Slot.Deliver.{
  Verdict, pass, discard, status, check_seq, check_semantics, count_push, put_push, hand_over,
  deliver_checked, deliver_push_to_sub,
}

-- The number of messages that one status callback reports as missing.
abbrev pub gap_of : Option ℕ → ℕ
gap_of none = 0
gap_of (some n) = n

-- The messages that the effects report as missing.
abbrev pub lost : List SlotEffect → ℕ
lost [] = 0
lost (fire_status s ∷ effects) = gap_of s.gap_count + lost effects
lost (post_log l m ∷ effects) = lost effects
lost (frame d push ∷ effects) = lost effects

pub lost-append : (xs ys : List SlotEffect) → lost (xs ++ ys) ≡ lost xs + lost ys
lost-append [] ys = omega arith
lost-append (fire_status s ∷ xs) ys = omega (arith, lost-append xs ys)
lost-append (post_log l m ∷ xs) ys = lost-append xs ys
lost-append (frame d push ∷ xs) ys = lost-append xs ys

-- An event stream whose application listens to the status, after its first message.
pub record IsRunning (slot : SubSlot) : Type 0 where
  pub event : slot.semantics ≡ DeliverySemantics.event
  pub listens : slot.status_callback ≡ true
  pub begun : 0 < slot.last_seq

-- What a delivery leaves alone in the fields that the sequence check reads.
pub record SameStream (a b : SubSlot) : Type 0 where
  pub semantics : b.semantics ≡ a.semantics
  pub status_callback : b.status_callback ≡ a.status_callback
  pub last_seq : b.last_seq ≡ a.last_seq

pub count_push-SameStream :
    (slot : SubSlot) (steady epoch_ms : ℕ)
    → SameStream slot (count_push slot steady epoch_ms)
      × ((count_push slot steady epoch_ms).messages_received ≡ slot.messages_received + 1)
unfolding count_push
count_push-SameStream slot steady epoch_ms = ground arith

hand_over-SameStream :
    (slot : SubSlot) (mode : CallbackMode) (d : Option FrameDispatcher)
    (queue : Option (List DecodedTopicPush)) (push : DecodedTopicPush)
    → let (slot', effects) = hand_over slot mode d queue push in
      SameStream slot slot'
      × (slot'.messages_received ≡ slot.messages_received)
      × (lost effects ≡ 0)
unfolding hand_over put_push
hand_over-SameStream slot CallbackMode.inline none queue push = ground arith
hand_over-SameStream slot CallbackMode.inline (some d) queue push = ground arith
hand_over-SameStream slot CallbackMode.dispatched d none push = ground arith
hand_over-SameStream slot CallbackMode.dispatched d (some queue) push = ground arith

-- What the check says of a running stream: a message goes through with the stream moved on to it,
-- and the messages in between are reported; or it is not newer, and no gap is reported.
abbrev Checked : SubSlot → ℕ → Verdict → Type 0
Checked slot seq (pass slot' posted) =
    (slot'.semantics ≡ slot.semantics)
    × (slot'.status_callback ≡ slot.status_callback)
    × (slot'.messages_received ≡ slot.messages_received)
    × (slot'.last_seq ≡ seq)
    × (seq ≡ slot.last_seq + 1 + lost posted)
Checked slot seq (discard posted) = (seq ≤ slot.last_seq) × (lost posted ≡ 0)

check_semantics-Checked :
    (slot : SubSlot) (seq : ℕ)
    → IsRunning slot
    → seq ≢ 0
    → Checked slot seq (check_semantics slot.semantics slot seq)
unfolding check_semantics check_seq status
check_semantics-Checked slot seq run real = rw run.event (ground arith)

-- What the delivery of the message `seq` does to a running stream.
pub record Advances (slot : SubSlot) (seq : ℕ) (r : SubSlot × List SlotEffect) : Type 0 where
  pub running : IsRunning r.0
  pub newest : slot.last_seq ≤ r.0.last_seq
  pub reached : seq ≤ r.0.last_seq
  pub account :
      r.0.last_seq + slot.messages_received ≡ slot.last_seq + r.0.messages_received + lost r.1

deliver_checked-Advances :
    (slot : SubSlot) (v : Verdict) (push : DecodedTopicPush) (steady epoch_ms : ℕ)
    → IsRunning slot
    → Checked slot push.seq v
    → Advances slot push.seq (deliver_checked slot v push steady epoch_ms)
unfolding deliver_checked
deliver_checked-Advances slot (discard posted) push steady epoch_ms run c = record {
  running = run;
  newest = omega arith;
  reached = omega arith;
  account = omega arith;
}
deliver_checked-Advances slot (pass checked posted) push steady epoch_ms run c =
    let counted : SubSlot = count_push checked steady epoch_ms in
    let same = count_push-SameStream checked steady epoch_ms in
    let over =
      hand_over-SameStream counted counted.callback_mode counted.frame_dispatcher
        counted.dispatch_queue push in
    let effects : List SlotEffect =
      (hand_over counted counted.callback_mode counted.frame_dispatcher counted.dispatch_queue
        push).1 in
    record {
      running = record {
        event = over.0.semantics ∙ (same.0.semantics ∙ (c.0 ∙ run.event));
        listens = over.0.status_callback ∙ (same.0.status_callback ∙ (c.1 ∙ run.listens));
        begun = omega (arith, run.begun, over.0.last_seq, same.0.last_seq);
      };
      newest = omega (arith, over.0.last_seq, same.0.last_seq);
      reached = omega (arith, over.0.last_seq, same.0.last_seq);
      account = omega (arith, over.0.last_seq, same.0.last_seq, lost-append posted effects);
    }

pub deliver_push_to_sub-Advances :
    (slot : SubSlot) (push : DecodedTopicPush) (steady epoch_ms : ℕ)
    → IsRunning slot
    → push.seq ≢ 0
    → Advances slot push.seq (deliver_push_to_sub slot push steady epoch_ms)
unfolding deliver_push_to_sub
deliver_push_to_sub-Advances slot push steady epoch_ms run real =
    deliver_checked-Advances slot (check_semantics slot.semantics slot push.seq) push steady
      epoch_ms run (check_semantics-Checked slot push.seq run real)

-- Pushes one after another, each with the times of the two clocks.
pub deliver_all : SubSlot → List (DecodedTopicPush × ℕ × ℕ) → SubSlot × List SlotEffect
deliver_all slot [] = (slot, [])
deliver_all slot ((push, steady, epoch_ms) ∷ rest) =
    let (slot', posted) = deliver_push_to_sub slot push steady epoch_ms in
    let (slot'', effects) = deliver_all slot' rest in (slot'', posted ++ effects)

-- The push carries a number of its stream.
abbrev pub IsNumbered : DecodedTopicPush × ℕ × ℕ → Type 0
IsNumbered (push, _, _) = push.seq ≢ 0

-- In a running event stream with a status callback, over any numbered pushes, in any order and with
-- any repetitions, the newest number seen has gone up by the number of messages counted as received
-- and the number of messages reported as missing, and it has not gone down. (A message that a full
-- queue drops is counted as received before.)
pub deliver_all_account :
    (slot : SubSlot) (pushes : List (DecodedTopicPush × ℕ × ℕ))
    → IsRunning slot
    → All IsNumbered pushes
    → let (slot', effects) = deliver_all slot pushes in
      IsRunning slot'
      × (slot.last_seq ≤ slot'.last_seq)
      × (slot'.last_seq + slot.messages_received
          ≡ slot.last_seq + slot'.messages_received + lost effects)
unfolding deliver_all
deliver_all_account slot [] run real = (run, omega arith, omega arith)
deliver_all_account slot ((push, steady, epoch_ms) ∷ rest) run real =
    let r : SubSlot × List SlotEffect = deliver_push_to_sub slot push steady epoch_ms in
    let step : Advances slot push.seq r =
      deliver_push_to_sub-Advances slot push steady epoch_ms run real.0 in
    let later = deliver_all_account r.0 rest step.running real.1 in
    (
      later.0,
      omega (arith, step.newest, later.1),
      omega (arith, step.account, later.2, lost-append r.1 (deliver_all r.0 rest).1),
    )
