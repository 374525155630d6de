-- ===== src/Slot/Deliver/Sequence/Turns.antt =====
-- Pushes that come in and rounds of the worker, in any order.
use mathlib.Core.Path.{subst}
use mathlib.Core.List.{append-nil, append_assoc}
use karo_x2_sdk_python.Prelude.{
  ℕ, ◌+◌, ◌≤◌, ◌≡◌, ◌≢◌, refl, ◌∙◌, List, [], ◌∷◌, ◌++◌, Option, some, none, arith, All, false, sym,
}
use karo_x2_sdk_python.Topic.{DeliverySemantics}
use karo_x2_sdk_python.Subscription.{CallbackMode, SubscriptionState, DropPolicy}
use karo_x2_sdk_python.Codec.Decode.{DecodedTopicPush}
use karo_x2_sdk_python.Slot.{SubSlot, SlotEffect, FrameDispatcher}
use karo_x2_sdk_python.Slot.Deliver.{
  Verdict, pass, discard, check_seq, check_semantics, status, count_push, put_push, hand_over,
  deliver_checked, deliver_push_to_sub, buffer_push, push_to_slot, worker_round, worker_queue,
  worker_takes,
}
use karo_x2_sdk_python.Slot.Deliver.Queues.{count_push-SameBuffers}
use karo_x2_sdk_python.Slot.Deliver.Sequence.{count_push-SameStream, hand_over-SameStream}
use karo_x2_sdk_python.Slot.Deliver.Sequence.Order.{
  queued, numbers, handed, handed-append, Ascending, Ascending-weaken, Ascending-skip, Coherent,
  hand_over-Ascending,
}

-- What comes to a subscription: a push with the times of the two clocks, or a round of its worker.
pub data SlotTurn : Type 0 where
  comes : DecodedTopicPush → ℕ → ℕ → SlotTurn
  works : SlotTurn

abbrev pub turn : SubSlot → SlotTurn → SubSlot × List SlotEffect
turn slot (comes push steady epoch_ms) = push_to_slot slot.state slot push steady epoch_ms
turn slot works = worker_round slot

pub turns : SubSlot → List SlotTurn → SubSlot × List SlotEffect
turns slot [] = (slot, [])
turns slot (t ∷ ts) =
    let (slot', posted) = turn slot t in
    let (slot'', effects) = turns slot' ts in (slot'', posted ++ effects)

-- A push carries a number of its stream.
abbrev pub HasNumber : SlotTurn → Type 0
HasNumber (comes push steady epoch_ms) = push.seq ≢ 0
HasNumber works = Unit

-- What was handed on, `out`, and what is queued go up strictly and are not newer than the stream.
pub record InOrder (lo : ℕ) (out : List ℕ) (slot : SubSlot) : Type 0 where
  pub event : slot.semantics ≡ DeliverySemantics.event
  pub coherent : Coherent slot.callback_mode slot.dispatch_queue
  pub order : Ascending lo (slot.last_seq + 1) (out ++ queued slot.dispatch_queue)

-- The fields that matter for the order stay.
record SameQueue (a b : SubSlot) : Type 0 where
  semantics : b.semantics ≡ a.semantics
  mode : b.callback_mode ≡ a.callback_mode
  queue : b.dispatch_queue ≡ a.dispatch_queue
  last_seq : b.last_seq ≡ a.last_seq

SameQueue-InOrder :
    {a b : SubSlot} (lo : ℕ) (out : List ℕ)
    → SameQueue a b
    → InOrder lo out a
    → InOrder lo (out ++ []) b
SameQueue-InOrder lo out s h = record {
  event = s.semantics ∙ h.event;
  coherent = rw (s.mode, s.queue) h.coherent;
  order = rw (append-nil out, s.queue, s.last_seq) h.order;
}

-- The verdict on a push: newer, with the stream moved on to it, or nothing happens.
abbrev Newer : SubSlot → ℕ → Verdict → Type 0
Newer slot seq (pass slot' posted) =
    (slot'.semantics ≡ slot.semantics)
    × (slot'.callback_mode ≡ slot.callback_mode)
    × (slot'.dispatch_queue ≡ slot.dispatch_queue)
    × (slot'.last_seq ≡ seq)
    × (slot.last_seq + 1 ≤ seq)
    × (handed posted ≡ [])
Newer slot seq (discard posted) = handed posted ≡ []

check_semantics-Newer :
    (slot : SubSlot) (seq : ℕ)
    → slot.semantics ≡ DeliverySemantics.event
    → seq ≢ 0
    → Newer slot seq (check_semantics slot.semantics slot seq)
unfolding check_semantics check_seq status
check_semantics-Newer slot seq event real = rw event (ground arith)

hand_over-mode :
    (slot : SubSlot) (mode : CallbackMode) (d : Option FrameDispatcher)
    (queue : Option (List DecodedTopicPush)) (push : DecodedTopicPush)
    → (hand_over slot mode d queue push).0.callback_mode ≡ slot.callback_mode
unfolding hand_over put_push
hand_over-mode slot CallbackMode.inline none queue push = refl
hand_over-mode slot CallbackMode.inline (some d) queue push = refl
hand_over-mode slot CallbackMode.dispatched d none push = refl
hand_over-mode slot CallbackMode.dispatched d (some queue) push = ground arith

deliver_checked-InOrder :
    (slot : SubSlot) (v : Verdict) (push : DecodedTopicPush) (steady epoch_ms : ℕ) (lo : ℕ)
    (out : List ℕ)
    → Newer slot push.seq v
    → InOrder lo out slot
    → let (slot', effects) = deliver_checked slot v push steady epoch_ms in
      InOrder lo (out ++ handed effects) slot'
unfolding deliver_checked
deliver_checked-InOrder slot (discard posted) push steady epoch_ms lo out c h = rw c (
    SameQueue-InOrder lo out
      (record { semantics = refl; mode = refl; queue = refl; last_seq = refl }) h)
deliver_checked-InOrder slot (pass checked posted) push steady epoch_ms lo out c h =
    let counted : SubSlot = count_push checked steady epoch_ms in
    let stream = (count_push-SameStream checked steady epoch_ms).0 in
    let buffers = count_push-SameBuffers checked steady epoch_ms in
    let mode : counted.callback_mode ≡ slot.callback_mode = buffers.mode ∙ c.1 in
    let queue : counted.dispatch_queue ≡ slot.dispatch_queue = buffers.queue ∙ c.2 in
    let r : SubSlot × List SlotEffect =
      hand_over counted counted.callback_mode counted.frame_dispatcher counted.dispatch_queue
        push in
    let same =
      hand_over-SameStream counted counted.callback_mode counted.frame_dispatcher
        counted.dispatch_queue push in
    let ordered =
      hand_over-Ascending counted counted.callback_mode counted.frame_dispatcher
        counted.dispatch_queue push lo out refl (rw (mode, queue) h.coherent)
        (rw queue (
          Ascending-weaken lo (slot.last_seq + 1) push.seq (out ++ queued slot.dispatch_queue) c.4
            h.order)) in
    let kept =
      hand_over-mode counted counted.callback_mode counted.frame_dispatcher counted.dispatch_queue
        push in
    record {
      event = same.0.semantics ∙ (stream.semantics ∙ (c.0 ∙ h.event));
      coherent = subst (λ (m : CallbackMode). Coherent m r.0.dispatch_queue) (sym kept) ordered.0;
      order =
          rw (same.0.last_seq ∙ (stream.last_seq ∙ c.3), handed-append posted r.1, c.5) ordered.1;
    }

buffer_push-SameQueue :
    (slot : SubSlot) (push : DecodedTopicPush) (policy : DropPolicy)
    → SameQueue slot (buffer_push slot push policy)
unfolding buffer_push
buffer_push-SameQueue slot push policy = ground arith

push_to_slot-InOrder :
    (state : SubscriptionState) (slot : SubSlot) (push : DecodedTopicPush) (steady epoch_ms : ℕ)
    (lo : ℕ) (out : List ℕ)
    → push.seq ≢ 0
    → InOrder lo out slot
    → let (slot', effects) = push_to_slot state slot push steady epoch_ms in
      InOrder lo (out ++ handed effects) slot'
unfolding push_to_slot deliver_push_to_sub
push_to_slot-InOrder SubscriptionState.closed slot push steady epoch_ms lo out real h =
    SameQueue-InOrder lo out (ground arith) h
push_to_slot-InOrder SubscriptionState.pending slot push steady epoch_ms lo out real h =
    SameQueue-InOrder lo out (buffer_push-SameQueue slot push slot.drop_policy) h
push_to_slot-InOrder SubscriptionState.paused slot push steady epoch_ms lo out real h =
    SameQueue-InOrder lo out (ground arith) h
push_to_slot-InOrder SubscriptionState.active slot push steady epoch_ms lo out real h =
    deliver_checked-InOrder slot (check_semantics slot.semantics slot push.seq) push steady epoch_ms
      lo out (check_semantics-Newer slot push.seq h.event real) h

-- The worker hands on the oldest of the queue, or loses it.
worker_takes-Ascending :
    (state : SubscriptionState) (d : Option FrameDispatcher) (push : DecodedTopicPush) (lo hi : ℕ)
    (out ns : List ℕ)
    → Ascending lo hi (out ++ push.seq ∷ ns)
    → Ascending lo hi ((out ++ handed (worker_takes state d push)) ++ ns)
unfolding worker_takes
worker_takes-Ascending SubscriptionState.closed d push lo hi out ns h =
    rw (append-nil out) (Ascending-skip lo hi push.seq out ns h)
worker_takes-Ascending SubscriptionState.pending none push lo hi out ns h =
    rw (append-nil out) (Ascending-skip lo hi push.seq out ns h)
worker_takes-Ascending SubscriptionState.active none push lo hi out ns h =
    rw (append-nil out) (Ascending-skip lo hi push.seq out ns h)
worker_takes-Ascending SubscriptionState.paused none push lo hi out ns h =
    rw (append-nil out) (Ascending-skip lo hi push.seq out ns h)
worker_takes-Ascending SubscriptionState.pending (some d) push lo hi out ns h =
    rw (append_assoc out (push.seq ∷ []) ns) h
worker_takes-Ascending SubscriptionState.active (some d) push lo hi out ns h =
    rw (append_assoc out (push.seq ∷ []) ns) h
worker_takes-Ascending SubscriptionState.paused (some d) push lo hi out ns h =
    rw (append_assoc out (push.seq ∷ []) ns) h

Coherent-rest :
    (mode : CallbackMode) (push : DecodedTopicPush) (queue : List DecodedTopicPush)
    → Coherent mode (some (push ∷ queue))
    → Coherent mode (some queue)
Coherent-rest CallbackMode.inline push queue c = absurd (cc)
Coherent-rest CallbackMode.dispatched push queue c = tt

worker_queue-InOrder :
    (slot : SubSlot) (queue : Option (List DecodedTopicPush)) (lo : ℕ) (out : List ℕ)
    → slot.dispatch_queue ≡ queue
    → InOrder lo out slot
    → let (slot', effects) = worker_queue slot queue in InOrder lo (out ++ handed effects) slot'
unfolding worker_queue
worker_queue-InOrder slot none lo out e h = SameQueue-InOrder lo out (ground arith) h
worker_queue-InOrder slot (some []) lo out e h = SameQueue-InOrder lo out (ground arith) h
worker_queue-InOrder slot (some (push ∷ queue)) lo out e h = record {
  event = h.event;
  coherent =
      Coherent-rest slot.callback_mode push queue
        (subst (λ q. Coherent slot.callback_mode q) e h.coherent);
  order =
      worker_takes-Ascending slot.state slot.frame_dispatcher push lo (slot.last_seq + 1) out
        (numbers queue) (subst (λ q. Ascending lo (slot.last_seq + 1) (out ++ queued q)) e h.order);
}

worker_by_state :
    (state : SubscriptionState) (slot : SubSlot) (lo : ℕ) (out : List ℕ)
    → InOrder lo out slot
    → let r : SubSlot × List SlotEffect = elim state as (λ _. SubSlot × List SlotEffect) [
      | SubscriptionState.closed ↦ (record slot { dispatch_worker = false }, [])
      | _ ↦ worker_queue slot slot.dispatch_queue
    ] in
      InOrder lo (out ++ handed r.1) r.0
worker_by_state SubscriptionState.closed slot lo out h = SameQueue-InOrder lo out (ground arith) h
worker_by_state SubscriptionState.pending slot lo out h =
    worker_queue-InOrder slot slot.dispatch_queue lo out refl h
worker_by_state SubscriptionState.active slot lo out h =
    worker_queue-InOrder slot slot.dispatch_queue lo out refl h
worker_by_state SubscriptionState.paused slot lo out h =
    worker_queue-InOrder slot slot.dispatch_queue lo out refl h

turn-InOrder :
    (t : SlotTurn) (slot : SubSlot) (lo : ℕ) (out : List ℕ)
    → HasNumber t
    → InOrder lo out slot
    → InOrder lo (out ++ handed (turn slot t).1) (turn slot t).0
unfolding worker_round
turn-InOrder (comes push steady epoch_ms) slot lo out real h =
    push_to_slot-InOrder slot.state slot push steady epoch_ms lo out real h
turn-InOrder works slot lo out real h = worker_by_state slot.state slot lo out h

turns-InOrder :
    (ts : List SlotTurn) (slot : SubSlot) (lo : ℕ) (out : List ℕ)
    → All HasNumber ts
    → InOrder lo out slot
    → let (slot', effects) = turns slot ts in InOrder lo (out ++ handed effects) slot'
unfolding turns
turns-InOrder [] slot lo out real h = rw (append-nil out) h
turns-InOrder (t ∷ ts) slot lo out real h =
    let r : SubSlot × List SlotEffect = turn slot t in
    let later =
      turns-InOrder ts r.0 lo (out ++ handed r.1) real.1 (turn-InOrder t slot lo out real.0 h) in
    rw (handed-append r.1 (turns r.0 ts).1)
      (rw⁻¹ (append_assoc out (handed r.1) (handed (turns r.0 ts).1)) later)

-- Over any numbered pushes and rounds of the worker, in any order, for a subscription of an event
-- topic in either mode, in any state and with either policy for a full queue: if what is queued
-- goes up strictly from `lo` on and is not newer than the stream, with nothing queued in the INLINE
-- mode, then what is handed on, followed by what is queued afterwards, goes up strictly from `lo` on
-- and is not newer than the stream. No message is handed on twice, or after a newer one.
pub turns_ascend :
    (ts : List SlotTurn) (slot : SubSlot) (lo : ℕ)
    → All HasNumber ts
    → InOrder lo [] slot
    → let (slot', effects) = turns slot ts in
      Ascending lo (slot'.last_seq + 1) (handed effects ++ queued slot'.dispatch_queue)
turns_ascend ts slot lo real h = (turns-InOrder ts slot lo [] real h).order
