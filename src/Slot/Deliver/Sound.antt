-- ===== src/Slot/Deliver/Sound.antt =====
-- What holds of a slot as long as it is subscribed, and that every step of a delivery keeps it.
use karo_x2_sdk_python.Prelude.{
  ℕ, suc, length, false, ◌≡◌, ◌≢◌, refl, ap, ◌∙◌, sym, List, [], ◌∷◌, Option, some, none, arith,
  ◌⊎◌, inl, inr, Bool-cases,
}
use karo_x2_sdk_python.Subscription.{CallbackMode, SubscriptionState}
use karo_x2_sdk_python.Codec.Decode.{DecodedTopicPush}
use karo_x2_sdk_python.Slot.{SubSlot, SlotEffect, FrameDispatcher}
use karo_x2_sdk_python.Slot.Deliver.{
  Verdict, pass, discard, check_semantics, count_push, put_push, hand_over, deliver_checked,
  deliver_push_to_sub, buffer_push, push_to_slot, is_stale, drain_one, drain_loop,
  drain_pending_buffer, worker_round, worker_queue,
}
use karo_x2_sdk_python.Slot.Deliver.Queues.{
  queue_length, Wired-some, IsBounded, IsWired, count_push-SameBuffers, Judged,
  check_semantics-Judged,
}
use karo_x2_sdk_python.Slot.Deliver.Queues.Push.{push_to_slot-CountedOnce}
use karo_x2_sdk_python.Slot.Deliver.Queues.Drain.{drain_pending_buffer_lem, deliver_checked-pending}

-- The slot is not closed, both buffers are within their size, a push can be handed on, and nothing
-- is held back but for an ack.
pub record IsSound (slot : SubSlot) : Type 0 where
  pub alive : slot.state ≢ SubscriptionState.closed
  pub bounded : IsBounded slot
  pub wired : IsWired slot
  pub waits : (slot.state ≡ SubscriptionState.pending) ⊎ (slot.pending_buffer ≡ [])

-- The two fields that a delivery leaves alone.
abbrev pub Stays : SubSlot → SubSlot → Type 0
Stays a b = (b.state ≡ a.state) × (b.topic ≡ a.topic)

hand_over-Stays :
    (slot : SubSlot) (mode : CallbackMode) (d : Option FrameDispatcher)
    (queue : Option (List DecodedTopicPush)) (push : DecodedTopicPush)
    → Stays slot (hand_over slot mode d queue push).0
unfolding hand_over put_push
hand_over-Stays slot CallbackMode.inline none queue push = (refl, refl)
hand_over-Stays slot CallbackMode.inline (some d) queue push = (refl, refl)
hand_over-Stays slot CallbackMode.dispatched d none push = (refl, refl)
hand_over-Stays slot CallbackMode.dispatched d (some queue) push = ground arith

deliver_checked-Stays :
    (slot : SubSlot) (v : Verdict) (push : DecodedTopicPush) (steady epoch_ms : ℕ)
    → Judged slot push v
    → Stays slot (deliver_checked slot v push steady epoch_ms).0
unfolding deliver_checked
deliver_checked-Stays slot (discard posted) push steady epoch_ms j = (refl, refl)
deliver_checked-Stays slot (pass checked posted) push steady epoch_ms j =
    let counted : SubSlot = count_push checked steady epoch_ms in
    let same = count_push-SameBuffers checked steady epoch_ms in
    let over =
      hand_over-Stays counted counted.callback_mode counted.frame_dispatcher counted.dispatch_queue
        push in
    (over.0 ∙ (same.state ∙ j.0.state), over.1 ∙ (same.topic ∙ j.0.topic))

deliver_push_to_sub-Stays :
    (slot : SubSlot) (push : DecodedTopicPush) (steady epoch_ms : ℕ)
    → Stays slot (deliver_push_to_sub slot push steady epoch_ms).0
unfolding deliver_push_to_sub
deliver_push_to_sub-Stays slot push steady epoch_ms =
    deliver_checked-Stays slot (check_semantics slot.semantics slot push.seq) push steady epoch_ms
      (check_semantics-Judged slot push slot.semantics refl)

deliver_push_to_sub-pending :
    (slot : SubSlot) (push : DecodedTopicPush) (steady epoch_ms : ℕ)
    → (deliver_push_to_sub slot push steady epoch_ms).0.pending_buffer ≡ slot.pending_buffer
unfolding deliver_push_to_sub
deliver_push_to_sub-pending slot push steady epoch_ms =
    deliver_checked-pending slot (check_semantics slot.semantics slot push.seq) push steady epoch_ms
      (check_semantics-Judged slot push slot.semantics refl)

push_by_state :
    (state : SubscriptionState) (slot : SubSlot) (push : DecodedTopicPush) (steady epoch_ms : ℕ)
    → slot.state ≡ state
    → IsSound slot
    → let slot' = (push_to_slot state slot push steady epoch_ms).0 in
      Stays slot slot' × ((slot'.state ≡ SubscriptionState.pending) ⊎ (slot'.pending_buffer ≡ []))
unfolding push_to_slot buffer_push
push_by_state SubscriptionState.closed slot push steady epoch_ms e h = ((refl, refl), h.waits)
push_by_state SubscriptionState.pending slot push steady epoch_ms e h = ground arith
push_by_state SubscriptionState.paused slot push steady epoch_ms e h = ((refl, refl), h.waits)
push_by_state SubscriptionState.active slot push steady epoch_ms e h =
    let stays = deliver_push_to_sub-Stays slot push steady epoch_ms in
    let same = deliver_push_to_sub-pending slot push steady epoch_ms in
    (stays, elim h.waits [ inl p ↦ inl (stays.0 ∙ p) | inr b ↦ inr (same ∙ b) ])

-- A push keeps a slot sound.
pub push_to_slot-IsSound :
    (slot : SubSlot) (push : DecodedTopicPush) (steady epoch_ms : ℕ)
    → IsSound slot
    → let slot' = (push_to_slot slot.state slot push steady epoch_ms).0 in
      IsSound slot' × Stays slot slot'
push_to_slot-IsSound slot push steady epoch_ms h =
    let moved = push_by_state slot.state slot push steady epoch_ms refl h in
    elim (push_to_slot-CountedOnce slot push steady epoch_ms h.bounded h.wired h.alive) [
      | inl a ↦ (
        record {
          alive = λ e. h.alive (sym moved.0.0 ∙ e);
          bounded = a.1.bounded;
          wired = a.1.wired;
          waits = moved.1;
        },
        moved.0,
      )
      | inr a ↦ (
        record {
          alive = λ e. h.alive (sym moved.0.0 ∙ e);
          bounded = a.1.bounded;
          wired = a.1.wired;
          waits = moved.1;
        },
        moved.0,
      )
    ]

drain_one-Stays :
    (popped : SubSlot) (front : DecodedTopicPush) (next_seq steady epoch_ms : ℕ)
    → Stays popped (drain_one popped front next_seq steady epoch_ms).0
unfolding drain_one
drain_one-Stays popped front next_seq steady epoch_ms =
    elim (Bool-cases (is_stale popped.semantics next_seq front.seq)) [
      | inl stale ↦ rw stale (refl, refl)
      | inr fresh ↦ rw fresh (deliver_push_to_sub-Stays popped front steady epoch_ms)
    ]

drain_loop-Stays :
    (buffer : List DecodedTopicPush) (slot : SubSlot) (next_seq steady epoch_ms : ℕ)
    → Stays slot (drain_loop buffer slot next_seq steady epoch_ms).0
unfolding drain_loop
drain_loop-Stays [] slot next_seq steady epoch_ms = (refl, refl)
drain_loop-Stays (front ∷ rest) slot next_seq steady epoch_ms =
    let popped : SubSlot = record slot { pending_buffer = rest } in
    let one = drain_one-Stays popped front next_seq steady epoch_ms in
    let later =
      drain_loop-Stays rest (drain_one popped front next_seq steady epoch_ms).0 next_seq steady
        epoch_ms in
    (later.0 ∙ one.0, later.1 ∙ one.1)

-- Draining a slot that goes on leaves it sound, with nothing held back.
pub drain_pending_buffer-IsSound :
    (slot : SubSlot) (next_seq steady epoch_ms : ℕ)
    → slot.state ≢ SubscriptionState.closed
    → IsBounded slot
    → IsWired slot
    → let slot' = (drain_pending_buffer slot next_seq steady epoch_ms).0 in
      IsSound slot' × Stays slot slot'
unfolding drain_pending_buffer
drain_pending_buffer-IsSound slot next_seq steady epoch_ms alive b w =
    let stays = drain_loop-Stays slot.pending_buffer slot next_seq steady epoch_ms in
    let drained = drain_pending_buffer_lem slot next_seq steady epoch_ms b w in
    (
      record {
        alive = λ e. alive (sym stays.0 ∙ e);
        bounded = drained.0;
        wired = drained.1;
        waits = inr drained.2;
      },
      stays,
    )

-- An empty buffer has nothing to drain.
pub drain_pending_buffer-empty :
    (slot : SubSlot) (k steady epoch_ms : ℕ)
    → slot.pending_buffer ≡ []
    → drain_pending_buffer slot k steady epoch_ms ≡ (slot, [])
unfolding drain_pending_buffer drain_loop
drain_pending_buffer-empty slot k steady epoch_ms empty =
    ap (λ (buffer : List DecodedTopicPush). drain_loop buffer slot k steady epoch_ms) empty

worker_less : (slot : SubSlot) → IsSound slot → IsSound (record slot { dispatch_worker = false })
worker_less slot h = record {
  alive = h.alive;
  bounded = record {
    room = h.bounded.room;
    pending = h.bounded.pending;
    queued = h.bounded.queued;
  };
  wired = record { dispatcher = h.wired.dispatcher; queue = h.wired.queue };
  waits = h.waits;
}

queue_length-taken :
    (slot : SubSlot) (push : DecodedTopicPush) (queue : List DecodedTopicPush)
    → slot.dispatch_queue ≡ some (push ∷ queue)
    → queue_length slot.dispatch_queue ≡ suc (length queue)
queue_length-taken slot push queue e = ap queue_length e

-- A round of the worker keeps a slot sound.
worker_queue-IsSound :
    (slot : SubSlot) (queue : Option (List DecodedTopicPush))
    → slot.dispatch_queue ≡ queue
    → IsSound slot
    → let slot' = (worker_queue slot queue).0 in IsSound slot' × Stays slot slot'
unfolding worker_queue
worker_queue-IsSound slot none e h = (worker_less slot h, (refl, refl))
worker_queue-IsSound slot (some []) e h = (h, (refl, refl))
worker_queue-IsSound slot (some (push ∷ queue)) e h = (
  record {
    alive = h.alive;
    bounded = record {
      room = h.bounded.room;
      pending = h.bounded.pending;
      queued = omega (arith, h.bounded.queued, queue_length-taken slot push queue e);
    };
    wired = record { dispatcher = h.wired.dispatcher; queue = Wired-some slot.callback_mode queue };
    waits = h.waits;
  },
  (refl, refl),
)

worker_by_state :
    (state : SubscriptionState) (slot : SubSlot)
    → IsSound slot
    → let slot' : SubSlot =
        (elim state as (λ _. SubSlot × List SlotEffect) [
          | SubscriptionState.closed ↦ (record slot { dispatch_worker = false }, [])
          | _ ↦ worker_queue slot slot.dispatch_queue
        ]).0 in
      IsSound slot' × Stays slot slot'
worker_by_state SubscriptionState.closed slot h = (worker_less slot h, (refl, refl))
worker_by_state SubscriptionState.pending slot h =
    worker_queue-IsSound slot slot.dispatch_queue refl h
worker_by_state SubscriptionState.active slot h =
    worker_queue-IsSound slot slot.dispatch_queue refl h
worker_by_state SubscriptionState.paused slot h =
    worker_queue-IsSound slot slot.dispatch_queue refl h

pub worker_round-IsSound :
    (slot : SubSlot)
    → IsSound slot
    → IsSound (worker_round slot).0 × Stays slot (worker_round slot).0
unfolding worker_round
worker_round-IsSound slot h = worker_by_state slot.state slot h
