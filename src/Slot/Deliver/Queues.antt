-- ===== src/Slot/Deliver/Queues.antt =====
-- The buffers of a slot, how they are counted, and what the steps of a delivery do to them.
pub mod Push
pub mod Drain
pub mod Due
pub mod Drained
use karo_x2_sdk_python.Prelude.{
  ℕ, suc, ◌+◌, ◌≤◌, ◌≡◌, ◌≢◌, refl, List, [], ◌∷◌, ◌++◌, Option, some, none, arith, ◌∙◌, length,
  length-append, length-tail, tail, ◌⊎◌, inl, inr, leb, Bool-cases, ap,
}
use karo_x2_sdk_python.Topic.{DeliverySemantics}
use karo_x2_sdk_python.Subscription.{CallbackMode, SubscriptionState, DropPolicy}
use karo_x2_sdk_python.Codec.Decode.{DecodedTopicPush}
use karo_x2_sdk_python.Slot.{SubSlot, SlotEffect, fire_status, post_log, frame, FrameDispatcher}
use karo_x2_sdk_python.Slot.Deliver.{
  Verdict, pass, discard, status, check_seq, check_semantics, count_push, put_push, hand_over,
  deliver_checked, deliver_push_to_sub, buffer_push, push_to_slot, drain_pending_buffer, drain_loop,
  drain_one, is_stale,
}

abbrev pub queue_length : Option (List DecodedTopicPush) → ℕ
queue_length none = 0
queue_length (some queue) = length queue

-- The frames that the effects hand to the dispatcher.
abbrev pub frames : List SlotEffect → ℕ
frames [] = 0
frames (fire_status s ∷ effects) = frames effects
frames (post_log l m ∷ effects) = frames effects
frames (frame d push ∷ effects) = suc (frames effects)

pub frames-append : (xs ys : List SlotEffect) → frames (xs ++ ys) ≡ frames xs + frames ys
frames-append [] ys = omega arith
frames-append (fire_status s ∷ xs) ys = frames-append xs ys
frames-append (post_log l m ∷ xs) ys = frames-append xs ys
frames-append (frame d push ∷ xs) ys = omega (arith, frames-append xs ys)

-- Both buffers are within the size that the options give.
pub record IsBounded (slot : SubSlot) : Type 0 where
  pub room : 1 ≤ slot.queue_size
  pub pending : length slot.pending_buffer ≤ slot.queue_size
  pub queued : queue_length slot.dispatch_queue ≤ slot.queue_size

-- The slot can hand a push on: it has a dispatcher and, in the DISPATCHED mode, a queue.
abbrev pub Wired : CallbackMode → Option (List DecodedTopicPush) → Type 0
Wired CallbackMode.inline queue = Unit
Wired CallbackMode.dispatched none = ⊥
Wired CallbackMode.dispatched (some queue) = Unit

pub record IsWired (slot : SubSlot) : Type 0 where
  pub dispatcher : (d : FrameDispatcher) × (slot.frame_dispatcher ≡ some d)
  pub queue : Wired slot.callback_mode slot.dispatch_queue

-- The pushes that a slot holds or has dropped.
abbrev pub held : SubSlot → ℕ
held slot = length slot.pending_buffer + queue_length slot.dispatch_queue + slot.drop_count

put_push-held :
    (slot : SubSlot) (queue : List DecodedTopicPush) (policy : DropPolicy) (push : DecodedTopicPush)
    → slot.dispatch_queue ≡ some queue
    → IsBounded slot
    → IsBounded (put_push slot queue policy push)
      × (held (put_push slot queue policy push) ≡ held slot + 1)
unfolding put_push
put_push-held slot queue policy push e b = ground (
  arith,
  length-append queue (push ∷ []),
  length-append (tail queue) (push ∷ []),
  length-tail queue,
)

buffer_push-held :
    (slot : SubSlot) (push : DecodedTopicPush) (policy : DropPolicy)
    → IsBounded slot
    → IsBounded (buffer_push slot push policy)
      × (held (buffer_push slot push policy) ≡ held slot + 1)
unfolding buffer_push
buffer_push-held slot push policy b = ground (
  arith,
  length-append slot.pending_buffer (push ∷ []),
  length-append (tail slot.pending_buffer) (push ∷ []),
  length-tail slot.pending_buffer,
)

-- The slot afterwards is within its size, and `n` pushes more are held, dropped or dispatched.
pub record Accounts (slot : SubSlot) (n : ℕ) (r : SubSlot × List SlotEffect) : Type 0 where
  pub bounded : IsBounded r.0
  pub wired : IsWired r.0
  pub account : held r.0 + frames r.1 ≡ held slot + n

pub Wired-some : (mode : CallbackMode) (queue : List DecodedTopicPush) → Wired mode (some queue)
Wired-some CallbackMode.inline queue = tt
Wired-some CallbackMode.dispatched queue = tt

put_push-IsWired :
    (slot : SubSlot) (queue : List DecodedTopicPush) (policy : DropPolicy) (push : DecodedTopicPush)
    → slot.dispatch_queue ≡ some queue
    → IsWired slot
    → IsWired (put_push slot queue policy push)
unfolding put_push
put_push-IsWired slot queue policy push e w =
    elim (Bool-cases (leb slot.queue_size (length queue))) [
      | inl full ↦ rw full (full_case policy)
      | inr room ↦ rw room (record {
        dispatcher = w.dispatcher;
        queue = Wired-some slot.callback_mode (queue ++ push ∷ []);
      })
    ]
  where
    full_case :
        (policy : DropPolicy)
        → IsWired (elim policy [
          | DropPolicy.drop_oldest ↦ record slot {
            dispatch_queue = some (tail queue ++ push ∷ []);
            drop_count = slot.drop_count + 1;
          }
          | DropPolicy.drop_newest ↦ record slot { drop_count = slot.drop_count + 1 }
        ])
    full_case DropPolicy.drop_oldest = record {
      dispatcher = w.dispatcher;
      queue = Wired-some slot.callback_mode (tail queue ++ push ∷ []);
    }
    full_case DropPolicy.drop_newest = record { dispatcher = w.dispatcher; queue = w.queue }

hand_over-Accounts :
    (slot : SubSlot) (mode : CallbackMode) (d : Option FrameDispatcher)
    (queue : Option (List DecodedTopicPush)) (push : DecodedTopicPush)
    → slot.callback_mode ≡ mode
    → slot.frame_dispatcher ≡ d
    → slot.dispatch_queue ≡ queue
    → IsBounded slot
    → IsWired slot
    → Accounts slot 1 (hand_over slot mode d queue push)
unfolding hand_over put_push
hand_over-Accounts slot CallbackMode.inline none queue push em ed eq b w = ground arith
hand_over-Accounts slot CallbackMode.inline (some d) queue push em ed eq b w = record {
  bounded = b;
  wired = w;
  account = omega arith;
}
hand_over-Accounts slot CallbackMode.dispatched d none push em ed eq b w =
    absurd (rw (em, eq) at w.queue)
hand_over-Accounts slot CallbackMode.dispatched d (some queue) push em ed eq b w =
    let put = put_push-held slot queue slot.drop_policy push eq b in
    record {
      bounded = put.0;
      wired = put_push-IsWired slot queue slot.drop_policy push eq w;
      account = omega (arith, put.1);
    }

-- What the sequence check and the statistics leave alone.
pub record SameBuffers (a b : SubSlot) : Type 0 where
  pub queue_size : b.queue_size ≡ a.queue_size
  pub pending : b.pending_buffer ≡ a.pending_buffer
  pub queue : b.dispatch_queue ≡ a.dispatch_queue
  pub drops : b.drop_count ≡ a.drop_count
  pub mode : b.callback_mode ≡ a.callback_mode
  pub dispatcher : b.frame_dispatcher ≡ a.frame_dispatcher
  pub state : b.state ≡ a.state
  pub topic : b.topic ≡ a.topic

SameBuffers-trans : {a b c : SubSlot} → SameBuffers a b → SameBuffers b c → SameBuffers a c
SameBuffers-trans p q = record {
  queue_size = q.queue_size ∙ p.queue_size;
  pending = q.pending ∙ p.pending;
  queue = q.queue ∙ p.queue;
  drops = q.drops ∙ p.drops;
  mode = q.mode ∙ p.mode;
  dispatcher = q.dispatcher ∙ p.dispatcher;
  state = q.state ∙ p.state;
  topic = q.topic ∙ p.topic;
}

pub count_push-SameBuffers :
    (slot : SubSlot) (steady epoch_ms : ℕ) → SameBuffers slot (count_push slot steady epoch_ms)
unfolding count_push
count_push-SameBuffers slot steady epoch_ms = ground arith

pub SameBuffers-IsBounded : {a b : SubSlot} → SameBuffers a b → IsBounded a → IsBounded b
SameBuffers-IsBounded s h = record {
  room = rw s.queue_size h.room;
  pending = rw (s.pending, s.queue_size) h.pending;
  queued = rw (s.queue, s.queue_size) h.queued;
}

pub SameBuffers-IsWired : {a b : SubSlot} → SameBuffers a b → IsWired a → IsWired b
SameBuffers-IsWired s h = record {
  dispatcher = (h.dispatcher.0, s.dispatcher ∙ h.dispatcher.1);
  queue = rw (s.mode, s.queue) h.queue;
}

SameBuffers-held : {a b : SubSlot} → SameBuffers a b → held b ≡ held a
SameBuffers-held s = rw (s.pending, s.queue, s.drops)

-- A verdict on the slot: through with the buffers as they were, or a message that is not newer.
abbrev pub Judged : SubSlot → DecodedTopicPush → Verdict → Type 0
Judged slot push (pass checked posted) = SameBuffers slot checked × (frames posted ≡ 0)
Judged slot push (discard posted) =
    (slot.semantics ≡ DeliverySemantics.event)
    × (push.seq ≢ 0)
    × (push.seq ≤ slot.last_seq)
    × (frames posted ≡ 0)

pub check_semantics-Judged :
    (slot : SubSlot) (push : DecodedTopicPush) (semantics : DeliverySemantics)
    → slot.semantics ≡ semantics
    → Judged slot push (check_semantics semantics slot push.seq)
unfolding check_semantics check_seq status
check_semantics-Judged slot push DeliverySemantics.event e = ground arith
check_semantics-Judged slot push DeliverySemantics.telemetry e = ground arith
