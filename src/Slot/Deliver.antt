-- ===== src/Slot/Deliver.antt =====
-- `_handle_sdk_topic_push`, `_deliver_push_to_sub`, `_drain_pending_buffer` and one round of
-- `_sub_dispatch_worker` of karo_x2_sdk/_internal/robot_impl.py, on the slot of the topic.
-- An awaited dispatcher runs to its end before the slot is used again.
pub mod Sequence
pub mod Queues
pub mod Sound
use karo_x2_sdk_python.Prelude.{
  ℕ, zero, suc, ◌+◌, ◌-◌, ◌/◌, Bool, true, false, String, ◌<>◌, str, List, [], ◌∷◌, ◌++◌, Option,
  some, none, ltb, leb, ◌==◌, nat_eq, ◌&&◌, not, if◌then◌else◌, length, tail,
}
use karo_x2_sdk_python.Error.{ErrorCode}
use karo_x2_sdk_python.Topic.{DeliverySemantics}
use karo_x2_sdk_python.Subscription.{
  SubscriptionState, StreamStatus, StreamStatusKind, DropPolicy, CallbackMode,
}
use karo_x2_sdk_python.Codec.Decode.{DecodedTopicPush}
use karo_x2_sdk_python.Diagnostics.{LogLevel}
use karo_x2_sdk_python.Slot.{SubSlot, SlotEffect, fire_status, post_log, frame, FrameDispatcher}
use karo_x2_sdk_python.Slot.Hz.{slide_hz_buckets, count_message}

-- `_fire_status`: nothing where there is no callback.
unfoldable pub status : SubSlot → StreamStatusKind → Option ℕ → ErrorCode → String → List SlotEffect
status slot kind gap_count error_code reason =
    if slot.status_callback
    then fire_status
        (record { kind = kind; reason = reason; gap_count = gap_count; error_code = error_code })
      ∷ []
    else []

-- Whether a push of an event topic goes on, with the slot and what was posted.
pub data Verdict : Type 0 where
  pass : SubSlot → List SlotEffect → Verdict
  discard : List SlotEffect → Verdict

-- The check of the sequence number for EVENT topics.
pub check_seq : SubSlot → ℕ → Verdict
unfolding status
check_seq slot new_seq =
    if new_seq == 0
    then pass slot []
    else if slot.last_seq == 0
    then pass (record slot { last_seq = new_seq }) []
    else if new_seq == slot.last_seq + 1
    then pass (record slot { last_seq = new_seq }) []
    else if ltb (slot.last_seq + 1) new_seq
    then pass (record slot { last_seq = new_seq })
        (status slot StreamStatusKind.gap (some (new_seq - slot.last_seq - 1)) ErrorCode.ok "")
    else if new_seq == slot.last_seq
    then discard (post_log LogLevel.debug ("duplicate envelope seq, dropping: " <> slot.topic) ∷ [])
    else discard (
        post_log LogLevel.warn (
          "envelope seq regression in-session: "
          <> (slot.topic <> (" new=" <> (str new_seq <> (" last=" <> str slot.last_seq)))))
        ∷ [])

-- The check is made for EVENT topics only.
pub check_semantics : DeliverySemantics → SubSlot → ℕ → Verdict
unfolding check_seq
check_semantics DeliverySemantics.event slot new_seq = check_seq slot new_seq
check_semantics DeliverySemantics.telemetry slot new_seq = pass slot []

-- The statistics of a push that goes on.
pub count_push : SubSlot → ℕ → ℕ → SubSlot
unfolding slide_hz_buckets count_message
count_push slot steady epoch_ms =
    count_message
      (slide_hz_buckets
        (record slot { messages_received = slot.messages_received + 1; last_message_at = steady })
        epoch_ms)
      (epoch_ms / 1000)

-- The dispatch queue: full, it drops its oldest push or the new one, by the policy.
-- (`asyncio.Queue(maxsize)` with a positive size.)
pub put_push : SubSlot → List DecodedTopicPush → DropPolicy → DecodedTopicPush → SubSlot
put_push slot queue policy push =
    if leb slot.queue_size (length queue)
    then elim policy [
      | DropPolicy.drop_oldest ↦ record slot {
        dispatch_queue = some (tail queue ++ push ∷ []);
        drop_count = slot.drop_count + 1;
      }
      | DropPolicy.drop_newest ↦ record slot { drop_count = slot.drop_count + 1 }
    ]
    else record slot { dispatch_queue = some (queue ++ push ∷ []) }

-- The end of `_deliver_push_to_sub`: INLINE runs the dispatcher, DISPATCHED queues the push.
pub hand_over :
    SubSlot
    → CallbackMode
    → Option FrameDispatcher
    → Option (List DecodedTopicPush)
    → DecodedTopicPush
    → SubSlot × List SlotEffect
unfolding put_push
hand_over slot CallbackMode.inline none queue push = (slot, [])
hand_over slot CallbackMode.inline (some d) queue push = (slot, frame d push ∷ [])
hand_over slot CallbackMode.dispatched d none push = (slot, [])
hand_over slot CallbackMode.dispatched d (some queue) push =
    (put_push slot queue slot.drop_policy push, [])

-- After the check.
pub deliver_checked : SubSlot → Verdict → DecodedTopicPush → ℕ → ℕ → SubSlot × List SlotEffect
unfolding count_push hand_over
deliver_checked slot (discard posted) push steady epoch_ms = (slot, posted)
deliver_checked slot (pass checked posted) push steady epoch_ms =
    let counted = count_push checked steady epoch_ms in
    let (slot', effects) =
      hand_over counted counted.callback_mode counted.frame_dispatcher counted.dispatch_queue
        push in
    (slot', posted ++ effects)

-- `_deliver_push_to_sub` at a time of the two clocks.
pub deliver_push_to_sub : SubSlot → DecodedTopicPush → ℕ → ℕ → SubSlot × List SlotEffect
unfolding deliver_checked check_semantics
deliver_push_to_sub slot push steady epoch_ms =
    deliver_checked slot (check_semantics slot.semantics slot push.seq) push steady epoch_ms

-- The buffer of a subscription that waits for its ack: full, it drops the new push or its oldest.
pub buffer_push : SubSlot → DecodedTopicPush → DropPolicy → SubSlot
buffer_push slot push policy =
    if leb slot.queue_size (length slot.pending_buffer)
    then elim policy [
      | DropPolicy.drop_newest ↦ record slot { drop_count = slot.drop_count + 1 }
      | DropPolicy.drop_oldest ↦ record slot {
        pending_buffer = tail slot.pending_buffer ++ push ∷ [];
        drop_count = slot.drop_count + 1;
      }
    ]
    else record slot { pending_buffer = slot.pending_buffer ++ push ∷ [] }

-- `_handle_sdk_topic_push` for a topic that has a slot, by the state of the slot.
pub push_to_slot :
    SubscriptionState → SubSlot → DecodedTopicPush → ℕ → ℕ → SubSlot × List SlotEffect
unfolding buffer_push deliver_push_to_sub
push_to_slot SubscriptionState.closed slot push steady epoch_ms = (slot, [])
push_to_slot SubscriptionState.pending slot push steady epoch_ms =
    (buffer_push slot push slot.drop_policy, [])
push_to_slot SubscriptionState.paused slot push steady epoch_ms =
    (record slot { drop_count = slot.drop_count + 1 }, [])
push_to_slot SubscriptionState.active slot push steady epoch_ms =
    deliver_push_to_sub slot push steady epoch_ms

-- Whether a buffered push is older than where the stream goes on.
pub is_stale : DeliverySemantics → ℕ → ℕ → Bool
is_stale DeliverySemantics.event next_seq seq =
    ltb 0 next_seq && (not (seq == 0) && ltb seq next_seq)
is_stale DeliverySemantics.telemetry next_seq seq = false

-- One round of the loop of `_drain_pending_buffer`, with `front` taken off the buffer.
pub drain_one : SubSlot → DecodedTopicPush → ℕ → ℕ → ℕ → SubSlot × List SlotEffect
unfolding is_stale deliver_push_to_sub
drain_one popped front next_seq steady epoch_ms =
    if is_stale popped.semantics next_seq front.seq
    then (record popped { drop_count = popped.drop_count + 1 }, [])
    else deliver_push_to_sub popped front steady epoch_ms

-- The loop over what is in the buffer.
pub drain_loop : List DecodedTopicPush → SubSlot → ℕ → ℕ → ℕ → SubSlot × List SlotEffect
unfolding drain_one
drain_loop [] slot next_seq steady epoch_ms = (slot, [])
drain_loop (front ∷ rest) slot next_seq steady epoch_ms =
    let popped : SubSlot = record slot { pending_buffer = rest } in
    let (slot', posted) = drain_one popped front next_seq steady epoch_ms in
    let (slot'', effects) = drain_loop rest slot' next_seq steady epoch_ms in
    (slot'', posted ++ effects)

pub drain_pending_buffer : SubSlot → ℕ → ℕ → ℕ → SubSlot × List SlotEffect
unfolding drain_loop
drain_pending_buffer slot next_seq steady epoch_ms =
    drain_loop slot.pending_buffer slot next_seq steady epoch_ms

-- One push that the worker takes off the queue. The worker ends on a closed slot, and a push that
-- it has already taken is then lost.
worker_takes : SubscriptionState → Option FrameDispatcher → DecodedTopicPush → List SlotEffect
worker_takes SubscriptionState.closed d push = []
worker_takes _ none push = []
worker_takes _ (some d) push = frame d push ∷ []

worker_queue : SubSlot → Option (List DecodedTopicPush) → SubSlot × List SlotEffect
unfolding worker_takes
worker_queue slot none = (record slot { dispatch_worker = false }, [])
worker_queue slot (some []) = (slot, [])
worker_queue slot (some (push ∷ queue)) = (
  record slot { dispatch_queue = some queue },
  worker_takes slot.state slot.frame_dispatcher push,
)

-- One round of `_sub_dispatch_worker`; on an empty queue it waits.
pub worker_round : SubSlot → SubSlot × List SlotEffect
unfolding worker_queue
worker_round slot = elim slot.state [
  | SubscriptionState.closed ↦ (record slot { dispatch_worker = false }, [])
  | _ ↦ worker_queue slot slot.dispatch_queue
]
