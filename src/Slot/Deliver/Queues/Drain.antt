-- ===== src/Slot/Deliver/Queues/Drain.antt =====
-- Draining the buffer of a subscription after its ack.
use karo_x2_sdk_python.Prelude.{
  ℕ, suc, ◌+◌, ◌≤◌, ◌≡◌, refl, List, [], ◌∷◌, Option, some, none, arith, ◌∙◌, length, inl, inr,
  Bool-cases, ap,
}
use karo_x2_sdk_python.Subscription.{CallbackMode}
use karo_x2_sdk_python.Codec.Decode.{DecodedTopicPush}
use karo_x2_sdk_python.Slot.{SubSlot, SlotEffect, FrameDispatcher}
use karo_x2_sdk_python.Slot.Deliver.{
  Verdict, pass, discard, check_semantics, count_push, put_push, hand_over, deliver_checked,
  deliver_push_to_sub, drain_pending_buffer, drain_loop, drain_one, is_stale,
}
use karo_x2_sdk_python.Slot.Deliver.Queues.{
  frames, frames-append, IsBounded, IsWired, held, count_push-SameBuffers, Judged,
  check_semantics-Judged,
}
use karo_x2_sdk_python.Slot.Deliver.Queues.Push.{deliver_checked-CountedOnce, check_semantics-Fresh}

-- A delivery from the buffer: nothing is added to the buffer, and at most the one push is counted.
pub record Drains (slot : SubSlot) (n : ℕ) (r : SubSlot × List SlotEffect) : Type 0 where
  pub bounded : IsBounded r.0
  pub wired : IsWired r.0
  pub buffer : r.0.pending_buffer ≡ slot.pending_buffer
  pub account : held r.0 + frames r.1 ≤ held slot + n

hand_over-pending :
    (slot : SubSlot) (mode : CallbackMode) (d : Option FrameDispatcher)
    (queue : Option (List DecodedTopicPush)) (push : DecodedTopicPush)
    → (hand_over slot mode d queue push).0.pending_buffer ≡ slot.pending_buffer
unfolding hand_over put_push
hand_over-pending slot CallbackMode.inline none queue push = refl
hand_over-pending slot CallbackMode.inline (some d) queue push = refl
hand_over-pending slot CallbackMode.dispatched d none push = refl
hand_over-pending slot CallbackMode.dispatched d (some queue) push = ground arith

pub deliver_checked-pending :
    (slot : SubSlot) (v : Verdict) (push : DecodedTopicPush) (steady epoch_ms : ℕ)
    → Judged slot push v
    → (deliver_checked slot v push steady epoch_ms).0.pending_buffer ≡ slot.pending_buffer
unfolding deliver_checked
deliver_checked-pending slot (discard posted) push steady epoch_ms j = refl
deliver_checked-pending slot (pass checked posted) push steady epoch_ms j =
    let counted : SubSlot = count_push checked steady epoch_ms in
    hand_over-pending counted counted.callback_mode counted.frame_dispatcher counted.dispatch_queue
      push
    ∙ ((count_push-SameBuffers checked steady epoch_ms).pending ∙ j.0.pending)

deliver_push_to_sub-Drains :
    (slot : SubSlot) (push : DecodedTopicPush) (steady epoch_ms : ℕ)
    → IsBounded slot
    → IsWired slot
    → Drains slot 1 (deliver_push_to_sub slot push steady epoch_ms)
unfolding deliver_push_to_sub
deliver_push_to_sub-Drains slot push steady epoch_ms b w =
    let v : Verdict = check_semantics slot.semantics slot push.seq in
    let j : Judged slot push v = check_semantics-Judged slot push slot.semantics refl in
    let same = deliver_checked-pending slot v push steady epoch_ms j in
    elim (deliver_checked-CountedOnce slot v push steady epoch_ms b w j
      (check_semantics-Fresh slot push slot.semantics refl)) [
        | inl a ↦ record {
          bounded = a.1.bounded;
          wired = a.1.wired;
          buffer = same;
          account = omega (arith, a.1.account);
        }
        | inr a ↦ record {
          bounded = a.1.bounded;
          wired = a.1.wired;
          buffer = same;
          account = omega (arith, a.1.account);
        }
      ]

drain_one-Drains :
    (popped : SubSlot) (front : DecodedTopicPush) (next_seq steady epoch_ms : ℕ)
    → IsBounded popped
    → IsWired popped
    → Drains popped 1 (drain_one popped front next_seq steady epoch_ms)
unfolding drain_one
drain_one-Drains popped front next_seq steady epoch_ms b w =
    elim (Bool-cases (is_stale popped.semantics next_seq front.seq)) [
      | inl stale ↦ rw stale (record {
        bounded = record { room = b.room; pending = b.pending; queued = b.queued };
        wired = record { dispatcher = w.dispatcher; queue = w.queue };
        buffer = refl;
        account = omega arith;
      })
      | inr fresh ↦ rw fresh (deliver_push_to_sub-Drains popped front steady epoch_ms b w)
    ]

drain_loop_lem :
    (buffer : List DecodedTopicPush) (slot : SubSlot) (next_seq steady epoch_ms : ℕ)
    → slot.pending_buffer ≡ buffer
    → IsBounded slot
    → IsWired slot
    → let r = drain_loop buffer slot next_seq steady epoch_ms in
      IsBounded r.0 × IsWired r.0 × (r.0.pending_buffer ≡ []) × (held r.0 + frames r.1 ≤ held slot)
unfolding drain_loop
drain_loop_lem [] slot next_seq steady epoch_ms e b w = (b, w, e, omega arith)
drain_loop_lem (front ∷ rest) slot next_seq steady epoch_ms e b w =
    let popped : SubSlot = record slot { pending_buffer = rest } in
    let size : length slot.pending_buffer ≡ suc (length rest) = ap length e in
    let one : Drains popped 1 (drain_one popped front next_seq steady epoch_ms) =
      drain_one-Drains popped front next_seq steady epoch_ms
        (record { room = b.room; pending = omega (arith, b.pending); queued = b.queued })
        (record { dispatcher = w.dispatcher; queue = w.queue }) in
    let r : SubSlot × List SlotEffect = drain_one popped front next_seq steady epoch_ms in
    let later = drain_loop_lem rest r.0 next_seq steady epoch_ms one.buffer one.bounded one.wired in
    (
      later.0,
      later.1,
      later.2,
      omega (
        arith,
        one.account,
        later.3,
        frames-append r.1 (drain_loop rest r.0 next_seq steady epoch_ms).1,
      ),
    )

-- Draining after the ack empties the buffer, keeps the queue within its size, and makes nothing up:
-- what is held, dropped or dispatched afterwards is at most what was held or dropped before.
pub drain_pending_buffer_lem :
    (slot : SubSlot) (next_seq steady epoch_ms : ℕ)
    → IsBounded slot
    → IsWired slot
    → let r = drain_pending_buffer slot next_seq steady epoch_ms in
      IsBounded r.0 × IsWired r.0 × (r.0.pending_buffer ≡ []) × (held r.0 + frames r.1 ≤ held slot)
unfolding drain_pending_buffer
drain_pending_buffer_lem slot next_seq steady epoch_ms b w =
    drain_loop_lem slot.pending_buffer slot next_seq steady epoch_ms refl b w
