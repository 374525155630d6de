-- ===== src/Slot/Deliver/Queues/Push.antt =====
-- A push leaves both buffers within their size, and is counted once.
use karo_x2_sdk_python.Prelude.{ℕ, ◌≤◌, ◌≡◌, ◌≢◌, refl, List, arith, ◌⊎◌, inl, inr}
use karo_x2_sdk_python.Topic.{DeliverySemantics}
use karo_x2_sdk_python.Subscription.{SubscriptionState, DropPolicy}
use karo_x2_sdk_python.Codec.Decode.{DecodedTopicPush}
use karo_x2_sdk_python.Slot.{SubSlot, SlotEffect}
use karo_x2_sdk_python.Slot.Deliver.{
  Verdict, pass, discard, check_seq, check_semantics, count_push, hand_over, deliver_checked,
  deliver_push_to_sub, buffer_push, push_to_slot,
}
use karo_x2_sdk_python.Slot.Deliver.Queues.{
  frames-append, IsBounded, IsWired, buffer_push-held, Accounts, hand_over-Accounts, SameBuffers,
  SameBuffers-trans, count_push-SameBuffers, SameBuffers-IsBounded, SameBuffers-IsWired,
  SameBuffers-held, Judged, check_semantics-Judged,
}

-- A numbered push of an event topic that is not newer than the stream.
abbrev pub Repeats : SubSlot → DecodedTopicPush → Type 0
Repeats slot push =
    (slot.semantics ≡ DeliverySemantics.event) × (push.seq ≢ 0) × (push.seq ≤ slot.last_seq)

-- A push that comes to a slot is counted in one place, but for the `exempt` ones, which change
-- nothing.
abbrev pub CountedOnce : Type 0 → SubSlot → SubSlot × List SlotEffect → Type 0
CountedOnce exempt slot r =
    ((¬ exempt) × Accounts slot 1 r) ⊎ (exempt × Accounts slot 0 r × (r.0 ≡ slot))

-- A verdict that lets a push through is not on one that repeats.
abbrev Fresh : SubSlot → DecodedTopicPush → Verdict → Type 0
Fresh slot push (pass checked posted) = ¬ Repeats slot push
Fresh slot push (discard posted) = Unit

check_seq-Fresh :
    (slot : SubSlot) (push : DecodedTopicPush) → Fresh slot push (check_seq slot push.seq)
unfolding check_seq
check_seq-Fresh slot push = ground arith

pub check_semantics-Fresh :
    (slot : SubSlot) (push : DecodedTopicPush) (semantics : DeliverySemantics)
    → slot.semantics ≡ semantics
    → Fresh slot push (check_semantics semantics slot push.seq)
unfolding check_semantics
check_semantics-Fresh slot push DeliverySemantics.event e = check_seq-Fresh slot push
check_semantics-Fresh slot push DeliverySemantics.telemetry e = λ again. absurd (cc)

pub deliver_checked-CountedOnce :
    (slot : SubSlot) (v : Verdict) (push : DecodedTopicPush) (steady epoch_ms : ℕ)
    → IsBounded slot
    → IsWired slot
    → Judged slot push v
    → Fresh slot push v
    → CountedOnce (Repeats slot push) slot (deliver_checked slot v push steady epoch_ms)
unfolding deliver_checked
deliver_checked-CountedOnce slot (discard posted) push steady epoch_ms b w (event, real, old, quiet)
      fresh =
    inr ((event, real, old), record { bounded = b; wired = w; account = omega arith }, refl)
deliver_checked-CountedOnce slot (pass checked posted) push steady epoch_ms b w (same, quiet)
      fresh =
    let counted : SubSlot = count_push checked steady epoch_ms in
    let both : SameBuffers slot counted =
      SameBuffers-trans same (count_push-SameBuffers checked steady epoch_ms) in
    let r : SubSlot × List SlotEffect =
      hand_over counted counted.callback_mode counted.frame_dispatcher counted.dispatch_queue
        push in
    let over : Accounts counted 1 r =
      hand_over-Accounts counted counted.callback_mode counted.frame_dispatcher
        counted.dispatch_queue push refl refl refl (SameBuffers-IsBounded both b)
        (SameBuffers-IsWired both w) in
    inl (
      fresh,
      record {
        bounded = over.bounded;
        wired = over.wired;
        account = omega (arith, over.account, frames-append posted r.1, SameBuffers-held both);
      },
    )

pub deliver_push_to_sub-CountedOnce :
    (slot : SubSlot) (push : DecodedTopicPush) (steady epoch_ms : ℕ)
    → IsBounded slot
    → IsWired slot
    → CountedOnce (Repeats slot push) slot (deliver_push_to_sub slot push steady epoch_ms)
unfolding deliver_push_to_sub
deliver_push_to_sub-CountedOnce slot push steady epoch_ms b w =
    deliver_checked-CountedOnce slot (check_semantics slot.semantics slot push.seq) push steady
      epoch_ms b w (check_semantics-Judged slot push slot.semantics refl)
      (check_semantics-Fresh slot push slot.semantics refl)

buffer_push-IsWired :
    (slot : SubSlot) (push : DecodedTopicPush) (policy : DropPolicy)
    → IsWired slot
    → IsWired (buffer_push slot push policy)
unfolding buffer_push
buffer_push-IsWired slot push policy w = ground arith

-- The pushes that change nothing: an ACTIVE stream has had them.
abbrev pub Known : SubSlot → DecodedTopicPush → Type 0
Known slot push = (slot.state ≡ SubscriptionState.active) × Repeats slot push

running_on :
    (slot : SubSlot) (push : DecodedTopicPush) (r : SubSlot × List SlotEffect)
    → slot.state ≡ SubscriptionState.active
    → CountedOnce (Repeats slot push) slot r
    → CountedOnce (Known slot push) slot r
running_on slot push r active (inl (fresh, account)) = inl (λ known. fresh known.1, account)
running_on slot push r active (inr (again, account, same)) = inr ((active, again), account, same)

by_state :
    (slot : SubSlot) (push : DecodedTopicPush) (steady epoch_ms : ℕ) (state : SubscriptionState)
    → IsBounded slot
    → IsWired slot
    → slot.state ≡ state
    → state ≢ SubscriptionState.closed
    → CountedOnce (Known slot push) slot (push_to_slot state slot push steady epoch_ms)
unfolding push_to_slot
by_state slot push steady epoch_ms SubscriptionState.closed b w at running = absurd (running refl)
by_state slot push steady epoch_ms SubscriptionState.active b w at running =
    running_on slot push (deliver_push_to_sub slot push steady epoch_ms) at
      (deliver_push_to_sub-CountedOnce slot push steady epoch_ms b w)
by_state slot push steady epoch_ms SubscriptionState.paused b w at running = inl (
  λ known. absurd (cc),
  record {
    bounded = record { room = b.room; pending = b.pending; queued = b.queued };
    wired = record { dispatcher = w.dispatcher; queue = w.queue };
    account = omega arith;
  },
)
by_state slot push steady epoch_ms SubscriptionState.pending b w at running =
    let put = buffer_push-held slot push slot.drop_policy b in
    inl (
      λ known. absurd (cc),
      record {
        bounded = put.0;
        wired = buffer_push-IsWired slot push slot.drop_policy w;
        account = omega (arith, put.1);
      },
    )

-- A push for a slot that is not closed keeps both buffers within the size of the options. A numbered
-- push of an event topic that is not newer than the stream of an ACTIVE slot changes nothing. Any
-- other push is counted exactly once: held in a buffer, dropped and counted as dropped (the push
-- itself or the oldest one, by the policy), or handed to the dispatcher; that of a PAUSED slot too,
-- whatever its number.
pub push_to_slot-CountedOnce :
    (slot : SubSlot) (push : DecodedTopicPush) (steady epoch_ms : ℕ)
    → IsBounded slot
    → IsWired slot
    → slot.state ≢ SubscriptionState.closed
    → CountedOnce (Known slot push) slot (push_to_slot slot.state slot push steady epoch_ms)
push_to_slot-CountedOnce slot push steady epoch_ms b w running =
    by_state slot push steady epoch_ms slot.state b w refl running
