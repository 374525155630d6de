-- ===== src/Slot/Deliver/Sequence/Order.antt =====
-- In which order the application gets the messages of an event topic.
use karo_x2_sdk_python.Prelude.{
  ℕ, ◌+◌, ◌≤◌, ◌≡◌, refl, ap, ◌∙◌, List, [], ◌∷◌, ◌++◌, Option, some, none, arith, Bool-cases, inl,
  inr, leb, length, tail,
}
use karo_x2_sdk_python.Subscription.{CallbackMode, DropPolicy}
use karo_x2_sdk_python.Codec.Decode.{DecodedTopicPush}
use karo_x2_sdk_python.Slot.{SubSlot, SlotEffect, fire_status, post_log, frame, FrameDispatcher}
use karo_x2_sdk_python.Slot.Deliver.{put_push, hand_over}
use mathlib.Core.Path.{subst}
use mathlib.Core.List.{append-nil, append_assoc}

-- The numbers of pushes, of those in a queue, and of those that are handed to the dispatcher.
abbrev pub numbers : List DecodedTopicPush → List ℕ
numbers [] = []
numbers (push ∷ pushes) = push.seq ∷ numbers pushes

abbrev pub queued : Option (List DecodedTopicPush) → List ℕ
queued none = []
queued (some queue) = numbers queue

abbrev pub handed : List SlotEffect → List ℕ
handed [] = []
handed (fire_status s ∷ effects) = handed effects
handed (post_log l m ∷ effects) = handed effects
handed (frame d push ∷ effects) = push.seq ∷ handed effects

pub handed-append : (xs ys : List SlotEffect) → handed (xs ++ ys) ≡ handed xs ++ handed ys
handed-append [] ys = refl
handed-append (fire_status s ∷ xs) ys = handed-append xs ys
handed-append (post_log l m ∷ xs) ys = handed-append xs ys
handed-append (frame d push ∷ xs) ys = ap (λ ns. push.seq ∷ ns) (handed-append xs ys)

-- The numbers go up strictly, from `lo` on, and stay below `hi`.
abbrev pub Ascending : ℕ → ℕ → List ℕ → Type 0
Ascending lo hi [] = lo ≤ hi
Ascending lo hi (n ∷ ns) = (lo ≤ n) × Ascending (n + 1) hi ns

pub Ascending-weaken :
    (lo hi top : ℕ) (ns : List ℕ) → hi ≤ top → Ascending lo hi ns → Ascending lo top ns
Ascending-weaken lo hi top [] up h = omega arith
Ascending-weaken lo hi top (n ∷ ns) up h = (h.0, Ascending-weaken (n + 1) hi top ns up h.1)

Ascending-from : (lo low hi : ℕ) (ns : List ℕ) → low ≤ lo → Ascending lo hi ns → Ascending low hi ns
Ascending-from lo low hi [] down h = omega arith
Ascending-from lo low hi (n ∷ ns) down h = (omega (arith, h.0), h.1)

-- One more at the end, and one less in the middle.
Ascending-last : (lo n : ℕ) (ns : List ℕ) → Ascending lo n ns → Ascending lo (n + 1) (ns ++ n ∷ [])
Ascending-last lo n [] h = (h, omega arith)
Ascending-last lo n (m ∷ ns) h = (h.0, Ascending-last (m + 1) n ns h.1)

pub Ascending-skip :
    (lo hi n : ℕ) (ns ms : List ℕ) → Ascending lo hi (ns ++ n ∷ ms) → Ascending lo hi (ns ++ ms)
Ascending-skip lo hi n [] ms h = Ascending-from (n + 1) lo hi ms (omega (arith, h.0)) h.1
Ascending-skip lo hi n (m ∷ ns) ms h = (h.0, Ascending-skip (m + 1) hi n ns ms h.1)

numbers-append : (xs ys : List DecodedTopicPush) → numbers (xs ++ ys) ≡ numbers xs ++ numbers ys
numbers-append [] ys = refl
numbers-append (push ∷ xs) ys = ap (λ ns. push.seq ∷ ns) (numbers-append xs ys)

-- In the INLINE mode nothing is queued.
abbrev pub Coherent : CallbackMode → Option (List DecodedTopicPush) → Type 0
Coherent CallbackMode.inline queue = queued queue ≡ []
Coherent CallbackMode.dispatched queue = Unit

-- A push with a number from `hi` on goes to the end of the queue, or is dropped, or the oldest is.
queue_last :
    (lo n : ℕ) (out : List ℕ) (queue : List DecodedTopicPush) (push : DecodedTopicPush)
    → push.seq ≡ n
    → Ascending lo n (out ++ numbers queue)
    → Ascending lo (n + 1) (out ++ numbers (queue ++ push ∷ []))
queue_last lo n out queue push same h =
    rw (numbers-append queue (push ∷ []), same)
      (rw⁻¹ (append_assoc out (numbers queue) (n ∷ []))
        (Ascending-last lo n (out ++ numbers queue) h))

queue_tail :
    (lo hi : ℕ) (out : List ℕ) (queue : List DecodedTopicPush)
    → Ascending lo hi (out ++ numbers queue)
    → Ascending lo hi (out ++ numbers (tail queue))
queue_tail lo hi out [] h = h
queue_tail lo hi out (push ∷ queue) h = Ascending-skip lo hi push.seq out (numbers queue) h

put_push-Ascending :
    (slot : SubSlot) (queue : List DecodedTopicPush) (policy : DropPolicy) (push : DecodedTopicPush)
    (lo : ℕ) (out : List ℕ)
    → slot.dispatch_queue ≡ some queue
    → Ascending lo push.seq (out ++ numbers queue)
    → Ascending lo (push.seq + 1) (out ++ queued (put_push slot queue policy push).dispatch_queue)
unfolding put_push
put_push-Ascending slot queue policy push lo out e h =
    elim (Bool-cases (leb slot.queue_size (length queue))) [
      | inl full ↦ rw full (full_case policy)
      | inr room ↦ rw room (queue_last lo push.seq out queue push refl h)
    ]
  where
    full_case :
        (policy : DropPolicy)
        → Ascending lo (push.seq + 1) (
            out
            ++ queued
                (elim policy as (λ _. SubSlot) [
                  | DropPolicy.drop_oldest ↦ record slot {
                    dispatch_queue = some (tail queue ++ push ∷ []);
                    drop_count = slot.drop_count + 1;
                  }
                  | DropPolicy.drop_newest ↦ record slot { drop_count = slot.drop_count + 1 }
                ]).dispatch_queue)
    full_case DropPolicy.drop_oldest =
        queue_last lo push.seq out (tail queue) push refl (queue_tail lo push.seq out queue h)
    full_case DropPolicy.drop_newest =
        rw e (Ascending-weaken lo push.seq (push.seq + 1) (out ++ numbers queue) (omega arith) h)

-- The end of a delivery of a newer message.
pub hand_over-Ascending :
    (slot : SubSlot) (mode : CallbackMode) (d : Option FrameDispatcher)
    (queue : Option (List DecodedTopicPush)) (push : DecodedTopicPush) (lo : ℕ) (out : List ℕ)
    → slot.dispatch_queue ≡ queue
    → Coherent mode queue
    → Ascending lo push.seq (out ++ queued queue)
    → let (slot', effects) = hand_over slot mode d queue push in
      Coherent mode slot'.dispatch_queue
      × Ascending lo (push.seq + 1) ((out ++ handed effects) ++ queued slot'.dispatch_queue)
unfolding hand_over
hand_over-Ascending slot CallbackMode.inline none queue push lo out e c h = (
  rw e c,
  rw (e, append-nil out)
      (Ascending-weaken lo push.seq (push.seq + 1) (out ++ queued queue) (omega arith) h),
)
hand_over-Ascending slot CallbackMode.inline (some d) queue push lo out e c h = (
  rw e c,
  rw (e, c, append-nil (out ++ push.seq ∷ []))
      (Ascending-last lo push.seq out
        (subst (Ascending lo push.seq) (ap (λ ns. out ++ ns) c ∙ append-nil out) h)),
)
hand_over-Ascending slot CallbackMode.dispatched d none push lo out e c h = (
  tt,
  rw (e, append-nil out) (Ascending-weaken lo push.seq (push.seq + 1) (out ++ []) (omega arith) h),
)
hand_over-Ascending slot CallbackMode.dispatched d (some queue) push lo out e c h =
    (tt, rw (append-nil out) (put_push-Ascending slot queue slot.drop_policy push lo out e h))
