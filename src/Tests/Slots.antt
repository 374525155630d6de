-- ===== src/Tests/Slots.antt =====
-- Tests and examples of the delivery of one subscription.
use karo_x2_sdk_python.Prelude.{
  replicate, get_or, length, ℕ, ◌+◌, ◌≡◌, ◌≤◌, refl, false, List, [], ◌∷◌, ◌++◌, arith, inr, ◌↔◌,
}
use karo_x2_sdk_python.Subscription.{CallbackMode, StreamStatusKind}
use karo_x2_sdk_python.Codec.Decode.{DecodedTopicPush}
use karo_x2_sdk_python.Slot.{SubSlot, FrameDispatcher}
use karo_x2_sdk_python.Slot.Hz.{slide_hz_buckets, count_message}
use karo_x2_sdk_python.Slot.Hz.Fresh.{count_message-fresh}
use karo_x2_sdk_python.Slot.Deliver.{push_to_slot, drain_pending_buffer}
use karo_x2_sdk_python.Slot.Deliver.Sequence.{IsRunning, deliver_all, lost, deliver_all_account}
use karo_x2_sdk_python.Slot.Deliver.Sequence.Order.{handed, queued, Ascending}
use karo_x2_sdk_python.Slot.Deliver.Sequence.Turns.{SlotTurn, comes, works, turns, turns_ascend}
use karo_x2_sdk_python.Slot.Deliver.Queues.{IsBounded, IsWired}
use karo_x2_sdk_python.Slot.Deliver.Queues.Push.{CountedOnce, Known, push_to_slot-CountedOnce}
use karo_x2_sdk_python.Slot.Deliver.Queues.Due
use karo_x2_sdk_python.Slot.Deliver.Queues.Drained.{drain_pending_buffer-due}
use karo_x2_sdk_python.Robot.Ack.{resume}
use karo_x2_sdk_python.Robot.Ack.Resume.{Reports, resume_lem}
use karo_x2_sdk_python.Tests.{slot, waiting_slot, push}

-- The next message, one after a gap of two, and one that came again.
abbrev pushes : List (DecodedTopicPush × ℕ × ℕ)
pushes = (push 5, 0, 0) ∷ (push 8, 0, 0) ∷ (push 8, 0, 0) ∷ []

deliver_all_account_example :
    let (slot', effects) = deliver_all slot pushes in
    IsRunning slot'
    × (4 ≤ slot'.last_seq)
    × (slot'.last_seq + 4 ≡ 4 + slot'.messages_received + lost effects)
deliver_all_account_example =
    deliver_all_account slot pushes (record { event = refl; listens = refl; begun = omega arith })
      (omega arith)

slot-IsBounded : IsBounded slot
slot-IsBounded = record { room = omega arith; pending = omega arith; queued = omega arith }

slot-IsWired : IsWired slot
slot-IsWired = record { dispatcher = (FrameDispatcher.task_event, refl); queue = tt }

push_to_slot-CountedOnce_example :
    CountedOnce (Known slot (push 5)) slot (push_to_slot slot.state slot (push 5) 0 0)
push_to_slot-CountedOnce_example =
    push_to_slot-CountedOnce slot (push 5) 0 0 slot-IsBounded slot-IsWired (λ h. cc)

abbrev inline_slot : SubSlot
inline_slot = record waiting_slot { callback_mode = CallbackMode.inline }

inline_slot-IsBounded : IsBounded inline_slot
inline_slot-IsBounded = record { room = omega arith; pending = omega arith; queued = omega arith }

inline_slot-IsWired : IsWired inline_slot
inline_slot-IsWired = record { dispatcher = (FrameDispatcher.task_event, refl); queue = tt }

drain_pending_buffer-due_example :
    let r = drain_pending_buffer inline_slot 6 0 0 in
    (r.0.pending_buffer ≡ [])
    × (Due.pushes r.1 ≡ push 6 ∷ [])
    × (r.0.drop_count ≡ inline_slot.drop_count + 1)
drain_pending_buffer-due_example =
    drain_pending_buffer-due inline_slot 6 0 0 FrameDispatcher.task_event inline_slot-IsBounded
      inline_slot-IsWired refl refl

resume_lem_example :
    let (slot', kind, gap) = resume waiting_slot 7 in
    (slot'.last_seq ≡ 6)
    × Reports waiting_slot 7 gap
    × ((kind ≡ StreamStatusKind.started)
        ↔ ((waiting_slot.expected_resume_seq ≡ 0) × (waiting_slot.is_reconnect_resume ≡ false)))
resume_lem_example = resume_lem waiting_slot 7 (inr refl)

-- The slot counted last at second 100; the place of second 165 is that of second 105.
abbrev counted_slot : SubSlot
counted_slot = record slot { hz_buckets = replicate 60 7; hz_last_epoch_ms = 100_500 }

count_message-fresh_example :
    let counted = count_message (slide_hz_buckets counted_slot 165_200) 165 in
    (get_or counted.hz_buckets 45 0 ≡ 1) × (length counted.hz_buckets ≡ 60)
count_message-fresh_example =
    count_message-fresh counted_slot 165_200 refl (omega arith) (omega arith)

-- A push, a round of the worker, a push that comes too late, another push, and another round.
abbrev some_turns : List SlotTurn
some_turns = comes (push 6) 0 0 ∷ works ∷ comes (push 5) 0 0 ∷ comes (push 7) 0 0 ∷ works ∷ []

turns_ascend_example :
    let (slot', effects) = turns slot some_turns in
    Ascending 4 (slot'.last_seq + 1) (handed effects ++ queued slot'.dispatch_queue)
turns_ascend_example =
    turns_ascend some_turns slot 4 (omega arith)
      (record { event = refl; coherent = tt; order = (omega arith, omega arith) })
