-- ===== src/Robot/Ack/Resume.antt =====
-- Where an accepted event stream goes on.
use karo_x2_sdk_python.Prelude.{ℕ, ◌+◌, ◌-◌, ◌≤◌, ◌≡◌, ◌⊎◌, ◌↔◌, false, Option, some, none, arith}
use karo_x2_sdk_python.Subscription.{StreamStatusKind}
use karo_x2_sdk_python.Slot.{SubSlot}
use karo_x2_sdk_python.Robot.Ack.{resume}

-- How many messages the status reports as missed: `none` where it makes no statement.
abbrev pub Reports : SubSlot → ℕ → Option ℕ → Type 0
Reports slot k none = (slot.expected_resume_seq ≡ 0) ⊎ (k + 1 ≤ slot.expected_resume_seq)
Reports slot k (some gap) = (1 ≤ slot.expected_resume_seq) × (slot.expected_resume_seq + gap ≡ k)

-- For a slot that asked for the message after its last one, or for no history, an accepted ack with
-- the next number `k` leaves the slot right before `k`, so that the message `k` comes without a gap.
-- A gap is reported exactly where history was asked for and the robot goes on at or after the number
-- asked for, and it is the number of messages in between. The status is STARTED exactly for a slot
-- that asked for no history and does not resume.
pub resume_lem :
    (slot : SubSlot) (k : ℕ)
    → (slot.expected_resume_seq ≡ 0) ⊎ (slot.expected_resume_seq ≡ slot.last_seq + 1)
    → let (slot', kind, gap) = resume slot k in
      (slot'.last_seq ≡ k - 1)
      × Reports slot k gap
      × ((kind ≡ StreamStatusKind.started)
          ↔ ((slot.expected_resume_seq ≡ 0) × (slot.is_reconnect_resume ≡ false)))
unfolding resume
resume_lem slot k asked = ground arith
