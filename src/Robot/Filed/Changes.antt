-- ===== src/Robot/Filed/Changes.antt =====
-- What the handlers do to a subscription keeps it sound, and each under its own topic.
use karo_x2_sdk_python.Prelude.{
  ℕ, ◌≡◌, refl, arith, ◌∙◌, Bool, Bool-cases, inl, inr, String, [], ◌∷◌, Dict, ◌==◌, nat_eq, some,
}
use karo_x2_sdk_python.Topic.{FloatBits}
use karo_x2_sdk_python.Subscription.{SubscriptionState, CallbackMode}
use karo_x2_sdk_python.Slot.{SubSlot, FrameDispatcher}
use karo_x2_sdk_python.Slot.Deliver.{drain_pending_buffer}
use karo_x2_sdk_python.Slot.Deliver.Queues.{IsBounded}
use karo_x2_sdk_python.Slot.Deliver.Sound.{IsSound, drain_pending_buffer-IsSound}
use karo_x2_sdk_python.Robot.{Robot}
use karo_x2_sdk_python.Robot.Filed.{
  AllFiled, Roomy, SameBuffers-IsSound, slide_hz_buckets-SameBuffers,
}
use karo_x2_sdk_python.Robot.Subscribe.{new_slot, start_sub_worker, requested_slot}
use karo_x2_sdk_python.Robot.Ack.{resume}
use karo_x2_sdk_python.Robot.Establish.{resolve_slots}
use karo_x2_sdk_python.Robot.Facade.{marked, mark_subs}
use karo_x2_sdk_python.Robot.Reporting.{slide_all}

pub requested_slot-IsSound :
    (r : Robot) (slot : SubSlot) (since : ℕ) → IsSound slot → IsSound (requested_slot r slot since)
unfolding requested_slot
requested_slot-IsSound r slot since h = record {
  alive = λ e. absurd (cc);
  bounded = record {
    room = h.bounded.room;
    pending = h.bounded.pending;
    queued = h.bounded.queued;
  };
  wired = record { dispatcher = h.wired.dispatcher; queue = h.wired.queue };
  waits = inl refl;
}

-- The slot after its ack.
pub drained_active-IsSound :
    (slot : SubSlot) (k steady epoch_ms : ℕ)
    → IsSound slot
    → IsSound
        (drain_pending_buffer
          (record slot { state = SubscriptionState.active })
          k
          steady
          epoch_ms).0
drained_active-IsSound slot k steady epoch_ms h =
    (drain_pending_buffer-IsSound (record slot { state = SubscriptionState.active }) k steady
      epoch_ms (λ e. absurd (cc))
      (record { room = h.bounded.room; pending = h.bounded.pending; queued = h.bounded.queued })
      (record { dispatcher = h.wired.dispatcher; queue = h.wired.queue })).0

pub resume-IsSound : (slot : SubSlot) (k : ℕ) → IsSound slot → IsSound (resume slot k).0
unfolding resume
resume-IsSound slot k h = SameBuffers-IsSound (ground arith) h

pub AllFiled-resolve :
    (r : Robot) (subs : Dict String SubSlot) → AllFiled subs → AllFiled (resolve_slots r subs)
unfolding resolve_slots
AllFiled-resolve r [] h = tt
AllFiled-resolve r ((topic, slot) ∷ subs) h =
    (h.0, SameBuffers-IsSound (ground arith) h.1, AllFiled-resolve r subs h.2)

pub AllFiled-mark :
    (subs : Dict String SubSlot) (ident : ℕ) → AllFiled subs → AllFiled (mark_subs subs ident)
unfolding mark_subs marked
AllFiled-mark [] ident h = tt
AllFiled-mark ((topic, slot) ∷ subs) ident h = elim (Bool-cases (slot.ident == ident)) [
  | inl e ↦ rw e (h.0, SameBuffers-IsSound (ground arith) h.1, AllFiled-mark subs ident h.2)
  | inr e ↦ rw e (h.0, h.1, AllFiled-mark subs ident h.2)
]

pub AllFiled-slide :
    (epoch_ms : ℕ) (subs : Dict String SubSlot) → AllFiled subs → AllFiled (slide_all epoch_ms subs)
unfolding slide_all
AllFiled-slide epoch_ms [] h = tt
AllFiled-slide epoch_ms ((topic, slot) ∷ subs) h =
    let slid = slide_hz_buckets-SameBuffers slot epoch_ms in
    (slid.topic ∙ h.0, SameBuffers-IsSound slid h.1, AllFiled-slide epoch_ms subs h.2)

worker_start-IsSound :
    (mode : CallbackMode) (slot : SubSlot)
    → slot.callback_mode ≡ mode
    → slot.state ≡ SubscriptionState.pending
    → IsBounded slot
    → ((d : FrameDispatcher) × (slot.frame_dispatcher ≡ some d))
    → IsSound (start_sub_worker mode slot)
unfolding start_sub_worker
worker_start-IsSound CallbackMode.inline slot em es b d = record {
  alive = λ e. absurd (cc);
  bounded = b;
  wired = record { dispatcher = d; queue = rw em tt };
  waits = inl es;
}
worker_start-IsSound CallbackMode.dispatched slot em es b d = record {
  alive = λ e. absurd (cc);
  bounded = record { room = b.room; pending = b.pending; queued = omega arith };
  wired = record { dispatcher = d; queue = rw em tt };
  waits = inl es;
}

pub started-IsSound :
    (r : Robot) (topic : String) (desired_hz : FloatBits) (dispatcher : FrameDispatcher)
    (on_status : Bool)
    → Roomy r.opts
    → let slot : SubSlot = new_slot r topic desired_hz dispatcher on_status in
      IsSound (start_sub_worker slot.callback_mode slot)
unfolding new_slot
started-IsSound r topic desired_hz dispatcher on_status roomy =
    worker_start-IsSound r.opts.callback_mode (new_slot r topic desired_hz dispatcher on_status)
      refl refl (record { room = roomy; pending = omega arith; queued = omega arith })
      (dispatcher, refl)
