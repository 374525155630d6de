-- ===== src/Robot/Filed.antt =====
-- How the subscriptions stand in `_subs` of `RobotImpl`: each under its own topic, and each sound.
pub mod Changes
use karo_x2_sdk_python.Prelude.{
  ℕ, ◌≤◌, ◌≡◌, ◌≢◌, refl, ◌||◌, Bool-cases, inl, inr, String, [], ◌∷◌, Option, some, none, Dict,
  lookup, insert, erase, string_eq, ◌==◌, arith, pos_part, sym, ◌∙◌, if◌then◌else◌,
}
use mathlib.Core.Path.{subst}
use karo_x2_sdk_python.Subscription.{SubscriptionState}
use karo_x2_sdk_python.Options.{ConnectOptions}
use karo_x2_sdk_python.Slot.{SubSlot, is_sub_state}
use karo_x2_sdk_python.Slot.Hz.{slide_hz_buckets}
use karo_x2_sdk_python.Slot.Deliver.Queues.{SameBuffers, SameBuffers-IsBounded, SameBuffers-IsWired}
use karo_x2_sdk_python.Slot.Deliver.Sound.{IsSound}
use karo_x2_sdk_python.Robot.Lifecycle.{paused_slot, pause_slots}

-- Each subscription stands under its own topic, and is sound.
abbrev pub AllFiled : Dict String SubSlot → Type 0
AllFiled [] = Unit
AllFiled ((topic, slot) ∷ subs) = (slot.topic ≡ topic) × IsSound slot × AllFiled subs

-- With room for a message in the queues, as valid options give it.
abbrev pub Roomy : ConnectOptions → Type 0
Roomy opts = 1 ≤ pos_part opts.subscription_queue_size

abbrev pub Filed : ConnectOptions → Dict String SubSlot → Type 0
Filed opts subs = Roomy opts → AllFiled subs

abbrev pub SoundIn : ConnectOptions → SubSlot → Type 0
SoundIn opts slot = Roomy opts → IsSound slot

-- A subscription that was looked up.
abbrev pub SoundAt : ConnectOptions → Option SubSlot → Type 0
SoundAt opts none = Unit
SoundAt opts (some slot) = SoundIn opts slot

AllFiled-insert :
    (k : String) (slot : SubSlot) (subs : Dict String SubSlot)
    → slot.topic ≡ k
    → IsSound slot
    → AllFiled subs
    → AllFiled (insert k slot subs)
AllFiled-insert k slot [] own sound h = (own, sound, tt)
AllFiled-insert k slot ((topic, other) ∷ subs) own sound h = elim (Bool-cases (topic == k)) [
  | inl e ↦ rw e (own ∙ sym ((string_eq.equals_iff topic k).0 e), sound, h.2)
  | inr e ↦ rw e (h.0, h.1, AllFiled-insert k slot subs own sound h.2)
]

pub Filed-insert :
    (opts : ConnectOptions) (slot : SubSlot) (subs : Dict String SubSlot)
    → SoundIn opts slot
    → Filed opts subs
    → Filed opts (insert slot.topic slot subs)
Filed-insert opts slot subs sound h =
    λ roomy. AllFiled-insert slot.topic slot subs refl (sound roomy) (h roomy)

AllFiled-erase : (k : String) (subs : Dict String SubSlot) → AllFiled subs → AllFiled (erase k subs)
AllFiled-erase k [] h = tt
AllFiled-erase k ((topic, other) ∷ subs) h = elim (Bool-cases (topic == k)) [
  | inl e ↦ rw e (AllFiled-erase k subs h.2)
  | inr e ↦ rw e (h.0, h.1, AllFiled-erase k subs h.2)
]

pub Filed-erase :
    (opts : ConnectOptions) (k : String) (subs : Dict String SubSlot)
    → Filed opts subs
    → Filed opts (erase k subs)
Filed-erase opts k subs h = λ roomy. AllFiled-erase k subs (h roomy)

found_here :
    (k : String) (other slot : SubSlot)
    → other ≡ slot
    → (other.topic ≡ k) × IsSound other
    → (slot.topic ≡ k) × IsSound slot
found_here k other slot e h = subst (λ (s : SubSlot). (s.topic ≡ k) × IsSound s) e h

pub AllFiled-lookup :
    (k : String) (subs : Dict String SubSlot) (slot : SubSlot)
    → AllFiled subs
    → lookup k subs ≡ some slot
    → (slot.topic ≡ k) × IsSound slot
AllFiled-lookup k [] slot h found = absurd (cc)
AllFiled-lookup k ((topic, other) ∷ subs) slot h found = elim (Bool-cases (topic == k)) [
  | inl e ↦ found_here k other slot (grind arith) (h.0 ∙ (string_eq.equals_iff topic k).0 e, h.1)
  | inr e ↦ AllFiled-lookup k subs slot h.2 (grind arith)
]

lookup-SoundAt :
    (opts : ConnectOptions) (o : Option SubSlot) (k : String) (subs : Dict String SubSlot)
    → Filed opts subs
    → lookup k subs ≡ o
    → SoundAt opts o
lookup-SoundAt opts none k subs h found = tt
lookup-SoundAt opts (some slot) k subs h found =
    λ roomy. (AllFiled-lookup k subs slot (h roomy) found).1

pub Filed-lookup :
    (opts : ConnectOptions) (k : String) (subs : Dict String SubSlot)
    → Filed opts subs
    → SoundAt opts (lookup k subs)
Filed-lookup opts k subs h = lookup-SoundAt opts (lookup k subs) k subs h refl

-- A change of other fields keeps a slot sound.
pub SameBuffers-IsSound : {a b : SubSlot} → SameBuffers a b → IsSound a → IsSound b
SameBuffers-IsSound s h = record {
  alive = λ e. h.alive (sym s.state ∙ e);
  bounded = SameBuffers-IsBounded s h.bounded;
  wired = SameBuffers-IsWired s h.wired;
  waits = elim h.waits [ inl p ↦ inl (s.state ∙ p) | inr b ↦ inr (s.pending ∙ b) ];
}

paused_state : (slot : SubSlot) → IsSound slot → (paused_slot slot).state ≢ SubscriptionState.closed
unfolding paused_slot is_sub_state
paused_state slot h = paused_by slot.state h.alive
  where
    paused_by :
        (s : SubscriptionState)
        → s ≢ SubscriptionState.closed
        → (if is_sub_state s SubscriptionState.active || is_sub_state s SubscriptionState.pending
            then SubscriptionState.paused
            else s)
          ≢ SubscriptionState.closed
    paused_by SubscriptionState.active alive = λ e. absurd (cc)
    paused_by SubscriptionState.pending alive = λ e. absurd (cc)
    paused_by SubscriptionState.paused alive = alive
    paused_by SubscriptionState.closed alive = alive

paused_slot-IsSound : (slot : SubSlot) → IsSound slot → IsSound (paused_slot slot)
unfolding paused_slot
paused_slot-IsSound slot h = record {
  alive = paused_state slot h;
  bounded = record { room = h.bounded.room; pending = omega arith; queued = h.bounded.queued };
  wired = record { dispatcher = h.wired.dispatcher; queue = h.wired.queue };
  waits = inr refl;
}

AllFiled-pause : (subs : Dict String SubSlot) → AllFiled subs → AllFiled (pause_slots subs)
unfolding pause_slots paused_slot
AllFiled-pause [] h = tt
AllFiled-pause ((topic, slot) ∷ subs) h =
    (h.0, paused_slot-IsSound slot h.1, AllFiled-pause subs h.2)

pub Filed-pause :
    (opts : ConnectOptions) (subs : Dict String SubSlot)
    → Filed opts subs
    → Filed opts (pause_slots subs)
Filed-pause opts subs h = λ roomy. AllFiled-pause subs (h roomy)

pub slide_hz_buckets-SameBuffers :
    (slot : SubSlot) (epoch_ms : ℕ) → SameBuffers slot (slide_hz_buckets slot epoch_ms)
unfolding slide_hz_buckets
slide_hz_buckets-SameBuffers slot epoch_ms = ground arith
