-- ===== src/Robot/Facade/Stale.antt =====
-- The unsubscribe of a facade whose slot is not the one that the topic has now.

use karo_x2_sdk_python.Prelude.{
  ℕ, ◌≡◌, ◌≢◌, refl, false, String, [], ◌∷◌, none, some, Dict, lookup, lookup-erase_self,
  Bool-cases, inl, inr, nat_eq, string_eq, arith,
}
use karo_x2_sdk_python.Error.{ErrorCode}
use karo_x2_sdk_python.Connection.{ConnectionState, is_state}
use karo_x2_sdk_python.Slot.{SubSlot}
use karo_x2_sdk_python.Robot.{Robot, end_slot}
use karo_x2_sdk_python.Robot.Unsubscribe.{returned, unsubscribe_request, unsubscribe_slot}
use karo_x2_sdk_python.Robot.Facade.{marked, mark_subs, mark_user_closed, unsubscribe}

-- Marking the slot of another identity does not touch the slot of a topic.
lookup-mark_subs :
    (subs : Dict String SubSlot) (ident : ℕ) (topic : String) (slot : SubSlot)
    → lookup topic subs ≡ some slot
    → slot.ident ≢ ident
    → lookup topic (mark_subs subs ident) ≡ some slot
unfolding mark_subs marked
lookup-mark_subs [] ident topic slot found other = found
lookup-mark_subs ((t, s) ∷ subs) ident topic slot found other =
    elim (Bool-cases (string_eq.equals t topic)) [
      | inl e ↦ ground arith
      | inr e ↦ rw e (lookup-mark_subs subs ident topic slot (grind arith) other)
    ]

-- While the connection is not READY, a facade closes whatever subscription has its topic: a
-- subscription with another identity, as one that was made after the facade's own had ended, is
-- taken away as well, and the facade is told that it was disconnected.
pub unsubscribe_hits_other :
    (r : Robot) (topic : String) (ident : ℕ) (slot : SubSlot)
    → lookup topic r.subs ≡ some slot
    → slot.topic ≡ topic
    → slot.ident ≢ ident
    → is_state r.state ConnectionState.ready ≡ false
    → let (r', request) = unsubscribe r topic ident in
      (lookup topic r'.subs ≡ none) × (request ≡ returned ErrorCode.disconnected)
unfolding unsubscribe mark_user_closed unsubscribe_request unsubscribe_slot end_slot
unsubscribe_hits_other r topic ident slot found named other away =
    let still : lookup topic (mark_subs r.subs ident) ≡ some slot =
      lookup-mark_subs r.subs ident topic slot found other in
    rw (still, away, named) (lookup-erase_self topic (mark_subs r.subs ident), refl)
