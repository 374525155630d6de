-- ===== src/Robot/Facade.antt =====
-- `SubscriptionFacade` of karo_x2_sdk/_internal/subscription_impl.py: what the application holds of a
-- subscription. The facade holds the slot object, here by its identity, and a weak reference to the
-- connection object.
pub mod Stale
use karo_x2_sdk_python.Prelude.{
  ℕ, Bool, true, false, String, List, [], ◌∷◌, Option, some, none, Dict, if◌then◌else◌, ◌==◌,
  nat_eq,
}
use karo_x2_sdk_python.Error.{ErrorCode}
use karo_x2_sdk_python.Topic.{FloatBits}
use karo_x2_sdk_python.Subscription.{SubscriptionState}
use karo_x2_sdk_python.Slot.{SubSlot, is_sub_state}
use karo_x2_sdk_python.Robot.{Robot}
use karo_x2_sdk_python.Robot.Unsubscribe.{Request, returned, unsubscribe_request}

-- The slot object with an identity: in `_subs`, or among those that have left it.
slot_in_subs : Dict String SubSlot → ℕ → Option SubSlot
slot_in_subs [] ident = none
slot_in_subs ((topic, slot) ∷ subs) ident =
    if slot.ident == ident then some slot else slot_in_subs subs ident

slot_in_retired : List SubSlot → ℕ → Option SubSlot
slot_in_retired [] ident = none
slot_in_retired (slot ∷ slots) ident =
    if slot.ident == ident then some slot else slot_in_retired slots ident

first_of : Option SubSlot → Option SubSlot → Option SubSlot
first_of none other = other
first_of (some slot) other = some slot

unfoldable pub slot_of : Robot → ℕ → Option SubSlot
unfolding slot_in_subs slot_in_retired first_of
slot_of r ident = first_of (slot_in_subs r.subs ident) (slot_in_retired r.retired ident)

-- The properties `topic`, `desired_hz`, `state`, `last_seq`, `drop_count` and `error`.
pub record Facade : Type 0 where
  pub topic : String
  pub desired_hz : FloatBits
  pub state : SubscriptionState
  pub last_seq : ℕ
  pub drop_count : ℕ
  pub error : ErrorCode

unfoldable pub facade : SubSlot → Facade
facade slot = record {
  topic = slot.topic;
  desired_hz = slot.desired_hz;
  state = slot.state;
  last_seq = slot.last_seq;
  drop_count = slot.drop_count;
  error = slot.error_code;
}

-- `self._slot.user_closed = True`, wherever the slot stands.
unfoldable pub marked : SubSlot → ℕ → SubSlot
marked slot ident = if slot.ident == ident then record slot { user_closed = true } else slot

unfoldable pub mark_subs : Dict String SubSlot → ℕ → Dict String SubSlot
unfolding marked
mark_subs [] ident = []
mark_subs ((topic, slot) ∷ subs) ident = (topic, marked slot ident) ∷ mark_subs subs ident

mark_retired : List SubSlot → ℕ → List SubSlot
unfolding marked
mark_retired [] ident = []
mark_retired (slot ∷ slots) ident = marked slot ident ∷ mark_retired slots ident

unfoldable pub mark_user_closed : Robot → ℕ → Robot
unfolding mark_subs mark_retired
mark_user_closed r ident = record r {
  subs = mark_subs r.subs ident;
  retired = mark_retired r.retired ident;
}

-- `unsubscribe`, up to its wait, of a facade with a topic and a slot, whose robot is alive.
unfoldable pub unsubscribe : Robot → String → ℕ → Robot × Request
unfolding mark_user_closed
unsubscribe r topic ident = unsubscribe_request (mark_user_closed r ident) topic true

-- `__aenter__` and `__aexit__` of karo_x2_sdk/subscription.py: `async with` leaves the facade as it is,
-- and unsubscribes it at its end, also where the block has raised.
unfoldable pub enter_context : Facade → Facade
enter_context f = f

abbrev pub exit_context : Robot → String → ℕ → Robot × Request
exit_context r topic ident = unsubscribe r topic ident

-- `unsubscribe` where the connection object is gone: the slot, and what is returned.
unfoldable pub unsubscribe_orphan : SubSlot → SubSlot × ErrorCode
unsubscribe_orphan slot = (
  record slot {
    user_closed = true;
    state = SubscriptionState.closed;
    error_code = ErrorCode.disconnected;
  },
  ErrorCode.disconnected,
)

unfoldable pub finalize_slot : Robot → ℕ → Option SubSlot → Bool → Robot × Bool
unfolding mark_user_closed
finalize_slot r ident none loop_runs = (r, false)
finalize_slot r ident (some slot) loop_runs = (
  mark_user_closed r ident,
  if is_sub_state slot.state SubscriptionState.closed then false else loop_runs,
)

-- `_facade_finalizer_callback` on a robot that is alive: whether an unsubscribe without a wait is
-- scheduled, which `schedule_fire_and_forget_unsubscribe` does where the loop runs.
unfoldable pub finalize : Robot → ℕ → Bool → Robot × Bool
unfolding finalize_slot slot_of
finalize r ident loop_runs = finalize_slot r ident (slot_of r ident) loop_runs
