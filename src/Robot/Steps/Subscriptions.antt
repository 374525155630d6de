-- ===== src/Robot/Steps/Subscriptions.antt =====
-- The subscriptions in `_subs`, whatever happens.
use karo_x2_sdk_python.Prelude.{
  ℕ, ◌≤◌, ◌≡◌, ◌≢◌, ◌⊎◌, String, Bool, [], none, some, lookup, string_eq, length,
}
use karo_x2_sdk_python.Subscription.{SubscriptionState}
use karo_x2_sdk_python.Options.{ConnectOptions, validate_opts}
use karo_x2_sdk_python.Options.Valid.{validate_opts-IsValid}
use karo_x2_sdk_python.Slot.{SubSlot}
use karo_x2_sdk_python.Slot.Deliver.Queues.{queue_length}
use karo_x2_sdk_python.Slot.Deliver.Sound.{IsSound}
use karo_x2_sdk_python.Robot.{Robot, Env}
use karo_x2_sdk_python.Robot.Filed.{AllFiled, AllFiled-lookup}
use karo_x2_sdk_python.Robot.Orderly.{IsOrderly}
use karo_x2_sdk_python.Robot.Steps.{Reach, start_robot}
use karo_x2_sdk_python.Robot.Steps.Orderly.{start_robot-IsOrderly, Reach-IsOrderly}

-- Whatever happens to a new robot, where the options are valid, in any order, a subscription that stands in
-- `_subs` under a topic is one of that topic and is not closed; neither of its buffers holds more
-- than its queue size; and messages wait in its buffer only while it is PENDING.
pub subscriptions_stay_sound :
    (handler : Bool) (env : Env) (opts : ConnectOptions) (clock_ms clock_steady : ℕ) (r : Robot)
    (topic : String) (slot : SubSlot)
    → Reach (start_robot handler env opts clock_ms clock_steady) r
    → validate_opts r.opts ≡ none
    → lookup topic r.subs ≡ some slot
    → (slot.topic ≡ topic)
      × (slot.state ≢ SubscriptionState.closed)
      × (length slot.pending_buffer ≤ slot.queue_size)
      × (queue_length slot.dispatch_queue ≤ slot.queue_size)
      × ((slot.state ≡ SubscriptionState.pending) ⊎ (slot.pending_buffer ≡ []))
subscriptions_stay_sound handler env opts clock_ms clock_steady r topic slot reached valid found =
    let orderly : IsOrderly r =
      Reach-IsOrderly (start_robot-IsOrderly handler env opts clock_ms clock_steady) reached in
    let all : AllFiled r.subs = orderly.filed (validate_opts-IsValid r.opts valid).queue in
    let found_one = AllFiled-lookup topic r.subs slot all found in
    let sound : IsSound slot = found_one.1 in
    (found_one.0, sound.alive, sound.bounded.pending, sound.bounded.queued, sound.waits)
