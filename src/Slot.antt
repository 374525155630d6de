-- ===== src/Slot.antt =====
-- `SubSlot` of karo_x2_sdk/_internal/subscription_impl.py: one subscription, with its buffers.
-- Times of the monotonic clock are nanoseconds. `ident` is the identity of the Python object.
pub mod Hz
pub mod Deliver
use karo_x2_sdk_python.Prelude.{
  ℕ, Bool, true, false, String, List, [], Option, some, none, replicate, ◌==◌, nat_eq,
}
use karo_x2_sdk_python.Error.{ErrorCode}
use karo_x2_sdk_python.Connection.{ConnectionState, StateChangeInfo}
use karo_x2_sdk_python.Topic.{DeliverySemantics, FloatBits}
use karo_x2_sdk_python.Subscription.{SubscriptionState, StreamStatus, DropPolicy, CallbackMode}
use karo_x2_sdk_python.Codec.Decode.{DecodedTopicPush}
use karo_x2_sdk_python.Diagnostics.{LogLevel}

-- The three dispatchers that the SDK makes, by the message that they decode.
pub data FrameDispatcher : Type 0 where
  robot_status task_event safety_event : FrameDispatcher

-- `status_callback` is whether there is one. `dispatch_worker` is whether it runs.
pub record SubSlot : Type 0 where
  pub ident : ℕ
  pub topic : String
  pub desired_hz : FloatBits
  pub semantics : DeliverySemantics
  pub callback_mode : CallbackMode
  pub drop_policy : DropPolicy
  pub queue_size : ℕ
  pub frame_dispatcher : Option FrameDispatcher
  pub status_callback : Bool
  pub state : SubscriptionState
  pub last_seq : ℕ
  pub drop_count : ℕ
  pub error_code : ErrorCode
  pub pending_buffer : List DecodedTopicPush
  pub inflight_subscribe_request_id : ℕ
  pub fresh_retry_done : Bool
  pub expected_resume_seq : ℕ
  pub ever_active : Bool
  pub is_reconnect_resume : Bool
  pub unsubscribe_sent : Bool
  pub user_closed : Bool
  pub messages_received : ℕ
  pub last_message_at : ℕ
  pub hz_buckets : List ℕ
  pub hz_last_epoch_ms : ℕ
  pub dispatch_queue : Option (List DecodedTopicPush)
  pub dispatch_worker : Bool

-- What a slot does to the outside: a status callback that is scheduled, a log line, and a frame
-- that is handed to the dispatcher.
pub data SlotEffect : Type 0 where
  fire_status : StreamStatus → SlotEffect
  post_log : LogLevel → String → SlotEffect
  frame : FrameDispatcher → DecodedTopicPush → SlotEffect

-- `==` on the states.
state_number : SubscriptionState → ℕ
state_number SubscriptionState.pending = 0
state_number SubscriptionState.active = 1
state_number SubscriptionState.paused = 2
state_number SubscriptionState.closed = 3

unfoldable pub is_sub_state : SubscriptionState → SubscriptionState → Bool
unfolding state_number
is_sub_state a b = state_number a == state_number b
