-- ===== src/Subscription.antt =====
-- karo_x2_sdk/subscription.py: the states of a subscription and what its status callback is told.
use karo_x2_sdk_python.Prelude.{ℕ, String, Option, nat_eq}
use karo_x2_sdk_python.Error.{ErrorCode}

pub data StreamStatusKind : Type 0 where
  started paused resumed gap closed : StreamStatusKind

pub record StreamStatus : Type 0 where
  pub kind : StreamStatusKind
  pub reason : String
  pub gap_count : Option ℕ
  pub error_code : ErrorCode

pub data SubscriptionState : Type 0 where
  pending active paused closed : SubscriptionState

pub data DropPolicy : Type 0 where
  drop_oldest drop_newest : DropPolicy

pub data CallbackMode : Type 0 where
  dispatched inline : CallbackMode

-- `_SUB_NAMES`
unfoldable pub subscription_name : SubscriptionState → String
subscription_name SubscriptionState.pending = "Pending"
subscription_name SubscriptionState.active = "Active"
subscription_name SubscriptionState.paused = "Paused"
subscription_name SubscriptionState.closed = "Closed"

-- `_STREAM_NAMES`
unfoldable pub stream_name : StreamStatusKind → String
stream_name StreamStatusKind.started = "Started"
stream_name StreamStatusKind.paused = "Paused"
stream_name StreamStatusKind.resumed = "Resumed"
stream_name StreamStatusKind.gap = "Gap"
stream_name StreamStatusKind.closed = "Closed"
