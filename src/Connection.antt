-- ===== src/Connection.antt =====
-- karo_x2_sdk/connection_state.py: the states of a connection, and what a state callback is told.
use karo_x2_sdk_python.Prelude.{ℕ, Bool, true, String, ◌==◌, nat_eq, ◌≡◌, ◌↔◌, arith}
use karo_x2_sdk_python.Error.{ErrorCode}

pub data ConnectionState : Type 0 where
  idle connecting ready transient_failure reconnecting shutdown fatal : ConnectionState

pub state_value : ConnectionState → ℕ
state_value idle = 0
state_value connecting = 1
state_value ready = 2
state_value transient_failure = 3
state_value reconnecting = 4
state_value shutdown = 5
state_value fatal = 6

-- `_NAMES`
unfoldable pub state_name : ConnectionState → String
state_name idle = "Idle"
state_name connecting = "Connecting"
state_name ready = "Ready"
state_name transient_failure = "TransientFailure"
state_name reconnecting = "Reconnecting"
state_name shutdown = "Shutdown"
state_name fatal = "Fatal"

-- `a == b` on the members.
unfoldable pub is_state : ConnectionState → ConnectionState → Bool
unfolding state_value
is_state a b = state_value a == state_value b

-- `last_action` is a text.
pub record StateChangeInfo : Type 0 where
  pub reason : String
  pub last_error_code : ErrorCode
  pub last_error_message : String
  pub next_retry_in_ms : ℕ
  pub reconnect_attempt : ℕ
  pub last_action : String

-- The comparison decides equality of the states.
pub is_state_iff : (a b : ConnectionState) → (is_state a b ≡ true) ↔ (a ≡ b)
unfolding is_state
is_state_iff a b = ground arith
