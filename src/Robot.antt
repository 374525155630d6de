-- ===== src/Robot.antt =====
-- The state of `RobotImpl` of karo_x2_sdk/_internal/robot_impl.py, and the steps that its handlers
-- share. A handler is a function on the state. What it does to the outside goes to `trace`, in
-- order: callbacks and futures are run by the event loop after the handler. The awaits of a send
-- and of a close of the websocket are taken to return before any other handler runs; an await of an
-- answer, of a connection or of a delay ends the handler, and another function goes on from there.
pub mod Lifecycle
pub mod Filed
pub mod Rpc
pub mod Subscribe
pub mod Orderly
pub mod New
pub mod Waiting
pub mod Reporting
pub mod Facade
pub mod Link
pub mod Streams
pub mod Unsubscribe
pub mod Ack
pub mod Establish
pub mod Reconnect
pub mod Inbound
pub mod Commands
pub mod Tasks
pub mod Heartbeat
pub mod Steps
use karo_x2_sdk_python.Prelude.{
  ℕ, ◌+◌, suc, Bool, true, false, not, String, ◌<>◌, List, [], ◌∷◌, ◌++◌, map, Option, some, none,
  Dict, insert, erase, if◌then◌else◌, ℤ, pos_part, string_eq, nat_eq,
}
use karo_x2_sdk_python.Error.{ErrorCode, eq_code, SdkException}
use karo_x2_sdk_python.Connection.{ConnectionState, StateChangeInfo, is_state, state_name}
use karo_x2_sdk_python.Topic.{DeliverySemantics}
use karo_x2_sdk_python.Subscription.{SubscriptionState, StreamStatusKind}
use karo_x2_sdk_python.Options.{ConnectOptions, RobotInfo}
use karo_x2_sdk_python.Codec.Wire.{Bytes, Parsers}
use karo_x2_sdk_python.Codec.Decode.{DecodedResponse}
use karo_x2_sdk_python.Codec.Encode.{SdkCommand}
use karo_x2_sdk_python.Rate.{TokenBucket}
use karo_x2_sdk_python.Latency.{RttHist}
use karo_x2_sdk_python.Backoff.{next_backoff_ms}
use karo_x2_sdk_python.Diagnostics.{LogLevel}
use karo_x2_sdk_python.Slot.{SubSlot, SlotEffect, is_sub_state}
use karo_x2_sdk_python.Slot.Deliver.{status}

-- What the cryptography library makes of a certificate: its DER form, or the text of an exception.
pub data Certificate : Type 0 where
  der_form : Bytes → Certificate
  malformed : String → Certificate

-- What is outside of the SDK: whether the send of the command with a request id succeeds, the
-- length of its bytes, the random numbers (as multiples of 2^-53), the generated parsers, and the
-- DER form of a certificate, and the text of the
-- exception that protobuf raises on a command with a field out of range.
pub record Env : Type 0 where
  pub send_ok : ℕ → Bool
  pub byte_length : SdkCommand → ℕ
  pub random : ℕ → ℕ
  pub parsers : Parsers
  pub load_certificate : String → Certificate
  pub encode_error : SdkCommand → Option String

-- `_InflightRpc`. `done` is whether the future is done, as after the caller was cancelled.
pub record InflightRpc : Type 0 where
  pub method : String
  pub done : Bool

-- An entry of `_rpc_stats`.
pub record RpcStats : Type 0 where
  pub count : ℕ
  pub error_count : ℕ
  pub hist : RttHist

-- Where `_establish` waits: for the websocket, or for the answer to the handshake that it sent. The
-- flag is `is_reconnect`.
pub data Establishing : Type 0 where
  nowhere : Establishing
  at_connect : Bool → Establishing
  at_handshake : Bool → ℕ → Establishing

pub data Effect : Type 0 where
  on_slot : ℕ → SlotEffect → Effect
  log : LogLevel → String → Effect
  state_callback : ConnectionState → ConnectionState → StateChangeInfo → Effect
  send : SdkCommand → Effect
  set_result : ℕ → DecodedResponse → Effect
  set_exception : ℕ → SdkException → Effect
  set_timeout : ℕ → Effect
  ws_close : Effect
  start_abort : ErrorCode → String → Effect
  start_estop_replay : Effect

-- `ws` is `_ws`, with whether it is open. `reconnect_task` is the attempt of the task in
-- `_reconnect_task` while it sleeps; `older_tasks` are those that sleep and have no handle any
-- more. `establish_handled` is whether the task in `_reconnect_task` is the one that is in
-- `_establish`. `retired` are the slots that left `_subs`, which their facades still show.
-- `last_estop_intent` is whether it is "engaged".
pub record Robot : Type 0 where
  pub env : Env
  pub opts : ConnectOptions
  pub clock_ms : ℕ
  pub clock_steady : ℕ
  pub draws : ℕ
  pub state : ConnectionState
  pub ws : Option Bool
  pub connection_state_handler : Bool
  pub log_handler : Bool
  pub robot_info : Option RobotInfo
  pub next_request_id : ℕ
  pub inflight : Dict ℕ InflightRpc
  pub subs : Dict String SubSlot
  pub retired : List SubSlot
  pub next_ident : ℕ
  pub inflight_sub : Dict ℕ String
  pub sub_ack_timers : Dict ℕ String
  pub heartbeat_task : Bool
  pub last_inbound : ℕ
  pub miss_count : ℕ
  pub establishing : Establishing
  pub reconnect_attempt : ℕ
  pub reconnect_total_count : ℕ
  pub reconnect_task : Option ℕ
  pub older_tasks : List ℕ
  pub establish_handled : Bool
  pub last_estop_intent : Bool
  pub last_estop_reason : String
  pub reconnect_subs_pending : ℕ
  pub reconnect_estop_pending : Bool
  pub cmdvel_rate : TokenBucket
  pub cmdvel_seq : ℕ
  pub last_state_change_ms : ℕ
  pub last_error_code : ErrorCode
  pub last_error_msg : String
  pub bytes_sent : ℕ
  pub bytes_received : ℕ
  pub last_ping_sent_ms : Option ℕ
  pub rtt_hist : RttHist
  pub cmd_vel_stats : RpcStats
  pub emergency_stop_stats : RpcStats
  pub ping_stats : RpcStats
  pub connect_invoked : Bool
  pub trace : List Effect

unfoldable pub emit : Robot → List Effect → Robot
emit r effects = record r { trace = r.trace ++ effects }

-- `_next_rid`: the id is `r.next_request_id`.
unfoldable pub take_rid : Robot → Robot
take_rid r = record r { next_request_id = r.next_request_id + 1 }

-- `_post_state_callback`: nothing without a handler.
pub state_callback_effect : Bool → ConnectionState → ConnectionState → StateChangeInfo → List Effect
state_callback_effect false old new info = []
state_callback_effect true old new info = state_callback old new info ∷ []

-- The log line of a transition.
transition_message : ConnectionState → ConnectionState → String → String
unfolding state_name
transition_message old new String.[] =
    "state transition " <> (state_name old <> (" -> " <> state_name new))
transition_message old new (String.◌∷◌ c s) =
    "state transition "
    <> (state_name old <> (" -> " <> (state_name new <> (" (" <> (String.◌∷◌ c s <> ")")))))

-- `_transition`
unfoldable pub transition : Robot → ConnectionState → StateChangeInfo → Robot
unfolding state_callback_effect transition_message
transition r new info = if is_state r.state new then r else record r {
  state = new;
  last_state_change_ms = r.clock_ms;
  last_error_code =
      if eq_code info.last_error_code ErrorCode.ok then r.last_error_code else info.last_error_code;
  last_error_msg =
      if eq_code info.last_error_code ErrorCode.ok
      then r.last_error_msg
      else info.last_error_message;
  trace =
      r.trace
      ++ log LogLevel.info (transition_message r.state new info.reason)
        ∷ state_callback_effect r.connection_state_handler r.state new
            (record info { reconnect_attempt = r.reconnect_attempt });
}

-- `StateChangeInfo(reason=…, last_error_code=…, last_error_message=…)`
abbrev pub change : String → ErrorCode → String → StateChangeInfo
change reason code message = record {
  reason = reason;
  last_error_code = code;
  last_error_message = message;
  next_retry_in_ms = 0;
  reconnect_attempt = 0;
  last_action = "";
}

-- A call of `_next_backoff_ms`, which draws a random number.
unfoldable pub backoff : Robot → ℕ → ℕ
backoff r attempt = next_backoff_ms r.opts attempt (r.env.random r.draws)

unfoldable pub drawn : Robot → Robot
drawn r = record r { draws = r.draws + 1 }

-- The effects of a slot, under its identity.
abbrev pub on_slots : SubSlot → List SlotEffect → List Effect
on_slots slot effects = map (on_slot slot.ident) effects

-- The slot stands in `_subs` under its topic.
unfoldable pub put_slot : Robot → SubSlot → Robot
put_slot r slot = record r { subs = insert slot.topic slot r.subs }

-- `state = CLOSED`, the error, and `_stop_sub_worker`.
unfoldable pub closed_slot : SubSlot → ErrorCode → SubSlot
closed_slot slot code = record slot {
  state = SubscriptionState.closed;
  error_code = code;
  dispatch_worker = false;
}

-- The lines that the code repeats where a subscription ends: the slot is closed, its callback is
-- told, and it leaves `_subs`.
unfoldable pub end_slot : Robot → SubSlot → ErrorCode → String → Robot
unfolding closed_slot status
end_slot r slot code reason = record r {
  subs = erase slot.topic r.subs;
  retired = closed_slot slot code ∷ r.retired;
  trace = r.trace ++ on_slots slot (status slot StreamStatusKind.closed none code reason);
}
