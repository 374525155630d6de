-- ===== src/Codec/Encode.antt =====
-- karo_x2_sdk/_internal/proto_codec.py: the commands that the SDK sends, as the protobuf messages
-- of proto/sdk/session.proto and proto/karo/v1 before `SerializeToString`.
use karo_x2_sdk_python.Prelude.{ℕ, Bool, String, [], ◌∷◌, Dict}
use karo_x2_sdk_python.Topic.{FloatBits}
use karo_x2_sdk_python.Codec.Wire.{Bytes}

-- The request messages of the commands. Only the twist's three fields that are not 0.0 vary.
pub data RpcPayload : Type 0 where
  cmd_vel_request : FloatBits → FloatBits → FloatBits → ℕ → ℕ → RpcPayload
  emergency_stop_request : Bool → RpcPayload
  move_to_marker : String → RpcPayload
  move_to_pose : FloatBits → FloatBits → FloatBits → RpcPayload
  cancel_task_request pause_task_request resume_task_request : String → RpcPayload

-- `karo.v1.Request`
pub record RpcRequest : Type 0 where
  pub id : ℕ
  pub method : String
  pub deadline_ms : ℕ
  pub metadata : Dict String String
  pub payload : RpcPayload

pub data Command : Type 0 where
  handshake_cert handshake_token : String → String → Bytes → Command
  ping : ℕ → Command
  subscribe : String → FloatBits → ℕ → ℕ → Command
  unsubscribe : String → Command
  rpc : RpcRequest → Command

pub record SdkCommand : Type 0 where
  pub request_id : ℕ
  pub command : Command

unfoldable pub encode_handshake_cert : ℕ → String → String → Bytes → SdkCommand
encode_handshake_cert request_id sdk_version client_id cert_der = record {
  request_id = request_id;
  command = handshake_cert sdk_version client_id cert_der;
}

unfoldable pub encode_handshake_token : ℕ → String → String → Bytes → SdkCommand
encode_handshake_token request_id sdk_version client_id token = record {
  request_id = request_id;
  command = handshake_token sdk_version client_id token;
}

unfoldable pub encode_ping : ℕ → ℕ → SdkCommand
encode_ping request_id client_ts_ms = record {
  request_id = request_id;
  command = ping client_ts_ms;
}

unfoldable pub encode_subscribe : ℕ → String → FloatBits → ℕ → ℕ → SdkCommand
encode_subscribe request_id topic desired_hz since_seq history_limit = record {
  request_id = request_id;
  command = subscribe topic desired_hz since_seq history_limit;
}

unfoldable pub encode_unsubscribe : ℕ → String → SdkCommand
encode_unsubscribe request_id topic = record {
  request_id = request_id;
  command = unsubscribe topic;
}

unfoldable pub encode_cmd_vel : ℕ → FloatBits → FloatBits → FloatBits → ℕ → ℕ → SdkCommand
encode_cmd_vel request_id linear_x linear_y angular_z sequence client_ts_ms = record {
  request_id = request_id;
  command = rpc (record {
    id = request_id;
    method = "control.cmd_vel";
    deadline_ms = 200;
    metadata = [];
    payload = cmd_vel_request linear_x linear_y angular_z sequence client_ts_ms;
  });
}

-- `if reason: rpc.metadata["reason"] = reason`
reason_metadata : String → Dict String String
reason_metadata String.[] = []
reason_metadata (String.◌∷◌ c s) = ("reason", String.◌∷◌ c s) ∷ []

unfoldable pub encode_emergency_stop : ℕ → Bool → String → SdkCommand
unfolding reason_metadata
encode_emergency_stop request_id engage reason = record {
  request_id = request_id;
  command = rpc (record {
    id = request_id;
    method = "safety.emergency_stop";
    deadline_ms = 2000;
    metadata = reason_metadata reason;
    payload = emergency_stop_request engage;
  });
}

-- `_wrap_task_rpc`
unfoldable pub wrap_task_rpc : ℕ → String → RpcPayload → SdkCommand
wrap_task_rpc request_id method req = record {
  request_id = request_id;
  command = rpc (record {
    id = request_id;
    method = method;
    deadline_ms = 2000;
    metadata = [];
    payload = req;
  });
}

unfoldable pub encode_create_nav_task_marker : ℕ → String → SdkCommand
unfolding wrap_task_rpc
encode_create_nav_task_marker request_id marker_id =
    wrap_task_rpc request_id "move.create_task" (move_to_marker marker_id)

unfoldable pub encode_create_nav_task_pose : ℕ → FloatBits → FloatBits → FloatBits → SdkCommand
unfolding wrap_task_rpc
encode_create_nav_task_pose request_id x y theta =
    wrap_task_rpc request_id "move.create_task" (move_to_pose x y theta)

unfoldable pub encode_cancel_task : ℕ → String → SdkCommand
unfolding wrap_task_rpc
encode_cancel_task request_id task_id =
    wrap_task_rpc request_id "task_actions.cancel_task" (cancel_task_request task_id)

unfoldable pub encode_pause_task : ℕ → String → SdkCommand
unfolding wrap_task_rpc
encode_pause_task request_id task_id =
    wrap_task_rpc request_id "task_actions.pause_task" (pause_task_request task_id)

unfoldable pub encode_resume_task : ℕ → String → SdkCommand
unfolding wrap_task_rpc
encode_resume_task request_id task_id =
    wrap_task_rpc request_id "task_actions.resume_task" (resume_task_request task_id)
