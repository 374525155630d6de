-- ===== src/Diagnostics/Report.antt =====
-- The records of karo_x2_sdk/diagnostics.py, and `_to_dict`, which makes a JSON value of them.
use karo_x2_sdk_python.Prelude.{ℕ, ℤ, String, List, [], ◌∷◌, if◌then◌else◌, pos}
use karo_x2_sdk_python.Error.{ErrorCode, eq_code, pascal_name}
use karo_x2_sdk_python.Connection.{ConnectionState, state_name}
use karo_x2_sdk_python.Topic.{FloatBits}
use karo_x2_sdk_python.Subscription.{SubscriptionState, subscription_name}

pub record ConnectionStat : Type 0 where
  pub state : ConnectionState
  pub last_state_change_ms : ℕ
  pub reconnect_count : ℕ
  pub last_error_code : ErrorCode
  pub last_error_message : String
  pub server_protocol_version : String

pub record TransportStat : Type 0 where
  pub rtt_p50_ms : ℕ
  pub rtt_p99_ms : ℕ
  pub bytes_sent : ℕ
  pub bytes_received : ℕ
  pub last_ping_age_ms : ℤ

-- `received_1min` are the messages of the last minute, 60 times `received_hz_1min`.
pub record SubscriptionStat : Type 0 where
  pub topic : String
  pub state : SubscriptionState
  pub configured_hz : FloatBits
  pub received_1min : ℕ
  pub drop_count : ℕ
  pub last_seq : ℕ
  pub last_message_age_ms : ℤ

pub record RpcStat : Type 0 where
  pub name : String
  pub count : ℕ
  pub error_count : ℕ
  pub p99_latency_ms : ℕ

pub record Diagnostics : Type 0 where
  pub connection : ConnectionStat
  pub transport : TransportStat
  pub subscriptions : List SubscriptionStat
  pub rpcs : List RpcStat

-- The JSON values of a report. `float` is a bit pattern, `per_60` a number of sixtieths.
mutual
  pub data Json : Type 0 where
    null : Json
    text : String → Json
    int : ℤ → Json
    float : FloatBits → Json
    per_60 : ℕ → Json
    array : JsonItems → Json
    object : JsonFields → Json

  pub data JsonItems : Type 0 where
    end : JsonItems
    item : Json → JsonItems → JsonItems

  pub data JsonFields : Type 0 where
    done : JsonFields
    field : String → Json → JsonFields → JsonFields

-- `conn_err`
last_error : ConnectionStat → Json
last_error c =
    if eq_code c.last_error_code ErrorCode.ok
    then null
    else object (
        field "code" (text (pascal_name c.last_error_code))
          (field "message" (text c.last_error_message) done))

unfoldable pub connection_dict : ConnectionStat → Json
unfolding last_error
connection_dict c = object (
    field "state" (text (state_name c.state)) (
      field "last_state_change_ms" (int (pos c.last_state_change_ms)) (
        field "reconnect_count" (int (pos c.reconnect_count)) (
          field "last_error" (last_error c)
            (field "server_protocol_version" (text c.server_protocol_version) done)))))

transport_dict : TransportStat → Json
transport_dict t = object (
    field "rtt_p50_ms" (int (pos t.rtt_p50_ms)) (
      field "rtt_p99_ms" (int (pos t.rtt_p99_ms)) (
        field "bytes_sent" (int (pos t.bytes_sent)) (
          field "bytes_received" (int (pos t.bytes_received))
            (field "last_ping_age_ms" (int t.last_ping_age_ms) done)))))

subscription_dict : SubscriptionStat → Json
subscription_dict s = object (
    field "topic" (text s.topic) (
      field "state" (text (subscription_name s.state)) (
        field "configured_hz" (float s.configured_hz) (
          field "received_hz_1min" (per_60 s.received_1min) (
            field "drop_count" (int (pos s.drop_count)) (
              field "last_seq" (int (pos s.last_seq))
                (field "last_message_age_ms" (int s.last_message_age_ms) done)))))))

rpc_dict : RpcStat → Json
rpc_dict r = object (
    field "name" (text r.name) (
      field "count" (int (pos r.count)) (
        field "error_count" (int (pos r.error_count))
          (field "p99_latency_ms" (int (pos r.p99_latency_ms)) done))))

subscription_items : List SubscriptionStat → JsonItems
unfolding subscription_dict
subscription_items [] = end
subscription_items (s ∷ stats) = item (subscription_dict s) (subscription_items stats)

rpc_items : List RpcStat → JsonItems
unfolding rpc_dict
rpc_items [] = end
rpc_items (r ∷ stats) = item (rpc_dict r) (rpc_items stats)

-- `_to_dict`
unfoldable pub to_dict : Diagnostics → Json
unfolding connection_dict transport_dict subscription_items rpc_items
to_dict d = object (
    field "connection" (connection_dict d.connection) (
      field "transport" (transport_dict d.transport) (
        field "subscriptions" (array (subscription_items d.subscriptions))
          (field "rpcs" (array (rpc_items d.rpcs)) done))))
