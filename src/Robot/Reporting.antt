-- ===== src/Robot/Reporting.antt =====
-- `get_diagnostics` of karo_x2_sdk/_internal/robot_impl.py.
pub mod Again
use karo_x2_sdk_python.Prelude.{
  ℕ, ◌+◌, ◌-◌, ◌/◌, ◌^◌, zero, suc, ℤ, pos, negsuc, diff, String, List, [], ◌∷◌, Option, some, none,
  Dict, ltb, if◌then◌else◌,
}
use karo_x2_sdk_python.Options.{RobotInfo}
use karo_x2_sdk_python.Latency.{p50_ms, p99_ms}
use karo_x2_sdk_python.Slot.{SubSlot}
use karo_x2_sdk_python.Slot.Hz.{slide_hz_buckets}
use karo_x2_sdk_python.Diagnostics.Report.{
  ConnectionStat, TransportStat, SubscriptionStat, RpcStat, Diagnostics,
}
use karo_x2_sdk_python.Robot.{Robot, RpcStats}

version_in : Option RobotInfo → String
version_in none = ""
version_in (some info) = info.protocol_version

connection_stat : Robot → ConnectionStat
unfolding version_in
connection_stat r = record {
  state = r.state;
  last_state_change_ms = r.last_state_change_ms;
  reconnect_count = r.reconnect_total_count;
  last_error_code = r.last_error_code;
  last_error_message = r.last_error_msg;
  server_protocol_version = version_in r.robot_info;
}

-- The age of the last ping, or -1 before the first.
ping_age : ℕ → Option ℕ → ℤ
ping_age now none = negsuc 0
ping_age now (some sent) = diff now sent

transport_stat : Robot → TransportStat
unfolding ping_age
transport_stat r = record {
  rtt_p50_ms = p50_ms r.rtt_hist;
  rtt_p99_ms = p99_ms r.rtt_hist;
  bytes_sent = r.bytes_sent;
  bytes_received = r.bytes_received;
  last_ping_age_ms = ping_age r.clock_ms r.last_ping_sent_ms;
}

-- `sum(slot.hz_buckets)`
total : List ℕ → ℕ
total [] = 0
total (n ∷ buckets) = n + total buckets

-- The age in milliseconds of the last message, or -1 before the first; the steady clock does not go
-- back.
message_age : ℕ → ℕ → ℤ
message_age now last = if ltb 0 last then pos ((now - last) / 10 ^ 6) else negsuc 0

-- A subscription after its buckets have been slid.
subscription_stat : Robot → String → SubSlot → SubscriptionStat
unfolding total message_age
subscription_stat r topic slot = record {
  topic = topic;
  state = slot.state;
  configured_hz = slot.desired_hz;
  received_1min = total slot.hz_buckets;
  drop_count = slot.drop_count;
  last_seq = slot.last_seq;
  last_message_age_ms = message_age r.clock_steady slot.last_message_at;
}

unfoldable pub slide_all : ℕ → Dict String SubSlot → Dict String SubSlot
slide_all epoch_ms [] = []
slide_all epoch_ms ((topic, slot) ∷ subs) =
    (topic, slide_hz_buckets slot epoch_ms) ∷ slide_all epoch_ms subs

subscription_stats : Robot → Dict String SubSlot → List SubscriptionStat
unfolding subscription_stat
subscription_stats r [] = []
subscription_stats r ((topic, slot) ∷ subs) =
    subscription_stat r topic slot ∷ subscription_stats r subs

rpc_stat : String → RpcStats → RpcStat
rpc_stat name st = record {
  name = name;
  count = st.count;
  error_count = st.error_count;
  p99_latency_ms = p99_ms st.hist;
}

unfoldable pub get_diagnostics : Robot → Robot × Diagnostics
unfolding connection_stat transport_stat slide_all subscription_stats rpc_stat
get_diagnostics r =
    let slid : Dict String SubSlot = slide_all r.clock_ms r.subs in
    (
      record r { subs = slid },
      record {
        connection = connection_stat r;
        transport = transport_stat r;
        subscriptions = subscription_stats r slid;
        rpcs =
            rpc_stat "cmd_vel" r.cmd_vel_stats
            ∷ rpc_stat "emergency_stop" r.emergency_stop_stats
            ∷ rpc_stat "ping" r.ping_stats
            ∷ [];
      },
    )
