-- ===== src/Robot/Heartbeat.antt =====
-- The heartbeat of karo_x2_sdk/_internal/robot_impl.py: a turn of `_heartbeat_loop`, and a round of
-- `_send_and_wait_ping` in two parts around its wait.
pub mod Silence
use karo_x2_sdk_python.Prelude.{
  ℕ, zero, suc, ◌+◌, ◌-◌, ◌/◌, ◌*◌, ◌^◌, Bool, true, false, not, ◌||◌, ◌&&◌, String, ◌<>◌, str,
  List, [], ◌∷◌, Option, some, none, insert, erase, if◌then◌else◌, leb, ltb, nat_eq, pos_part, ℤ,
}
use karo_x2_sdk_python.Error.{ErrorCode}
use karo_x2_sdk_python.Connection.{ConnectionState, is_state}
use karo_x2_sdk_python.Diagnostics.{LogLevel}
use karo_x2_sdk_python.Codec.Encode.{SdkCommand, encode_ping}
use karo_x2_sdk_python.Latency.{record_rtt}
use karo_x2_sdk_python.Robot.{Robot, InflightRpc, log, emit, take_rid}
use karo_x2_sdk_python.Robot.Lifecycle.{on_transport_close}
use karo_x2_sdk_python.Robot.Rpc.{count_sent}

-- What a turn of the loop comes to: the task ends, it sleeps for a number of nanoseconds or until
-- something comes in, or it starts to ping.
pub data Turn : Type 0 where
  ends : Turn
  sleeps : ℕ → Turn
  pings : Turn

-- `self._ws is not None and self._ws.is_open`
unfoldable pub ws_open : Option Bool → Bool
ws_open none = false
ws_open (some is_open) = is_open

-- One turn of `_heartbeat_loop`. The interval is in microseconds.
unfoldable pub heartbeat_turn : Robot → Robot × Turn
unfolding ws_open
heartbeat_turn r =
    let idle : ℕ = r.clock_steady - r.last_inbound in
    let interval : ℕ = pos_part r.opts.heartbeat_interval * 1000 in
    let ended : Robot = record r { heartbeat_task = false } in
    if not (is_state r.state ConnectionState.ready)
    then (ended, ends)
    else if ltb idle interval
    then (r, sleeps (interval - idle))
    else if ws_open r.ws
    then (r, pings)
    else (ended, ends)

-- How a round starts: it stops, the send has failed, or it waits for the answer to a ping.
pub data Round : Type 0 where
  stopped : Round
  send_failed : Round
  waits : ℕ → ℕ → Round

unfoldable pub send_ping : Robot → ℕ → Robot × Round
unfolding count_sent take_rid
send_ping r rid =
    let registered : Robot = record (take_rid r) {
      last_ping_sent_ms = some r.clock_ms;
      inflight = insert rid (record { method = "ping"; done = false }) r.inflight;
    } in
    if r.env.send_ok rid
    then (count_sent registered (encode_ping rid r.clock_ms), waits rid r.clock_steady)
    else (
      on_transport_close (record registered { inflight = erase rid registered.inflight })
          ErrorCode.transport_failure "heartbeat send failed",
      send_failed,
    )

-- A round of `_send_and_wait_ping`, up to its wait.
unfoldable pub ping_round : Robot → Robot × Round
unfolding send_ping ws_open
ping_round r =
    if is_state r.state ConnectionState.ready && ws_open r.ws
    then send_ping r r.next_request_id
    else (r, stopped)

-- The answer or another message came in time; `answered` is whether it was the answer.
unfoldable pub ping_alive : Robot → ℕ → ℕ → Bool → Robot
ping_alive r rid send_t answered = record r {
  rtt_hist =
      if answered then record_rtt r.rtt_hist ((r.clock_steady - send_t) / 10 ^ 6) else r.rtt_hist;
  miss_count = 0;
  inflight = erase rid r.inflight;
}

-- Nothing came in time. The flag is whether the loop of rounds is over.
unfoldable pub ping_missed : Robot → ℕ → Robot × Bool
unfolding emit
ping_missed r rid =
    let counted : Robot = record r {
      inflight = erase rid r.inflight;
      miss_count = r.miss_count + 1;
    } in
    if leb r.opts.max_missed_pings counted.miss_count
    then (
      on_transport_close
          (emit counted (
            log LogLevel.warn
              ("heartbeat miss_count=" <> (str counted.miss_count <> ", declaring dead"))
            ∷ []))
          ErrorCode.transport_failure "heartbeat dead",
      true,
    )
    else (counted, false)
