-- ===== src/Robot/Orderly/Heartbeat.antt =====
-- The heartbeat keeps the ids in order.
use karo_x2_sdk_python.Prelude.{
  ℕ, ◌+◌, ◌*◌, ◌-◌, refl, Bool, false, not, ◌&&◌, some, Bool-cases, inl, inr, [], ◌∷◌, ◌<>◌, str,
  nat_eq, insert, erase, ltb, leb, pos_part, arith,
}
use karo_x2_sdk_python.Error.{ErrorCode}
use karo_x2_sdk_python.Connection.{ConnectionState, is_state}
use karo_x2_sdk_python.Diagnostics.{LogLevel}
use karo_x2_sdk_python.Codec.Encode.{encode_ping}
use karo_x2_sdk_python.Robot.{Robot, InflightRpc, log, emit, take_rid}
use karo_x2_sdk_python.Robot.Heartbeat.{
  ws_open, heartbeat_turn, send_ping, ping_round, ping_alive, ping_missed,
}
use karo_x2_sdk_python.Robot.Orderly.{Below-insert, Below-erase, Below, IsOrderly}
use karo_x2_sdk_python.Robot.Orderly.Quiet.{Quiet-IsOrderly, emit-Quiet}
use karo_x2_sdk_python.Robot.Orderly.Ending.{on_transport_close-Quiet}
use karo_x2_sdk_python.Robot.Orderly.Sending.{
  Taken, take_rid-Taken, Taken-IsOrderly, count_sent-order, count_sent-IsTold,
}

pub heartbeat_turn-IsOrderly : (r : Robot) → IsOrderly r → IsOrderly (heartbeat_turn r).0
unfolding heartbeat_turn
heartbeat_turn-IsOrderly r h =
    let over : IsOrderly (record r { heartbeat_task = false }) = record {
      order = h.order;
      calls = h.calls;
      subs = h.subs;
      told = h.told;
      filed = h.filed;
    } in
    elim (Bool-cases (not (is_state r.state ConnectionState.ready))) [
      | inl e ↦ rw e over
      | inr e ↦
          elim (Bool-cases
            (ltb (r.clock_steady - r.last_inbound) (pos_part r.opts.heartbeat_interval * 1000))) [
              | inl x ↦ rw (e, x) h
              | inr x ↦ elim (Bool-cases (ws_open r.ws)) [
                | inl y ↦ rw (e, x, y) h
                | inr y ↦ rw (e, x, y) over
              ]
            ]
    ]

send_ping-IsOrderly : (r : Robot) → IsOrderly r → IsOrderly (send_ping r r.next_request_id).0
unfolding send_ping encode_ping
send_ping-IsOrderly r h =
    let rid : ℕ = r.next_request_id in
    let entry : InflightRpc = record { method = "ping"; done = false } in
    let taken : Taken (take_rid r) rid = take_rid-Taken r h in
    let fresh : IsOrderly (take_rid r) = Taken-IsOrderly (take_rid r) rid taken in
    let more : Below (rid + 1) (insert rid entry r.inflight) =
      Below-insert (rid + 1) rid entry r.inflight (omega arith) fresh.calls in
    let registered : Robot = record (take_rid r) {
      last_ping_sent_ms = some r.clock_ms;
      inflight = insert rid entry r.inflight;
    } in
    let unsent : Robot = record registered { inflight = erase rid registered.inflight } in
    elim (Bool-cases (r.env.send_ok rid)) [
      | inl e ↦ rw e (record {
        order = count_sent-order (take_rid r) rid (encode_ping rid r.clock_ms) taken refl;
        calls = more;
        subs = fresh.subs;
        told = count_sent-IsTold (take_rid r) (encode_ping rid r.clock_ms) h.told;
        filed = h.filed;
      })
      | inr e ↦ rw e (
          Quiet-IsOrderly
            (on_transport_close-Quiet unsent ErrorCode.transport_failure "heartbeat send failed")
            (record {
              order = fresh.order;
              calls = Below-erase (rid + 1) rid (insert rid entry r.inflight) more;
              subs = fresh.subs;
              told = h.told;
              filed = h.filed;
            }))
    ]

pub ping_round-IsOrderly : (r : Robot) → IsOrderly r → IsOrderly (ping_round r).0
unfolding ping_round
ping_round-IsOrderly r h =
    elim (Bool-cases (is_state r.state ConnectionState.ready && ws_open r.ws)) [
      | inl e ↦ rw e (send_ping-IsOrderly r h)
      | inr e ↦ rw e h
    ]

pub ping_alive-IsOrderly :
    (r : Robot) (rid send_t : ℕ) (is_answer : Bool)
    → IsOrderly r
    → IsOrderly (ping_alive r rid send_t is_answer)
unfolding ping_alive
ping_alive-IsOrderly r rid send_t is_answer h = record {
  order = h.order;
  calls = Below-erase r.next_request_id rid r.inflight h.calls;
  subs = h.subs;
  told = h.told;
  filed = h.filed;
}

pub ping_missed-IsOrderly : (r : Robot) (rid : ℕ) → IsOrderly r → IsOrderly (ping_missed r rid).0
unfolding ping_missed
ping_missed-IsOrderly r rid h =
    let counted : Robot = record r {
      inflight = erase rid r.inflight;
      miss_count = r.miss_count + 1;
    } in
    let line =
      log LogLevel.warn
        ("heartbeat miss_count=" <> (str counted.miss_count <> ", declaring dead")) in
    let g : IsOrderly counted = record {
      order = h.order;
      calls = Below-erase r.next_request_id rid r.inflight h.calls;
      subs = h.subs;
      told = h.told;
      filed = h.filed;
    } in
    elim (Bool-cases (leb r.opts.max_missed_pings counted.miss_count)) [
      | inl e ↦ rw e (
          Quiet-IsOrderly
            (on_transport_close-Quiet (emit counted (line ∷ [])) ErrorCode.transport_failure
              "heartbeat dead")
            (Quiet-IsOrderly (emit-Quiet counted (line ∷ []) refl) g))
      | inr e ↦ rw e g
    ]
