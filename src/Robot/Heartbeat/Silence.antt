-- ===== src/Robot/Heartbeat/Silence.antt =====
-- A robot that falls silent is noticed; and a heartbeat that a reconnect loses.
use karo_x2_sdk_python.Prelude.{
  ℕ, zero, suc, ◌+◌, ◌≤◌, ◌<◌, ◌≡◌, refl, Bool, true, false, if◌then◌else◌, arith, leb, String,
  erase, nat_eq, ◌<>◌, str, [], ◌∷◌, Bool-cases, inl, inr, ◌∙◌, sym, ap,
}
use karo_x2_sdk_python.Options.{ConnectOptions}
use karo_x2_sdk_python.Connection.{ConnectionState, StateChangeInfo, is_state}
use karo_x2_sdk_python.Robot.{Robot, change, emit, log}
use karo_x2_sdk_python.Diagnostics.{LogLevel}
use karo_x2_sdk_python.Robot.Lifecycle.{is_final}
use karo_x2_sdk_python.Robot.Lifecycle.Cleanup.{on_transport_close_lem}
use karo_x2_sdk_python.Error.{ErrorCode}
use karo_x2_sdk_python.Robot.Ack.{finish_reconnect}
use karo_x2_sdk_python.Robot.Heartbeat.{
  heartbeat_turn, ends, ping_round, ping_missed, Round, waits, stopped, send_failed, ws_open,
}
use karo_x2_sdk_python.Robot.Lifecycle.Links.{transition-SameLinks, transition-state}

is_state-ne :
    {s : ConnectionState}
    → s ≡ ConnectionState.reconnecting
    → is_state s ConnectionState.ready ≡ false
unfolding is_state
is_state-ne e = rw e refl

is_ready :
    {s : ConnectionState} → s ≡ ConnectionState.ready → is_state s ConnectionState.ready ≡ true
unfolding is_state
is_ready e = rw e refl

is_final-ne : {s : ConnectionState} → s ≡ ConnectionState.ready → is_final s ≡ false
unfolding is_final
is_final-ne e = rw e refl

-- The heartbeat of a reconnect is started before the connection is READY. If its task gets a turn
-- while the state is still RECONNECTING, as it does when the reconnect waits for an ack or for the
-- replay of an emergency stop, the task ends; and the end of the reconnect makes the connection
-- READY and starts no other.
pub reconnect_loses_heartbeat :
    (r : Robot) (reason action : String)
    → r.state ≡ ConnectionState.reconnecting
    → let (r', turn) = heartbeat_turn r in
      (turn ≡ ends)
      × (r'.heartbeat_task ≡ false)
      × ((finish_reconnect r' reason action).state ≡ ConnectionState.ready)
      × ((finish_reconnect r' reason action).heartbeat_task ≡ false)
unfolding heartbeat_turn finish_reconnect
reconnect_loses_heartbeat r reason action e =
    let ended : Robot = record r { heartbeat_task = false } in
    let over : Robot = record ended {
      reconnect_attempt = 0;
      reconnect_total_count = r.reconnect_total_count + 1;
    } in
    let info : StateChangeInfo = record (change reason ErrorCode.ok "") { last_action = action } in
    rw (is_state-ne e) (
      refl,
      refl,
      transition-state over ConnectionState.ready info,
      (transition-SameLinks over ConnectionState.ready info).heartbeat_task,
    )

-- A round whose ping was sent is missed, and is the last one or not; any other ends the loop.
abbrev after_round : Round → Robot → Robot × Bool → Robot × Bool → Robot × Bool
after_round (waits rid send_t) asked missed rest = if missed.1 then (missed.0, true) else rest
after_round stopped asked missed rest = (asked, true)
after_round send_failed asked missed rest = (asked, true)

-- A silent robot: each round sends its ping, and nothing comes in. The result is whether the loop
-- over `range(max_missed_pings + 1)` was left, with `rounds` of its rounds to go.
pub silent_rounds : ℕ → Robot → Robot × Bool
silent_rounds zero r = (r, false)
silent_rounds (suc rounds) r =
    let asked : Robot × Round = ping_round r in
    let missed : Robot × Bool = ping_missed asked.0 r.next_request_id in
    let rest : Robot × Bool = silent_rounds rounds missed.0 in
    after_round asked.1 asked.0 missed rest

-- The connection is up and every send goes through.
pub record IsUp (r : Robot) : Type 0 where
  pub ready : r.state ≡ ConnectionState.ready
  pub opened : ws_open r.ws ≡ true
  pub sends : (rid : ℕ) → r.env.send_ok rid ≡ true

-- One silent round of a connection that is up: with misses to spare it stays up with one miss more,
-- and at the limit the transport is closed.
pub record AfterMiss (r : Robot) (s : Robot × Bool) : Type 0 where
  pub goes_on : s.1 ≡ false → IsUp s.0 × (s.0.miss_count ≡ r.miss_count + 1) × (s.0.opts ≡ r.opts)
  pub closes : s.1 ≡ true → s.0.state ≡ ConnectionState.transient_failure
  pub limit : s.1 ≡ leb r.opts.max_missed_pings (r.miss_count + 1)

ping_missed-AfterMiss : (r : Robot) (rid : ℕ) → IsUp r → AfterMiss r (ping_missed r rid)
unfolding ping_missed
ping_missed-AfterMiss r rid up =
    let counted : Robot = record r {
      inflight = erase rid r.inflight;
      miss_count = r.miss_count + 1;
    } in
    let warned : Robot = emit counted (
      log LogLevel.warn ("heartbeat miss_count=" <> (str counted.miss_count <> ", declaring dead"))
      ∷ []) in
    elim (Bool-cases (leb r.opts.max_missed_pings (r.miss_count + 1))) [
      | inl e ↦ rw e (record {
        goes_on = λ h. cc;
        closes = λ _.
            (on_transport_close_lem warned ErrorCode.transport_failure "heartbeat dead"
              (is_final-ne up.ready)).0;
        limit = sym e;
      })
      | inr e ↦ rw e (record {
        goes_on =
            λ _. (record { ready = up.ready; opened = up.opened; sends = up.sends }, refl, refl);
        closes = λ h. cc;
        limit = sym e;
      })
    ]

leb-false : {a b : ℕ} → leb a b ≡ false → b < a
leb-false h = ground arith

record AfterAsk (r : Robot) (s : Robot × Round) : Type 0 where
  round : s.1 ≡ waits r.next_request_id r.clock_steady
  up : IsUp s.0
  same_misses : s.0.miss_count ≡ r.miss_count
  same_opts : s.0.opts ≡ r.opts

ping_round-AfterAsk : (r : Robot) → IsUp r → AfterAsk r (ping_round r)
unfolding ping_round
ping_round-AfterAsk r up =
    rw (is_ready up.ready, up.opened, up.sends r.next_request_id)
      (record {
        round = refl;
        up = record { ready = up.ready; opened = up.opened; sends = up.sends };
        same_misses = refl;
        same_opts = refl;
      })

silent_rounds_lem :
    (rounds : ℕ) (r : Robot)
    → IsUp r
    → 1 ≤ rounds
    → r.opts.max_missed_pings ≤ r.miss_count + rounds
    → ((silent_rounds rounds r).1 ≡ true)
      × ((silent_rounds rounds r).0.state ≡ ConnectionState.transient_failure)
unfolding silent_rounds
silent_rounds_lem zero r up some_round enough = absurd (omega arith)
silent_rounds_lem (suc rounds) r up some_round enough =
    let asked : AfterAsk r (ping_round r) = ping_round-AfterAsk r up in
    let missed : AfterMiss (ping_round r).0 (ping_missed (ping_round r).0 r.next_request_id) =
      ping_missed-AfterMiss (ping_round r).0 r.next_request_id asked.up in
    elim (Bool-cases (ping_missed (ping_round r).0 r.next_request_id).1) [
      | inl over ↦ rw (asked.round, over) (refl, missed.closes over)
      | inr on ↦
          rw (asked.round, on)
            (let going = missed.goes_on on in
              let spare : (ping_round r).0.miss_count + 1 < (ping_round r).0.opts.max_missed_pings =
                leb-false (sym missed.limit ∙ on) in
              let most : (ping_round r).0.opts.max_missed_pings ≡ r.opts.max_missed_pings =
                ap (λ (o : ConnectOptions). o.max_missed_pings) asked.same_opts in
              let most' : (ping_missed (ping_round r).0 r.next_request_id).0.opts.max_missed_pings
                  ≡ (ping_round r).0.opts.max_missed_pings =
                ap (λ (o : ConnectOptions). o.max_missed_pings) going.2 in
              silent_rounds_lem rounds (ping_missed (ping_round r).0 r.next_request_id).0 going.0
                (omega (arith, asked.same_misses)) (omega (arith, asked.same_misses, going.1)))
    ]

-- A robot that falls silent is noticed. While the connection is up and every send goes through, but
-- nothing comes in, the rounds that `_send_and_wait_ping` makes, one more than `max_missed_pings`,
-- end with the transport closed and the state TRANSIENT_FAILURE, whatever was missed before.
pub silence_is_noticed :
    (r : Robot)
    → IsUp r
    → ((silent_rounds (r.opts.max_missed_pings + 1) r).1 ≡ true)
      × ((silent_rounds (r.opts.max_missed_pings + 1) r).0.state
          ≡ ConnectionState.transient_failure)
silence_is_noticed r up =
    silent_rounds_lem (r.opts.max_missed_pings + 1) r up (omega arith) (omega arith)
