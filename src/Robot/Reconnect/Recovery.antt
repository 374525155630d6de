-- ===== src/Robot/Reconnect/Recovery.antt =====
-- A connection that is lost, and comes back.
use karo_x2_sdk_python.Prelude.{ℕ, ◌+◌, ◌≡◌, ap, ◌∙◌, true, false, String, [], some, nat_eq}
use karo_x2_sdk_python.Error.{ErrorCode}
use karo_x2_sdk_python.Connection.{ConnectionState}
use karo_x2_sdk_python.Options.{ConnectOptions, is_empty}
use karo_x2_sdk_python.Codec.Decode.{DecodedResponse}
use karo_x2_sdk_python.Robot.{Robot, Env, at_connect, at_handshake}
use karo_x2_sdk_python.Robot.Lifecycle.{
  is_final, attempts_exhausted, pause_slots, pause_subs, on_transport_close,
}
use karo_x2_sdk_python.Robot.Lifecycle.Links.{transition-state}
use karo_x2_sdk_python.Robot.Lifecycle.Cleanup.{on_transport_close_lem}
use karo_x2_sdk_python.Robot.Rpc.{answered}
use karo_x2_sdk_python.Robot.Ack.{finish_reconnect}
use karo_x2_sdk_python.Robot.Establish.{
  start_heartbeat, connected, with_info, accepted, reconnected, handshake_end,
}
use karo_x2_sdk_python.Robot.Establish.Shutdown.{with_info-none}
use karo_x2_sdk_python.Robot.Reconnect.{wake_current}
use karo_x2_sdk_python.Robot.Reconnect.Kept.{
  Kept, Kept-trans, transition-Kept, transition-attempt, on_transport_close-Kept, wake_current-goes,
  connected-waits,
}

-- There is nothing to subscribe or to replay.
reconnected-goes :
    (r : Robot)
    → r.subs ≡ []
    → r.last_estop_intent ≡ false
    → ((reconnected r).state ≡ ConnectionState.ready)
      × ((reconnected r).reconnect_attempt ≡ 0)
      × ((reconnected r).reconnect_total_count ≡ r.reconnect_total_count + 1)
unfolding reconnected finish_reconnect
reconnected-goes r none_yet calm =
    rw (none_yet, calm)
      (
        transition-state _ ConnectionState.ready _,
        transition-attempt _ ConnectionState.ready _,
        (transition-Kept _ ConnectionState.ready _).total,
      )

-- The handshake is accepted.
handshake_end-goes :
    (r : Robot) (resp : DecodedResponse)
    → (resp.success ≡ true) × (resp.has_handshake ≡ true)
    → r.subs ≡ []
    → r.last_estop_intent ≡ false
    → let done = handshake_end r true (answered resp) in
      (done.state ≡ ConnectionState.ready)
      × (done.reconnect_attempt ≡ 0)
      × (done.reconnect_total_count ≡ r.reconnect_total_count + 1)
unfolding handshake_end accepted with_info start_heartbeat
handshake_end-goes r resp ok none_yet calm =
    rw (ok.0, ok.1) (reconnected-goes (with_info r resp) (with_info-none r resp none_yet) calm)

-- The loss of a connection that is not over, with an attempt left, no subscription, no emergency
-- stop to replay, and a token: when the sleep of the task is over, the websocket opens, the handshake
-- is sent and the robot accepts it, the connection goes through TRANSIENT_FAILURE and RECONNECTING
-- to READY, with the attempts counted from 0 again and one reconnect more.
pub lost_connection_recovers :
    (r : Robot) (reason : ErrorCode) (msg : String) (resp : DecodedResponse)
    → is_final r.state ≡ false
    → attempts_exhausted r.opts.reconnect_max_attempts (r.reconnect_attempt + 1) ≡ false
    → r.subs ≡ []
    → r.last_estop_intent ≡ false
    → is_empty r.opts.cert.cert_pem ≡ true
    → ((rid : ℕ) → r.env.send_ok rid ≡ true)
    → (resp.success ≡ true) × (resp.has_handshake ≡ true)
    → let gone = on_transport_close r reason msg in
      let woken = wake_current gone in
      let up = connected woken true in
      let done = handshake_end up true (answered resp) in
      (gone.state ≡ ConnectionState.transient_failure)
      × (gone.reconnect_task ≡ some (r.reconnect_attempt + 1))
      × (woken.state ≡ ConnectionState.reconnecting)
      × (woken.establishing ≡ at_connect true)
      × (up.establishing ≡ at_handshake true woken.next_request_id)
      × (done.state ≡ ConnectionState.ready)
      × (done.reconnect_attempt ≡ 0)
      × (done.reconnect_total_count ≡ r.reconnect_total_count + 1)
unfolding pause_subs pause_slots
lost_connection_recovers r reason msg resp live left none_yet calm token sent ok =
    let gone : Robot = on_transport_close r reason msg in
    let woken : Robot = wake_current gone in
    let closed = on_transport_close_lem r reason msg live in
    let lost = on_transport_close-Kept r reason msg live left in
    let wakes = wake_current-goes gone (r.reconnect_attempt + 1) closed.0 lost.1 in
    let till : Kept (pause_subs r reason msg) woken = Kept-trans lost.0 wakes.0 in
    let asked =
      connected-waits woken
        (ap (λ (o : ConnectOptions). is_empty o.cert.cert_pem) till.opts ∙ token)
        (ap (λ (e : Env). e.send_ok woken.next_request_id) till.env ∙ sent _) in
    let kept : Kept (pause_subs r reason msg) (connected woken true) = Kept-trans till asked.0 in
    let ended =
      handshake_end-goes (connected woken true) resp ok (kept.subs ∙ ap pause_slots none_yet)
        (kept.intent ∙ calm) in
    (
      closed.0,
      lost.1,
      wakes.1,
      wakes.2,
      asked.1,
      ended.0,
      ended.1,
      ended.2 ∙ ap (λ n. n + 1) kept.total,
    )
