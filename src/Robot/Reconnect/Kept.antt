-- ===== src/Robot/Reconnect/Kept.antt =====
-- What a lost connection keeps on its way back to the handshake.
use karo_x2_sdk_python.Prelude.{
  ℕ, ◌+◌, ◌≡◌, refl, ap, ◌∙◌, true, false, String, none, some, Bool-cases, inl, inr, nat_eq,
}
use karo_x2_sdk_python.Error.{ErrorCode}
use karo_x2_sdk_python.Connection.{ConnectionState, StateChangeInfo, is_state, is_state_iff}
use karo_x2_sdk_python.Options.{ConnectOptions, is_empty}
use karo_x2_sdk_python.Robot.{Robot, at_connect, at_handshake, transition, change, drawn, backoff}
use karo_x2_sdk_python.Robot.Lifecycle.{
  is_final, attempts_exhausted, schedule_reconnect, pause_subs, clear_inflight, fail_transient,
  close_ws, on_transport_close, or_text,
}
use karo_x2_sdk_python.Robot.Lifecycle.Links.{transition-state}
use karo_x2_sdk_python.Robot.Rpc.{send_rpc, send_on}
use karo_x2_sdk_python.Robot.Establish.{establish, connected}
use karo_x2_sdk_python.Robot.Reconnect.{do_reconnect, awake, wake_current}

-- What a robot was given and counts, and its subscriptions, stay.
pub record Kept (a b : Robot) : Type 0 where
  pub env : b.env ≡ a.env
  pub opts : b.opts ≡ a.opts
  pub intent : b.last_estop_intent ≡ a.last_estop_intent
  pub total : b.reconnect_total_count ≡ a.reconnect_total_count
  pub subs : b.subs ≡ a.subs

pub Kept-trans : {a b c : Robot} → Kept a b → Kept b c → Kept a c
Kept-trans p q = record {
  env = q.env ∙ p.env;
  opts = q.opts ∙ p.opts;
  intent = q.intent ∙ p.intent;
  total = q.total ∙ p.total;
  subs = q.subs ∙ p.subs;
}

Kept-refl : (a : Robot) → Kept a a
Kept-refl a = record { env = refl; opts = refl; intent = refl; total = refl; subs = refl }

pub transition-Kept :
    (r : Robot) (new : ConnectionState) (info : StateChangeInfo) → Kept r (transition r new info)
unfolding transition
transition-Kept r new info = elim (Bool-cases (is_state r.state new)) [
  | inl e ↦ rw e (Kept-refl r)
  | inr e ↦ rw e (record { env = refl; opts = refl; intent = refl; total = refl; subs = refl })
]

pub transition-attempt :
    (r : Robot) (new : ConnectionState) (info : StateChangeInfo)
    → (transition r new info).reconnect_attempt ≡ r.reconnect_attempt
unfolding transition
transition-attempt r new info = elim (Bool-cases (is_state r.state new)) [
  | inl e ↦ rw e refl
  | inr e ↦ rw e refl
]

schedule_reconnect-Kept :
    (r : Robot) (attempt : ℕ)
    → is_final r.state ≡ false
    → attempts_exhausted r.opts.reconnect_max_attempts attempt ≡ false
    → Kept r (schedule_reconnect r attempt)
      × ((schedule_reconnect r attempt).reconnect_task ≡ some attempt)
unfolding schedule_reconnect
schedule_reconnect-Kept r attempt live left =
    rw (live, left)
      (record { env = refl; opts = refl; intent = refl; total = refl; subs = refl }, refl)

fail_transient-Kept :
    (r : Robot) (reason : String) (code : ErrorCode) (message : String)
    → Kept r (fail_transient r reason code message)
      × ((fail_transient r reason code message).state ≡ ConnectionState.transient_failure)
unfolding fail_transient drawn
fail_transient-Kept r reason code message =
    let info : StateChangeInfo = record (change reason code message) {
      next_retry_in_ms = backoff r r.reconnect_attempt;
    } in
    let k = transition-Kept (drawn r) ConnectionState.transient_failure info in
    (
      record { env = k.env; opts = k.opts; intent = k.intent; total = k.total; subs = k.subs },
      transition-state (drawn r) ConnectionState.transient_failure info,
    )

not_final : {s : ConnectionState} → s ≡ ConnectionState.transient_failure → is_final s ≡ false
unfolding is_final is_state
not_final e = rw e refl

-- The loss of a connection that is not over, with an attempt left.
pub on_transport_close-Kept :
    (r : Robot) (reason : ErrorCode) (msg : String)
    → is_final r.state ≡ false
    → attempts_exhausted r.opts.reconnect_max_attempts (r.reconnect_attempt + 1) ≡ false
    → Kept (pause_subs r reason msg) (on_transport_close r reason msg)
      × ((on_transport_close r reason msg).reconnect_task ≡ some (r.reconnect_attempt + 1))
unfolding on_transport_close pause_subs clear_inflight close_ws
on_transport_close-Kept r reason msg live left =
    let paused : Robot = pause_subs r reason msg in
    let ended : Robot = clear_inflight paused (record { code = reason; message = msg }) in
    let stopped : Robot = record ended { heartbeat_task = false; miss_count = 0 } in
    let told : Robot = fail_transient stopped (or_text msg "transport closed") reason msg in
    let k = fail_transient-Kept stopped (or_text msg "transport closed") reason msg in
    let next_one =
      schedule_reconnect-Kept (close_ws told) (r.reconnect_attempt + 1) (not_final k.1) (
        ap
          (λ (o : ConnectOptions).
            attempts_exhausted o.reconnect_max_attempts (r.reconnect_attempt + 1))
          k.0.opts
        ∙ left) in
    let kept : Kept paused (close_ws told) = record {
      env = k.0.env;
      opts = k.0.opts;
      intent = k.0.intent;
      total = k.0.total;
      subs = k.0.subs;
    } in
    rw live (Kept-trans kept next_one.0, next_one.1)

do_reconnect-goes :
    (r : Robot) (attempt : ℕ)
    → r.state ≡ ConnectionState.transient_failure
    → Kept r (do_reconnect r attempt)
      × ((do_reconnect r attempt).state ≡ ConnectionState.reconnecting)
      × ((do_reconnect r attempt).establishing ≡ at_connect true)
unfolding do_reconnect establish
do_reconnect-goes r attempt failed =
    let info = change "reconnecting" ErrorCode.ok "" in
    let counted : Robot = record r { reconnect_attempt = attempt } in
    let begun : Robot = transition counted ConnectionState.reconnecting info in
    let k : Kept counted begun = transition-Kept counted ConnectionState.reconnecting info in
    let there : begun.state ≡ ConnectionState.reconnecting =
      transition-state counted ConnectionState.reconnecting info in
    rw
      (
        (is_state_iff r.state ConnectionState.transient_failure).1 failed,
        (is_state_iff begun.state ConnectionState.reconnecting).1 there,
      )
      (
        record { env = k.env; opts = k.opts; intent = k.intent; total = k.total; subs = k.subs },
        there,
        refl,
      )

-- The sleep of its task is over.
pub wake_current-goes :
    (r : Robot) (attempt : ℕ)
    → r.state ≡ ConnectionState.transient_failure
    → r.reconnect_task ≡ some attempt
    → Kept r (wake_current r)
      × ((wake_current r).state ≡ ConnectionState.reconnecting)
      × ((wake_current r).establishing ≡ at_connect true)
unfolding wake_current awake
wake_current-goes r attempt failed sleeps =
    let same : wake_current r ≡ do_reconnect (awake r) attempt =
      ap (λ o. elim o [ none ↦ r | some n ↦ do_reconnect (awake r) n ]) sleeps in
    let goes = do_reconnect-goes (awake r) attempt failed in
    let k = goes.0 in
    rw same (
      record { env = k.env; opts = k.opts; intent = k.intent; total = k.total; subs = k.subs },
      goes.1,
      goes.2,
    )

-- The websocket is open, and the handshake is sent with a token.
pub connected-waits :
    (r : Robot)
    → is_empty r.opts.cert.cert_pem ≡ true
    → r.env.send_ok r.next_request_id ≡ true
    → Kept r (connected r true)
      × ((connected r true).establishing ≡ at_handshake true r.next_request_id)
      × ((connected r true).state ≡ r.state)
      × ((connected r true).ws ≡ some true)
unfolding connected send_rpc send_on
connected-waits r token sent =
    rw (token, sent)
      (
        record { env = refl; opts = refl; intent = refl; total = refl; subs = refl },
        refl,
        refl,
        refl,
      )
