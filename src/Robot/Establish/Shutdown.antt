-- ===== src/Robot/Establish/Shutdown.antt =====
-- A first connection that is established after `close`.
use karo_x2_sdk_python.Prelude.{ℕ, ◌≡◌, refl, true, false, Bool-cases, inl, inr, [], ◌∙◌, ap}
use mathlib.Core.Path.{ap₂}
use karo_x2_sdk_python.Error.{ErrorCode}
use karo_x2_sdk_python.Connection.{ConnectionState, StateChangeInfo, is_state}
use karo_x2_sdk_python.Options.{ConnectOptions, is_empty}
use karo_x2_sdk_python.Codec.Decode.{DecodedResponse}
use karo_x2_sdk_python.Robot.{Robot, Env, at_connect, at_handshake, transition, change}
use karo_x2_sdk_python.Robot.Lifecycle.{close, cancel_establish, cancel_tasks}
use karo_x2_sdk_python.Robot.Lifecycle.Links.{transition-state, transition-SameLinks}
use karo_x2_sdk_python.Robot.Lifecycle.Cleanup.{close-IsTornDown}
use karo_x2_sdk_python.Robot.Rpc.{answered, send_rpc, send_on}
use karo_x2_sdk_python.Robot.Subscribe.{topics_of}
use karo_x2_sdk_python.Robot.Establish.{
  connected, handshake_end, accepted, subscribe_all_pending, with_info,
}

-- What a robot was given, and where its connection waits.
record SameBasis (a b : Robot) : Type 0 where
  env : b.env ≡ a.env
  opts : b.opts ≡ a.opts
  establishing : b.establishing ≡ a.establishing
  handled : b.establish_handled ≡ a.establish_handled

transition-SameBasis :
    (r : Robot) (new : ConnectionState) (info : StateChangeInfo)
    → SameBasis r (transition r new info)
unfolding transition
transition-SameBasis r new info = elim (Bool-cases (is_state r.state new)) [
  | inl e ↦ rw e (record { env = refl; opts = refl; establishing = refl; handled = refl })
  | inr e ↦ rw e (record { env = refl; opts = refl; establishing = refl; handled = refl })
]

record AfterClose (r c : Robot) : Type 0 where
  env : c.env ≡ r.env
  opts : c.opts ≡ r.opts
  establishing : c.establishing ≡ cancel_establish r.establishing r.establish_handled

close-AfterClose :
    (r : Robot) → is_state r.state ConnectionState.shutdown ≡ false → AfterClose r (close r)
unfolding close cancel_tasks
close-AfterClose r open_yet =
    let same : SameBasis r _ =
      transition-SameBasis r ConnectionState.shutdown
        (change "user close()" ErrorCode.cancelled "") in
    rw open_yet (record {
      env = same.env;
      opts = same.opts;
      establishing = ap₂ cancel_establish same.establishing same.handled;
    })

-- With a token the handshake is sent.
connected-at_handshake :
    (r : Robot)
    → is_empty r.opts.cert.cert_pem ≡ true
    → r.env.send_ok r.next_request_id ≡ true
    → ((connected r false).establishing ≡ at_handshake false r.next_request_id)
      × ((connected r false).subs ≡ r.subs)
unfolding connected send_rpc send_on
connected-at_handshake r token sent = rw (token, sent) (refl, refl)

-- Without slots there is nothing to subscribe.
subscribe_all_pending-none :
    (r : Robot) → r.subs ≡ [] → subscribe_all_pending r (topics_of r.subs) ≡ r
unfolding subscribe_all_pending
subscribe_all_pending-none r h = ap (λ xs. subscribe_all_pending r (topics_of xs)) h

-- No slots stay none.
pub with_info-none :
    (r : Robot) (resp : DecodedResponse) → r.subs ≡ [] → (with_info r resp).subs ≡ []
unfolding with_info
with_info-none r resp h = rw h refl

accepted-ready : (r : Robot) → r.subs ≡ [] → (accepted r false).state ≡ ConnectionState.ready
unfolding accepted
accepted-ready r h =
    let info : StateChangeInfo = change "handshake ok" ErrorCode.ok "" in
    let ready : Robot = transition r ConnectionState.ready info in
    let quiet : subscribe_all_pending ready (topics_of ready.subs) ≡ ready =
      subscribe_all_pending-none ready
        ((transition-SameLinks r ConnectionState.ready info).subs ∙ h) in
    ap (λ (s : Robot). s.state) quiet ∙ transition-state r ConnectionState.ready info

-- An accepted handshake makes the connection READY, from whatever state.
handshake_end-ready :
    (r : Robot) (resp : DecodedResponse)
    → r.subs ≡ []
    → (resp.success ≡ true) × (resp.has_handshake ≡ true)
    → (handshake_end r false (answered resp)).state ≡ ConnectionState.ready
unfolding handshake_end
handshake_end-ready r resp none_yet ok =
    rw (ok.0, ok.1) (accepted-ready (with_info r resp) (with_info-none r resp none_yet))

-- `close` does not stop the first connection of an object while it waits for the websocket: with a
-- token, and when the handshake is sent and accepted, the state goes from SHUTDOWN to READY.
pub close_misses_connect :
    (r : Robot) (resp : DecodedResponse)
    → is_state r.state ConnectionState.shutdown ≡ false
    → r.establishing ≡ at_connect false
    → is_empty r.opts.cert.cert_pem ≡ true
    → ((rid : ℕ) → r.env.send_ok rid ≡ true)
    → (resp.success ≡ true) × (resp.has_handshake ≡ true)
    → let c = close r in
      (c.state ≡ ConnectionState.shutdown)
      × (c.establishing ≡ at_connect false)
      × ((connected c false).establishing ≡ at_handshake false c.next_request_id)
      × ((handshake_end (connected c false) false (answered resp)).state ≡ ConnectionState.ready)
unfolding cancel_establish
close_misses_connect r resp open_yet waits token sent ok =
    let torn = close-IsTornDown r open_yet in
    let after = close-AfterClose r open_yet in
    let asked =
      connected-at_handshake (close r)
        (ap (λ (o : ConnectOptions). is_empty o.cert.cert_pem) after.opts ∙ token)
        (ap (λ (e : Env). e.send_ok (close r).next_request_id) after.env ∙ sent _) in
    (
      torn.0,
      after.establishing ∙ ap (λ e. cancel_establish e r.establish_handled) waits,
      asked.0,
      handshake_end-ready (connected (close r) false) resp (asked.1 ∙ torn.1.subs) ok,
    )
