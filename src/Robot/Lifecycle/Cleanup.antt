-- ===== src/Robot/Lifecycle/Cleanup.antt =====
-- What is left of a connection after `close`, `_abort_to_fatal` and `_on_transport_close`.
use karo_x2_sdk_python.Prelude.{
  ℕ, ◌+◌, Bool, true, false, Bool-cases, inl, inr, String, List, [], ◌∷◌, ◌++◌, Option, some, none,
  Dict, All, arith, ◌≡◌, ◌≢◌, refl, ap, ◌∙◌,
}
use karo_x2_sdk_python.Error.{ErrorCode, SdkException}
use karo_x2_sdk_python.Connection.{ConnectionState, StateChangeInfo, is_state}
use mathlib.Core.Path.{ap₂}
use karo_x2_sdk_python.Subscription.{SubscriptionState}
use karo_x2_sdk_python.Slot.{SubSlot}
use karo_x2_sdk_python.Robot.{
  Robot, Establishing, nowhere, at_connect, at_handshake, transition, change, backoff, drawn,
}
use karo_x2_sdk_python.Robot.Lifecycle.{
  close_slots, ended_slot, close_effects, pause_effects, fail_calls, clear_inflight, clear_subs,
  close_ws, cancel_awaited, cancel_tasks, close, abort_to_fatal, is_final, schedule_reconnect,
  paused_slot, pause_slots, pause_subs, fail_transient, ws_effects, or_text, on_transport_close,
}
use karo_x2_sdk_python.Robot.Lifecycle.Failed.{
  failed, failed-append, failed-fail_calls, failed-pause_effects, failed-close_effects, open_calls,
  calls_but, own_handshake, open_calls-cancel_awaited,
}
use karo_x2_sdk_python.Robot.Lifecycle.Links.{
  SameLinks, failed-quiet, transition-SameLinks, transition-state, schedule_reconnect-SameLinks,
  schedule_reconnect_lem,
}

-- Nothing of the transport is left: no websocket, no call or subscribe in flight, no ack timer, and
-- no heartbeat.
pub record IsDisconnected (r : Robot) : Type 0 where
  pub ws : r.ws ≡ none
  pub inflight : r.inflight ≡ []
  pub inflight_sub : r.inflight_sub ≡ []
  pub sub_ack_timers : r.sub_ack_timers ≡ []
  pub heartbeat : r.heartbeat_task ≡ false

-- A slot that receives nothing and waits for nothing.
pub record IsQuiet (slot : SubSlot) : Type 0 where
  pub not_active : slot.state ≢ SubscriptionState.active
  pub not_pending : slot.state ≢ SubscriptionState.pending
  pub buffer : slot.pending_buffer ≡ []
  pub no_request : slot.inflight_subscribe_request_id ≡ 0

pub record IsEnded (slot : SubSlot) : Type 0 where
  pub state : slot.state ≡ SubscriptionState.closed
  pub worker : slot.dispatch_worker ≡ false

paused_slot-IsQuiet : (slot : SubSlot) → IsQuiet (paused_slot slot)
unfolding paused_slot
paused_slot-IsQuiet slot = ground arith

pause_slots-IsQuiet : (subs : Dict String SubSlot) → All (λ e. IsQuiet e.1) (pause_slots subs)
unfolding pause_slots
pause_slots-IsQuiet [] = tt
pause_slots-IsQuiet ((topic, slot) ∷ subs) = (paused_slot-IsQuiet slot, pause_slots-IsQuiet subs)

ended_slot-IsEnded : (slot : SubSlot) (code : ErrorCode) → IsEnded (ended_slot slot code)
unfolding ended_slot
ended_slot-IsEnded slot code = ground arith

close_slots-IsEnded :
    (subs : Dict String SubSlot) (code : ErrorCode) → All IsEnded (close_slots subs code)
unfolding close_slots
close_slots-IsEnded [] code = tt
close_slots-IsEnded ((topic, slot) ∷ subs) code =
    (ended_slot-IsEnded slot code, close_slots-IsEnded subs code)

pause_step :
    (r : Robot) (reason : ErrorCode) (msg : String)
    → failed (pause_subs r reason msg).trace ≡ failed r.trace
unfolding pause_subs
pause_step r reason msg =
    failed-quiet r.trace (pause_effects r.subs reason msg) (failed-pause_effects r.subs reason msg)

clear_step :
    (r : Robot) (e : SdkException)
    → failed (clear_inflight r e).trace ≡ failed r.trace ++ open_calls r.inflight
unfolding clear_inflight
clear_step r e =
    failed-append r.trace (fail_calls r.inflight e)
    ∙ ap (◌++◌ (failed r.trace)) (failed-fail_calls r.inflight e)

failed-ws_effects : (ws : Option Bool) → failed (ws_effects ws) ≡ []
unfolding ws_effects
failed-ws_effects none = refl
failed-ws_effects (some is_open) = refl

close_ws_step : (r : Robot) → failed (close_ws r).trace ≡ failed r.trace
unfolding close_ws
close_ws_step r = failed-quiet r.trace (ws_effects r.ws) (failed-ws_effects r.ws)

clear_subs_step :
    (r : Robot) (code : ErrorCode) (reason : String)
    → failed (clear_subs r code reason).trace ≡ failed r.trace
unfolding clear_subs
clear_subs_step r code reason =
    failed-quiet r.trace (close_effects r.subs code reason)
      (failed-close_effects r.subs code reason)

final_of : {s : ConnectionState} → s ≡ ConnectionState.transient_failure → is_final s ≡ false
unfolding is_final
final_of e = rw e refl

-- Losing the transport in a connection that is not over: the state is TRANSIENT_FAILURE, nothing of
-- the transport is left, every subscription stays, paused unless it was closed, and receives nothing
-- and waits for nothing, and every call that somebody waits for fails, once and in order.
pub on_transport_close_lem :
    (r : Robot) (reason : ErrorCode) (msg : String)
    → is_final r.state ≡ false
    → let r' = on_transport_close r reason msg in
      (r'.state ≡ ConnectionState.transient_failure)
      × IsDisconnected r'
      × (r'.subs ≡ pause_slots r.subs)
      × All (λ e. IsQuiet e.1) r'.subs
      × (failed r'.trace ≡ failed r.trace ++ open_calls r.inflight)
unfolding on_transport_close fail_transient
on_transport_close_lem r reason msg live =
    let paused : Robot = pause_subs r reason msg in
    let cleared : Robot = clear_inflight paused (record { code = reason; message = msg }) in
    let stopped : Robot = record cleared { heartbeat_task = false; miss_count = 0 } in
    let info : StateChangeInfo = record (change (or_text msg "transport closed") reason msg) {
      next_retry_in_ms = backoff stopped stopped.reconnect_attempt;
    } in
    let told : Robot = transition (drawn stopped) ConnectionState.transient_failure info in
    let attempt : ℕ = r.reconnect_attempt + 1 in
    let same : SameLinks (drawn stopped) told =
      transition-SameLinks (drawn stopped) ConnectionState.transient_failure info in
    let last : SameLinks (close_ws told) (schedule_reconnect (close_ws told) attempt) =
      schedule_reconnect-SameLinks (close_ws told) attempt in
    let there : told.state ≡ ConnectionState.transient_failure =
      transition-state (drawn stopped) ConnectionState.transient_failure info in
    let subs : (schedule_reconnect (close_ws told) attempt).subs ≡ pause_slots r.subs =
      last.subs ∙ same.subs in
    rw live (
      (schedule_reconnect_lem (close_ws told) attempt (final_of there)).1 ∙ there,
      record {
        ws = last.ws;
        inflight = last.inflight ∙ same.inflight;
        inflight_sub = last.inflight_sub ∙ same.inflight_sub;
        sub_ack_timers = last.sub_ack_timers ∙ same.sub_ack_timers;
        heartbeat = last.heartbeat_task ∙ same.heartbeat_task;
      },
      subs,
      rw subs (pause_slots-IsQuiet r.subs),
      last.failures
          ∙ (close_ws_step told
              ∙ (same.failures
                  ∙ (clear_step paused (record { code = reason; message = msg })
                      ∙ ap (λ xs. xs ++ open_calls r.inflight) (pause_step r reason msg)))),
    )

transition-awaited :
    (r : Robot) (new : ConnectionState) (info : StateChangeInfo)
    → let told = transition r new info in
      cancel_awaited told.establishing told.establish_handled told.inflight
      ≡ cancel_awaited r.establishing r.establish_handled r.inflight
unfolding transition
transition-awaited r new info = elim (Bool-cases (is_state r.state new)) [
  | inl e ↦ rw e refl
  | inr e ↦ rw e refl
]

cancel_awaited-none : (e : Establishing) (handled : Bool) → cancel_awaited e handled [] ≡ []
unfolding cancel_awaited
cancel_awaited-none nowhere handled = refl
cancel_awaited-none (at_connect b) handled = refl
cancel_awaited-none (at_handshake true rid) true = refl
cancel_awaited-none (at_handshake true rid) false = refl
cancel_awaited-none (at_handshake false rid) handled = refl

-- What `close` and `_abort_to_fatal` leave behind, where they fail `calls`.
pub record IsTornDown (r : Robot) (code : ErrorCode) (calls : List ℕ) (r' : Robot) : Type 0 where
  pub disconnected : IsDisconnected r'
  pub subs : r'.subs ≡ []
  pub retired : r'.retired ≡ close_slots r.subs code ++ r.retired
  pub ended : All IsEnded (close_slots r.subs code)
  pub failures : failed r'.trace ≡ failed r.trace ++ calls

-- `close` of an object that is not closed yet: the state is SHUTDOWN, nothing of the transport is
-- left, every subscription has left the table and is closed with its worker stopped, and every call
-- that somebody waits for fails, once and in order, but for the handshake of a reconnect that runs
-- in the task in `_reconnect_task`: its future has been cancelled with the task.
pub close-IsTornDown :
    (r : Robot)
    → is_state r.state ConnectionState.shutdown ≡ false
    → ((close r).state ≡ ConnectionState.shutdown)
      × IsTornDown r ErrorCode.cancelled
          (calls_but (own_handshake r.establishing r.establish_handled) r.inflight)
          (close r)
unfolding close cancel_tasks
close-IsTornDown r open_yet =
    let info : StateChangeInfo = change "user close()" ErrorCode.cancelled "" in
    let gone : Robot = transition r ConnectionState.shutdown info in
    let same : SameLinks r gone = transition-SameLinks r ConnectionState.shutdown info in
    let stopped : Robot = cancel_tasks gone in
    let e : SdkException = record { code = ErrorCode.cancelled; message = "Robot.close()" } in
    let cleared : Robot = clear_inflight stopped e in
    let emptied : Robot = clear_subs cleared ErrorCode.cancelled "Robot.close()" in
    let left_open =
      ap open_calls (transition-awaited r ConnectionState.shutdown info)
      ∙ open_calls-cancel_awaited r.establishing r.establish_handled r.inflight in
    rw open_yet (
      transition-state r ConnectionState.shutdown info,
      record {
        disconnected = record {
          ws = refl;
          inflight = refl;
          inflight_sub = refl;
          sub_ack_timers = refl;
          heartbeat = refl;
        };
        subs = refl;
        retired = ap₂ (λ xs ys. close_slots xs ErrorCode.cancelled ++ ys) same.subs same.retired;
        ended = close_slots-IsEnded r.subs ErrorCode.cancelled;
        failures =
            close_ws_step emptied
            ∙ (clear_subs_step cleared ErrorCode.cancelled "Robot.close()"
                ∙ (clear_step stopped e ∙ ap₂ (λ xs ys. xs ++ ys) same.failures left_open));
      },
    )

pub abort_to_fatal-IsTornDown :
    (r : Robot) (code : ErrorCode) (message : String)
    → ((abort_to_fatal r code message).state ≡ ConnectionState.fatal)
      × IsTornDown r code (open_calls r.inflight) (abort_to_fatal r code message)
unfolding abort_to_fatal cancel_tasks
abort_to_fatal-IsTornDown r code message =
    let e : SdkException = record { code = code; message = message } in
    let ended : Robot = clear_subs r code (or_text message "Fatal") in
    let cleared : Robot = clear_inflight ended e in
    let before : Robot = close_ws (cancel_tasks cleared) in
    let info : StateChangeInfo = change message code message in
    let same : SameLinks before (transition before ConnectionState.fatal info) =
      transition-SameLinks before ConnectionState.fatal info in
    (
      transition-state before ConnectionState.fatal info,
      record {
        disconnected = record {
          ws = same.ws;
          inflight = same.inflight ∙ cancel_awaited-none r.establishing r.establish_handled;
          inflight_sub = same.inflight_sub;
          sub_ack_timers = same.sub_ack_timers;
          heartbeat = same.heartbeat_task;
        };
        subs = same.subs;
        retired = same.retired;
        ended = close_slots-IsEnded r.subs code;
        failures =
            same.failures
            ∙ (close_ws_step (cancel_tasks cleared)
                ∙ (clear_step ended e
                    ∙ ap (λ xs. xs ++ open_calls r.inflight)
                        (clear_subs_step r code (or_text message "Fatal"))));
      },
    )
