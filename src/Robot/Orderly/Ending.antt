-- ===== src/Robot/Orderly/Ending.antt =====
-- The ends of a connection send nothing and take no request id.
use karo_x2_sdk_python.Prelude.{
  Dict, [], ◌∷◌, Bool, true, ℕ, ◌+◌, refl, false, Bool-cases, inl, inr, String,
}
use karo_x2_sdk_python.Error.{ErrorCode, SdkException}
use karo_x2_sdk_python.Connection.{ConnectionState, StateChangeInfo, is_state}
use karo_x2_sdk_python.Robot.{
  Robot, InflightRpc, Establishing, nowhere, at_connect, at_handshake, transition, change, backoff,
  drawn,
}
use karo_x2_sdk_python.Robot.Lifecycle.{
  fail_calls, close_effects, pause_effects, ws_effects, clear_inflight, clear_subs, close_ws,
  cancel_call, cancel_awaited, cancel_tasks, close, abort_to_fatal, attempts_exhausted, is_final,
  schedule_reconnect, pause_subs, fail_transient, on_transport_close, or_text,
}
use karo_x2_sdk_python.Robot.Orderly.{Below}
use karo_x2_sdk_python.Robot.Filed.{Filed-pause}
use karo_x2_sdk_python.Robot.Orderly.Silence.{
  seen-fail_calls, seen-pause_effects, seen-close_effects, seen-ws_effects,
}
use karo_x2_sdk_python.Robot.Orderly.Quiet.{
  Quiet, Quiet-trans, Silent-Quiet, Quiet-refl, seen-quiet, transition-Quiet,
}

clear_inflight-Quiet : (r : Robot) (e : SdkException) → Quiet r (clear_inflight r e)
unfolding clear_inflight
clear_inflight-Quiet r e = Silent-Quiet (record {
  next = refl;
  handler = refl;
  state = refl;
  filed = λ h. h;
  marks = seen-quiet r.trace (fail_calls r.inflight e) (seen-fail_calls r.inflight e);
  calls = λ n h. tt;
  subs = λ n h. tt;
})

clear_subs-Quiet :
    (r : Robot) (code : ErrorCode) (reason : String) → Quiet r (clear_subs r code reason)
unfolding clear_subs
clear_subs-Quiet r code reason = Silent-Quiet (record {
  next = refl;
  handler = refl;
  state = refl;
  filed = λ h. λ roomy. tt;
  marks =
      seen-quiet r.trace (close_effects r.subs code reason) (seen-close_effects r.subs code reason);
  calls = λ n h. h;
  subs = λ n h. h;
})

pub close_ws-Quiet : (r : Robot) → Quiet r (close_ws r)
unfolding close_ws
close_ws-Quiet r = Silent-Quiet (record {
  next = refl;
  handler = refl;
  state = refl;
  filed = λ h. h;
  marks = seen-quiet r.trace (ws_effects r.ws) (seen-ws_effects r.ws);
  calls = λ n h. h;
  subs = λ n h. h;
})

Below-cancel_call :
    (n rid : ℕ) (inflight : Dict ℕ InflightRpc)
    → Below n inflight
    → Below n (cancel_call rid inflight)
Below-cancel_call n rid [] h = tt
Below-cancel_call n rid ((k, entry) ∷ inflight) h = (h.0, Below-cancel_call n rid inflight h.1)

Below-cancel_awaited :
    (n : ℕ) (e : Establishing) (handled : Bool) (inflight : Dict ℕ InflightRpc)
    → Below n inflight
    → Below n (cancel_awaited e handled inflight)
unfolding cancel_awaited
Below-cancel_awaited n nowhere handled inflight h = h
Below-cancel_awaited n (at_connect b) handled inflight h = h
Below-cancel_awaited n (at_handshake true rid) true inflight h = Below-cancel_call n rid inflight h
Below-cancel_awaited n (at_handshake true rid) false inflight h = h
Below-cancel_awaited n (at_handshake false rid) handled inflight h = h

cancel_tasks-Quiet : (r : Robot) → Quiet r (cancel_tasks r)
unfolding cancel_tasks
cancel_tasks-Quiet r = record {
  next = refl;
  order = λ n h. h;
  told = λ h. h;
  filed = λ h. h;
  calls = λ n h. Below-cancel_awaited n r.establishing r.establish_handled r.inflight h;
  subs = λ n h. h;
}

pause_subs-Quiet :
    (r : Robot) (code : ErrorCode) (reason : String) → Quiet r (pause_subs r code reason)
unfolding pause_subs
pause_subs-Quiet r code reason = Silent-Quiet (record {
  next = refl;
  handler = refl;
  state = refl;
  filed = λ h. Filed-pause r.opts r.subs h;
  marks =
      seen-quiet r.trace (pause_effects r.subs code reason) (seen-pause_effects r.subs code reason);
  calls = λ n h. h;
  subs = λ n h. h;
})

pub fail_transient-Quiet :
    (r : Robot) (reason : String) (code : ErrorCode) (message : String)
    → Quiet r (fail_transient r reason code message)
unfolding fail_transient
fail_transient-Quiet r reason code message =
    let info : StateChangeInfo = record (change reason code message) {
      next_retry_in_ms = backoff r r.reconnect_attempt;
    } in
    let moved : Quiet (drawn r) (transition (drawn r) ConnectionState.transient_failure info) =
      transition-Quiet (drawn r) ConnectionState.transient_failure info tt in
    record {
      next = moved.next;
      order = moved.order;
      told = moved.told;
      filed = moved.filed;
      calls = moved.calls;
      subs = moved.subs;
    }

pub schedule_reconnect-Quiet : (r : Robot) (attempt : ℕ) → Quiet r (schedule_reconnect r attempt)
unfolding schedule_reconnect
schedule_reconnect-Quiet r attempt = elim (Bool-cases (is_final r.state)) [
  | inl e ↦ rw e (Quiet-refl r)
  | inr e ↦ elim (Bool-cases (attempts_exhausted r.opts.reconnect_max_attempts attempt)) [
    | inl x ↦
        rw (e, x)
          (Silent-Quiet (record {
            next = refl;
            handler = refl;
            state = refl;
            filed = λ h. h;
            marks = seen-quiet r.trace _ refl;
            calls = λ n h. h;
            subs = λ n h. h;
          }))
    | inr x ↦
        rw (e, x)
          (record {
            next = refl;
            order = λ n h. h;
            told = λ h. h;
            filed = λ h. h;
            calls = λ n h. h;
            subs = λ n h. h;
          })
  ]
]

pub on_transport_close-Quiet :
    (r : Robot) (reason : ErrorCode) (msg : String) → Quiet r (on_transport_close r reason msg)
unfolding on_transport_close
on_transport_close-Quiet r reason msg = elim (Bool-cases (is_final r.state)) [
  | inl e ↦ rw e (Quiet-refl r)
  | inr e ↦
      let paused : Robot = pause_subs r reason msg in
      let failed : Robot = clear_inflight paused (record { code = reason; message = msg }) in
      let stopped : Robot = record failed { heartbeat_task = false; miss_count = 0 } in
      let told : Robot = fail_transient stopped (or_text msg "transport closed") reason msg in
      let stopping : Quiet failed stopped = record {
        next = refl;
        order = λ n h. h;
        told = λ h. h;
        filed = λ h. h;
        calls = λ n h. h;
        subs = λ n h. h;
      } in
      rw e (
        Quiet-trans (pause_subs-Quiet r reason msg) (
          Quiet-trans (clear_inflight-Quiet paused (record { code = reason; message = msg })) (
            Quiet-trans stopping (
              Quiet-trans (fail_transient-Quiet stopped (or_text msg "transport closed") reason msg)
                (Quiet-trans (close_ws-Quiet told)
                  (schedule_reconnect-Quiet (close_ws told) (r.reconnect_attempt + 1)))))))
]

pub abort_to_fatal-Quiet :
    (r : Robot) (code : ErrorCode) (message : String) → Quiet r (abort_to_fatal r code message)
unfolding abort_to_fatal
abort_to_fatal-Quiet r code message =
    let e : SdkException = record { code = code; message = message } in
    let ended : Robot = clear_subs r code (or_text message "Fatal") in
    let failed : Robot = clear_inflight ended e in
    let stopped : Robot = cancel_tasks failed in
    Quiet-trans (clear_subs-Quiet r code (or_text message "Fatal")) (
      Quiet-trans (clear_inflight-Quiet ended e) (
        Quiet-trans (cancel_tasks-Quiet failed) (
          Quiet-trans (close_ws-Quiet stopped) (
            transition-Quiet (close_ws stopped) ConnectionState.fatal (change message code message)
              tt))))

pub close-Quiet : (r : Robot) → Quiet r (close r)
unfolding close
close-Quiet r = elim (Bool-cases (is_state r.state ConnectionState.shutdown)) [
  | inl e ↦ rw e (Quiet-refl r)
  | inr e ↦
      let info : StateChangeInfo = change "user close()" ErrorCode.cancelled "" in
      let gone : Robot = transition r ConnectionState.shutdown info in
      let stopped : Robot = cancel_tasks gone in
      let x : SdkException = record { code = ErrorCode.cancelled; message = "Robot.close()" } in
      let failed : Robot = clear_inflight stopped x in
      let emptied : Robot = clear_subs failed ErrorCode.cancelled "Robot.close()" in
      rw e (
        Quiet-trans (transition-Quiet r ConnectionState.shutdown info tt) (
          Quiet-trans (cancel_tasks-Quiet gone) (
            Quiet-trans (clear_inflight-Quiet stopped x) (
              Quiet-trans (clear_subs-Quiet failed ErrorCode.cancelled "Robot.close()")
                (close_ws-Quiet emptied)))))
]
