-- ===== src/Robot/Lifecycle.antt =====
-- How a connection ends, of karo_x2_sdk/_internal/robot_impl.py: `close`, `_abort_to_fatal`,
-- `_on_transport_close` and `_schedule_reconnect` with the start of its `_do_reconnect`.
pub mod Failed
pub mod Links
pub mod Cleanup
use karo_x2_sdk_python.Prelude.{
  ℕ, suc, ◌+◌, ◌-◌, Bool, true, false, not, ◌||◌, ◌&&◌, String, List, [], ◌∷◌, ◌++◌, map, Option,
  some, none, Dict, if◌then◌else◌, ◌==◌, nat_eq, ℤ, pos, negsuc, ltb,
}
use karo_x2_sdk_python.Error.{ErrorCode, SdkException}
use karo_x2_sdk_python.Connection.{ConnectionState, StateChangeInfo, is_state}
use karo_x2_sdk_python.Subscription.{SubscriptionState, StreamStatusKind}
use karo_x2_sdk_python.Slot.{SubSlot, SlotEffect, is_sub_state}
use karo_x2_sdk_python.Slot.Deliver.{status}
use karo_x2_sdk_python.Robot.{
  Robot, Effect, on_slot, set_exception, ws_close, start_abort, InflightRpc, Establishing, nowhere,
  at_connect, at_handshake, transition, change, backoff, drawn, on_slots, closed_slot, emit,
}

-- The loop over `_subs` in `close` and `_abort_to_fatal`: a slot that is not closed yet is closed,
-- and the worker of each is stopped.
pub ended_slot : SubSlot → ErrorCode → SubSlot
unfolding is_sub_state closed_slot
ended_slot slot code =
    if is_sub_state slot.state SubscriptionState.closed
    then record slot { dispatch_worker = false }
    else closed_slot slot code

pub close_slots : Dict String SubSlot → ErrorCode → List SubSlot
unfolding ended_slot
close_slots [] code = []
close_slots ((topic, slot) ∷ subs) code = ended_slot slot code ∷ close_slots subs code

unfoldable pub close_effects : Dict String SubSlot → ErrorCode → String → List Effect
unfolding is_sub_state status
close_effects [] code reason = []
close_effects ((topic, slot) ∷ subs) code reason =
    (if is_sub_state slot.state SubscriptionState.closed
      then []
      else on_slots slot (status slot StreamStatusKind.closed none code reason))
    ++ close_effects subs code reason

-- `future.set_exception` for each call in flight whose future is not done.
unfoldable pub fail_calls : Dict ℕ InflightRpc → SdkException → List Effect
fail_calls [] e = []
fail_calls ((rid, entry) ∷ inflight) e =
    (if entry.done then [] else set_exception rid e ∷ []) ++ fail_calls inflight e

-- `_inflight.clear()`, the ack timers and `_inflight_sub`, after the futures have failed.
unfoldable pub clear_inflight : Robot → SdkException → Robot
unfolding fail_calls
clear_inflight r e = record r {
  inflight = [];
  inflight_sub = [];
  sub_ack_timers = [];
  trace = r.trace ++ fail_calls r.inflight e;
}

unfoldable pub clear_subs : Robot → ErrorCode → String → Robot
unfolding close_slots close_effects
clear_subs r code reason = record r {
  subs = [];
  retired = close_slots r.subs code ++ r.retired;
  trace = r.trace ++ close_effects r.subs code reason;
}

unfoldable pub ws_effects : Option Bool → List Effect
ws_effects none = []
ws_effects (some is_open) = ws_close ∷ []

-- `if self._ws is not None: await self._ws.close(); self._ws = None`
unfoldable pub close_ws : Robot → Robot
unfolding ws_effects
close_ws r = record r { ws = none; trace = r.trace ++ ws_effects r.ws }

-- What is left of `_establish` when `_reconnect_task` is cancelled: nothing where it is a reconnect
-- that runs in that task. The task of the first connection has no handle, nor has a reconnect whose
-- task another one has replaced in `_reconnect_task`, so that nothing cancels them.
unfoldable pub cancel_establish : Establishing → Bool → Establishing
cancel_establish nowhere handled = nowhere
cancel_establish (at_connect true) handled = if handled then nowhere else at_connect true
cancel_establish (at_connect false) handled = at_connect false
cancel_establish (at_handshake true rid) handled =
    if handled then nowhere else at_handshake true rid
cancel_establish (at_handshake false rid) handled = at_handshake false rid

-- A call in flight whose future has been cancelled.
abbrev pub cancel_call : ℕ → Dict ℕ InflightRpc → Dict ℕ InflightRpc
cancel_call rid [] = []
cancel_call rid ((n, entry) ∷ inflight) =
    (n, if rid == n then record entry { done = true } else entry) ∷ cancel_call rid inflight

-- The future that the task in `_reconnect_task` waits for is cancelled with it: it is that of the
-- handshake.
unfoldable pub cancel_awaited : Establishing → Bool → Dict ℕ InflightRpc → Dict ℕ InflightRpc
cancel_awaited nowhere handled inflight = inflight
cancel_awaited (at_connect is_reconnect) handled inflight = inflight
cancel_awaited (at_handshake true rid) handled inflight =
    if handled then cancel_call rid inflight else inflight
cancel_awaited (at_handshake false rid) handled inflight = inflight

unfoldable pub cancel_tasks : Robot → Robot
unfolding cancel_establish cancel_awaited
cancel_tasks r = record r {
  heartbeat_task = false;
  reconnect_task = none;
  establishing = cancel_establish r.establishing r.establish_handled;
  inflight = cancel_awaited r.establishing r.establish_handled r.inflight;
}

-- `close`
unfoldable pub close : Robot → Robot
unfolding cancel_tasks clear_inflight clear_subs close_ws
close r =
    if is_state r.state ConnectionState.shutdown
    then r
    else let stopped : Robot =
        cancel_tasks
          (transition r ConnectionState.shutdown (change "user close()" ErrorCode.cancelled "")) in
      let failed : Robot =
        clear_inflight stopped (record { code = ErrorCode.cancelled; message = "Robot.close()" }) in
      close_ws (clear_subs failed ErrorCode.cancelled "Robot.close()")

-- `message or "Fatal"`
pub or_text : String → String → String
or_text String.[] default = default
or_text (String.◌∷◌ c s) default = String.◌∷◌ c s

-- `_abort_to_fatal`
unfoldable pub abort_to_fatal : Robot → ErrorCode → String → Robot
unfolding transition cancel_tasks clear_inflight clear_subs close_ws or_text
abort_to_fatal r code message =
    let ended : Robot = clear_subs r code (or_text message "Fatal") in
    let failed : Robot = clear_inflight ended (record { code = code; message = message }) in
    transition (close_ws (cancel_tasks failed)) ConnectionState.fatal (change message code message)

-- `reconnect_max_attempts >= 0 and attempt > reconnect_max_attempts`
unfoldable pub attempts_exhausted : ℤ → ℕ → Bool
attempts_exhausted (pos most) attempt = ltb most attempt
attempts_exhausted (negsuc n) attempt = false

-- The sleeping task that loses its handle.
abbrev pub unhandled : Option ℕ → List ℕ → List ℕ
unhandled none older = older
unhandled (some attempt) older = attempt ∷ older

unfoldable pub is_final : ConnectionState → Bool
unfolding is_state
is_final s = is_state s ConnectionState.fatal || is_state s ConnectionState.shutdown

-- `_schedule_reconnect`
unfoldable pub schedule_reconnect : Robot → ℕ → Robot
unfolding is_final attempts_exhausted drawn emit
schedule_reconnect r attempt =
    if is_final r.state
    then r
    else if attempts_exhausted r.opts.reconnect_max_attempts attempt
    then emit r (start_abort ErrorCode.transport_failure "reconnect_max_attempts reached" ∷ [])
    else record (drawn r) {
      reconnect_attempt = attempt - 1;
      reconnect_task = some attempt;
      older_tasks = unhandled r.reconnect_task r.older_tasks;
      establish_handled = false;
    }

-- What `_on_transport_close` does to one slot.
unfoldable pub paused_slot : SubSlot → SubSlot
unfolding is_sub_state
paused_slot slot = record slot {
  state =
      if is_sub_state slot.state SubscriptionState.active
        || is_sub_state slot.state SubscriptionState.pending
      then SubscriptionState.paused
      else slot.state;
  pending_buffer = [];
  inflight_subscribe_request_id = 0;
}

unfoldable pub pause_slots : Dict String SubSlot → Dict String SubSlot
unfolding paused_slot
pause_slots [] = []
pause_slots ((topic, slot) ∷ subs) = (topic, paused_slot slot) ∷ pause_slots subs

unfoldable pub pause_effects : Dict String SubSlot → ErrorCode → String → List Effect
unfolding is_sub_state status
pause_effects [] code reason = []
pause_effects ((topic, slot) ∷ subs) code reason =
    (if is_sub_state slot.state SubscriptionState.active
        || is_sub_state slot.state SubscriptionState.pending
      then on_slots slot (status slot StreamStatusKind.paused none code reason)
      else [])
    ++ pause_effects subs code reason

unfoldable pub pause_subs : Robot → ErrorCode → String → Robot
unfolding pause_slots pause_effects
pause_subs r code reason = record r {
  subs = pause_slots r.subs;
  trace = r.trace ++ pause_effects r.subs code reason;
}

-- The state change that announces the next retry: its delay is drawn anew.
unfoldable pub fail_transient : Robot → String → ErrorCode → String → Robot
unfolding transition backoff drawn
fail_transient r reason code message =
    transition (drawn r) ConnectionState.transient_failure
      (record (change reason code message) { next_retry_in_ms = backoff r r.reconnect_attempt })

-- `_on_transport_close`
unfoldable pub on_transport_close : Robot → ErrorCode → String → Robot
unfolding is_final pause_subs clear_inflight fail_transient close_ws schedule_reconnect or_text
on_transport_close r reason msg =
    if is_final r.state
    then r
    else let paused : Robot = pause_subs r reason msg in
      let failed : Robot = clear_inflight paused (record { code = reason; message = msg }) in
      let stopped : Robot = record failed { heartbeat_task = false; miss_count = 0 } in
      let told : Robot = fail_transient stopped (or_text msg "transport closed") reason msg in
      schedule_reconnect (close_ws told) (r.reconnect_attempt + 1)
