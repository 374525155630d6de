-- ===== src/Robot/Unsubscribe.antt =====
-- `unsubscribe_request` of karo_x2_sdk/_internal/robot_impl.py, in two parts: up to the wait for
-- the answer, and from there on.
pub mod Waiting
use karo_x2_sdk_python.Prelude.{
  ℕ, Bool, true, false, String, ◌<>◌, List, [], ◌∷◌, ◌++◌, Option, some, none, lookup, erase,
  if◌then◌else◌, ◌==◌, nat_eq, string_eq, not, ◌||◌,
}
use karo_x2_sdk_python.Error.{ErrorCode, exception_str}
use karo_x2_sdk_python.Connection.{ConnectionState, is_state}
use karo_x2_sdk_python.Subscription.{StreamStatusKind}
use karo_x2_sdk_python.Diagnostics.{LogLevel}
use karo_x2_sdk_python.Slot.{SubSlot}
use karo_x2_sdk_python.Slot.Deliver.{status}
use karo_x2_sdk_python.Codec.Encode.{SdkCommand, encode_unsubscribe}
use karo_x2_sdk_python.Robot.{
  Robot, Effect, log, emit, take_rid, put_slot, end_slot, closed_slot, on_slots,
}
use karo_x2_sdk_python.Robot.Rpc.{
  Outcome, answered, timed_out, raised, Started, waiting, failed, send_rpc, count_sent,
}

-- The request has returned a code, or it waits for the answer to the call with an id.
pub data Request : Type 0 where
  returned : ErrorCode → Request
  awaiting : ℕ → Request

-- `self._ws is None or not self._ws.is_open`
unfoldable pub ws_closed : Option Bool → Bool
ws_closed none = true
ws_closed (some is_open) = not is_open

-- The request without a wait, as the finalizer of a facade makes it.
unfoldable pub unsubscribe_async : Robot → SubSlot → Robot
unfolding take_rid put_slot end_slot count_sent emit
unsubscribe_async r slot =
    let command : SdkCommand = encode_unsubscribe r.next_request_id slot.topic in
    let told : SubSlot = record slot { unsubscribe_sent = true } in
    let ended : Robot =
      if r.env.send_ok r.next_request_id
      then end_slot (count_sent (put_slot (take_rid r) told) command) told ErrorCode.ok
          "Unsubscribe()"
      else end_slot (take_rid r) slot ErrorCode.ok "Unsubscribe()" in
    emit ended (
      log LogLevel.warn
        ("subscription dropped without explicit unsubscribe() — topic=" <> slot.topic)
      ∷ [])

-- `slot.unsubscribe_sent = True`, where the answer has come.
pub mark_sent : SubSlot → Bool → SubSlot
mark_sent slot sent = record slot { unsubscribe_sent = slot.unsubscribe_sent || sent }

-- The object with an identity is closed (again) where it has left `_subs` already.
pub close_retired : List SubSlot → ℕ → Bool → ErrorCode → List SubSlot
unfolding closed_slot mark_sent
close_retired [] ident sent code = []
close_retired (slot ∷ slots) ident sent code =
    if slot.ident == ident
    then closed_slot (mark_sent slot sent) code ∷ slots
    else slot ∷ close_retired slots ident sent code

unfoldable pub retired_effects : List SubSlot → ℕ → ErrorCode → String → List Effect
retired_effects [] ident code reason = []
retired_effects (slot ∷ slots) ident code reason =
    if slot.ident == ident
    then on_slots slot (status slot StreamStatusKind.closed none code reason)
    else retired_effects slots ident code reason

unfoldable pub finish_on : Option SubSlot → Robot → String → ℕ → Bool → ErrorCode → String → Robot
unfolding end_slot close_retired retired_effects mark_sent
finish_on none r topic ident sent code reason = record r {
  retired = close_retired r.retired ident sent code;
  trace = r.trace ++ retired_effects r.retired ident code reason;
}
finish_on (some slot) r topic ident sent code reason =
    if slot.ident == ident then end_slot r (mark_sent slot sent) code reason else record r {
      subs = erase topic r.subs;
      retired = slot ∷ close_retired r.retired ident sent code;
      trace = r.trace ++ retired_effects r.retired ident code reason;
    }

-- The end of the request on the slot object that it began with, whatever happened in between.
unfoldable pub finish_unsubscribe : Robot → String → ℕ → Bool → ErrorCode → String → Robot
unfolding finish_on
finish_unsubscribe r topic ident sent code reason =
    finish_on (lookup topic r.subs) r topic ident sent code reason

-- From the wait on: the code that the request returns.
unfoldable pub unsubscribe_end : Robot → String → ℕ → Outcome → Robot × ErrorCode
unfolding finish_unsubscribe
unsubscribe_end r topic ident (answered resp) =
    let code : ErrorCode = if resp.success then ErrorCode.ok else resp.sdk_code in
    (finish_unsubscribe r topic ident true code resp.message, code)
unsubscribe_end r topic ident timed_out = (
  finish_unsubscribe r topic ident false ErrorCode.timeout "Unsubscribe timeout",
  ErrorCode.timeout,
)
unsubscribe_end r topic ident (raised e) =
    (finish_unsubscribe r topic ident false e.code (exception_str e), e.code)

-- The call has raised at once, or waits.
unfoldable pub after_start : Robot → SubSlot → ℕ → Started → Robot × Request
unfolding unsubscribe_end
after_start r slot rid waiting = (r, awaiting rid)
after_start r slot rid (failed e) =
    let (ended, code) = unsubscribe_end r slot.topic slot.ident (raised e) in (ended, returned code)

unfoldable pub unsubscribe_slot : Robot → Option SubSlot → Bool → Robot × Request
unfolding ws_closed end_slot unsubscribe_async take_rid after_start
unsubscribe_slot r none sync_wait = (r, returned ErrorCode.ok)
unsubscribe_slot r (some slot) sync_wait =
    let rid : ℕ = r.next_request_id in
    let (called, start) =
      send_rpc (take_rid r) rid "unsubscribe" (encode_unsubscribe rid slot.topic) in
    if not (is_state r.state ConnectionState.ready) || ws_closed r.ws
    then (
      end_slot r slot ErrorCode.disconnected "Unsubscribe() while disconnected",
      returned (if sync_wait then ErrorCode.disconnected else ErrorCode.ok),
    )
    else if sync_wait
    then after_start called slot rid start
    else (unsubscribe_async r slot, returned ErrorCode.ok)

-- `unsubscribe_request`, up to its wait.
unfoldable pub unsubscribe_request : Robot → String → Bool → Robot × Request
unfolding unsubscribe_slot
unsubscribe_request r topic sync_wait = unsubscribe_slot r (lookup topic r.subs) sync_wait
