-- ===== src/Robot/Lifecycle/Failed.antt =====
-- Which calls the effects of a handler fail.
use karo_x2_sdk_python.Prelude.{
  ℕ, Bool, true, false, ◌==◌, nat_eq, Option, some, ◌||◌, String, List, [], ◌∷◌, ◌++◌, map, none,
  Dict, if◌then◌else◌, ◌≡◌, refl, inl, inr, Bool-cases, ap, ◌∙◌,
}
use karo_x2_sdk_python.Error.{ErrorCode, SdkException}
use karo_x2_sdk_python.Subscription.{SubscriptionState, StreamStatusKind}
use karo_x2_sdk_python.Slot.Deliver.{status}
use karo_x2_sdk_python.Slot.{SubSlot, SlotEffect, is_sub_state}
use karo_x2_sdk_python.Robot.{
  Effect, on_slot, log, state_callback, send, set_result, set_exception, set_timeout, ws_close,
  start_abort, start_estop_replay, InflightRpc, Establishing, nowhere, at_connect, at_handshake,
}
use karo_x2_sdk_python.Robot.Lifecycle.{
  close_effects, pause_effects, fail_calls, cancel_call, cancel_awaited,
}

-- The calls whose future the effects fail, in order.
abbrev pub failed : List Effect → List ℕ
failed [] = []
failed (on_slot ident e ∷ effects) = failed effects
failed (log l m ∷ effects) = failed effects
failed (state_callback old new info ∷ effects) = failed effects
failed (send c ∷ effects) = failed effects
failed (set_result rid resp ∷ effects) = failed effects
failed (set_exception rid e ∷ effects) = rid ∷ failed effects
failed (set_timeout rid ∷ effects) = failed effects
failed (ws_close ∷ effects) = failed effects
failed (start_abort code m ∷ effects) = failed effects
failed (start_estop_replay ∷ effects) = failed effects

pub failed-append : (xs ys : List Effect) → failed (xs ++ ys) ≡ failed xs ++ failed ys
failed-append [] ys = refl
failed-append (on_slot ident e ∷ xs) ys = failed-append xs ys
failed-append (log l m ∷ xs) ys = failed-append xs ys
failed-append (state_callback old new info ∷ xs) ys = failed-append xs ys
failed-append (send c ∷ xs) ys = failed-append xs ys
failed-append (set_result rid resp ∷ xs) ys = failed-append xs ys
failed-append (set_exception rid e ∷ xs) ys = ap (◌∷◌ rid) (failed-append xs ys)
failed-append (set_timeout rid ∷ xs) ys = failed-append xs ys
failed-append (ws_close ∷ xs) ys = failed-append xs ys
failed-append (start_abort code m ∷ xs) ys = failed-append xs ys
failed-append (start_estop_replay ∷ xs) ys = failed-append xs ys

-- The calls in flight that somebody still waits for.
abbrev pub open_calls : Dict ℕ InflightRpc → List ℕ
open_calls [] = []
open_calls ((rid, entry) ∷ inflight) = (if entry.done then [] else rid ∷ []) ++ open_calls inflight

-- The handshake that the task in `_reconnect_task` waits for.
abbrev pub own_handshake : Establishing → Bool → Option ℕ
own_handshake nowhere handled = none
own_handshake (at_connect is_reconnect) handled = none
own_handshake (at_handshake true rid) true = some rid
own_handshake (at_handshake true rid) false = none
own_handshake (at_handshake false rid) handled = none

-- The calls that somebody still waits for, but for one.
abbrev pub calls_but : Option ℕ → Dict ℕ InflightRpc → List ℕ
calls_but none inflight = open_calls inflight
calls_but (some own) [] = []
calls_but (some own) ((rid, entry) ∷ inflight) =
    (if own == rid || entry.done then [] else rid ∷ []) ++ calls_but (some own) inflight

open_calls-cancel_call :
    (own : ℕ) (inflight : Dict ℕ InflightRpc)
    → open_calls (cancel_call own inflight) ≡ calls_but (some own) inflight
open_calls-cancel_call own [] = refl
open_calls-cancel_call own ((rid, entry) ∷ inflight) =
    let rest = open_calls-cancel_call own inflight in
    elim (Bool-cases (own == rid)) [ inl e ↦ rw (e, rest) refl | inr e ↦ rw (e, rest) refl ]

pub open_calls-cancel_awaited :
    (e : Establishing) (handled : Bool) (inflight : Dict ℕ InflightRpc)
    → open_calls (cancel_awaited e handled inflight) ≡ calls_but (own_handshake e handled) inflight
unfolding cancel_awaited
open_calls-cancel_awaited nowhere handled inflight = refl
open_calls-cancel_awaited (at_connect is_reconnect) handled inflight = refl
open_calls-cancel_awaited (at_handshake true rid) true inflight =
    open_calls-cancel_call rid inflight
open_calls-cancel_awaited (at_handshake true rid) false inflight = refl
open_calls-cancel_awaited (at_handshake false rid) handled inflight = refl

pub failed-fail_calls :
    (inflight : Dict ℕ InflightRpc) (e : SdkException)
    → failed (fail_calls inflight e) ≡ open_calls inflight
unfolding fail_calls
failed-fail_calls [] e = refl
failed-fail_calls ((rid, entry) ∷ inflight) e = elim (Bool-cases entry.done) [
  | inl d ↦ rw d (failed-fail_calls inflight e)
  | inr d ↦ rw d (ap (◌∷◌ rid) (failed-fail_calls inflight e))
]

pub failed-on_slots :
    (ident : ℕ) (effects : List SlotEffect) → failed (map (on_slot ident) effects) ≡ []
failed-on_slots ident [] = refl
failed-on_slots ident (e ∷ effects) = failed-on_slots ident effects

pub failed-pause_effects :
    (subs : Dict String SubSlot) (code : ErrorCode) (reason : String)
    → failed (pause_effects subs code reason) ≡ []
unfolding pause_effects
failed-pause_effects [] code reason = refl
failed-pause_effects ((topic, slot) ∷ subs) code reason =
    let told : List SlotEffect = status slot StreamStatusKind.paused none code reason in
    elim (Bool-cases (
      is_sub_state slot.state SubscriptionState.active
      || is_sub_state slot.state SubscriptionState.pending)) [
        | inl e ↦ rw e (
            failed-append (map (on_slot slot.ident) told) (pause_effects subs code reason)
            ∙ rw (failed-on_slots slot.ident told) (failed-pause_effects subs code reason))
        | inr e ↦ rw e (failed-pause_effects subs code reason)
      ]

pub failed-close_effects :
    (subs : Dict String SubSlot) (code : ErrorCode) (reason : String)
    → failed (close_effects subs code reason) ≡ []
unfolding close_effects
failed-close_effects [] code reason = refl
failed-close_effects ((topic, slot) ∷ subs) code reason =
    let told : List SlotEffect = status slot StreamStatusKind.closed none code reason in
    elim (Bool-cases (is_sub_state slot.state SubscriptionState.closed)) [
      | inl e ↦ rw e (failed-close_effects subs code reason)
      | inr e ↦ rw e (
          failed-append (map (on_slot slot.ident) told) (close_effects subs code reason)
          ∙ rw (failed-on_slots slot.ident told) (failed-close_effects subs code reason))
    ]
