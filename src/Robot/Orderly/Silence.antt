-- ===== src/Robot/Orderly/Silence.antt =====
-- The effects of an end of a connection: none of them sends, or tells of a state.
use karo_x2_sdk_python.Prelude.{
  ℕ, ◌≡◌, refl, ◌∙◌, List, [], ◌∷◌, ◌++◌, map, Dict, Option, none, some, Bool, Bool-cases, inl, inr,
  String, ◌||◌,
}
use karo_x2_sdk_python.Error.{ErrorCode, SdkException}
use karo_x2_sdk_python.Subscription.{SubscriptionState, StreamStatusKind}
use karo_x2_sdk_python.Slot.{SubSlot, SlotEffect, is_sub_state}
use karo_x2_sdk_python.Slot.Deliver.{status}
use karo_x2_sdk_python.Robot.{Effect, on_slot, InflightRpc, on_slots}
use karo_x2_sdk_python.Robot.Lifecycle.{fail_calls, close_effects, pause_effects, ws_effects}
use karo_x2_sdk_python.Robot.Orderly.{seen, seen-append}
use karo_x2_sdk_python.Robot.Orderly.Quiet.{seen-on_slots}

pub seen-fail_calls :
    (inflight : Dict ℕ InflightRpc) (e : SdkException) → seen (fail_calls inflight e) ≡ []
unfolding fail_calls
seen-fail_calls [] e = refl
seen-fail_calls ((rid, entry) ∷ inflight) e = elim (Bool-cases entry.done) [
  | inl d ↦ rw d (seen-fail_calls inflight e)
  | inr d ↦ rw d (seen-fail_calls inflight e)
]

-- The status of one slot in front of effects that send nothing.
seen-told :
    (slot : SubSlot) (told : List SlotEffect) (rest : List Effect)
    → seen rest ≡ []
    → seen (on_slots slot told ++ rest) ≡ []
seen-told slot told rest quiet =
    seen-append (map (on_slot slot.ident) told) rest ∙ (rw (seen-on_slots slot.ident told) quiet)

pub seen-pause_effects :
    (subs : Dict String SubSlot) (code : ErrorCode) (reason : String)
    → seen (pause_effects subs code reason) ≡ []
unfolding pause_effects
seen-pause_effects [] code reason = refl
seen-pause_effects ((topic, slot) ∷ subs) code reason =
    let rest : seen (pause_effects subs code reason) ≡ [] = seen-pause_effects subs code reason in
    elim (Bool-cases (
      is_sub_state slot.state SubscriptionState.active
      || is_sub_state slot.state SubscriptionState.pending)) [
        | inl e ↦ rw e (
            seen-told slot (status slot StreamStatusKind.paused none code reason)
              (pause_effects subs code reason) rest)
        | inr e ↦ rw e rest
      ]

pub seen-close_effects :
    (subs : Dict String SubSlot) (code : ErrorCode) (reason : String)
    → seen (close_effects subs code reason) ≡ []
unfolding close_effects
seen-close_effects [] code reason = refl
seen-close_effects ((topic, slot) ∷ subs) code reason =
    let rest : seen (close_effects subs code reason) ≡ [] = seen-close_effects subs code reason in
    elim (Bool-cases (is_sub_state slot.state SubscriptionState.closed)) [
      | inl e ↦ rw e rest
      | inr e ↦ rw e (
          seen-told slot (status slot StreamStatusKind.closed none code reason)
            (close_effects subs code reason) rest)
    ]

pub seen-ws_effects : (ws : Option Bool) → seen (ws_effects ws) ≡ []
unfolding ws_effects
seen-ws_effects none = refl
seen-ws_effects (some is_open) = refl
