-- ===== src/Robot/Steps/RoundTrip.antt =====
-- A call and its answer.
use mathlib.Core.List.{append_assoc}
use karo_x2_sdk_python.Prelude.{
  ℕ, ◌≡◌, refl, String, true, false, some, none, [], ◌∷◌, ◌++◌, lookup, lookup-insert, contains,
  insert, erase, nat_eq, arith, ◌==◌, Dict, ap, ◌∙◌,
}
use karo_x2_sdk_python.Codec.Decode.{DecodedResponse}
use karo_x2_sdk_python.Codec.Encode.{SdkCommand}
use karo_x2_sdk_python.Robot.{Robot, InflightRpc, send, set_result, take_rid, emit}
use karo_x2_sdk_python.Robot.Rpc.{send_rpc, send_on, register, count_sent, resolve, rpc_response}
use karo_x2_sdk_python.Robot.Inbound.{handle_sdk_response}
use karo_x2_sdk_python.Robot.Orderly.{IsOrderly, Below}

module _ {ℓ} {V : Type ℓ} where
  -- A key at the bound of the others is not among them.
  erase-insert : (k : ℕ) (v : V) (d : Dict ℕ V) → Below k d → erase k (insert k v d) ≡ d
  erase-insert k v [] h = ground arith
  erase-insert k v ((j, w) ∷ d) h =
      let other : (j == k) ≡ false = ground (arith, h.0) in
      rw (other, other) (ap (◌∷◌ (j, w)) (erase-insert k v d h.1))

  contains-insert : (k : ℕ) (v : V) (d : Dict ℕ V) → contains k (insert k v d) ≡ true
  contains-insert k v d =
      let same : (k == k) ≡ true = ground arith in
      let found : lookup k (insert k v d) ≡ some v = lookup-insert k k v d ∙ (rw same refl) in
      ap (λ o. elim o [ none ↦ false | some w ↦ true ]) found

-- A call that is sent on an open websocket, and then its answer: the robot waits for the same calls
-- as before, and its trace has grown by the command and by the result of the call's future.
pub call_round_trip :
    (r : Robot) (method : String) (command : SdkCommand) (resp : DecodedResponse)
    → IsOrderly r
    → r.ws ≡ some true
    → r.env.send_ok r.next_request_id ≡ true
    → resp.has_subscribe ≡ false
    → resp.request_id ≡ r.next_request_id
    → let called : Robot = (send_rpc (take_rid r) r.next_request_id method command).0 in
      ((handle_sdk_response called resp).inflight ≡ r.inflight)
      × ((handle_sdk_response called resp).trace
          ≡ r.trace ++ send command ∷ set_result resp.request_id resp ∷ [])
unfolding send_rpc send_on register count_sent take_rid emit handle_sdk_response rpc_response
    resolve
call_round_trip r method command resp h up sent_ok call same =
    let rid : ℕ = r.next_request_id in
    let entry : InflightRpc = record { method = method; done = false } in
    let here : (rid == rid) ≡ true = ground arith in
    rw
      (
        up,
        sent_ok,
        call,
        same,
        contains-insert rid entry r.inflight,
        lookup-insert rid rid entry r.inflight,
        here,
      )
      (erase-insert rid entry r.inflight h.calls, append_assoc r.trace _ _)
