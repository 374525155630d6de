-- ===== src/Robot/Reconnect/EstopReplay.antt =====
-- The replay of an emergency stop holds READY back until the robot has confirmed it.
use karo_x2_sdk_python.Prelude.{
  ◌≡◌, refl, Bool, true, false, not, if◌then◌else◌, ◌&&◌, ◌==◌, nat_eq, nat_beq_iff, ◌↔◌, arith,
}
use karo_x2_sdk_python.Error.{ErrorCode, eq_code}
use karo_x2_sdk_python.Error.Laws.{eq_code_iff}
use karo_x2_sdk_python.Codec.Decode.{DecodedResponse}
use karo_x2_sdk_python.Robot.Commands.Accepted.{Confirmed}
use karo_x2_sdk_python.Robot.Ack.Last.{finish_reconnect-Ready}
use karo_x2_sdk_python.Connection.{ConnectionState}
use karo_x2_sdk_python.Robot.{Robot}
use karo_x2_sdk_python.Robot.Rpc.{Outcome, answered, timed_out, raised}
use karo_x2_sdk_python.Robot.Lifecycle.{on_transport_close}
use karo_x2_sdk_python.Robot.Ack.{finish_reconnect}
use karo_x2_sdk_python.Robot.Ack.Ready.{NotReady, on_transport_close-NotReady}
use karo_x2_sdk_python.Robot.Reconnect.{estop_replay_end, replay_ok}

replay_ok_iff : (resp : DecodedResponse) → (replay_ok resp ≡ true) ↔ Confirmed (answered resp)
unfolding replay_ok
replay_ok_iff resp = (
  λ h. ground (arith, eq_code_iff resp.rpc_code ErrorCode.ok),
  λ c. ground (arith, eq_code_iff resp.rpc_code ErrorCode.ok),
)

-- Of two tests, the one result that is READY needs both.
both_tests :
    (ok none_left : Bool) (x y z : Robot)
    → NotReady x
    → NotReady z
    → (if not ok then x else if none_left then y else z).state ≡ ConnectionState.ready
    → (ok ≡ true) × (none_left ≡ true)
both_tests false none_left x y z hx hz e = absurd (hx e)
both_tests true true x y z hx hz e = (refl, refl)
both_tests true false x y z hx hz e = absurd (hz e)

-- A connection that is not READY becomes READY at the end of a replay exactly when the robot has
-- answered it with OK, of the session and of the robot itself, and no subscribe of the reconnect is
-- still to be answered.
pub estop_replay_end-ready :
    (r : Robot) (o : Outcome)
    → NotReady r
    → ((estop_replay_end r o).state ≡ ConnectionState.ready)
      ↔ (Confirmed o × (r.reconnect_subs_pending ≡ 0))
unfolding estop_replay_end
estop_replay_end-ready r timed_out h =
    (λ e. absurd (on_transport_close-NotReady _ _ _ h e), λ c. absurd c.0)
estop_replay_end-ready r (raised x) h =
    (λ e. absurd (on_transport_close-NotReady _ _ _ h e), λ c. absurd c.0)
estop_replay_end-ready r (answered resp) h =
    let done : Robot = record r { reconnect_estop_pending = false } in
    let code : ErrorCode =
      if resp.has_rpc && not (eq_code resp.rpc_code ErrorCode.ok)
      then resp.rpc_code
      else resp.sdk_code in
    let closed : Robot = on_transport_close done code "estop replay failed" in
    let over : Robot = finish_reconnect done "reconnect ok (estop replayed)" "estop_replay_ok" in
    let both =
      both_tests (replay_ok resp) (r.reconnect_subs_pending == 0) closed over done
        (on_transport_close-NotReady done code "estop replay failed" h) h in
    (
      λ e.
          let passed = both e in
          ((replay_ok_iff resp).0 passed.0, (nat_beq_iff r.reconnect_subs_pending 0).0 passed.1),
      λ c.
          rw ((replay_ok_iff resp).1 c.0, (nat_beq_iff r.reconnect_subs_pending 0).1 c.1)
            (finish_reconnect-Ready done "reconnect ok (estop replayed)" "estop_replay_ok").0,
    )
