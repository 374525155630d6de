-- ===== src/Robot/Reconnect/Shutdown.antt =====
-- The replay of an emergency stop whose answer comes while the connection is closed.
use karo_x2_sdk_python.Prelude.{◌≡◌, refl, ◌∙◌, true, false, Bool-cases, inl, inr, nat_eq}
use karo_x2_sdk_python.Connection.{ConnectionState, StateChangeInfo, is_state}
use karo_x2_sdk_python.Codec.Decode.{DecodedResponse}
use karo_x2_sdk_python.Robot.{Robot, transition}
use karo_x2_sdk_python.Robot.Lifecycle.{close}
use karo_x2_sdk_python.Robot.Lifecycle.Links.{transition-state}
use karo_x2_sdk_python.Robot.Lifecycle.Cleanup.{close-IsTornDown}
use karo_x2_sdk_python.Robot.Rpc.{answered}
use karo_x2_sdk_python.Robot.Ack.{finish_reconnect}
use karo_x2_sdk_python.Robot.Reconnect.{replay_ok, estop_replay_end}

transition-pending :
    (r : Robot) (new : ConnectionState) (info : StateChangeInfo)
    → (transition r new info).reconnect_subs_pending ≡ r.reconnect_subs_pending
unfolding transition
transition-pending r new info = elim (Bool-cases (is_state r.state new)) [
  | inl e ↦ rw e refl
  | inr e ↦ rw e refl
]

close-pending : (r : Robot) → (close r).reconnect_subs_pending ≡ r.reconnect_subs_pending
unfolding close
close-pending r = elim (Bool-cases (is_state r.state ConnectionState.shutdown)) [
  | inl e ↦ rw e refl
  | inr e ↦ rw e (transition-pending r ConnectionState.shutdown _)
]

-- The end of the replay does not look at the state.
replay-Ready :
    (r : Robot) (resp : DecodedResponse)
    → r.reconnect_subs_pending ≡ 0
    → replay_ok resp ≡ true
    → (estop_replay_end r (answered resp)).state ≡ ConnectionState.ready
unfolding estop_replay_end finish_reconnect
replay-Ready r resp none_left ok = rw (ok, none_left) (transition-state _ ConnectionState.ready _)

-- Where the robot has confirmed the replay of an emergency stop, and no answer to a subscribe is
-- waited for, but the task of the replay goes on only after `close`: the state goes from SHUTDOWN to
-- READY.
pub close_misses_replay :
    (r : Robot) (resp : DecodedResponse)
    → is_state r.state ConnectionState.shutdown ≡ false
    → r.reconnect_subs_pending ≡ 0
    → replay_ok resp ≡ true
    → ((close r).state ≡ ConnectionState.shutdown)
      × ((estop_replay_end (close r) (answered resp)).state ≡ ConnectionState.ready)
close_misses_replay r resp open_yet none_left ok =
    ((close-IsTornDown r open_yet).0, replay-Ready (close r) resp (close-pending r ∙ none_left) ok)
