-- ===== src/Robot/Link/Crashed.antt =====
-- A reconnect whose task raises an exception that is not one of the SDK.
use karo_x2_sdk_python.Prelude.{
  ℕ, ◌≡◌, refl, ap, ◌∙◌, true, String, [], some, none, Bool-cases, inl, inr,
}
use karo_x2_sdk_python.Error.{ErrorCode}
use karo_x2_sdk_python.Connection.{ConnectionState, StateChangeInfo, is_state}
use karo_x2_sdk_python.Options.{ConnectOptions, is_empty}
use karo_x2_sdk_python.Client.{Dial}
use karo_x2_sdk_python.Client.Trust.{connect-crashed}
use karo_x2_sdk_python.Robot.{Robot, nowhere, transition, change}
use karo_x2_sdk_python.Robot.Establish.{establish, connect}
use karo_x2_sdk_python.Robot.Reconnect.{do_reconnect, awake, wake_current, wake_first, wake_older}
use karo_x2_sdk_python.Robot.Reconnect.Kept.{wake_current-goes}
use karo_x2_sdk_python.Robot.Link.{task_crashed, opened_with, open_client}

open_client-crashed :
    (r : Robot) (text : String)
    → is_empty r.opts.cert.cert_pem ≡ true
    → open_client r true none none (Dial.other_error text) ≡ record r { establishing = nowhere }
unfolding open_client opened_with task_crashed
open_client-crashed r text token = ap (opened_with r true) (connect-crashed r.opts.cert text token)

-- No sleep is running, and `connect` was called before: nothing is left that would go on.
record IsStalled (r : Robot) : Type 0 where
  current : wake_current r ≡ r
  older : wake_older r ≡ r
  again : connect r ≡ r

no_tasks-IsStalled :
    (r : Robot)
    → r.reconnect_task ≡ none
    → r.older_tasks ≡ []
    → r.connect_invoked ≡ true
    → IsStalled r
unfolding wake_current wake_older wake_first connect
no_tasks-IsStalled r asleep alone called = record {
  current = ap (λ o. elim o [ none ↦ r | some n ↦ do_reconnect (awake r) n ]) asleep;
  older = ap (λ xs. wake_first xs r) alone;
  again = rw called refl;
}

wake_current-runs :
    (r : Robot) (attempt : ℕ)
    → r.reconnect_task ≡ some attempt
    → wake_current r ≡ do_reconnect (awake r) attempt
unfolding wake_current
wake_current-runs r attempt sleeps =
    ap (λ o. elim o [ none ↦ r | some n ↦ do_reconnect (awake r) n ]) sleeps

transition-tasks :
    (r : Robot) (new : ConnectionState) (info : StateChangeInfo)
    → let told = transition r new info in
      (told.reconnect_task ≡ r.reconnect_task)
      × (told.older_tasks ≡ r.older_tasks)
      × (told.connect_invoked ≡ r.connect_invoked)
unfolding transition
transition-tasks r new info = elim (Bool-cases (is_state r.state new)) [
  | inl e ↦ rw e (refl, refl, refl)
  | inr e ↦ rw e (refl, refl, refl)
]

-- What `_do_reconnect` leaves of the tasks.
do_reconnect-tasks :
    (r : Robot) (attempt : ℕ)
    → let begun = do_reconnect r attempt in
      (begun.reconnect_task ≡ r.reconnect_task)
      × (begun.older_tasks ≡ r.older_tasks)
      × (begun.connect_invoked ≡ r.connect_invoked)
unfolding do_reconnect establish
do_reconnect-tasks r attempt =
    let begun : Robot =
      transition (record r { reconnect_attempt = attempt }) ConnectionState.reconnecting
        (change "reconnecting" ErrorCode.ok "") in
    let same =
      transition-tasks (record r { reconnect_attempt = attempt }) ConnectionState.reconnecting
        (change "reconnecting" ErrorCode.ok "") in
    elim (Bool-cases (is_state r.state ConnectionState.transient_failure)) [
      | inr e ↦ rw e (refl, refl, refl)
      | inl e ↦ elim (Bool-cases (is_state begun.state ConnectionState.reconnecting)) [
        | inl there ↦ rw (e, there) same
        | inr elsewhere ↦ rw (e, elsewhere) same
      ]
    ]

-- A robot without a client certificate, whose `connect` was called before, waits in
-- TRANSIENT_FAILURE for the sleep of its only reconnect task. When the sleep is over and the dial
-- raises an exception that `WsClient.connect` does not turn into one of the SDK, the state stays
-- RECONNECTING, with no attempt going on and no task that sleeps: neither the end of a sleep nor
-- `connect` goes on from there.
pub reconnect_crash_stalls :
    (r : Robot) (attempt : ℕ) (text : String)
    → r.state ≡ ConnectionState.transient_failure
    → r.reconnect_task ≡ some attempt
    → r.older_tasks ≡ []
    → r.connect_invoked ≡ true
    → is_empty r.opts.cert.cert_pem ≡ true
    → let crashed = open_client (wake_current r) true none none (Dial.other_error text) in
      (crashed.state ≡ ConnectionState.reconnecting)
      × (crashed.establishing ≡ nowhere)
      × (wake_current crashed ≡ crashed)
      × (wake_older crashed ≡ crashed)
      × (connect crashed ≡ crashed)
unfolding awake
reconnect_crash_stalls r attempt text failed sleeps alone called token =
    let woken : Robot = wake_current r in
    let crashed : Robot = record woken { establishing = nowhere } in
    let goes = wake_current-goes r attempt failed sleeps in
    let left = do_reconnect-tasks (awake r) attempt in
    let same = wake_current-runs r attempt sleeps in
    let stalled : IsStalled crashed =
      no_tasks-IsStalled crashed (ap (λ (x : Robot). x.reconnect_task) same ∙ left.0)
        (ap (λ (x : Robot). x.older_tasks) same ∙ (left.1 ∙ alone))
        (ap (λ (x : Robot). x.connect_invoked) same ∙ (left.2 ∙ called)) in
    rw
      (open_client-crashed woken text
        (ap (λ (o : ConnectOptions). is_empty o.cert.cert_pem) goes.0.opts ∙ token))
      (goes.1, refl, stalled.current, stalled.older, stalled.again)
