-- ===== src/Robot/Lifecycle/Links.antt =====
-- What the state changes and the scheduling of a reconnect leave alone.
use karo_x2_sdk_python.Prelude.{
  ℕ, Bool, true, false, List, [], ◌∷◌, ◌++◌, some, ◌≡◌, refl, ◌⊎◌, inl, inr, Bool-cases, ◌∙◌,
}
use karo_x2_sdk_python.Error.{ErrorCode}
use karo_x2_sdk_python.Connection.{ConnectionState, StateChangeInfo, is_state, is_state_iff}
use karo_x2_sdk_python.Diagnostics.{LogLevel}
use mathlib.Core.List.{append-nil}
use karo_x2_sdk_python.Robot.{
  Robot, Effect, log, start_abort, transition, state_callback_effect, transition_message,
}
use karo_x2_sdk_python.Robot.Lifecycle.{is_final, attempts_exhausted, schedule_reconnect}
use karo_x2_sdk_python.Robot.Lifecycle.Failed.{failed, failed-append}

-- What the bookkeeping of a state change and of a scheduled reconnect leaves alone.
pub record SameLinks (a b : Robot) : Type 0 where
  pub subs : b.subs ≡ a.subs
  pub retired : b.retired ≡ a.retired
  pub ws : b.ws ≡ a.ws
  pub inflight : b.inflight ≡ a.inflight
  pub inflight_sub : b.inflight_sub ≡ a.inflight_sub
  pub sub_ack_timers : b.sub_ack_timers ≡ a.sub_ack_timers
  pub heartbeat_task : b.heartbeat_task ≡ a.heartbeat_task
  pub failures : failed b.trace ≡ failed a.trace

pub same_links : (a : Robot) → SameLinks a a
same_links a = record {
  subs = refl;
  retired = refl;
  ws = refl;
  inflight = refl;
  inflight_sub = refl;
  sub_ack_timers = refl;
  heartbeat_task = refl;
  failures = refl;
}

-- Effects that fail no call leave the failed calls as they are.
pub failed-quiet : (xs ys : List Effect) → failed ys ≡ [] → failed (xs ++ ys) ≡ failed xs
failed-quiet xs ys quiet = failed-append xs ys ∙ (rw quiet (append-nil (failed xs)))

failed-state_callback_effect :
    (handler : Bool) (old new : ConnectionState) (info : StateChangeInfo)
    → failed (state_callback_effect handler old new info) ≡ []
unfolding state_callback_effect
failed-state_callback_effect true old new info = refl
failed-state_callback_effect false old new info = refl

pub transition-SameLinks :
    (r : Robot) (new : ConnectionState) (info : StateChangeInfo)
    → SameLinks r (transition r new info)
unfolding transition
transition-SameLinks r new info = elim (Bool-cases (is_state r.state new)) [
  | inl e ↦ rw e (same_links r)
  | inr e ↦ rw e (record {
    subs = refl;
    retired = refl;
    ws = refl;
    inflight = refl;
    inflight_sub = refl;
    sub_ack_timers = refl;
    heartbeat_task = refl;
    failures =
        failed-quiet r.trace
          (log LogLevel.info (transition_message r.state new info.reason)
            ∷ state_callback_effect r.connection_state_handler r.state new
                (record info { reconnect_attempt = r.reconnect_attempt }))
          (failed-state_callback_effect r.connection_state_handler r.state new
            (record info { reconnect_attempt = r.reconnect_attempt }));
  })
]

pub transition-state :
    (r : Robot) (new : ConnectionState) (info : StateChangeInfo)
    → (transition r new info).state ≡ new
unfolding transition
transition-state r new info = elim (Bool-cases (is_state r.state new)) [
  | inl e ↦ rw e ((is_state_iff r.state new).0 e)
  | inr e ↦ rw e refl
]

pub schedule_reconnect-SameLinks :
    (r : Robot) (attempt : ℕ) → SameLinks r (schedule_reconnect r attempt)
unfolding schedule_reconnect
schedule_reconnect-SameLinks r attempt = elim (Bool-cases (is_final r.state)) [
  | inl e ↦ rw e (same_links r)
  | inr e ↦ elim (Bool-cases (attempts_exhausted r.opts.reconnect_max_attempts attempt)) [
    | inl x ↦
        rw (e, x)
          (record {
            subs = refl;
            retired = refl;
            ws = refl;
            inflight = refl;
            inflight_sub = refl;
            sub_ack_timers = refl;
            heartbeat_task = refl;
            failures = failed-quiet r.trace _ refl;
          })
    | inr x ↦
        rw (e, x)
          (record {
            subs = refl;
            retired = refl;
            ws = refl;
            inflight = refl;
            inflight_sub = refl;
            sub_ack_timers = refl;
            heartbeat_task = refl;
            failures = refl;
          })
  ]
]

-- A reconnect is on its way: its task sleeps, or the attempts are used up and the connection is
-- about to be aborted.
abbrev pub Retries : Robot → ℕ → Robot → Type 0
Retries r attempt r' =
    (r'.reconnect_task ≡ some attempt)
    ⊎ ((attempts_exhausted r.opts.reconnect_max_attempts attempt ≡ true)
        × (r'.trace
            ≡ r.trace
              ++ start_abort ErrorCode.transport_failure "reconnect_max_attempts reached" ∷ []))

-- A connection that is not over never stays without a next step: scheduling a reconnect lets its task
-- sleep, or, where the attempts are used up, asks for the abort to FATAL and changes nothing else of
-- the trace. The state stays for now.
pub schedule_reconnect_lem :
    (r : Robot) (attempt : ℕ)
    → is_final r.state ≡ false
    → Retries r attempt (schedule_reconnect r attempt)
      × ((schedule_reconnect r attempt).state ≡ r.state)
unfolding schedule_reconnect
schedule_reconnect_lem r attempt live =
    elim (Bool-cases (attempts_exhausted r.opts.reconnect_max_attempts attempt)) [
      | inl x ↦ rw (live, x) (inr (refl, refl), refl)
      | inr x ↦ rw (live, x) (inl refl, refl)
    ]
