-- ===== src/Robot/Orderly.antt =====
-- Two orders: of the ids of the requests, and of the state changes that the application is told; and
-- how the subscriptions stand.
pub mod Quiet
pub mod Silence
pub mod Ending
pub mod Sending
pub mod Acks
pub mod Connecting
pub mod Handshake
pub mod Reconnecting
pub mod Heartbeat
pub mod Calls
pub mod Messages
pub mod Unsubscribing
pub mod Tasks
use karo_x2_sdk_python.Prelude.{
  ℕ, ◌+◌, ◌≤◌, ◌<◌, ◌≡◌, refl, List, [], ◌∷◌, ◌++◌, map, Dict, insert, erase, arith, ap, ◌∙◌,
  if◌then◌else◌, ◌==◌, nat_eq, true, false, Bool, sym, Bool-cases, inl, inr, String,
}
use mathlib.Core.List.{append-nil}
use karo_x2_sdk_python.Connection.{ConnectionState, StateChangeInfo, is_state}
use karo_x2_sdk_python.Slot.{SlotEffect}
use karo_x2_sdk_python.Robot.Filed.{Filed}
use karo_x2_sdk_python.Robot.{
  Robot, Effect, on_slot, log, state_callback, send, set_result, set_exception, set_timeout,
  ws_close, start_abort, start_estop_replay, InflightRpc, state_callback_effect,
}

-- A command that was sent, by its id, or a state change that the application was told.
pub data Mark : Type 0 where
  sent : ℕ → Mark
  changed : ConnectionState → ConnectionState → Mark

-- The marks of the effects, in order.
abbrev pub seen : List Effect → List Mark
seen [] = []
seen (on_slot ident e ∷ effects) = seen effects
seen (log l m ∷ effects) = seen effects
seen (state_callback old new info ∷ effects) = changed old new ∷ seen effects
seen (send c ∷ effects) = sent c.request_id ∷ seen effects
seen (set_result rid resp ∷ effects) = seen effects
seen (set_exception rid e ∷ effects) = seen effects
seen (set_timeout rid ∷ effects) = seen effects
seen (ws_close ∷ effects) = seen effects
seen (start_abort code m ∷ effects) = seen effects
seen (start_estop_replay ∷ effects) = seen effects

pub seen-append : (xs ys : List Effect) → seen (xs ++ ys) ≡ seen xs ++ seen ys
seen-append [] ys = refl
seen-append (on_slot ident e ∷ xs) ys = seen-append xs ys
seen-append (log l m ∷ xs) ys = seen-append xs ys
seen-append (state_callback old new info ∷ xs) ys = ap (◌∷◌ (changed old new)) (seen-append xs ys)
seen-append (send c ∷ xs) ys = ap (◌∷◌ (sent c.request_id)) (seen-append xs ys)
seen-append (set_result rid resp ∷ xs) ys = seen-append xs ys
seen-append (set_exception rid e ∷ xs) ys = seen-append xs ys
seen-append (set_timeout rid ∷ xs) ys = seen-append xs ys
seen-append (ws_close ∷ xs) ys = seen-append xs ys
seen-append (start_abort code m ∷ xs) ys = seen-append xs ys
seen-append (start_estop_replay ∷ xs) ys = seen-append xs ys

-- The ids go up strictly, from `lo` on, and stay below `hi`.
abbrev pub Ascends : ℕ → ℕ → List Mark → Type 0
Ascends lo hi [] = lo ≤ hi
Ascends lo hi (sent x ∷ marks) = (lo ≤ x) × Ascends (x + 1) hi marks
Ascends lo hi (changed old new ∷ marks) = Ascends lo hi marks

pub Ascends-weaken :
    (lo hi top : ℕ) (marks : List Mark) → Ascends lo hi marks → hi ≤ top → Ascends lo top marks
Ascends-weaken lo hi top [] h up = omega arith
Ascends-weaken lo hi top (sent x ∷ marks) h up = (h.0, Ascends-weaken (x + 1) hi top marks h.1 up)
Ascends-weaken lo hi top (changed old new ∷ marks) h up = Ascends-weaken lo hi top marks h up

pub Ascends-append :
    (lo hi : ℕ) (marks : List Mark)
    → Ascends lo hi marks
    → Ascends lo (hi + 1) (marks ++ sent hi ∷ [])
Ascends-append lo hi [] h = (h, omega arith)
Ascends-append lo hi (sent x ∷ marks) h = (h.0, Ascends-append (x + 1) hi marks h.1)
Ascends-append lo hi (changed old new ∷ marks) h = Ascends-append lo hi marks h

pub Ascends-changes :
    (lo hi : ℕ) (marks : List Mark) (old new : ConnectionState)
    → Ascends lo hi marks
    → Ascends lo hi (marks ++ changed old new ∷ [])
Ascends-changes lo hi [] old new h = h
Ascends-changes lo hi (sent x ∷ marks) old new h =
    (h.0, Ascends-changes (x + 1) hi marks old new h.1)
Ascends-changes lo hi (changed a b ∷ marks) old new h = Ascends-changes lo hi marks old new h

-- The state changes that there are: nothing leads back to IDLE, only IDLE to CONNECTING, and only
-- TRANSIENT_FAILURE to RECONNECTING.
abbrev pub IsEdge : ConnectionState → ConnectionState → Type 0
IsEdge old ConnectionState.idle = ⊥
IsEdge old ConnectionState.connecting = old ≡ ConnectionState.idle
IsEdge old ConnectionState.reconnecting = old ≡ ConnectionState.transient_failure
IsEdge old ConnectionState.ready = Unit
IsEdge old ConnectionState.transient_failure = Unit
IsEdge old ConnectionState.fatal = Unit
IsEdge old ConnectionState.shutdown = Unit

-- Each change is one of these, starts from the state that the one before led to and leads to another one, from
-- `first` on, and the last leads to `last`.
abbrev pub Chain : ConnectionState → List Mark → ConnectionState → Type 0
Chain first [] last = first ≡ last
Chain first (sent x ∷ marks) last = Chain first marks last
Chain first (changed old new ∷ marks) last =
    (old ≡ first) × (is_state old new ≡ false) × IsEdge old new × Chain new marks last

Chain-sends :
    (first : ConnectionState) (marks : List Mark) (last : ConnectionState) (x : ℕ)
    → Chain first marks last
    → Chain first (marks ++ sent x ∷ []) last
Chain-sends first [] last x h = h
Chain-sends first (sent y ∷ marks) last x h = Chain-sends first marks last x h
Chain-sends first (changed old new ∷ marks) last x h =
    (h.0, h.1, h.2, Chain-sends new marks last x h.3)

Chain-changes :
    (first : ConnectionState) (marks : List Mark) (last new : ConnectionState)
    → is_state last new ≡ false
    → IsEdge last new
    → Chain first marks last
    → Chain first (marks ++ changed last new ∷ []) new
Chain-changes first [] last new other edge h = (sym h, other, edge, refl)
Chain-changes first (sent y ∷ marks) last new other edge h =
    Chain-changes first marks last new other edge h
Chain-changes first (changed a b ∷ marks) last new other edge h =
    (h.0, h.1, h.2, Chain-changes b marks last new other edge h.3)

-- No state change among the marks.
abbrev pub Untold : List Mark → Type 0
Untold [] = Unit
Untold (sent x ∷ marks) = Untold marks
Untold (changed old new ∷ marks) = ⊥

Untold-sends : (marks : List Mark) (x : ℕ) → Untold marks → Untold (marks ++ sent x ∷ [])
Untold-sends [] x h = tt
Untold-sends (sent y ∷ marks) x h = Untold-sends marks x h
Untold-sends (changed old new ∷ marks) x h = absurd h

-- What the application was told, with a handler and without one, up to a state.
abbrev pub IsTold : Bool → List Mark → ConnectionState → Type 0
IsTold true marks last = Chain ConnectionState.idle marks last
IsTold false marks last = Untold marks

pub IsTold-sends :
    (handler : Bool) (marks : List Mark) (last : ConnectionState) (x : ℕ)
    → IsTold handler marks last
    → IsTold handler (marks ++ sent x ∷ []) last
IsTold-sends true marks last x h = Chain-sends ConnectionState.idle marks last x h
IsTold-sends false marks last x h = Untold-sends marks x h

pub IsTold-changes :
    (handler : Bool) (marks : List Mark) (last new : ConnectionState) (info : StateChangeInfo)
    → is_state last new ≡ false
    → IsEdge last new
    → IsTold handler marks last
    → IsTold handler (marks ++ seen (state_callback_effect handler last new info)) new
unfolding state_callback_effect
IsTold-changes true marks last new info other edge h =
    Chain-changes ConnectionState.idle marks last new other edge h
IsTold-changes false marks last new info other edge h = rw (append-nil marks) h

module _ {ℓ} {V : Type ℓ} where
  -- Every key is below the bound.
  abbrev pub Below : ℕ → Dict ℕ V → Type 0
  Below n [] = Unit
  Below n ((k, v) ∷ d) = (k < n) × Below n d

  pub Below-weaken : (n m : ℕ) (d : Dict ℕ V) → Below n d → n ≤ m → Below m d
  Below-weaken n m [] h up = tt
  Below-weaken n m ((k, v) ∷ d) h up = (omega arith, Below-weaken n m d h.1 up)

  pub Below-insert : (n k : ℕ) (v : V) (d : Dict ℕ V) → k < n → Below n d → Below n (insert k v d)
  Below-insert n k v [] small h = (small, tt)
  Below-insert n k v ((j, w) ∷ d) small h = elim (Bool-cases (j == k)) [
    | inl e ↦ rw e h
    | inr e ↦ rw e (h.0, Below-insert n k v d small h.1)
  ]

  pub Below-erase : (n k : ℕ) (d : Dict ℕ V) → Below n d → Below n (erase k d)
  Below-erase n k [] h = tt
  Below-erase n k ((j, w) ∷ d) h = elim (Bool-cases (j == k)) [
    | inl e ↦ rw e (Below-erase n k d h.1)
    | inr e ↦ rw e (h.0, Below-erase n k d h.1)
  ]

-- The ids of what was sent go up strictly and are below the next one, and so are the ids of the
-- calls and of the subscribes that are waited for; and the state changes that the application was
-- told lead from `idle` to the state, without a gap, where it has a handler. Its subscriptions are in
-- order too.
pub record IsOrderly (r : Robot) : Type 0 where
  pub order : Ascends 1 r.next_request_id (seen r.trace)
  pub calls : Below r.next_request_id r.inflight
  pub subs : Below r.next_request_id r.inflight_sub
  pub told : IsTold r.connection_state_handler (seen r.trace) r.state
  pub filed : Filed r.opts r.subs
