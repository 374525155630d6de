-- ===== src/Robot/Orderly/Quiet.antt =====
-- What sends nothing and takes no request id: the state changes and the ends of a connection.
use mathlib.Core.List.{append-nil}
use karo_x2_sdk_python.Prelude.{
  ℕ, ◌≡◌, refl, ◌∙◌, List, [], ◌∷◌, ◌++◌, map, none, true, false, Bool, Bool-cases, inl, inr,
  String,
}
use karo_x2_sdk_python.Error.{ErrorCode}
use karo_x2_sdk_python.Connection.{ConnectionState, StateChangeInfo, is_state}
use karo_x2_sdk_python.Diagnostics.{LogLevel}
use karo_x2_sdk_python.Subscription.{StreamStatusKind}
use karo_x2_sdk_python.Slot.{SubSlot, SlotEffect}
use karo_x2_sdk_python.Slot.Deliver.{status}
use karo_x2_sdk_python.Robot.{
  Robot, Effect, on_slot, log, transition, state_callback_effect, on_slots, end_slot, emit,
}
use karo_x2_sdk_python.Robot.Filed.{Filed, Filed-erase}
use karo_x2_sdk_python.Robot.Orderly.{
  Mark, Ascends, IsEdge, Ascends-changes, IsTold, IsTold-changes, seen, seen-append, Below,
  IsOrderly,
}

-- From `a` to `b` nothing is sent, no id is taken, no new call or subscribe is waited for, and the
-- application is told of each change of the state.
pub record Quiet (a b : Robot) : Type 0 where
  pub next : b.next_request_id ≡ a.next_request_id
  pub order : (n : ℕ) → Ascends 1 n (seen a.trace) → Ascends 1 n (seen b.trace)
  pub told :
      IsTold a.connection_state_handler (seen a.trace) a.state
      → IsTold b.connection_state_handler (seen b.trace) b.state
  pub filed : Filed a.opts a.subs → Filed b.opts b.subs
  pub calls : (n : ℕ) → Below n a.inflight → Below n b.inflight
  pub subs : (n : ℕ) → Below n a.inflight_sub → Below n b.inflight_sub

pub Quiet-trans : {a b c : Robot} → Quiet a b → Quiet b c → Quiet a c
Quiet-trans p q = record {
  next = q.next ∙ p.next;
  order = λ n h. q.order n (p.order n h);
  told = λ h. q.told (p.told h);
  filed = λ h. q.filed (p.filed h);
  calls = λ n h. q.calls n (p.calls n h);
  subs = λ n h. q.subs n (p.subs n h);
}

pub Quiet-IsOrderly : {a b : Robot} → Quiet a b → IsOrderly a → IsOrderly b
Quiet-IsOrderly {a} {b} q f = record {
  order = rw q.next (q.order a.next_request_id f.order);
  calls = rw q.next (q.calls a.next_request_id f.calls);
  subs = rw q.next (q.subs a.next_request_id f.subs);
  told = q.told f.told;
  filed = q.filed f.filed;
}

-- The same, where the state does not change either.
pub record Silent (a b : Robot) : Type 0 where
  pub next : b.next_request_id ≡ a.next_request_id
  pub marks : seen b.trace ≡ seen a.trace
  pub handler : b.connection_state_handler ≡ a.connection_state_handler
  pub state : b.state ≡ a.state
  pub filed : Filed a.opts a.subs → Filed b.opts b.subs
  pub calls : (n : ℕ) → Below n a.inflight → Below n b.inflight
  pub subs : (n : ℕ) → Below n a.inflight_sub → Below n b.inflight_sub

pub Silent-Quiet : {a b : Robot} → Silent a b → Quiet a b
Silent-Quiet s = record {
  next = s.next;
  order = λ n h. rw s.marks h;
  told = λ h. rw (s.handler, s.marks, s.state) h;
  filed = s.filed;
  calls = s.calls;
  subs = s.subs;
}

pub Quiet-refl : (a : Robot) → Quiet a a
Quiet-refl a = record {
  next = refl;
  order = λ n h. h;
  told = λ h. h;
  filed = λ h. h;
  calls = λ n h. h;
  subs = λ n h. h;
}

-- Effects that send nothing.
pub seen-quiet : (xs ys : List Effect) → seen ys ≡ [] → seen (xs ++ ys) ≡ seen xs
seen-quiet xs ys quiet = seen-append xs ys ∙ (rw quiet (append-nil (seen xs)))

pub seen-on_slots :
    (ident : ℕ) (effects : List SlotEffect) → seen (map (on_slot ident) effects) ≡ []
seen-on_slots ident [] = refl
seen-on_slots ident (e ∷ effects) = seen-on_slots ident effects

Ascends-callback :
    (handler : Bool) (n : ℕ) (marks : List Mark) (old new : ConnectionState)
    (info : StateChangeInfo)
    → Ascends 1 n marks
    → Ascends 1 n (marks ++ seen (state_callback_effect handler old new info))
unfolding state_callback_effect
Ascends-callback true n marks old new info h = Ascends-changes 1 n marks old new h
Ascends-callback false n marks old new info h = rw (append-nil marks) h

pub emit-Quiet : (r : Robot) (effects : List Effect) → seen effects ≡ [] → Quiet r (emit r effects)
unfolding emit
emit-Quiet r effects quiet = Silent-Quiet (record {
  next = refl;
  handler = refl;
  state = refl;
  filed = λ h. h;
  marks = seen-quiet r.trace effects quiet;
  calls = λ n h. h;
  subs = λ n h. h;
})

pub transition-Quiet :
    (r : Robot) (new : ConnectionState) (info : StateChangeInfo)
    → IsEdge r.state new
    → Quiet r (transition r new info)
unfolding transition
transition-Quiet r new info edge = elim (Bool-cases (is_state r.state new)) [
  | inl e ↦ rw e (Quiet-refl r)
  | inr e ↦
      let told : StateChangeInfo = record info { reconnect_attempt = r.reconnect_attempt } in
      let effects : List Effect =
        state_callback_effect r.connection_state_handler r.state new told in
      rw e (record {
        next = refl;
        order = λ n h.
            rw (seen-append r.trace (log LogLevel.info _ ∷ effects))
              (Ascends-callback r.connection_state_handler n (seen r.trace) r.state new told h);
        filed = λ h. h;
        told = λ h.
            rw (seen-append r.trace (log LogLevel.info _ ∷ effects))
              (IsTold-changes r.connection_state_handler (seen r.trace) r.state new told e edge h);
        calls = λ n h. h;
        subs = λ n h. h;
      })
]

pub end_slot-Quiet :
    (r : Robot) (slot : SubSlot) (code : ErrorCode) (reason : String)
    → Quiet r (end_slot r slot code reason)
unfolding end_slot
end_slot-Quiet r slot code reason = Silent-Quiet (record {
  next = refl;
  handler = refl;
  state = refl;
  filed = λ h. Filed-erase r.opts slot.topic r.subs h;
  marks =
      seen-quiet r.trace (on_slots slot (status slot StreamStatusKind.closed none code reason))
        (seen-on_slots slot.ident (status slot StreamStatusKind.closed none code reason));
  calls = λ n h. h;
  subs = λ n h. h;
})
