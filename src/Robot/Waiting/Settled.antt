-- ===== src/Robot/Waiting/Settled.antt =====
-- When the wait for a connection ends.
use karo_x2_sdk_python.Prelude.{
  ◌≡◌, ◌≢◌, ◌⊎◌, inl, inr, refl, true, false, List, [], ◌∷◌, ◌++◌, some, none,
}
use karo_x2_sdk_python.Connection.{ConnectionState, is_state}
use karo_x2_sdk_python.Robot.Waiting.{settles, wait_until_ready}

-- The states that end the wait.
abbrev pub IsSettled : ConnectionState → Type 0
IsSettled s =
    (s ≡ ConnectionState.ready) ⊎ (s ≡ ConnectionState.fatal) ⊎ (s ≡ ConnectionState.shutdown)

-- None of the states is READY, FATAL or SHUTDOWN.
abbrev pub Unsettled : List ConnectionState → Type 0
Unsettled [] = Unit
Unsettled (s ∷ states) =
    (s ≢ ConnectionState.ready)
    × (s ≢ ConnectionState.fatal)
    × (s ≢ ConnectionState.shutdown)
    × Unsettled states

settles-IsSettled : (s : ConnectionState) → IsSettled s → settles s ≡ true
unfolding settles
settles-IsSettled s (inl e) = rw e refl
settles-IsSettled s (inr (inl e)) = rw e refl
settles-IsSettled s (inr (inr e)) = rw e refl

settles-not :
    (s : ConnectionState)
    → s ≢ ConnectionState.ready
    → s ≢ ConnectionState.fatal
    → s ≢ ConnectionState.shutdown
    → settles s ≡ false
unfolding settles
settles-not ConnectionState.idle a b c = refl
settles-not ConnectionState.connecting a b c = refl
settles-not ConnectionState.ready a b c = absurd (a refl)
settles-not ConnectionState.transient_failure a b c = refl
settles-not ConnectionState.reconnecting a b c = refl
settles-not ConnectionState.fatal a b c = absurd (b refl)
settles-not ConnectionState.shutdown a b c = absurd (c refl)

-- The wait ends at the first READY, FATAL or SHUTDOWN that it finds, whatever comes after, with
-- whether that is READY; and it does not end before.
pub wait_until_ready-first :
    (before after : List ConnectionState) (s : ConnectionState)
    → Unsettled before
    → IsSettled s
    → (wait_until_ready (before ++ s ∷ after) ≡ some (is_state s ConnectionState.ready))
      × (wait_until_ready before ≡ none)
unfolding wait_until_ready
wait_until_ready-first [] after s waits ends = (rw (settles-IsSettled s ends) refl, refl)
wait_until_ready-first (t ∷ before) after s waits ends =
    rw (settles-not t waits.0 waits.1 waits.2) (wait_until_ready-first before after s waits.3 ends)
