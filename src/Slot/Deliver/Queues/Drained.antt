-- ===== src/Slot/Deliver/Queues/Drained.antt =====
-- Which of the buffered pushes `_drain_pending_buffer` delivers, in the INLINE mode.
use karo_x2_sdk_python.Prelude.{
  ℕ, ◌+◌, ◌≡◌, refl, true, false, List, [], ◌∷◌, ◌++◌, some, arith, ◌∙◌, ltb, ◌==◌, nat_eq,
  if◌then◌else◌, inl, inr, Bool-cases, ap,
}
use mathlib.Core.Path.{subst, sym, ap₂}
use karo_x2_sdk_python.Topic.{DeliverySemantics}
use karo_x2_sdk_python.Subscription.{CallbackMode}
use karo_x2_sdk_python.Codec.Decode.{DecodedTopicPush}
use karo_x2_sdk_python.Slot.{SubSlot, SlotEffect, FrameDispatcher}
use karo_x2_sdk_python.Slot.Deliver.{
  pass, check_semantics, deliver_checked, deliver_push_to_sub, drain_one, drain_loop,
  drain_pending_buffer, is_stale,
}
use karo_x2_sdk_python.Slot.Deliver.Queues.{IsBounded, IsWired}
use karo_x2_sdk_python.Slot.Deliver.Queues.Drain.{drain_pending_buffer_lem}
use karo_x2_sdk_python.Slot.Deliver.Queues.Due.{
  pushes, pushes-append, due, due_events, too_old, Inline, deliver_checked-pass, deliver_event,
}

module _ (next steady epoch_ms : ℕ) where
  -- The loop of the drain after its first round.
  abbrev after : List DecodedTopicPush → SubSlot × List SlotEffect → SubSlot × List SlotEffect
  after rest x = let later = drain_loop rest x.0 next steady epoch_ms in (later.0, x.1 ++ later.1)

  drain_one-stale :
      (slot : SubSlot) (front : DecodedTopicPush)
      → slot.semantics ≡ DeliverySemantics.event
      → is_stale DeliverySemantics.event next front.seq ≡ true
      → drain_one slot front next steady epoch_ms
        ≡ (record slot { drop_count = slot.drop_count + 1 }, [])
  unfolding drain_one
  drain_one-stale slot front event stale =
      let old : is_stale slot.semantics next front.seq ≡ true =
        ap (λ s. is_stale s next front.seq) event ∙ stale in
      rw old refl

  drain_one-young :
      (slot : SubSlot) (front : DecodedTopicPush)
      → slot.semantics ≡ DeliverySemantics.event
      → is_stale DeliverySemantics.event next front.seq ≡ false
      → drain_one slot front next steady epoch_ms ≡ deliver_push_to_sub slot front steady epoch_ms
  unfolding drain_one
  drain_one-young slot front event young =
      let new : is_stale slot.semantics next front.seq ≡ false =
        ap (λ s. is_stale s next front.seq) event ∙ young in
      rw new refl

  stale-skipped :
      (last : ℕ) (front : DecodedTopicPush) (rest : List DecodedTopicPush)
      → is_stale DeliverySemantics.event next front.seq ≡ true
      → (due_events next last (front ∷ rest) ≡ due_events next last rest)
        × (too_old DeliverySemantics.event next (front ∷ rest)
            ≡ 1 + too_old DeliverySemantics.event next rest)
  unfolding is_stale
  stale-skipped last front rest stale =
      let numbered : (front.seq == 0) ≡ false = ground arith in
      let old : ltb front.seq next ≡ true = ground arith in rw (numbered, old) (refl, refl)

  young-counted :
      (front : DecodedTopicPush) (rest : List DecodedTopicPush)
      → is_stale DeliverySemantics.event next front.seq ≡ false
      → too_old DeliverySemantics.event next (front ∷ rest)
        ≡ too_old DeliverySemantics.event next rest
  unfolding is_stale
  young-counted front rest young = ground arith

  -- What the loop hands to the dispatcher and drops, of an event topic.
  abbrev Drained : ℕ → ℕ → List DecodedTopicPush → SubSlot × List SlotEffect → Type 0
  Drained last drops buffer r =
      (pushes r.1 ≡ due_events next last buffer)
      × (r.0.drop_count ≡ drops + too_old DeliverySemantics.event next buffer)

  drain_loop-event :
      (buffer : List DecodedTopicPush) (slot : SubSlot) (d : FrameDispatcher) (last drops : ℕ)
      → Inline slot d DeliverySemantics.event last drops
      → Drained last drops buffer (drain_loop buffer slot next steady epoch_ms)
  unfolding drain_loop
  drain_loop-event [] slot d last drops inline = (refl, omega (arith, inline.dropped))
  drain_loop-event (front ∷ rest) slot d last drops inline =
      let popped : SubSlot = record slot { pending_buffer = rest } in
      let ready : Inline popped d DeliverySemantics.event last drops = record {
        mode = inline.mode;
        dispatcher = inline.dispatcher;
        semantics = inline.semantics;
        newest = inline.newest;
        dropped = inline.dropped;
      } in
      elim (Bool-cases (is_stale DeliverySemantics.event next front.seq)) [
        | inl stale ↦
            let skipped : SubSlot = record popped { drop_count = popped.drop_count + 1 } in
            let later = drain_loop-event rest skipped d last (drops + 1) (record {
              mode = inline.mode;
              dispatcher = inline.dispatcher;
              semantics = inline.semantics;
              newest = inline.newest;
              dropped = ap (λ (n : ℕ). n + 1) inline.dropped;
            }) in
            let without = stale-skipped last front rest stale in
            subst (λ x. Drained last drops (front ∷ rest) (after rest x))
              (sym (drain_one-stale popped front inline.semantics stale))
              (later.0 ∙ sym without.0, omega (arith, later.1, without.1))
        | inr young ↦
            let r : SubSlot × List SlotEffect = deliver_push_to_sub popped front steady epoch_ms in
            let got =
              deliver_event next d drops popped front rest steady epoch_ms last ready young in
            let later = drain_loop-event rest r.0 d got.0 drops got.2.0 in
            let joined =
              pushes-append r.1 (drain_loop rest r.0 next steady epoch_ms).1
              ∙ (ap₂ (λ xs ys. xs ++ ys) got.2.1 later.0 ∙ got.3) in
            subst (λ x. Drained last drops (front ∷ rest) (after rest x))
              (sym (drain_one-young popped front inline.semantics young))
              (joined, omega (arith, later.1, young-counted front rest young))
      ]

  drain_loop-telemetry :
      (buffer : List DecodedTopicPush) (slot : SubSlot) (d : FrameDispatcher) (last drops : ℕ)
      → Inline slot d DeliverySemantics.telemetry last drops
      → let r = drain_loop buffer slot next steady epoch_ms in
        (pushes r.1 ≡ buffer) × (r.0.drop_count ≡ drops)
  unfolding drain_loop drain_one is_stale deliver_push_to_sub check_semantics
  drain_loop-telemetry [] slot d last drops inline = (refl, inline.dropped)
  drain_loop-telemetry (front ∷ rest) slot d last drops inline =
      let popped : SubSlot = record slot { pending_buffer = rest } in
      let ready : Inline popped d DeliverySemantics.telemetry last drops = record {
        mode = inline.mode;
        dispatcher = inline.dispatcher;
        semantics = inline.semantics;
        newest = inline.newest;
        dropped = inline.dropped;
      } in
      let r : SubSlot × List SlotEffect =
        deliver_checked popped (pass popped []) front steady epoch_ms in
      let got =
        deliver_checked-pass popped popped [] front steady epoch_ms d DeliverySemantics.telemetry
          last drops ready refl in
      let later = drain_loop-telemetry rest r.0 d last drops got.0 in
      let same : drain_one popped front next steady epoch_ms ≡ r =
        ap
          (λ s.
            if is_stale s next front.seq
            then (record popped { drop_count = popped.drop_count + 1 }, [])
            else deliver_checked popped (check_semantics s popped front.seq) front steady epoch_ms)
          inline.semantics in
      subst (λ x. (pushes (after rest x).1 ≡ front ∷ rest) × ((after rest x).0.drop_count ≡ drops))
        (sym same)
        (
          pushes-append r.1 (drain_loop rest r.0 next steady epoch_ms).1
              ∙ ap₂ (λ xs ys. xs ++ ys) got.1 later.0,
          later.1,
        )

by_semantics :
    (s : DeliverySemantics) (slot : SubSlot) (next steady epoch_ms : ℕ) (d : FrameDispatcher)
    → Inline slot d s slot.last_seq slot.drop_count
    → let r = drain_pending_buffer slot next steady epoch_ms in
      (pushes r.1 ≡ due s next slot.last_seq slot.pending_buffer)
      × (r.0.drop_count ≡ slot.drop_count + too_old s next slot.pending_buffer)
unfolding drain_pending_buffer
by_semantics DeliverySemantics.event slot next steady epoch_ms d inline =
    drain_loop-event next steady epoch_ms slot.pending_buffer slot d slot.last_seq slot.drop_count
      inline
by_semantics DeliverySemantics.telemetry slot next steady epoch_ms d inline =
    let all =
      drain_loop-telemetry next steady epoch_ms slot.pending_buffer slot d slot.last_seq
        slot.drop_count inline in
    (all.0, omega (arith, all.1))

-- Draining the buffer of an INLINE slot after its ack, where the stream goes on at `next`: the buffer
-- is empty, and the dispatcher gets, in order, every push of a telemetry topic, and of an event topic
-- every push without a number and every push with a number from `next` on that is newer than those
-- before it. The numbered pushes of an event topic from before `next` are counted as dropped, and
-- nothing else is.
pub drain_pending_buffer-due :
    (slot : SubSlot) (next steady epoch_ms : ℕ) (d : FrameDispatcher)
    → IsBounded slot
    → IsWired slot
    → slot.callback_mode ≡ CallbackMode.inline
    → slot.frame_dispatcher ≡ some d
    → let r = drain_pending_buffer slot next steady epoch_ms in
      (r.0.pending_buffer ≡ [])
      × (pushes r.1 ≡ due slot.semantics next slot.last_seq slot.pending_buffer)
      × (r.0.drop_count ≡ slot.drop_count + too_old slot.semantics next slot.pending_buffer)
drain_pending_buffer-due slot next steady epoch_ms d b w inline known =
    let drained = by_semantics slot.semantics slot next steady epoch_ms d (record {
      mode = inline;
      dispatcher = known;
      semantics = refl;
      newest = refl;
      dropped = refl;
    }) in
    ((drain_pending_buffer_lem slot next steady epoch_ms b w).2, drained.0, drained.1)
