-- ===== src/Slot/Deliver/Queues/Due.antt =====
-- Which of the buffered pushes are due after the ack, and the delivery of one of them in the INLINE
-- mode.
use karo_x2_sdk_python.Prelude.{
  ℕ, ◌+◌, ◌≤◌, ◌<◌, ◌≡◌, ◌≢◌, refl, true, false, not, ◌&&◌, ◌||◌, List, [], ◌∷◌, ◌++◌, Option, some,
  arith, ◌∙◌, ltb, leb, ◌==◌, nat_eq, if◌then◌else◌, ◌⊎◌, inl, inr, ap,
}
use mathlib.Core.Path.{subst, sym}
use karo_x2_sdk_python.Topic.{DeliverySemantics}
use karo_x2_sdk_python.Subscription.{CallbackMode}
use karo_x2_sdk_python.Codec.Decode.{DecodedTopicPush}
use karo_x2_sdk_python.Slot.{SubSlot, SlotEffect, FrameDispatcher, fire_status, post_log, frame}
use karo_x2_sdk_python.Slot.Deliver.{
  Verdict, pass, discard, check_seq, check_semantics, count_push, status, hand_over,
  deliver_checked, deliver_push_to_sub, is_stale,
}
use karo_x2_sdk_python.Slot.Deliver.Queues.{count_push-SameBuffers}
use karo_x2_sdk_python.Slot.Deliver.Sequence.{count_push-SameStream}

-- The pushes that the effects hand to the dispatcher, in order.
abbrev pub pushes : List SlotEffect → List DecodedTopicPush
pushes [] = []
pushes (fire_status s ∷ effects) = pushes effects
pushes (post_log l m ∷ effects) = pushes effects
pushes (frame d push ∷ effects) = push ∷ pushes effects

pub pushes-append : (xs ys : List SlotEffect) → pushes (xs ++ ys) ≡ pushes xs ++ pushes ys
pushes-append [] ys = refl
pushes-append (fire_status s ∷ xs) ys = pushes-append xs ys
pushes-append (post_log l m ∷ xs) ys = pushes-append xs ys
pushes-append (frame d push ∷ xs) ys = ap (◌∷◌ push) (pushes-append xs ys)

-- The pushes of an event topic that are due after the ack, where the stream goes on at `next` and
-- the newest number so far is `last`: each without a number, and each with a number from `next` on
-- that is newer than those before it.
abbrev pub due_events : ℕ → ℕ → List DecodedTopicPush → List DecodedTopicPush
due_events next last [] = []
due_events next last (p ∷ ps) =
    if p.seq == 0
    then p ∷ due_events next last ps
    else if ltb p.seq next || leb p.seq last
    then due_events next last ps
    else p ∷ due_events next p.seq ps

-- All the pushes of a telemetry topic are due.
abbrev pub due : DeliverySemantics → ℕ → ℕ → List DecodedTopicPush → List DecodedTopicPush
due DeliverySemantics.telemetry next last ps = ps
due DeliverySemantics.event next last ps = due_events next last ps

-- How many numbered pushes of an event topic come from before `next`.
abbrev pub too_old : DeliverySemantics → ℕ → List DecodedTopicPush → ℕ
too_old DeliverySemantics.telemetry next ps = 0
too_old DeliverySemantics.event next [] = 0
too_old DeliverySemantics.event next (p ∷ ps) =
    (if not (p.seq == 0) && ltb p.seq next then 1 else 0) + too_old DeliverySemantics.event next ps

-- A slot of the INLINE mode, with what a delivery reads of it.
pub record Inline (slot : SubSlot) (d : FrameDispatcher) (s : DeliverySemantics) (last drops : ℕ)
    : Type 0 where
  pub mode : slot.callback_mode ≡ CallbackMode.inline
  pub dispatcher : slot.frame_dispatcher ≡ some d
  pub semantics : slot.semantics ≡ s
  pub newest : slot.last_seq ≡ last
  pub dropped : slot.drop_count ≡ drops

-- A delivery leaves such a slot and hands these pushes on.
abbrev pub Delivers :
    FrameDispatcher
    → DeliverySemantics
    → ℕ
    → ℕ
    → List DecodedTopicPush
    → SubSlot × List SlotEffect
    → Type 0
Delivers d s last drops given r = Inline r.0 d s last drops × (pushes r.1 ≡ given)

hand_over-inline :
    (slot : SubSlot) (mode : CallbackMode) (chosen : Option FrameDispatcher)
    (queue : Option (List DecodedTopicPush)) (push : DecodedTopicPush) (d : FrameDispatcher)
    → mode ≡ CallbackMode.inline
    → chosen ≡ some d
    → hand_over slot mode chosen queue push ≡ (slot, frame d push ∷ [])
unfolding hand_over
hand_over-inline slot mode chosen queue push d inline known = rw (inline, known) refl

-- A push that the check lets through is counted and handed to the dispatcher.
pub deliver_checked-pass :
    (slot checked : SubSlot) (posted : List SlotEffect) (push : DecodedTopicPush)
    (steady epoch_ms : ℕ) (d : FrameDispatcher) (s : DeliverySemantics) (last drops : ℕ)
    → Inline checked d s last drops
    → pushes posted ≡ []
    → Delivers d s last drops
        (push ∷ [])
        (deliver_checked slot (pass checked posted) push steady epoch_ms)
unfolding deliver_checked
deliver_checked-pass slot checked posted push steady epoch_ms d s last drops inline quiet =
    let counted : SubSlot = count_push checked steady epoch_ms in
    let buffers = count_push-SameBuffers checked steady epoch_ms in
    let stream = (count_push-SameStream checked steady epoch_ms).0 in
    let kept : Inline counted d s last drops = record {
      mode = buffers.mode ∙ inline.mode;
      dispatcher = buffers.dispatcher ∙ inline.dispatcher;
      semantics = stream.semantics ∙ inline.semantics;
      newest = stream.last_seq ∙ inline.newest;
      dropped = buffers.drops ∙ inline.dropped;
    } in
    let handed =
      hand_over-inline counted counted.callback_mode counted.frame_dispatcher counted.dispatch_queue
        push d kept.mode kept.dispatcher in
    subst (Delivers d s last drops (push ∷ []))
      (sym (ap (λ (x : SubSlot × List SlotEffect). (x.0, posted ++ x.1)) handed))
      (kept, pushes-append posted (frame d push ∷ []) ∙ ap (λ xs. xs ++ push ∷ []) quiet)

-- What the check of the number decides.
abbrev Decided : SubSlot → ℕ → Verdict → Type 0
Decided slot seq (pass checked posted) =
    (pushes posted ≡ [])
    × (checked.callback_mode ≡ slot.callback_mode)
    × (checked.frame_dispatcher ≡ slot.frame_dispatcher)
    × (checked.semantics ≡ slot.semantics)
    × (checked.drop_count ≡ slot.drop_count)
    × (((seq ≡ 0) × (checked.last_seq ≡ slot.last_seq))
        ⊎ ((seq ≢ 0) × (slot.last_seq < seq) × (checked.last_seq ≡ seq)))
Decided slot seq (discard posted) = (pushes posted ≡ []) × (seq ≢ 0) × (seq ≤ slot.last_seq)

check_seq-Decided : (slot : SubSlot) (seq : ℕ) → Decided slot seq (check_seq slot seq)
unfolding check_seq status
check_seq-Decided slot seq = ground arith

module _ (next : ℕ) (d : FrameDispatcher) (drops : ℕ) where
  -- The delivery of the first of the buffered pushes, of an event topic, that is not too old.
  abbrev pub GoesOn :
      ℕ → DecodedTopicPush → List DecodedTopicPush → SubSlot × List SlotEffect → Type 0
  GoesOn last push rest r =
      (last' : ℕ) × (given : List DecodedTopicPush) × Delivers d DeliverySemantics.event last' drops
        given r
      × (given ++ due_events next last' rest ≡ due_events next last (push ∷ rest))

  deliver_by_verdict :
      (slot : SubSlot) (v : Verdict) (push : DecodedTopicPush) (rest : List DecodedTopicPush)
      (steady epoch_ms last : ℕ)
      → Inline slot d DeliverySemantics.event last drops
      → is_stale DeliverySemantics.event next push.seq ≡ false
      → Decided slot push.seq v
      → GoesOn last push rest (deliver_checked slot v push steady epoch_ms)
  unfolding deliver_checked is_stale
  deliver_by_verdict slot (discard posted) push rest steady epoch_ms last inline young
        (quiet, real, old) =
      let numbered : (push.seq == 0) ≡ false = ground arith in
      let known : (ltb push.seq next || leb push.seq last) ≡ true = ground (arith, inline.newest) in
      (last, [], (inline, quiet), rw (numbered, known) refl)
  deliver_by_verdict slot (pass checked posted) push rest steady epoch_ms last inline young
        (quiet, mode, dispatcher, semantics, dropped, inl (unnumbered, same)) =
      (
        last,
        push ∷ [],
        deliver_checked-pass slot checked posted push steady epoch_ms d DeliverySemantics.event last
            drops
            (record {
              mode = mode ∙ inline.mode;
              dispatcher = dispatcher ∙ inline.dispatcher;
              semantics = semantics ∙ inline.semantics;
              newest = same ∙ inline.newest;
              dropped = dropped ∙ inline.dropped;
            })
            quiet,
        rw unnumbered refl,
      )
  deliver_by_verdict slot (pass checked posted) push rest steady epoch_ms last inline young
        (quiet, mode, dispatcher, semantics, dropped, inr (real, newer, moved)) =
      let numbered : (push.seq == 0) ≡ false = ground arith in
      let fresh : (ltb push.seq next || leb push.seq last) ≡ false =
        ground (arith, inline.newest) in
      (
        push.seq,
        push ∷ [],
        deliver_checked-pass slot checked posted push steady epoch_ms d DeliverySemantics.event
            push.seq drops
            (record {
              mode = mode ∙ inline.mode;
              dispatcher = dispatcher ∙ inline.dispatcher;
              semantics = semantics ∙ inline.semantics;
              newest = moved;
              dropped = dropped ∙ inline.dropped;
            })
            quiet,
        rw (numbered, fresh) refl,
      )

  pub deliver_event :
      (slot : SubSlot) (push : DecodedTopicPush) (rest : List DecodedTopicPush)
      (steady epoch_ms last : ℕ)
      → Inline slot d DeliverySemantics.event last drops
      → is_stale DeliverySemantics.event next push.seq ≡ false
      → GoesOn last push rest (deliver_push_to_sub slot push steady epoch_ms)
  unfolding deliver_push_to_sub check_semantics
  deliver_event slot push rest steady epoch_ms last inline young =
      subst (GoesOn last push rest)
        (sym (
          ap (λ s. deliver_checked slot (check_semantics s slot push.seq) push steady epoch_ms)
            inline.semantics))
        (deliver_by_verdict slot (check_seq slot push.seq) push rest steady epoch_ms last inline
          young (check_seq-Decided slot push.seq))
