-- ===== src/Slot/Hz.antt =====
-- `_slide_hz_buckets` of karo_x2_sdk/_internal/robot_impl.py: 60 counters, one for each of the last
-- 60 seconds of the wall clock.
pub mod Fresh
use karo_x2_sdk_python.Prelude.{
  ℕ, zero, suc, ◌+◌, ◌-◌, ◌/◌, ◌%◌, List, set, get_or, min, ltb, ◌==◌, nat_eq, ◌&&◌, if◌then◌else◌,
}
use karo_x2_sdk_python.Slot.{SubSlot}

-- `for i in range(1, gap + 1): buckets[(last_sec + i) % 60] = 0`, from the last round back: the
-- rounds write the same value, so that their order does not matter.
unfoldable pub clear_buckets : List ℕ → ℕ → ℕ → List ℕ
clear_buckets buckets last_sec zero = buckets
clear_buckets buckets last_sec (suc gap) =
    set (clear_buckets buckets last_sec gap) ((last_sec + suc gap) % 60) 0

-- The slot after the call at the wall clock `epoch_ms`. The second that it returns is
-- `epoch_ms / 1000`. Where the clock was set back the gap is 0, as no round is made then.
unfoldable pub slide_hz_buckets : SubSlot → ℕ → SubSlot
unfolding clear_buckets
slide_hz_buckets slot epoch_ms =
    if epoch_ms / 1000 == slot.hz_last_epoch_ms / 1000 && ltb 0 slot.hz_last_epoch_ms
    then slot
    else if slot.hz_last_epoch_ms == 0
    then record slot { hz_last_epoch_ms = epoch_ms }
    else record slot {
      hz_buckets =
          clear_buckets slot.hz_buckets (slot.hz_last_epoch_ms / 1000)
            (min 60 (epoch_ms / 1000 - slot.hz_last_epoch_ms / 1000));
      hz_last_epoch_ms = epoch_ms;
    }

-- `slot.hz_buckets[cur_sec % 60] += 1`
unfoldable pub count_message : SubSlot → ℕ → SubSlot
count_message slot cur_sec = record slot {
  hz_buckets = set slot.hz_buckets (cur_sec % 60) (get_or slot.hz_buckets (cur_sec % 60) 0 + 1);
}
