-- ===== src/Robot/Reporting/Again.antt =====
-- Reading the diagnostics twice.
use karo_x2_sdk_python.Prelude.{
  ℕ, ◌≡◌, refl, String, List, [], ◌∷◌, Dict, Bool-cases, inl, inr, true, ◌/◌, ltb, ◌==◌, nat_eq,
  ◌&&◌, arith,
}
use karo_x2_sdk_python.Slot.{SubSlot}
use karo_x2_sdk_python.Slot.Hz.{slide_hz_buckets}
use karo_x2_sdk_python.Robot.{Robot}
use karo_x2_sdk_python.Robot.Reporting.{get_diagnostics, slide_all}

-- A slot whose buckets are as of a time is not slid at that time.
slide_hz_buckets-now :
    (slot : SubSlot) (buckets : List ℕ) (now : ℕ)
    → slide_hz_buckets (record slot { hz_buckets = buckets; hz_last_epoch_ms = now }) now
      ≡ record slot { hz_buckets = buckets; hz_last_epoch_ms = now }
unfolding slide_hz_buckets
slide_hz_buckets-now slot buckets now =
    let same : (now / 1000 == now / 1000) ≡ true = ground arith in
    elim (Bool-cases (ltb 0 now)) [
      | inl e ↦ rw (same, e) refl
      | inr e ↦ let start : (now == 0) ≡ true = ground arith in rw (same, e, start) refl
    ]

-- A slot that was slid at a time is not slid again at that time.
slide_hz_buckets-again :
    (slot : SubSlot) (now : ℕ)
    → slide_hz_buckets (slide_hz_buckets slot now) now ≡ slide_hz_buckets slot now
unfolding slide_hz_buckets
slide_hz_buckets-again slot now =
    elim (Bool-cases (now / 1000 == slot.hz_last_epoch_ms / 1000 && ltb 0 slot.hz_last_epoch_ms)) [
      | inl e ↦ rw (e, e) refl
      | inr e ↦ elim (Bool-cases (slot.hz_last_epoch_ms == 0)) [
        | inl z ↦ rw (e, z) (slide_hz_buckets-now slot slot.hz_buckets now)
        | inr z ↦ rw (e, z) (slide_hz_buckets-now slot _ now)
      ]
    ]

slide_all-again :
    (now : ℕ) (subs : Dict String SubSlot) → slide_all now (slide_all now subs) ≡ slide_all now subs
unfolding slide_all
slide_all-again now [] = refl
slide_all-again now ((topic, slot) ∷ subs) =
    rw (slide_hz_buckets-again slot now, slide_all-again now subs) refl

-- Reading the diagnostics again at the same time gives the same report, and changes nothing more.
pub get_diagnostics-again : (r : Robot) → get_diagnostics (get_diagnostics r).0 ≡ get_diagnostics r
unfolding get_diagnostics
get_diagnostics-again r = rw (slide_all-again r.clock_ms r.subs) refl
