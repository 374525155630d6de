-- ===== src/Slot/Hz/Fresh.antt =====
-- The counter of a second starts anew.
use karo_x2_sdk_python.Prelude.{
  ℕ, zero, suc, ◌+◌, ◌-◌, ◌/◌, ◌%◌, ◌≤◌, ◌<◌, ◌≡◌, refl, false, List, [], ◌∷◌, set, get_or, min,
  ◌==◌, nat_eq, nat_beq_iff, arith, length, ap, ◌∙◌, inl, inr, Bool-cases,
}
use karo_x2_sdk_python.Slot.{SubSlot}
use karo_x2_sdk_python.Slot.Hz.{clear_buckets, slide_hz_buckets, count_message}

get_or-set_same : (xs : List ℕ) (i v : ℕ) → i < length xs → get_or (set xs i v) i 0 ≡ v
get_or-set_same [] i v h = absurd (omega arith)
get_or-set_same (x ∷ xs) zero v h = refl
get_or-set_same (x ∷ xs) (suc i) v h = get_or-set_same xs i v (omega arith)

-- A cleared place reads 0, also out of bounds.
get_or-clear : (xs : List ℕ) (i : ℕ) → get_or (set xs i 0) i 0 ≡ 0
get_or-clear [] i = refl
get_or-clear (x ∷ xs) zero = refl
get_or-clear (x ∷ xs) (suc i) = get_or-clear xs i

-- Clearing another place keeps a 0.
get_or-keep : (xs : List ℕ) (i j : ℕ) → get_or xs j 0 ≡ 0 → get_or (set xs i 0) j 0 ≡ 0
get_or-keep [] i j h = refl
get_or-keep (x ∷ xs) zero zero h = refl
get_or-keep (x ∷ xs) zero (suc j) h = h
get_or-keep (x ∷ xs) (suc i) zero h = h
get_or-keep (x ∷ xs) (suc i) (suc j) h = get_or-keep xs i j h

length-set : (xs : List ℕ) (i v : ℕ) → length (set xs i v) ≡ length xs
length-set [] i v = refl
length-set (x ∷ xs) zero v = refl
length-set (x ∷ xs) (suc i) v = ap suc (length-set xs i v)

length-clear_buckets :
    (buckets : List ℕ) (last_sec gap : ℕ)
    → length (clear_buckets buckets last_sec gap) ≡ length buckets
unfolding clear_buckets
length-clear_buckets buckets last_sec zero = refl
length-clear_buckets buckets last_sec (suc gap) =
    length-set (clear_buckets buckets last_sec gap) ((last_sec + suc gap) % 60) 0
    ∙ length-clear_buckets buckets last_sec gap

-- Each second of the gap is cleared.
clear_buckets-cleared :
    (buckets : List ℕ) (last_sec gap i : ℕ)
    → 1 ≤ i
    → i ≤ gap
    → get_or (clear_buckets buckets last_sec gap) ((last_sec + i) % 60) 0 ≡ 0
unfolding clear_buckets
clear_buckets-cleared buckets last_sec zero i some_round within = absurd (omega arith)
clear_buckets-cleared buckets last_sec (suc gap) i some_round within =
    let before : List ℕ = clear_buckets buckets last_sec gap in
    elim (Bool-cases (i == suc gap)) [
      | inl e ↦ rw ((nat_beq_iff i (suc gap)).0 e) (get_or-clear before ((last_sec + suc gap) % 60))
      | inr e ↦
          get_or-keep before ((last_sec + suc gap) % 60) ((last_sec + i) % 60)
            (clear_buckets-cleared buckets last_sec gap i some_round (ground arith))
    ]

-- The rounds reach the place of the current second, also after more than a minute.
clear_buckets-current :
    (buckets : List ℕ) (last_sec cur_sec : ℕ)
    → last_sec < cur_sec
    → get_or (clear_buckets buckets last_sec (min 60 (cur_sec - last_sec))) (cur_sec % 60) 0 ≡ 0
clear_buckets-current buckets last_sec cur_sec later =
    let i : ℕ = (cur_sec - last_sec - 1) % 60 + 1 in
    let same : (last_sec + i) % 60 ≡ cur_sec % 60 = omega arith in
    rw⁻¹ same (
      clear_buckets-cleared buckets last_sec (min 60 (cur_sec - last_sec)) i (omega arith)
        (omega arith))

other_second : (cur_sec last_sec : ℕ) → last_sec < cur_sec → (cur_sec == last_sec) ≡ false
other_second cur_sec last_sec later = ground arith

not_zero : (n : ℕ) → 0 < n → (n == 0) ≡ false
not_zero n positive = ground arith

-- In a subscription that has counted before, the first message of a later second of the wall clock
-- is counted as one, whatever the place of that second held a minute or longer ago; and the counters
-- stay sixty.
pub count_message-fresh :
    (slot : SubSlot) (epoch_ms : ℕ)
    → length slot.hz_buckets ≡ 60
    → 0 < slot.hz_last_epoch_ms
    → slot.hz_last_epoch_ms / 1000 < epoch_ms / 1000
    → let counted = count_message (slide_hz_buckets slot epoch_ms) (epoch_ms / 1000) in
      (get_or counted.hz_buckets (epoch_ms / 1000 % 60) 0 ≡ 1) × (length counted.hz_buckets ≡ 60)
unfolding slide_hz_buckets count_message
count_message-fresh slot epoch_ms sixty begun later =
    let last_sec : ℕ = slot.hz_last_epoch_ms / 1000 in
    let cur_sec : ℕ = epoch_ms / 1000 in
    let cleared : List ℕ = clear_buckets slot.hz_buckets last_sec (min 60 (cur_sec - last_sec)) in
    let long : length cleared ≡ 60 =
      length-clear_buckets slot.hz_buckets last_sec (min 60 (cur_sec - last_sec)) ∙ sixty in
    let none_yet : get_or cleared (cur_sec % 60) 0 ≡ 0 =
      clear_buckets-current slot.hz_buckets last_sec cur_sec later in
    rw (other_second cur_sec last_sec later, not_zero slot.hz_last_epoch_ms begun, none_yet)
      (
        get_or-set_same cleared (cur_sec % 60) 1 (omega (arith, long)),
        length-set cleared (cur_sec % 60) 1 ∙ long,
      )
