-- ===== src/Latency/Window.antt =====
-- The percentiles of `_RttHist` among the samples of the window that it keeps.
use karo_x2_sdk_python.Prelude.{
  ℕ, zero, suc, ◌+◌, ◌-◌, ◌*◌, ◌/◌, min, ◌≤◌, ◌<◌, ◌≡◌, refl, if◌then◌else◌, List, [], ◌∷◌, ◌++◌,
  arith, leb, ltb, length, length-append, length-tail, get_or, All, Bool-cases, inl, inr,
}
use karo_x2_sdk_python.Latency.{RttHist, record_rtt, sorted, insert_sorted, p50_ms, p99_ms}

-- Recording keeps the window at its size at most.
pub record_rtt-capped :
    (h : RttHist) (rtt_ms : ℕ)
    → length h.samples ≤ h.cap
    → length (record_rtt h rtt_ms).samples ≤ h.cap
unfolding record_rtt
record_rtt-capped h rtt_ms fits =
    ground (arith, length-append h.samples (rtt_ms ∷ []), length-tail (h.samples ++ rtt_ms ∷ []))

abbrev pub Sorted : List ℕ → Type 0
Sorted [] = Unit
Sorted (x ∷ xs) = All (λ y. x ≤ y) xs × Sorted xs

-- How many of the samples are at most `a`.
abbrev pub count_le : ℕ → List ℕ → ℕ
count_le a [] = 0
count_le a (x ∷ xs) = (if leb x a then 1 else 0) + count_le a xs

-- How many of them are less than `a`.
abbrev pub count_lt : ℕ → List ℕ → ℕ
count_lt a [] = 0
count_lt a (x ∷ xs) = (if ltb x a then 1 else 0) + count_lt a xs

All-insert_sorted :
    (b a : ℕ) (xs : List ℕ) → b ≤ a → All (λ y. b ≤ y) xs → All (λ y. b ≤ y) (insert_sorted a xs)
unfolding insert_sorted
All-insert_sorted b a [] h k = (h, tt)
All-insert_sorted b a (x ∷ xs) h k = ground (arith, All-insert_sorted b a xs h k.1)

All-le_trans : (b a : ℕ) (xs : List ℕ) → b ≤ a → All (λ y. a ≤ y) xs → All (λ y. b ≤ y) xs
All-le_trans b a [] h k = tt
All-le_trans b a (x ∷ xs) h k = (omega arith, All-le_trans b a xs h k.1)

insert_sorted-Sorted : (a : ℕ) (xs : List ℕ) → Sorted xs → Sorted (insert_sorted a xs)
unfolding insert_sorted
insert_sorted-Sorted a [] h = (tt, tt)
insert_sorted-Sorted a (x ∷ xs) h = elim (Bool-cases (leb a x)) [
  | inl e ↦ rw e ((ground arith, All-le_trans a x xs (ground arith) h.0), h)
  | inr e ↦ rw e (All-insert_sorted x a xs (ground arith) h.0, insert_sorted-Sorted a xs h.1)
]

pub sorted-Sorted : (xs : List ℕ) → Sorted (sorted xs)
unfolding sorted
sorted-Sorted [] = tt
sorted-Sorted (x ∷ xs) = insert_sorted-Sorted x (sorted xs) (sorted-Sorted xs)

count_le-insert_sorted :
    (b a : ℕ) (xs : List ℕ) → count_le b (insert_sorted a xs) ≡ count_le b (a ∷ xs)
unfolding insert_sorted
count_le-insert_sorted b a [] = refl
count_le-insert_sorted b a (x ∷ xs) = ground (arith, count_le-insert_sorted b a xs)

pub count_le-sorted : (b : ℕ) (xs : List ℕ) → count_le b (sorted xs) ≡ count_le b xs
unfolding sorted
count_le-sorted b [] = refl
count_le-sorted b (x ∷ xs) =
    omega (arith, count_le-insert_sorted b x (sorted xs), count_le-sorted b xs)

length-insert_sorted : (a : ℕ) (xs : List ℕ) → length (insert_sorted a xs) ≡ suc (length xs)
unfolding insert_sorted
length-insert_sorted a [] = refl
length-insert_sorted a (x ∷ xs) = ground (arith, length-insert_sorted a xs)

pub length-sorted : (xs : List ℕ) → length (sorted xs) ≡ length xs
unfolding sorted
length-sorted [] = refl
length-sorted (x ∷ xs) = omega (arith, length-insert_sorted x (sorted xs), length-sorted xs)

get_or_above :
    (b : ℕ) (xs : List ℕ) (i : ℕ) → i < length xs → All (λ y. b ≤ y) xs → b ≤ get_or xs i 0
get_or_above b [] i h k = elim h [ ]
get_or_above b (x ∷ xs) zero h k = k.0
get_or_above b (x ∷ xs) (suc i) h k = get_or_above b xs i (omega arith) k.1

-- In a sorted list the element at `i` has at least `i + 1` elements up to it.
pub count_le-get_or :
    (xs : List ℕ) (i : ℕ) → Sorted xs → i < length xs → suc i ≤ count_le (get_or xs i 0) xs
count_le-get_or [] i s h = elim h [ ]
count_le-get_or (x ∷ xs) zero s h = ground arith
count_le-get_or (x ∷ xs) (suc i) s h =
    ground (arith, count_le-get_or xs i s.1, get_or_above x xs i (omega arith) s.0)

pub get_or_mono :
    (xs : List ℕ) (i j : ℕ) → Sorted xs → i ≤ j → j < length xs → get_or xs i 0 ≤ get_or xs j 0
get_or_mono [] i j s h k = elim k [ ]
get_or_mono (x ∷ xs) zero zero s h k = omega arith
get_or_mono (x ∷ xs) zero (suc j) s h k = get_or_above x xs j (omega arith) s.0
get_or_mono (x ∷ xs) (suc i) zero s h k = absurd (omega arith)
get_or_mono (x ∷ xs) (suc i) (suc j) s h k = get_or_mono xs i j s.1 (omega arith) (omega arith)

-- The element of the sorted window at the index `i` covers `i + 1` samples of the window.
covers : (xs : List ℕ) (i : ℕ) → i < length xs → suc i ≤ count_le (get_or (sorted xs) i 0) xs
covers xs i h = omega (
  arith,
  count_le-get_or (sorted xs) i (sorted-Sorted xs) (omega (arith, length-sorted xs)),
  count_le-sorted (get_or (sorted xs) i 0) xs,
)

p50_ms-le-p99_ms_of :
    (cap : ℕ) (xs : List ℕ)
    → p50_ms (record { cap = cap; samples = xs }) ≤ p99_ms (record { cap = cap; samples = xs })
unfolding p50_ms p99_ms
p50_ms-le-p99_ms_of cap [] = omega arith
p50_ms-le-p99_ms_of cap (x ∷ xs) =
    get_or_mono (sorted (x ∷ xs)) (length (sorted (x ∷ xs)) / 2)
      (min (length (sorted (x ∷ xs)) - 1) (length (sorted (x ∷ xs)) * 99 / 100))
      (sorted-Sorted (x ∷ xs)) (omega (arith, length-sorted (x ∷ xs)))
      (omega (arith, length-sorted (x ∷ xs)))

-- The median never exceeds the 99th percentile.
pub p50_ms-le-p99_ms : (h : RttHist) → p50_ms h ≤ p99_ms h
p50_ms-le-p99_ms h = p50_ms-le-p99_ms_of h.cap h.samples

count_lt-bound : (b : ℕ) (xs : List ℕ) → All (λ y. b ≤ y) xs → count_lt b xs ≡ 0
count_lt-bound b [] h = refl
count_lt-bound b (x ∷ xs) h = ground (arith, count_lt-bound b xs h.1)

-- At most `i` elements of a sorted list are less than that at `i`.
count_lt-get_or : (xs : List ℕ) (i : ℕ) → Sorted xs → count_lt (get_or xs i 0) xs ≤ i
count_lt-get_or [] i s = omega arith
count_lt-get_or (x ∷ xs) zero s = ground (arith, count_lt-bound x xs s.0)
count_lt-get_or (x ∷ xs) (suc i) s = ground (arith, count_lt-get_or xs i s.1)

count_lt-insert_sorted :
    (b a : ℕ) (xs : List ℕ) → count_lt b (insert_sorted a xs) ≡ count_lt b (a ∷ xs)
unfolding insert_sorted
count_lt-insert_sorted b a [] = refl
count_lt-insert_sorted b a (x ∷ xs) = ground (arith, count_lt-insert_sorted b a xs)

count_lt-sorted : (b : ℕ) (xs : List ℕ) → count_lt b (sorted xs) ≡ count_lt b xs
unfolding sorted
count_lt-sorted b [] = refl
count_lt-sorted b (x ∷ xs) =
    omega (arith, count_lt-insert_sorted b x (sorted xs), count_lt-sorted b xs)

-- The element of the sorted window at the index `i`: at most `i` samples are less than it.
exceeds : (xs : List ℕ) (i : ℕ) → count_lt (get_or (sorted xs) i 0) xs ≤ i
exceeds xs i = omega (
  arith,
  count_lt-get_or (sorted xs) i (sorted-Sorted xs),
  count_lt-sorted (get_or (sorted xs) i 0) xs,
)

percentiles_cover_of :
    (cap : ℕ) (xs : List ℕ)
    → 0 < length xs
    → let h : RttHist = record { cap = cap; samples = xs } in
      (2 * count_lt (p50_ms h) xs ≤ length xs)
      × (length xs < 2 * count_le (p50_ms h) xs)
      × (100 * count_lt (p99_ms h) xs ≤ 99 * length xs)
      × (99 * length xs < 100 * count_le (p99_ms h) xs)
unfolding p50_ms p99_ms
percentiles_cover_of cap [] some_samples = absurd (omega arith)
percentiles_cover_of cap (x ∷ xs) some_samples =
    let n : ℕ = length (sorted (x ∷ xs)) in
    let e : n ≡ suc (length xs) = length-sorted (x ∷ xs) in
    let high : ℕ = min (n - 1) (n * 99 / 100) in
    (
      omega (arith, exceeds (x ∷ xs) (n / 2)),
      omega (arith, covers (x ∷ xs) (n / 2) (omega arith)),
      omega (arith, exceeds (x ∷ xs) high),
      omega (arith, covers (x ∷ xs) high (omega arith)),
    )

-- In a window with samples: at most half of them are less than the median, and more than half are
-- at most it; at most 99 of 100 are less than the 99th percentile, and more than 99 of 100 are at
-- most it.
pub percentiles_cover :
    (h : RttHist)
    → 0 < length h.samples
    → (2 * count_lt (p50_ms h) h.samples ≤ length h.samples)
      × (length h.samples < 2 * count_le (p50_ms h) h.samples)
      × (100 * count_lt (p99_ms h) h.samples ≤ 99 * length h.samples)
      × (99 * length h.samples < 100 * count_le (p99_ms h) h.samples)
percentiles_cover h = percentiles_cover_of h.cap h.samples
