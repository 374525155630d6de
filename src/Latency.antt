-- ===== src/Latency.antt =====
-- `_RttHist` of karo_x2_sdk/_internal/robot_impl.py: the last round trip times and their
-- percentiles. Times are natural numbers, as in the diagnostics' milliseconds.
pub mod Window
use karo_x2_sdk_python.Prelude.{
  ℕ, ◌+◌, ◌-◌, ◌*◌, ◌/◌, min, suc, List, [], ◌∷◌, ◌++◌, length, tail, get_or, leb, ltb,
  if◌then◌else◌,
}

-- The deque and its `maxlen`, oldest first.
pub record RttHist : Type 0 where
  pub cap : ℕ
  pub samples : List ℕ

pub new_hist : ℕ → RttHist
new_hist cap = record { cap = cap; samples = [] }

-- `append` on a deque drops the oldest sample when the deque is full.
pub record_rtt : RttHist → ℕ → RttHist
record_rtt h rtt_ms =
    let longer = h.samples ++ rtt_ms ∷ [] in
    record h { samples = if ltb h.cap (length longer) then tail longer else longer }

pub insert_sorted : ℕ → List ℕ → List ℕ
insert_sorted a [] = a ∷ []
insert_sorted a (x ∷ xs) = if leb a x then a ∷ (x ∷ xs) else x ∷ insert_sorted a xs

-- Python's `sorted`
pub sorted : List ℕ → List ℕ
unfolding insert_sorted
sorted [] = []
sorted (x ∷ xs) = insert_sorted x (sorted xs)

unfoldable pub p50_ms : RttHist → ℕ
unfolding sorted
p50_ms h = let s = sorted h.samples in elim h.samples [ [] ↦ 0 | _ ∷ _ ↦ get_or s (length s / 2) 0 ]

unfoldable pub p99_ms : RttHist → ℕ
unfolding sorted
p99_ms h =
    let s = sorted h.samples in
    elim h.samples [ [] ↦ 0 | _ ∷ _ ↦ get_or s (min (length s - 1) (length s * 99 / 100)) 0 ]
