-- ===== src/Rate/Limit.antt =====
-- The token bucket keeps its rate over every run of calls.
use karo_x2_sdk_python.Prelude.{
  ℕ, ◌+◌, ◌-◌, ◌*◌, ◌≤◌, ◌≡◌, ◌↔◌, refl, Bool, true, false, List, [], ◌∷◌, arith, leb, Bool-cases,
  inl, inr, ap, ◌∙◌,
}
use karo_x2_sdk_python.Rate.{TokenBucket, token, try_acquire, refill}

-- One for a call that is let through.
abbrev pub calls : Bool → ℕ
calls true = 1
calls false = 0

-- The calls at the given times, one after another: the bucket at the end, and how many were let
-- through.
unfoldable pub acquire_all : TokenBucket → List ℕ → TokenBucket × ℕ
acquire_all b [] = (b, 0)
acquire_all b (now ∷ times) =
    let (b', granted) = try_acquire b now in
    let (b'', count) = acquire_all b' times in (b'', calls granted + count)

-- The clock does not go back.
abbrev pub Monotone : ℕ → List ℕ → Type 0
Monotone last [] = Unit
Monotone last (now ∷ times) = (last ≤ now) × Monotone now times

-- The last of the times.
abbrev pub end_time : ℕ → List ℕ → ℕ
end_time last [] = last
end_time last (now ∷ times) = end_time now times

-- What a refill adds is at most what the rate gives for the time that has passed.
pub refill-le :
    (b : TokenBucket) (now : ℕ)
    → b.last ≤ now
    → refill b now + b.last * b.max_hz ≤ b.tokens + now * b.max_hz
unfolding refill
refill-le b now h =
    let passed : now ≡ b.last + (now - b.last) = omega arith in
    omega (arith, ap (λ (t : ℕ). t * b.max_hz) passed)

-- One call: the rate and the burst stay, the clock is read, and what is granted was paid for.
pub record Paid (b : TokenBucket) (now : ℕ) (r : TokenBucket × Bool) : Type 0 where
  pub same_rate : r.0.max_hz ≡ b.max_hz
  pub same_burst : r.0.burst ≡ b.burst
  pub clock : r.0.last ≡ now
  pub capped : r.0.tokens ≤ b.burst
  pub budget : calls r.1 * token + r.0.tokens ≤ refill b now

pub try_acquire-Paid : (b : TokenBucket) (now : ℕ) → Paid b now (try_acquire b now)
unfolding try_acquire refill
try_acquire-Paid b now = elim (Bool-cases (leb token (refill b now))) [
  | inl e ↦ rw e (ground arith)
  | inr e ↦ rw e (ground arith)
]

module _ (hz : ℕ) where
  budget :
      (b : TokenBucket) (last : ℕ) (times : List ℕ)
      → b.max_hz ≡ hz
      → b.last ≡ last
      → Monotone last times
      → (acquire_all b times).1 * token + last * hz ≤ b.tokens + end_time last times * hz
  unfolding acquire_all
  budget b last [] rate clock h = omega arith
  budget b last (now ∷ times) rate clock h =
      let r : TokenBucket × Bool = try_acquire b now in
      let paid : Paid b now r = try_acquire-Paid b now in
      let rest : (acquire_all r.0 times).1 * token + now * hz
          ≤ r.0.tokens + end_time now times * hz =
        budget r.0 now times (paid.same_rate ∙ rate) paid.clock h.1 in
      let fill : refill b now + last * hz ≤ b.tokens + now * hz =
        rw (← rate, ← clock) (refill-le b now (rw clock h.0)) in
      omega arith

-- Over any run of calls at times that do not go back, the number of calls let through is at most
-- what was in the bucket at the start and what the rate gives for the time of the run, both in
-- units of 10^-9 tokens.
pub acquire_all_budget :
    (b : TokenBucket) (times : List ℕ)
    → Monotone b.last times
    → (acquire_all b times).1 * token + b.last * b.max_hz
      ≤ b.tokens + end_time b.last times * b.max_hz
acquire_all_budget b times h = budget b.max_hz b b.last times refl refl h

pub start-le-end_time :
    (start : ℕ) (times : List ℕ) → Monotone start times → start ≤ end_time start times
start-le-end_time start [] h = omega arith
start-le-end_time start (now ∷ times) h = omega (arith, h.0, start-le-end_time now times h.1)

-- With room for one token only, two calls that are let through are a whole period apart: a call
-- that comes sooner is refused, and one that waits for the period (or longer) is let through.
pub try_acquire_spacing :
    (b : TokenBucket) (first second : ℕ)
    → b.burst ≡ token
    → (try_acquire b first).1 ≡ true
    → first ≤ second
    → ((try_acquire (try_acquire b first).0 second).1 ≡ true)
      ↔ (token ≤ (second - first) * b.max_hz)
unfolding try_acquire refill
try_acquire_spacing b first second room granted later = ground arith
