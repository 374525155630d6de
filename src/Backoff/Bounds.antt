-- ===== src/Backoff/Bounds.antt =====
-- The delay grows exponentially, is cut at the maximum, and the jitter only shortens it.
use karo_x2_sdk_python.Prelude.{
  ℕ, zero, suc, ◌+◌, ◌-◌, ◌*◌, ◌/◌, ◌^◌, ◌≤◌, ◌<◌, ◌≡◌, min, max, leb, pos_part, arith, Bool-cases,
  inl, inr, ap,
}
use native.Mathlib.Nat.{pow-suc}
use karo_x2_sdk_python.Options.{ConnectOptions}
use karo_x2_sdk_python.Backoff.{doubled, capped, jitter, next_backoff_ms}

exp_pow-suc : (exp n : ℕ) → exp * 2 ^ suc n ≡ exp * 2 * 2 ^ n
exp_pow-suc exp n = rw (pow-suc 2 n) (omega arith)

pow_pos : (n : ℕ) → 1 ≤ 2 ^ n
pow_pos zero = omega arith
pow_pos (suc n) = rw (pow-suc 2 n) (omega (arith, pow_pos n))

le-mul-pow : (a n : ℕ) → a ≤ a * 2 ^ n
le-mul-pow a n = grind (arith, pow_pos n)

min-doubled : (mx rounds exp : ℕ) → min (doubled mx rounds exp) mx ≡ min (exp * 2 ^ rounds) mx
unfolding doubled
min-doubled mx zero exp = omega arith
min-doubled mx (suc rounds) exp =
    let step : exp * 2 ^ suc rounds ≡ exp * 2 * 2 ^ rounds = exp_pow-suc exp rounds in
    let grows : exp ≤ exp * 2 ^ suc rounds = le-mul-pow exp (suc rounds) in
    elim (Bool-cases (leb mx exp)) [
      | inl stop ↦ rw stop (ground arith)
      | inr go ↦ rw go (omega (arith, min-doubled mx rounds (exp * 2)))
    ]

-- The loop computes the base delay doubled once for each attempt, and cut at the maximal delay.
pub capped-min :
    (o : ConnectOptions) (attempt : ℕ)
    → capped o attempt ≡ min (o.reconnect_base_delay * 2 ^ attempt) o.reconnect_max_delay
unfolding capped
capped-min o attempt =
    ground (arith, min-doubled o.reconnect_max_delay attempt o.reconnect_base_delay)

jitter-le : (exp share random : ℕ) → random < 2 ^ 53 → exp * share * random ≤ exp * share * 2 ^ 53
jitter-le exp share random below = grind arith

-- The division, where `lost` is what the jitter takes.
division_bounds :
    (exp share lost : ℕ)
    → share ≤ 10 ^ 6
    → lost ≤ exp * share * 2 ^ 53
    → let ms = (exp * (10 ^ 6 * 2 ^ 53) - lost) / (1000 * (10 ^ 6 * 2 ^ 53)) in
      (ms * 1000 ≤ exp) × (exp * (10 ^ 6 - share) < (ms + 1) * 1000 * 10 ^ 6)
division_bounds exp share lost valid most =
    let kept : 10 ^ 6 ≡ share + (10 ^ 6 - share) = omega arith in
    let parts : exp * 10 ^ 6 ≡ exp * share + exp * (10 ^ 6 - share) =
      omega (arith, ap (λ (t : ℕ). exp * t) kept) in
    (omega arith, omega arith)

-- With the options that `_validate_opts` lets through (a jitter of at most 1) and any random number
-- below 1, the delay in milliseconds is at most the capped delay, and short of it by at most the
-- jitter and the millisecond that is cut off. So it never exceeds `reconnect_max_delay`.
pub next_backoff_ms_bounds :
    (o : ConnectOptions) (attempt random : ℕ)
    → pos_part o.reconnect_jitter_ratio ≤ 10 ^ 6
    → random < 2 ^ 53
    → let exp = min (o.reconnect_base_delay * 2 ^ attempt) o.reconnect_max_delay in
      (next_backoff_ms o attempt random * 1000 ≤ exp)
      × (exp * (10 ^ 6 - max 50_000 (pos_part o.reconnect_jitter_ratio))
          < (next_backoff_ms o attempt random + 1) * 1000 * 10 ^ 6)
unfolding next_backoff_ms jitter
next_backoff_ms_bounds o attempt random valid below =
    let exp : ℕ = min (o.reconnect_base_delay * 2 ^ attempt) o.reconnect_max_delay in
    let share : ℕ = max 50_000 (pos_part o.reconnect_jitter_ratio) in
    rw (capped-min o attempt) (
      division_bounds exp share (exp * share * random) (omega arith)
        (jitter-le exp share random below))
