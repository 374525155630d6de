-- ===== src/Robot/Commands/Limited.antt =====
-- How often `cmd_vel` sends.
use karo_x2_sdk_python.Prelude.{
  ℕ, ◌+◌, ◌-◌, ◌*◌, ◌^◌, ◌≤◌, ◌≡◌, refl, Bool, ◌&&◌, List, String, [], ◌∷◌, ◌++◌, Option, some,
  none, arith, Bool-cases, ◌⊎◌, inl, inr, ap, ◌∙◌,
}
use karo_x2_sdk_python.Connection.{ConnectionState, is_state}
use karo_x2_sdk_python.Topic.{FloatBits}
use karo_x2_sdk_python.Codec.Encode.{SdkCommand, encode_cmd_vel}
use karo_x2_sdk_python.Rate.{TokenBucket, token, new_bucket, cmdvel_rate, refill, try_acquire}
use karo_x2_sdk_python.Rate.Limit.{
  calls, try_acquire-Paid, Monotone, end_time, refill-le, start-le-end_time,
}
use karo_x2_sdk_python.Robot.{
  Robot, Effect, on_slot, log, state_callback, send, set_result, set_exception, set_timeout,
  ws_close, start_abort, start_estop_replay, take_rid,
}
use karo_x2_sdk_python.Robot.Rpc.{Started, waiting, failed, send_rpc, send_on, count_sent, register}
use karo_x2_sdk_python.Robot.Commands.{
  begun_once, cmd_vel, cmd_vel_started, cmd_vel_refused, cmd_vel_failed, cmd_vel_end,
}

-- How many commands the effects send.
abbrev pub sends_of : List Effect → ℕ
sends_of [] = 0
sends_of (send c ∷ effects) = 1 + sends_of effects
sends_of (on_slot ident e ∷ effects) = sends_of effects
sends_of (log l m ∷ effects) = sends_of effects
sends_of (state_callback old new info ∷ effects) = sends_of effects
sends_of (set_result rid resp ∷ effects) = sends_of effects
sends_of (set_exception rid e ∷ effects) = sends_of effects
sends_of (set_timeout rid ∷ effects) = sends_of effects
sends_of (ws_close ∷ effects) = sends_of effects
sends_of (start_abort code m ∷ effects) = sends_of effects
sends_of (start_estop_replay ∷ effects) = sends_of effects

sends_of-append :
    (xs : List Effect) (c : SdkCommand) → sends_of (xs ++ send c ∷ []) ≡ sends_of xs + 1
sends_of-append [] c = refl
sends_of-append (send x ∷ xs) c = omega (arith, sends_of-append xs c)
sends_of-append (on_slot ident e ∷ xs) c = sends_of-append xs c
sends_of-append (log l m ∷ xs) c = sends_of-append xs c
sends_of-append (state_callback old new info ∷ xs) c = sends_of-append xs c
sends_of-append (set_result rid resp ∷ xs) c = sends_of-append xs c
sends_of-append (set_exception rid e ∷ xs) c = sends_of-append xs c
sends_of-append (set_timeout rid ∷ xs) c = sends_of-append xs c
sends_of-append (ws_close ∷ xs) c = sends_of-append xs c
sends_of-append (start_abort code m ∷ xs) c = sends_of-append xs c
sends_of-append (start_estop_replay ∷ xs) c = sends_of-append xs c

-- The rate limit and the number of commands sent, of a robot.
record Spends (r : Robot) (b : TokenBucket) (n : ℕ) (r' : Robot) : Type 0 where
  bucket : r'.cmdvel_rate ≡ b
  sent : sends_of r'.trace ≤ sends_of r.trace + n

send_on-Spends :
    (ws : Option Bool) (r : Robot) (rid : ℕ) (method : String) (command : SdkCommand)
    → Spends r r.cmdvel_rate 1 (send_on ws r rid method command).0
unfolding send_on register count_sent
send_on-Spends none r rid method command = record { bucket = refl; sent = omega arith }
send_on-Spends (some up) r rid method command = elim (Bool-cases (up && r.env.send_ok rid)) [
  | inl e ↦ rw e (record { bucket = refl; sent = omega (arith, sends_of-append r.trace command) })
  | inr e ↦ rw e (record { bucket = refl; sent = omega arith })
]

cmd_vel_started-Spends :
    (s : Started) (q r : Robot) (rid : ℕ) (b : TokenBucket) (n : ℕ)
    → Spends r b n q
    → Spends r b n (cmd_vel_started q rid s).0
unfolding cmd_vel_started cmd_vel_end cmd_vel_failed
cmd_vel_started-Spends waiting q r rid b n h = h
cmd_vel_started-Spends (failed e) q r rid b n h = record { bucket = h.bucket; sent = h.sent }

-- A call of `cmd_vel` pays for what it sends, or it does not look at the limit and sends nothing.
cmd_vel-Spends :
    (r : Robot) (vx vy wz : FloatBits)
    → let (b, acquired) = try_acquire r.cmdvel_rate r.clock_steady in
      let r' = (cmd_vel r vx vy wz).0 in
      Spends r r.cmdvel_rate 0 r' ⊎ Spends r b (calls acquired) r'
unfolding cmd_vel cmd_vel_refused cmd_vel_failed send_rpc begun_once take_rid
cmd_vel-Spends r vx vy wz =
    let bucket : TokenBucket = (try_acquire r.cmdvel_rate r.clock_steady).0 in
    let counted : Robot = record (take_rid r) {
      cmdvel_rate = bucket;
      cmd_vel_stats = begun_once r.cmd_vel_stats;
      cmdvel_seq = r.cmdvel_seq + 1;
    } in
    let rid : ℕ = r.next_request_id in
    let command : SdkCommand = encode_cmd_vel rid vx vy wz (r.cmdvel_seq + 1) r.clock_ms in
    let start = send_rpc counted rid "control.cmd_vel" command in
    let sent = send_on-Spends r.ws counted rid "control.cmd_vel" command in
    elim (Bool-cases (is_state r.state ConnectionState.ready)) [
      | inr e ↦ rw e (inl (record { bucket = refl; sent = omega arith }))
      | inl e ↦ elim (Bool-cases (try_acquire r.cmdvel_rate r.clock_steady).1) [
        | inr refused ↦ rw (e, refused) (inr (record { bucket = refl; sent = omega arith }))
        | inl acquired ↦
            rw (e, acquired)
              (inr (
                cmd_vel_started-Spends start.1 start.0 r rid bucket 1
                  (record { bucket = sent.bucket; sent = sent.sent })))
      ]
    ]

-- A call of `cmd_vel`: its time, and what it asks for.
abbrev pub Drive : Type 0
Drive = ℕ × FloatBits × FloatBits × FloatBits

abbrev pub times_of : List Drive → List ℕ
times_of [] = []
times_of ((now, vx, vy, wz) ∷ drives) = now ∷ times_of drives

-- The calls, one after the other.
unfoldable pub drive_all : Robot → List Drive → Robot
drive_all r [] = r
drive_all r ((now, vx, vy, wz) ∷ drives) =
    drive_all (cmd_vel (record r { clock_steady = now }) vx vy wz).0 drives

module _ (hz : ℕ) where
  within :
      (drives : List Drive) (r : Robot) (last : ℕ)
      → r.cmdvel_rate.max_hz ≡ hz
      → r.cmdvel_rate.last ≤ last
      → Monotone last (times_of drives)
      → sends_of (drive_all r drives).trace * token + r.cmdvel_rate.last * hz
        ≤ sends_of r.trace * token + (r.cmdvel_rate.tokens + end_time last (times_of drives) * hz)
  unfolding drive_all
  within [] r last rate past h =
      let passed : last ≡ r.cmdvel_rate.last + (last - r.cmdvel_rate.last) = omega arith in
      omega (arith, ap (λ (t : ℕ). t * hz) passed)
  within ((now, vx, vy, wz) ∷ drives) r last rate past h =
      let q : Robot = record r { clock_steady = now } in
      let r' : Robot = (cmd_vel q vx vy wz).0 in
      let b : TokenBucket = r.cmdvel_rate in
      let paid = try_acquire-Paid b now in
      let fill : refill b now + b.last * hz ≤ b.tokens + now * hz =
        rw (← rate) (refill-le b now (omega (arith, h.0))) in
      elim (cmd_vel-Spends q vx vy wz) [
        | inl free ↦
            let rest =
              within drives r' now (ap (λ (x : TokenBucket). x.max_hz) free.bucket ∙ rate)
                (omega (arith, h.0, ap (λ (x : TokenBucket). x.last) free.bucket)) h.1 in
            omega (
              arith,
              rest,
              free.sent,
              ap (λ (x : TokenBucket). x.last * hz) free.bucket,
              ap (λ (x : TokenBucket). x.tokens) free.bucket,
            )
        | inr spent ↦
            let rest =
              within drives r' now
                (ap (λ (x : TokenBucket). x.max_hz) spent.bucket ∙ (paid.same_rate ∙ rate))
                (omega (arith, ap (λ (x : TokenBucket). x.last) spent.bucket, paid.clock)) h.1 in
            omega (
              arith,
              rest,
              spent.sent,
              fill,
              paid.budget,
              ap (λ (x : TokenBucket). x.last * hz) spent.bucket,
              ap (λ (t : ℕ). t * hz) paid.clock,
              ap (λ (x : TokenBucket). x.tokens) spent.bucket,
            )
      ]

-- From the start of the connection object at `start`, over any calls of `cmd_vel` at times that do
-- not go back, whatever they ask for: at most one command and twenty more for each second that has
-- passed are sent.
pub cmd_vel-limited :
    (start : ℕ) (r : Robot) (drives : List Drive)
    → r.cmdvel_rate ≡ cmdvel_rate start
    → Monotone start (times_of drives)
    → sends_of (drive_all r drives).trace * 10 ^ 9
      ≤ sends_of r.trace * 10 ^ 9 + 10 ^ 9 + (end_time start (times_of drives) - start) * 20
unfolding cmdvel_rate new_bucket
cmd_vel-limited start r drives fresh h = omega (
  arith,
  within 20 drives r start (ap (λ (x : TokenBucket). x.max_hz) fresh)
      (omega (arith, ap (λ (x : TokenBucket). x.last) fresh)) h,
  ap (λ (x : TokenBucket). x.last) fresh,
  ap (λ (x : TokenBucket). x.tokens) fresh,
  start-le-end_time start (times_of drives) h,
)
