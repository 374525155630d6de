-- ===== src/Tests/Units.antt =====
-- Tests and examples of the parts without a connection: the rate limit, the delays, the percentiles,
-- the options and the codes.
use karo_x2_sdk_python.Prelude.{
  ℕ, ◌+◌, ◌-◌, ◌*◌, ◌^◌, min, max, ◌≡◌, ◌≤◌, ◌<◌, ◌↔◌, ◌⊎◌, refl, true, false, List, [], ◌∷◌, some,
  none, arith,
}
use karo_x2_sdk_python.Error.{ErrorCategory, classify}
use karo_x2_sdk_python.Codec.Wire.{Parsers, SdkResponse, ResponsePayload}
use karo_x2_sdk_python.Codec.Codes.{map_sdk_error_code}
use karo_x2_sdk_python.Codec.Codes.Laws.{map_sdk_error_code-fatal}
use karo_x2_sdk_python.Codec.Decode.{DecodedResponse, decode_response}
use karo_x2_sdk_python.Codec.Decode.Laws.{Flags, decode_response-Flags}
use karo_x2_sdk_python.Options.{validate_opts, is_empty, no_bytes, has_colon}
use karo_x2_sdk_python.Options.Valid.{IsValid, validate_opts_iff}
use karo_x2_sdk_python.Rate.{TokenBucket, token, try_acquire, refill}
use karo_x2_sdk_python.Rate.Limit.{acquire_all, end_time, acquire_all_budget}
use karo_x2_sdk_python.Backoff.{next_backoff_ms}
use karo_x2_sdk_python.Backoff.Bounds.{next_backoff_ms_bounds}
use karo_x2_sdk_python.Latency.{RttHist, p50_ms, p99_ms}
use karo_x2_sdk_python.Latency.Window.{count_le, count_lt, percentiles_cover}
use karo_x2_sdk_python.Tests.{options, parsers}

-- The third of four calls comes 10 ms after the second.
abbrev call_times : List ℕ
call_times = 1_000_000_000 ∷ 1_060_000_000 ∷ 1_070_000_000 ∷ 1_200_000_000 ∷ []

abbrev bucket : TokenBucket
bucket = record { max_hz = 20; burst = token; tokens = token; last = 1_000_000_000 }

acquire_all_budget_example :
    (acquire_all bucket call_times).1 * token + 1_000_000_000 * 20
    ≤ token + end_time 1_000_000_000 call_times * 20
acquire_all_budget_example = acquire_all_budget bucket call_times (omega arith)

first_call : (try_acquire bucket 1_000_000_000).1 ≡ true
unfolding try_acquire refill
first_call = refl

next_backoff_ms_bounds_example :
    let exp = min (500_000 * 2 ^ 3) 30_000_000 in
    (next_backoff_ms options 3 (2 ^ 52) * 1000 ≤ exp)
    × (exp * (10 ^ 6 - max 50_000 200_000)
        < (next_backoff_ms options 3 (2 ^ 52) + 1) * 1000 * 10 ^ 6)
next_backoff_ms_bounds_example =
    next_backoff_ms_bounds options 3 (2 ^ 52) (omega arith) (omega arith)

abbrev hist : RttHist
hist = record { cap = 1024; samples = 30 ∷ 10 ∷ 20 ∷ [] }

percentiles : (p50_ms hist ≡ 20) × (p99_ms hist ≡ 30)
unfolding p50_ms p99_ms
percentiles = (refl, refl)

percentiles_cover_example :
    (2 * count_lt (p50_ms hist) hist.samples ≤ 3)
    × (3 < 2 * count_le (p50_ms hist) hist.samples)
    × (100 * count_lt (p99_ms hist) hist.samples ≤ 99 * 3)
    × (99 * 3 < 100 * count_le (p99_ms hist) hist.samples)
percentiles_cover_example = percentiles_cover hist (omega arith)

validate_opts_iff_example : (validate_opts options ≡ none) ↔ IsValid options
validate_opts_iff_example = validate_opts_iff options

options_pass : validate_opts options ≡ none
unfolding validate_opts is_empty no_bytes has_colon
options_pass = refl

map_sdk_error_code-fatal_example :
    (classify (map_sdk_error_code 22) ≡ ErrorCategory.fatal)
    ↔ (((1 ≤ 22) × (22 ≤ 5)) ⊎ (◌≡◌ {A = ℕ} 22 22))
map_sdk_error_code-fatal_example = map_sdk_error_code-fatal 22

-- A subscribe answer whose reject reason is 99.
abbrev rejected : SdkResponse
rejected = record {
  request_id = 3;
  success = true;
  error_code = 0;
  message = "";
  server_timestamp_ms = 0;
  payload = ResponsePayload.subscribe (record {
    topic = "task_events";
    accepted = false;
    reject_reason = 99;
    next_seq = 0;
    message = "no";
  });
}

abbrev rejecting : Parsers
rejecting = record parsers { sdk_response = λ _. some rejected }

decode_response-Flags_example :
    (out : DecodedResponse) × (decode_response rejecting [] ≡ some out)
    × (out.request_id ≡ 3)
    × (out.success ≡ true)
    × (out.sdk_code ≡ map_sdk_error_code 0)
    × Flags rejected.payload out
decode_response-Flags_example = decode_response-Flags rejecting [] rejected refl
