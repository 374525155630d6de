-- ===== src/Robot/Rpc.antt =====
-- `_send_rpc_and_wait` of karo_x2_sdk/_internal/robot_impl.py: the start of a call, its timeout, and
-- how it can end.
use karo_x2_sdk_python.Prelude.{
  ◌&&◌, ℕ, ◌+◌, Bool, false, String, List, [], ◌∷◌, ◌++◌, Option, some, none, lookup, insert, erase,
  if◌then◌else◌, nat_eq,
}
use karo_x2_sdk_python.Error.{ErrorCode, SdkException}
use karo_x2_sdk_python.Codec.Decode.{DecodedResponse}
use karo_x2_sdk_python.Codec.Encode.{SdkCommand}
use karo_x2_sdk_python.Robot.{Robot, Effect, send, set_timeout, set_result, InflightRpc, emit}

-- What the caller's `await` gives: a response, `asyncio.TimeoutError`, or an SdkException.
pub data Outcome : Type 0 where
  answered : DecodedResponse → Outcome
  timed_out : Outcome
  raised : SdkException → Outcome

-- The start of a call: it waits, or it has raised.
pub data Started : Type 0 where
  waiting : Started
  failed : SdkException → Started

transport_failure : String → Started
transport_failure text = failed (record { code = ErrorCode.transport_failure; message = text })

unfoldable pub count_sent : Robot → SdkCommand → Robot
unfolding emit
count_sent r command =
    emit (record r { bytes_sent = r.bytes_sent + r.env.byte_length command }) (send command ∷ [])

unfoldable pub register : Robot → ℕ → String → Robot
register r rid method = record r {
  inflight = insert rid (record { method = method; done = false }) r.inflight;
}

unfoldable pub send_on : Option Bool → Robot → ℕ → String → SdkCommand → Robot × Started
unfolding register count_sent transport_failure
send_on none r rid method command = (r, transport_failure "ws not open")
send_on (some is_open) r rid method command =
    let registered : Robot = register r rid method in
    if is_open && r.env.send_ok rid then (count_sent registered command, waiting) else (
      record registered { inflight = erase rid registered.inflight },
      transport_failure "ws send failed",
    )

-- `_send_rpc_and_wait`, up to `await fut`.
unfoldable pub send_rpc : Robot → ℕ → String → SdkCommand → Robot × Started
unfolding send_on
send_rpc r rid method command = send_on r.ws r rid method command

-- The end of a future that waits: nothing where it is done.
unfoldable pub resolve : Option InflightRpc → Effect → List Effect
resolve none effect = []
resolve (some entry) effect = if entry.done then [] else effect ∷ []

-- `_on_timeout`
unfoldable pub rpc_timeout : Robot → ℕ → Robot
unfolding resolve
rpc_timeout r rid = record r {
  inflight = erase rid r.inflight;
  trace = r.trace ++ resolve (lookup rid r.inflight) (set_timeout rid);
}

-- A response for a call in flight: `_inflight.pop`, and the result of its future.
unfoldable pub rpc_response : Robot → DecodedResponse → Robot
unfolding resolve
rpc_response r resp = record r {
  inflight = erase resp.request_id r.inflight;
  trace = r.trace ++ resolve (lookup resp.request_id r.inflight) (set_result resp.request_id resp);
}
