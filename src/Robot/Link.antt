-- ===== src/Robot/Link.antt =====
-- The connection object on its websocket client, of karo_x2_sdk/_internal/robot_impl.py and
-- ws_client.py: `_establish` opens the client and sets its two handlers, and the reading task of the
-- client calls them.
pub mod Broken
pub mod Crashed
use karo_x2_sdk_python.Prelude.{ℕ, Bool, true, false, String, Option, List, [], ◌∷◌}
use karo_x2_sdk_python.Client.{
  WsClient, new_client, LoadError, Dial, Connected, Message, ReadEnd, HandlerCall, read_loop,
}
use mathlib.Core.Option
use karo_x2_sdk_python.Client
use karo_x2_sdk_python.Robot.{Robot, nowhere}
use karo_x2_sdk_python.Robot.Lifecycle.{on_transport_close}
use karo_x2_sdk_python.Robot.Establish.{connect_failed, connected, establish_crashed}
use karo_x2_sdk_python.Robot.Inbound.{on_inbound_message}

-- The websocket has closed, so that `is_open` of the client turns false.
unfoldable pub peer_closed : Robot → Robot
peer_closed r = record r { ws = Option.map (λ up. false) r.ws }

-- The task of `_establish` has raised an exception. That of the first connection has a callback; a
-- reconnect runs in a task that nobody looks at.
unfoldable pub task_crashed : Robot → Bool → String → Robot
task_crashed r false text = establish_crashed r text
task_crashed r true text = record r { establishing = nowhere }

-- `_establish` goes on with what `WsClient.connect` came to.
opened_with : Robot → Bool → Connected → Robot
unfolding task_crashed
opened_with r is_reconnect (Connected.connected c) = connected r is_reconnect
opened_with r is_reconnect (Connected.raised e) = connect_failed r e
opened_with r is_reconnect (Connected.crashed text) = task_crashed r is_reconnect text

-- `ws = WsClient(…)` and `await ws.connect(…)`, with what the libraries make of it.
unfoldable pub open_client : Robot → Bool → Option String → Option LoadError → Dial → Robot
unfolding opened_with
open_client r is_reconnect roots_error chain_error dial =
    opened_with r is_reconnect (Client.connect new_client r.opts.cert roots_error chain_error dial)

-- The calls of the handlers, one after the other: `on_message` is `_on_inbound_message`, `on_close`
-- is `_on_transport_close`.
unfoldable pub run_calls : Robot → List HandlerCall → Robot
run_calls r [] = r
run_calls r (HandlerCall.message bytes ∷ calls) = run_calls (on_inbound_message r bytes) calls
run_calls r (HandlerCall.close reason msg ∷ calls) =
    run_calls (on_transport_close r reason msg) calls

-- The reading task of a client, from its messages to the end of the iteration.
unfoldable pub read_task : Robot → WsClient → List Message → ReadEnd → Robot
unfolding run_calls
read_task r c messages end = run_calls r (read_loop c messages end).1
