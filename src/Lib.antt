-- ===== src/Lib.antt =====
-- A model of the karo_x2_sdk package, the asyncio client that connects to a robot over a websocket,
-- and of what its parts guarantee.
--
-- The program. `RobotImpl` (karo_x2_sdk/_internal/robot_impl.py) is the connection object: it opens
-- the websocket, makes the handshake, sends commands and waits for their answers, keeps the
-- subscriptions and delivers their messages, pings a silent robot, and reconnects with a delay that
-- grows. karo_x2_sdk/_internal/proto_codec.py translates between the protobuf messages and what the
-- object works with; the other modules of the package define the values that it shares with the
-- application.
--
-- The files.
--   Prelude: the names of the libraries that all files use, tests on numbers and texts, lists and
--     dictionaries over the native numbers, signed numbers, and decimal texts.
--   Error, Connection, Topic, Subscription, Messages, Diagnostics: karo_x2_sdk/error.py,
--     connection_state.py, topic.py and capabilities.py, subscription.py, messages/ and
--     diagnostics.py, whose records and JSON form are in Diagnostics/Report; Diagnostics/Logging
--     has which lines are printed.
--   Options: the options and results of karo_x2_sdk/robot.py, and `_validate_opts`.
--   Codec: proto_codec.py; Wire has the parsed messages as proto/ declares them, Codes the maps of
--     the codes, Decode the answers and pushes, Payload what they carry, Encode the commands.
--   Rate, Latency, Backoff: `_TokenBucket`, `_RttHist` and `_next_backoff_ms` of robot_impl.py.
--   Slot: `SubSlot` of karo_x2_sdk/_internal/subscription_impl.py; Slot/Hz has its counters of the
--     last minute and Slot/Deliver what a push does to it.
--   Client: karo_x2_sdk/_internal/ws_client.py. What the `ssl` and `websockets` libraries do in a call
--     is an argument of the operation.
--   Robot: the state of `RobotImpl` as a record, and `_transition`. The children are its handlers:
--     Lifecycle (`close`, `_abort_to_fatal`, `_on_transport_close`, `_schedule_reconnect`), Rpc
--     (`_send_rpc_and_wait`), Subscribe, Streams (the three subscriptions that the SDK offers),
--     Unsubscribe, Ack (`_handle_subscribe_ack`), Establish (`connect`, `_establish`), Reconnect
--     (`_do_reconnect`, `_do_estop_replay`), Link (the websocket client as `_establish` opens it,
--     and the calls of its reading task), Inbound, Commands (`cmd_vel`, `emergency_stop_rpc`), Tasks
--     (the task commands and `ping`) and Heartbeat; New (`__init__`), Waiting (`wait_until_ready`)
--     and Reporting (`get_diagnostics`). Facade is the facade of a subscription.
--     Steps puts them together: what can happen to a connection object, and what a sequence of such
--     steps leads to. Orderly has what each handler keeps of the order of the request ids and of the
--     state changes, and of the subscriptions (Filed), one file for each kind of handler.
--   Interface: the class `Robot` of karo_x2_sdk/robot.py, over the handlers.
--   Tests: concrete values, runs on them, and the theorems at these values.
--
-- How it is modelled. A handler is a function from the state to the state. What it does to the
-- outside (callbacks, futures, sends, tasks that it starts) goes in order to the field `trace`, as
-- the event loop runs it after the handler. The await of a send and of a close of the websocket is
-- taken to return before another handler runs, and so is that of a dispatcher of the application.
-- An await of an answer, of a connection or of a delay splits a method in two functions: up to the
-- wait, and from there on with its outcome, whatever the state is by then. What is outside of the
-- SDK is the record `Env`: whether a send on an open websocket succeeds, random numbers, the generated parsers, the
-- lengths of messages, and what the cryptography library makes of a certificate. Calls of the time
-- are the two clocks of the state.
--
-- Numbers. Floats that the SDK computes with are exact scaled integers: times of the monotonic
-- clock are nanoseconds, options are microseconds, ratios are millionths, tokens are counted in
-- units of 10^-9, and a random number is a multiple of 2^-53. Floats that it passes on are bit
-- patterns. Python's integers are unbounded, as the natural numbers are; a field that may be
-- negative is an integer. There is no fuel: every loop runs over a list or a count.
--
-- Not modelled. The libraries under the websocket client, the generated parsers under
-- karo_x2_sdk/_internal/proto_gen, the text that json.dumps makes of a report, an exception that
-- ends the task of a connection in another place than its wait for the websocket, a second
-- `_establish` beside one that still waits for its websocket, the worker of a
-- subscription that the unsubscribe of another facade has taken out of `_subs`, the rounding of
-- floats, examples and scripts.
pub mod Prelude
pub mod Error
pub mod Connection
pub mod Topic
pub mod Subscription
pub mod Messages
pub mod Codec
pub mod Diagnostics
pub mod Slot
pub mod Options
pub mod Backoff
pub mod Robot
pub mod Client
pub mod Rate
pub mod Interface
pub mod Latency
pub mod Tests
