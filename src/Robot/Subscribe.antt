-- ===== src/Robot/Subscribe.antt =====
-- Subscribing and unsubscribing, of karo_x2_sdk/_internal/robot_impl.py: `_resolve_semantics`,
-- `_subscribe_internal`, `_send_subscribe`, `_handle_subscribe_ack_timeout`,
-- `_resubscribe_all_after_reconnect` and `unsubscribe_request`.
use karo_x2_sdk_python.Prelude.{
  ℕ, ◌+◌, Bool, true, false, ◌||◌, ◌&&◌, String, ◌<>◌, List, [], ◌∷◌, ◌++◌, map, Option, some, none,
  Dict, lookup, contains, insert, erase, if◌then◌else◌, ltb, ◌==◌, nat_eq, string_eq, replicate,
  pos_part,
}
use karo_x2_sdk_python.Error.{ErrorCode}
use karo_x2_sdk_python.Connection.{ConnectionState, is_state}
use karo_x2_sdk_python.Topic.{DeliverySemantics, TopicDescriptor, FloatBits}
use karo_x2_sdk_python.Subscription.{SubscriptionState, StreamStatusKind, CallbackMode}
use karo_x2_sdk_python.Options.{RobotInfo}
use karo_x2_sdk_python.Diagnostics.{LogLevel}
use karo_x2_sdk_python.Slot.{SubSlot, FrameDispatcher, is_sub_state}
use karo_x2_sdk_python.Slot.Deliver.{status}
use karo_x2_sdk_python.Codec.Encode.{SdkCommand, encode_subscribe}
use karo_x2_sdk_python.Robot.{Robot, log, emit, take_rid, put_slot, end_slot, closed_slot, on_slots}
use karo_x2_sdk_python.Robot.Lifecycle.{on_transport_close}
use karo_x2_sdk_python.Robot.Rpc.{count_sent}

unfoldable pub semantics_in : List TopicDescriptor → String → DeliverySemantics
semantics_in [] topic = DeliverySemantics.telemetry
semantics_in (d ∷ rest) topic =
    if d.name == topic then d.delivery_semantics else semantics_in rest topic

unfoldable pub semantics_of : Option RobotInfo → String → DeliverySemantics
unfolding semantics_in
semantics_of none topic = DeliverySemantics.telemetry
semantics_of (some info) topic = semantics_in info.available_topics topic

-- `_resolve_semantics`
unfoldable pub resolve_semantics : Robot → String → DeliverySemantics
unfolding semantics_of
resolve_semantics r topic = semantics_of r.robot_info topic

-- The slot that `_subscribe_internal` makes. (A new slot is not `user_closed`, so that the first
-- test there never holds.)
unfoldable pub new_slot : Robot → String → FloatBits → FrameDispatcher → Bool → SubSlot
unfolding resolve_semantics
new_slot r topic desired_hz dispatcher on_status = record {
  ident = r.next_ident;
  topic = topic;
  desired_hz = desired_hz;
  semantics = resolve_semantics r topic;
  callback_mode = r.opts.callback_mode;
  drop_policy = r.opts.drop_policy;
  queue_size = pos_part r.opts.subscription_queue_size;
  frame_dispatcher = some dispatcher;
  status_callback = on_status;
  state = SubscriptionState.pending;
  last_seq = 0;
  drop_count = 0;
  error_code = ErrorCode.ok;
  pending_buffer = [];
  inflight_subscribe_request_id = 0;
  fresh_retry_done = false;
  expected_resume_seq = 0;
  ever_active = false;
  is_reconnect_resume = false;
  unsubscribe_sent = false;
  user_closed = false;
  messages_received = 0;
  last_message_at = 0;
  hz_buckets = replicate 60 0;
  hz_last_epoch_ms = 0;
  dispatch_queue = none;
  dispatch_worker = false;
}

-- `_start_sub_worker` on a slot without a queue.
unfoldable pub start_sub_worker : CallbackMode → SubSlot → SubSlot
start_sub_worker CallbackMode.inline slot = slot
start_sub_worker CallbackMode.dispatched slot = record slot {
  dispatch_queue = some [];
  dispatch_worker = true;
}

-- `effective_since`
unfoldable pub since_for : DeliverySemantics → ℕ → ℕ
since_for DeliverySemantics.telemetry since_seq = 0
since_for DeliverySemantics.event since_seq = since_seq

unfoldable pub subscribe_command : Robot → SubSlot → ℕ → SdkCommand
subscribe_command r slot since =
    encode_subscribe r.next_request_id slot.topic slot.desired_hz since
      (if ltb 0 since then r.opts.history_limit else 0)

-- The slot while its subscribe is on the way.
unfoldable pub requested_slot : Robot → SubSlot → ℕ → SubSlot
unfolding is_state is_sub_state
requested_slot r slot since = record slot {
  expected_resume_seq = since;
  is_reconnect_resume =
      is_sub_state slot.state SubscriptionState.paused
      || (slot.ever_active && is_state r.state ConnectionState.reconnecting);
  state = SubscriptionState.pending;
  inflight_subscribe_request_id = r.next_request_id;
}

-- `self._ws is not None and await self._ws.send(bytes_)`
unfoldable pub sends : Option Bool → Bool → Bool
sends none ok = false
sends (some is_open) ok = is_open && ok

-- `_send_subscribe` after the encoding.
unfoldable pub request_slot : Robot → SubSlot → ℕ → SdkCommand → Robot
unfolding requested_slot take_rid sends count_sent put_slot
request_slot r slot since command =
    let rid : ℕ = r.next_request_id in
    let asked : SubSlot = requested_slot r slot since in
    let waiting_for : Robot = record (put_slot (take_rid r) asked) {
      inflight_sub = insert rid slot.topic r.inflight_sub;
      sub_ack_timers = insert rid slot.topic r.sub_ack_timers;
    } in
    let unsent : Robot =
      put_slot
        (record (take_rid r) {
          inflight_sub = erase rid (insert rid slot.topic r.inflight_sub);
          sub_ack_timers = erase rid (insert rid slot.topic r.sub_ack_timers);
        })
        (record asked { inflight_subscribe_request_id = 0 }) in
    if sends r.ws (r.env.send_ok rid)
    then count_sent waiting_for command
    else on_transport_close unsent ErrorCode.transport_failure "SendSubscribe failed"

-- The encoding has raised, or not.
unfoldable pub after_encoding : Option String → Robot → SubSlot → ℕ → SdkCommand → Robot
unfolding request_slot end_slot take_rid
after_encoding (some text) r slot since command =
    end_slot (take_rid r) slot ErrorCode.internal_error text
after_encoding none r slot since command = request_slot r slot since command

-- `_send_subscribe` of a slot that stands in `_subs`.
unfoldable pub send_subscribe : Robot → SubSlot → ℕ → Robot
unfolding since_for subscribe_command after_encoding
send_subscribe r slot since_seq =
    let since : ℕ = since_for slot.semantics since_seq in
    let command : SdkCommand = subscribe_command r slot since in
    after_encoding (r.env.encode_error command) r slot since command

-- `_subscribe_internal`: the robot and the identity of the slot of the facade.
unfoldable pub subscribe_internal : Robot → String → FloatBits → FrameDispatcher → Bool → Robot × ℕ
unfolding new_slot start_sub_worker put_slot send_subscribe end_slot closed_slot
subscribe_internal r topic desired_hz dispatcher on_status =
    let slot : SubSlot = new_slot r topic desired_hz dispatcher on_status in
    let counted : Robot = record r { next_ident = r.next_ident + 1 } in
    let started : SubSlot = start_sub_worker slot.callback_mode slot in
    (
      if contains topic r.subs
          then record counted {
            retired = closed_slot slot ErrorCode.topic_already_subscribed ∷ r.retired;
            trace =
                r.trace
                ++ on_slots slot (
                    status slot StreamStatusKind.closed none ErrorCode.topic_already_subscribed
                      "already subscribed");
          }
          else if is_state r.state ConnectionState.ready
          then send_subscribe (put_slot counted started) started 0
          else put_slot counted started,
      r.next_ident,
    )

-- `_handle_subscribe_ack_timeout`
unfoldable pub handle_subscribe_ack_timeout : Robot → ℕ → String → Robot
unfolding emit
handle_subscribe_ack_timeout r rid topic =
    if contains rid r.sub_ack_timers
    then on_transport_close (emit r (log LogLevel.warn ("SubscribeAck timeout for " <> topic) ∷ []))
        ErrorCode.timeout "SubscribeAck timeout"
    else r

-- Where the stream of a slot goes on after a reconnect.
unfoldable pub resume_from : Robot → DeliverySemantics → ℕ → ℕ
resume_from r DeliverySemantics.telemetry last_seq = 0
resume_from r DeliverySemantics.event last_seq =
    if r.opts.reconnect_replay_history && ltb 0 last_seq then last_seq + 1 else 0

unfoldable pub resubscribe : Robot → Option SubSlot → Robot
unfolding resume_from put_slot
resubscribe r none = r
resubscribe r (some slot) =
    let renewed : SubSlot = record slot { fresh_retry_done = false } in
    send_subscribe (put_slot r renewed) renewed (resume_from r slot.semantics slot.last_seq)

-- The loop of `_resubscribe_all_after_reconnect` over the topics that it began with.
unfoldable pub resubscribe_topics : Robot → List String → Robot
unfolding resubscribe
resubscribe_topics r [] = r
resubscribe_topics r (topic ∷ topics) =
    resubscribe_topics (resubscribe r (lookup topic r.subs)) topics

abbrev pub topics_of : Dict String SubSlot → List String
topics_of subs = map (λ e. e.0) subs

unfoldable pub resubscribe_all_after_reconnect : Robot → Robot
unfolding resubscribe_topics
resubscribe_all_after_reconnect r = resubscribe_topics r (topics_of r.subs)
