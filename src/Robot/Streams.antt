-- ===== src/Robot/Streams.antt =====
-- The three subscriptions that the SDK offers, of karo_x2_sdk/_internal/robot_impl.py:
-- `subscribe_robot_status`, `subscribe_task_events` and `subscribe_safety_events`, and what their
-- dispatchers hand to the application.
use karo_x2_sdk_python.Prelude.{ℕ, Bool, Option}
use mathlib.Core.Option
use karo_x2_sdk_python.Topic.{FloatBits}
use karo_x2_sdk_python.Messages.{RobotStatus, TaskEvent, SafetyEvent}
use karo_x2_sdk_python.Codec.Wire.{Parsers}
use karo_x2_sdk_python.Codec.Decode.{DecodedTopicPush}
use karo_x2_sdk_python.Codec.Payload.{decode_robot_status, decode_task_event, decode_safety_event}
use karo_x2_sdk_python.Slot.{FrameDispatcher}
use karo_x2_sdk_python.Robot.{Robot}
use karo_x2_sdk_python.Robot.Subscribe.{subscribe_internal}

-- The argument of `on_data`.
pub data Frame : Type 0 where
  of_status : RobotStatus → Frame
  of_task : TaskEvent → Frame
  of_safety : SafetyEvent → Frame

-- What a dispatcher hands on: the message with the time of its push; `none` where the payload does
-- not decode.
unfoldable pub frame_of : Parsers → FrameDispatcher → DecodedTopicPush → Option Frame
frame_of p FrameDispatcher.robot_status push =
    Option.map (λ m. of_status (record m { timestamp_ms = push.timestamp_ms }))
      (decode_robot_status p push.payload)
frame_of p FrameDispatcher.task_event push =
    Option.map (λ m. of_task (record m { timestamp_ms = push.timestamp_ms }))
      (decode_task_event p push.payload)
frame_of p FrameDispatcher.safety_event push =
    Option.map (λ m. of_safety (record m { timestamp_ms = push.timestamp_ms }))
      (decode_safety_event p push.payload)

-- The flag is whether there is a status callback. 0 is the bit pattern of 0.0.
unfoldable pub subscribe_robot_status : Robot → FloatBits → Bool → Robot × ℕ
subscribe_robot_status r desired_hz on_status =
    subscribe_internal r "robot.state" desired_hz FrameDispatcher.robot_status on_status

unfoldable pub subscribe_task_events : Robot → Bool → Robot × ℕ
subscribe_task_events r on_status =
    subscribe_internal r "tasks.events" 0 FrameDispatcher.task_event on_status

unfoldable pub subscribe_safety_events : Robot → Bool → Robot × ℕ
subscribe_safety_events r on_status =
    subscribe_internal r "robot.safety" 0 FrameDispatcher.safety_event on_status
