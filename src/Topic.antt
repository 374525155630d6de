-- ===== src/Topic.antt =====
-- karo_x2_sdk/topic.py and karo_x2_sdk/capabilities.py: what the robot says of its topics and of
-- the rights of a session.
use karo_x2_sdk_python.Prelude.{ℕ, Bool, String}

-- The bit pattern of a float that the SDK only passes on.
abbrev pub FloatBits : Type 0
FloatBits = ℕ

pub data DeliverySemantics : Type 0 where
  telemetry event : DeliverySemantics

pub record TopicDescriptor : Type 0 where
  pub name : String
  pub description : String
  pub default_hz : FloatBits
  pub max_hz : FloatBits
  pub delivery_semantics : DeliverySemantics

pub record Capabilities : Type 0 where
  pub chassis_control : Bool
  pub telemetry_read : Bool
  pub image_stream : Bool
  pub map_read : Bool
  pub map_write : Bool
  pub task_control : Bool
