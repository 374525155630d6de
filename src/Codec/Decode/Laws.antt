-- ===== src/Codec/Decode/Laws.antt =====
-- What a decoded response says, by the payload that it came with.
use karo_x2_sdk_python.Prelude.{
  ℕ, true, false, List, [], ◌∷◌, map, Option, some, none, arith, ◌≡◌, ◌↔◌, refl, Option-cases,
  Bool-cases, inl, inr, ◌==◌, nat_eq, nat_beq_iff,
}
use karo_x2_sdk_python.Codec.Codes.{SubscribeRejectReason, map_sdk_error_code, map_v1_error_code}
use karo_x2_sdk_python.Topic.{DeliverySemantics, TopicDescriptor, Capabilities}
use karo_x2_sdk_python.Codec.Wire.{
  SdkCapabilitySet, SdkTopicDescriptor, Bytes, Parsers, SdkResponse, ResponsePayload,
}
use karo_x2_sdk_python.Codec.Decode.{
  DecodedResponse, decode_response, with_payload, response_head, reject_reason_of,
  convert_capabilities, convert_delivery_semantics, convert_topic,
}

-- The reason that the SDK works with, for the number of the wire.
abbrev pub known_reason : Option SubscribeRejectReason → SubscribeRejectReason
known_reason none = SubscribeRejectReason.unknown
known_reason (some reason) = reason

-- Each capability as the wire grants it.
pub record SameCapabilities (src : SdkCapabilitySet) (out : Capabilities) : Type 0 where
  chassis_control : out.chassis_control ≡ src.chassis_control
  telemetry_read : out.telemetry_read ≡ src.telemetry_read
  image_stream : out.image_stream ≡ src.image_stream
  map_read : out.map_read ≡ src.map_read
  map_write : out.map_write ≡ src.map_write
  task_control : out.task_control ≡ src.task_control

-- The topics of the wire, in order: 1 is the semantics of an event stream, any other number that of
-- telemetry.
abbrev pub SameTopics : List SdkTopicDescriptor → List TopicDescriptor → Type 0
SameTopics [] [] = Unit
SameTopics [] (o ∷ outs) = ⊥
SameTopics (t ∷ topics) [] = ⊥
SameTopics (t ∷ topics) (o ∷ outs) =
    (o.name ≡ t.name)
    × (o.description ≡ t.description)
    × (o.default_hz ≡ t.default_hz)
    × (o.max_hz ≡ t.max_hz)
    × ((o.delivery_semantics ≡ DeliverySemantics.event) ↔ (t.delivery_semantics ≡ 1))
    × SameTopics topics outs

convert_capabilities-SameCapabilities :
    (src : SdkCapabilitySet) → SameCapabilities src (convert_capabilities src)
unfolding convert_capabilities
convert_capabilities-SameCapabilities src = record {
  chassis_control = refl;
  telemetry_read = refl;
  image_stream = refl;
  map_read = refl;
  map_write = refl;
  task_control = refl;
}

semantics_iff :
    (wire : ℕ) → (convert_delivery_semantics wire ≡ DeliverySemantics.event) ↔ (wire ≡ 1)
unfolding convert_delivery_semantics
semantics_iff wire = elim (Bool-cases (wire == 1)) [
  | inl e ↦ rw e (λ h. (nat_beq_iff wire 1).0 e, λ h. refl)
  | inr e ↦ rw e (λ h. absurd (cc), λ h. absurd (ground (arith, nat_beq_iff wire 1)))
]

convert_topics-SameTopics :
    (topics : List SdkTopicDescriptor) → SameTopics topics (map convert_topic topics)
unfolding convert_topic
convert_topics-SameTopics [] = tt
convert_topics-SameTopics (t ∷ topics) =
    (refl, refl, refl, refl, semantics_iff t.delivery_semantics, convert_topics-SameTopics topics)

-- What `decode_response` makes of a payload: its flag and no other, with its fields.
abbrev pub Flags : ResponsePayload → DecodedResponse → Type 0
Flags ResponsePayload.empty out =
    (out.has_handshake ≡ false) × (out.has_rpc ≡ false) × (out.has_subscribe ≡ false)
Flags (ResponsePayload.handshake hs) out =
    (out.has_handshake ≡ true)
    × (out.has_rpc ≡ false)
    × (out.has_subscribe ≡ false)
    × (out.protocol_version ≡ hs.protocol_version)
    × (out.robot_sn ≡ hs.robot_sn)
    × (out.robot_model ≡ hs.robot_model)
    × (out.session_token ≡ hs.session_token)
    × SameCapabilities hs.granted_capabilities out.granted_capabilities
    × SameTopics hs.available_topics out.available_topics
Flags (ResponsePayload.rpc r) out =
    (out.has_handshake ≡ false)
    × (out.has_rpc ≡ true)
    × (out.has_subscribe ≡ false)
    × (out.rpc_id ≡ r.id)
    × (out.rpc_code ≡ map_v1_error_code r.code)
    × (out.rpc_message ≡ r.message)
    × (out.rpc_payload ≡ r.payload)
Flags (ResponsePayload.subscribe a) out =
    (out.has_handshake ≡ false)
    × (out.has_rpc ≡ false)
    × (out.has_subscribe ≡ true)
    × (out.sub_topic ≡ a.topic)
    × (out.sub_accepted ≡ a.accepted)
    × (out.sub_next_seq ≡ a.next_seq)
    × (out.sub_reject_reason ≡ known_reason (reject_reason_of a.reject_reason))
    × (out.sub_message ≡ a.message)

with_payload-Flags :
    (resp : SdkResponse) (payload : ResponsePayload)
    → Flags payload (with_payload (response_head resp) payload)
unfolding with_payload response_head
with_payload-Flags resp ResponsePayload.empty = (refl, refl, refl)
with_payload-Flags resp (ResponsePayload.handshake hs) = (
  refl,
  refl,
  refl,
  refl,
  refl,
  refl,
  refl,
  convert_capabilities-SameCapabilities hs.granted_capabilities,
  convert_topics-SameTopics hs.available_topics,
)
with_payload-Flags resp (ResponsePayload.rpc r) = (refl, refl, refl, refl, refl, refl, refl)
with_payload-Flags resp (ResponsePayload.subscribe a) =
    elim (Option-cases (reject_reason_of a.reject_reason)) [
      | inl e ↦ ground arith
      | inr (reason, e) ↦ ground arith
    ]

with_payload-head :
    (resp : SdkResponse) (payload : ResponsePayload)
    → let out = with_payload (response_head resp) payload in
      (out.request_id ≡ resp.request_id)
      × (out.success ≡ resp.success)
      × (out.sdk_code ≡ map_sdk_error_code resp.error_code)
unfolding with_payload response_head
with_payload-head resp ResponsePayload.empty = (refl, refl, refl)
with_payload-head resp (ResponsePayload.handshake hs) = (refl, refl, refl)
with_payload-head resp (ResponsePayload.rpc r) = (refl, refl, refl)
with_payload-head resp (ResponsePayload.subscribe a) = ground arith

-- `decode_response` fails only where the parser does. Else its result has the id, the outcome and
-- the mapped code of the message, and the flag of its payload and no other, with every field of
-- that payload, converted where the SDK has a type of its own for it; a subscribe payload brings
-- its message as it came, also where its reject reason is a number that the SDK does not know.
pub decode_response-Flags :
    (p : Parsers) (bytes : Bytes) (resp : SdkResponse)
    → p.sdk_response bytes ≡ some resp
    → (out : DecodedResponse) × (decode_response p bytes ≡ some out)
      × (out.request_id ≡ resp.request_id)
      × (out.success ≡ resp.success)
      × (out.sdk_code ≡ map_sdk_error_code resp.error_code)
      × Flags resp.payload out
unfolding decode_response
decode_response-Flags p bytes resp e =
    let head = with_payload-head resp resp.payload in
    (
      with_payload (response_head resp) resp.payload,
      ground arith,
      head.0,
      head.1,
      head.2,
      with_payload-Flags resp resp.payload,
    )
