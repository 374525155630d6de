-- ===== src/Codec.antt =====
-- karo_x2_sdk/_internal/proto_codec.py, by what it does: error tables, messages in, messages out.
pub mod Codes
pub mod Wire
pub mod Decode
pub mod Payload
pub mod Encode
