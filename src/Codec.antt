-- ===== src/Codec.antt =====
-- StandardMessageCodec, the binary format of the plugin channels:
-- embedder/include/flutter_libnx/standard_message_codec.h and
-- embedder/src/engine/standard_message_codec.cpp.
pub mod Value
pub mod Encode
pub mod Decode
pub mod Extends
pub mod Sizes
pub mod Written
pub mod Answers
pub mod Reads
pub mod Safety
pub mod RoundTrip
pub mod Call
mod Tests
