-- ===== src/TextInput.antt =====
-- Text input through the system's keyboard: embedder/src/engine/textinput_horizon.cpp.
pub mod Utf8
pub mod Json
pub mod RoundTrip
pub mod Handler
pub mod Answered
mod Tests
