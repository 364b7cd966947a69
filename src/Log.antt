-- ===== src/Log.antt =====
-- The log: embedder/src/log.cpp.
pub mod Sinks
pub mod Lines
pub mod Balance
pub mod Life
pub mod Shutdown
pub mod Sent
pub mod Tests
