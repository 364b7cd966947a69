-- ===== src/EventHandler.antt =====
-- The event handler of dart:io: patches/flutter-engine/files/dart/bin/eventhandler_horizon.cc and .h.
pub mod Loopback
pub mod Handler
pub mod Messages
pub mod Poll
pub mod Buffers
pub mod Alive
mod Tests
