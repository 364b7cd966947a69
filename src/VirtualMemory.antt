-- ===== src/VirtualMemory.antt =====
-- The memory of the Dart VM: patches/flutter-engine/files/dart/vm/virtual_memory_horizon.cc.
pub mod Guards
pub mod Quiet
pub mod Runs
pub mod Tests
