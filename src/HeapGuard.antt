-- ===== src/HeapGuard.antt =====
-- The allocator's wrappers with guards: embedder/src/platform/heap_guard_horizon.cpp.
pub mod Memory
pub mod Wrappers
pub mod Blocks
pub mod Freeing
pub mod Resizing
pub mod Reallocated
pub mod Products
mod Tests
