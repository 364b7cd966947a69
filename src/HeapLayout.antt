-- ===== src/HeapLayout.antt =====
-- The size of the heap: embedder/src/platform/heap_layout_horizon.cpp.
pub mod Layout
pub mod Bounds
mod Tests
