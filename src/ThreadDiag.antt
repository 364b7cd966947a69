-- ===== src/ThreadDiag.antt =====
-- The state of the heap's pages: embedder/src/platform/thread_diag_horizon.cpp.
pub mod Pages
pub mod Walks
pub mod Spared
pub mod Tests
