-- ===== src/Libraries.antt =====
-- The statically linked libraries: embedder/src/engine/static_libraries_horizon.cpp.
pub mod Table
pub mod Order
pub mod Search
pub mod Resolve
pub mod Spaces
mod Tests
