-- ===== src/Posix.antt =====
-- The POSIX layer: embedder/src/platform/posix_compat_horizon.cpp.
pub mod Directories
pub mod Files
pub mod Access
pub mod At
pub mod Status
pub mod Counted
pub mod Search
pub mod Occupied
pub mod Opened
pub mod Closed
pub mod Reached
pub mod Positions
pub mod Allocated
pub mod Relative
pub mod Restored
mod Tests
