-- ===== src/Video.antt =====
-- Video textures: embedder/src/engine/media_kit_video_horizon.cpp.
pub mod Outputs
pub mod Frame
pub mod Channel
pub mod Pointers
pub mod Owned
pub mod Safe
pub mod Steps
pub mod Destroyed
pub mod Tasks
pub mod Waiting
pub mod Messages
pub mod Disposal
pub mod Reach
pub mod Delivered
pub mod Marked
pub mod Shown
pub mod Closed
pub mod Tests
pub mod Filled
pub mod Textures
pub mod Sized
pub mod Kept
