-- ===== src/Plugins.antt =====
-- The plugin channels: embedder/src/engine/plugins_horizon.cpp.
pub mod Disk
pub mod Table
pub mod Storage
pub mod Durable
pub mod Handlers
pub mod FilePicker
pub mod Selected
pub mod Dispatch
pub mod Replies
pub mod Prefs
mod Tests
