-- ===== src/Tasks.antt =====
-- The task runner: embedder/src/engine/task_runner.cpp and its header.
pub mod Runner
pub mod Expired
pub mod Ran
pub mod History
mod Tests
