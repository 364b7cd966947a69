-- ===== src/Random.antt =====
-- The source of random bytes: embedder/src/platform/random_horizon.cpp.
pub mod Generator
pub mod Sessions
pub mod Tests
