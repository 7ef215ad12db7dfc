-- ===== src/Desktop.antt =====
-- The parts of apps/desktop that keep state of their own: the session of the user interface, and the
-- projects on disk.
pub mod Tests
pub mod Session
pub mod Paths
pub mod Project
pub mod Durable
pub mod Library
pub mod Pipeline
pub mod Sampling
