-- ===== src/Store.antt =====
-- packages/artifact_store/store.py: attempts, and the publication of their artifacts.
pub mod Tests
pub mod Tree
pub mod World
pub mod Attempt
pub mod Validate
pub mod Outputs
pub mod Commit
pub mod Frame
pub mod Rollback
pub mod Atomic
pub mod Locks
pub mod Sound
